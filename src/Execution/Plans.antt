-- ===== src/Execution/Plans.antt =====
-- execution/resource_plan.go: the check of resource plans against a monetary ceiling, and the
-- budgets and limiters that are made of them. A limiter is kept as the chain of references that
-- Chain(budget, rates[name]) holds.
pub mod AsEnsure
use flowkit.Base.{
  String, Bool, true, false, not, ◌&&◌, ◌||◌, Option, none, some, List, [], ◌∷◌, ◌++◌,
  if◌then◌else◌, str_eq,
}
use flowkit.Base.Int.{ℤ, pos, ltb_ℤ, eqb_ℤ}
use flowkit.Base.Assoc.{Assoc, lookup, insert}
use flowkit.Base.Float.{FloatOps, is_amount}
use flowkit.Base.Text.{is_blank}
use flowkit.Errors.{Error, message, wrapped, Result, ok, err, ◌>>=◌}
use flowkit.Execution.Budget.{Budget, new_budget}
use flowkit.Flow.Accounts.{CostPreflight}
use flowkit.Flow.Env.{LimiterRef, chain_of}
use flowkit.Flow.Policy.{Resource}

-- seen[name]
unfoldable pub has_name : String → List String → Bool
has_name n [] = false
has_name n (name ∷ names) = str_eq name n || has_name n names

module _ {F : Type 0} (fl : FloatOps F) where
  abbrev pub lacks_price : Option F → Bool
  lacks_price none = false
  lacks_price (some x) = not (is_amount fl x)

  -- The checks of one plan, in their order.
  unfoldable pub check_resource : Bool → List String → Resource F → Result (Unit {0})
  unfolding has_name
  check_resource allow_partial seen r =
      if is_blank r.name
      then err (message "resource plan %d: name is required")
      else if has_name r.name seen
      then err (message "resource plan %q is duplicated")
      else if ltb_ℤ r.ceiling (pos 0)
      then err (message "resource %q ceiling must be non-negative")
      else if ltb_ℤ r.budget (pos 0)
      then err (message "resource %q budget must be non-negative")
      else if not allow_partial && ltb_ℤ r.budget r.ceiling
      then err (message "resource %q budget %d cannot cover ceiling %d")
      else if lacks_price r.unit_usd
      then err (message "resource %q unit price must be finite and non-negative")
      else ok tt

  -- The conservative price of a ceiling, or the name of what has no price.
  unfoldable pub add_cost : Resource F → CostPreflight F → CostPreflight F
  add_cost r c = if eqb_ℤ r.ceiling (pos 0) then c else elim r.unit_usd [
    | none ↦ record c { missing_prices = c.missing_prices ++ r.name ∷ [] }
    | some x ↦ record c {
      estimated_usd = fl.add_f c.estimated_usd (fl.mul_f (fl.of_int r.ceiling) x);
    }
  ]

  abbrev is_priced : List String → Bool
  is_priced [] = true
  is_priced (n ∷ names) = false

  -- The two refusals at the end; the costs are returned with the error.
  unfoldable pub check_total : F → Bool → CostPreflight F → CostPreflight F × Option Error
  check_total maximum allow_unpriced c =
      if not (is_priced c.missing_prices) && not allow_unpriced
      then (c, some (message "pricing unavailable for %s"))
      else if fl.lt_f maximum c.estimated_usd
      then (c, some (message "estimated provider cost %.6f exceeds maximum USD %.6f"))
      else (c, none)

  -- The loop over the plans: `seen` are the names so far, newest first.
  unfoldable pub check_resources :
      F
      → Bool
      → Bool
      → List (Resource F)
      → List String
      → CostPreflight F
      → CostPreflight F × Option Error
  unfolding check_resource add_cost check_total
  check_resources maximum unpriced partial [] seen c = check_total maximum unpriced c
  check_resources maximum unpriced partial (r ∷ rs) seen c =
      let rest = check_resources maximum unpriced partial rs (r.name ∷ seen) (add_cost r c) in
      elim (check_resource partial seen r) [ ok u ↦ rest | err e ↦ (c, some e) ]

  unfoldable pub validate_resource_plans :
      List (Resource F) → F → Bool → Bool → CostPreflight F × Option Error
  unfolding check_resources
  validate_resource_plans plans maximum unpriced partial =
      let none_yet : CostPreflight F = record { estimated_usd = fl.zero_f; missing_prices = [] } in
      if is_amount fl maximum
      then check_resources maximum unpriced partial plans [] none_yet
      else (none_yet, some (message "maximum USD must be finite and non-negative"))

-- The two maps that NewResourceBudgets returns.
pub record ResourceBudgets : Type 0 where
  pub budgets : Assoc Budget
  pub limiters : Assoc (List LimiterRef)

abbrev pub has_limiter : Assoc Bool → String → Bool
has_limiter rates name = elim (lookup name rates) [ none ↦ false | some b ↦ b ]

abbrev pub creating : Result Budget → Result Budget
creating (ok b) = ok b
creating (err e) = err (wrapped "create resource %q budget" e)

-- The loop over the rate limiters.
unfoldable pub check_rates : Assoc Bool → ResourceBudgets → Result ResourceBudgets
check_rates [] m = ok m
check_rates ((name, _) ∷ rates) m =
    let rest = check_rates rates m in
    elim (lookup name m.budgets) [
      | none ↦ err (message "rate limiter has no resource plan %q")
      | some b ↦ rest
    ]

module _ {F : Type 0} where
  -- The loop over the plans. `rates` says of each name in the map whether its limiter is not nil.
  unfoldable pub make_budgets :
      Assoc Bool → List (Resource F) → ResourceBudgets → Result ResourceBudgets
  make_budgets rates [] m = ok m
  make_budgets rates (r ∷ rs) m =
      let rest = (λ (b : Budget). make_budgets rates rs (record {
        budgets = insert r.name b m.budgets;
        limiters = insert r.name (chain_of (has_limiter rates) r.name) m.limiters;
      })) in
      if is_blank r.name
      then err (message "resource plan %d: name is required")
      else elim (lookup r.name m.budgets) [
        | some b ↦ err (message "resource plan %q is duplicated")
        | none ↦ creating (new_budget r.budget) >>= rest
      ]

  unfoldable pub new_resource_budgets : List (Resource F) → Assoc Bool → Result ResourceBudgets
  unfolding make_budgets check_rates
  new_resource_budgets plans rates =
      make_budgets rates plans (record { budgets = []; limiters = [] }) >>= λ m. check_rates rates m
