-- ===== src/Flow/Env.antt =====
-- runEnv of flow/run.go: the admission plans, budgets and limiters that the steps of a run share.
-- A limiter is kept as the chain of references that Chain(budget, rates[name]) holds; the mutex
-- makes each method one step.
pub mod Counted
pub mod Ensure
pub mod Registered
pub mod Settled
use flowkit.Base.{
  ◌≡◌, refl, String, Bool, true, false, not, ◌&&◌, ◌||◌, Option, none, some, List, [], ◌∷◌, ◌++◌,
  if◌then◌else◌, str_eq,
}
use flowkit.Base.Int.{ℤ, pos, ltb_ℤ, eqb_ℤ}
use flowkit.Base.Assoc.{Assoc, lookup, insert}
use flowkit.Base.Float.{FloatOps, is_amount}
use flowkit.Base.Text.{is_blank}
use flowkit.Errors.{Error, message, wrapped, Result, ok, err, ◌>>=◌, ◌>>◌}
use flowkit.Execution.Budget.{Budget, new_budget, BudgetSnapshot, snapshot}
use flowkit.Flow.Policy.{Resource, Policy}

pub record Preflight (F : Type 0) : Type 0 where
  pub max_estimated_usd : F
  pub allow_unpriced : Bool
  pub allow_partial : Bool

pub record StagePlan (F : Type 0) : Type 0 where
  pub step : String
  pub resource : Resource F

-- An object that a chain of limiters refers to.
pub data LimiterRef : Type 0 where
  budget_ref rate_ref : String → LimiterRef

pub record RunEnv (F : Type 0) : Type 0 where
  pub gate : Option (Preflight F)
  pub plans : Assoc (Resource F)
  pub owners : Assoc String
  pub budgets : Assoc Budget
  pub limiters : Assoc (List LimiterRef)
  -- whether Options.Rates has a limiter of this name
  pub has_rate : String → Bool
  pub estimated_usd : F
  pub unpriced : List String

pub record PendingPlan (F : Type 0) : Type 0 where
  pub stage : StagePlan F
  pub budget : Budget
  pub limiter : List LimiterRef

-- The local variables of `ensure`.
pub record Prospect (F : Type 0) : Type 0 where
  pub plans : Assoc (Resource F)
  pub owners : Assoc String
  pub pending : List (PendingPlan F)
  pub usd : F
  pub unpriced : List String

abbrev pub chain_of : (String → Bool) → String → List LimiterRef
chain_of rates name =
    if rates name then budget_ref name ∷ rate_ref name ∷ [] else budget_ref name ∷ []

module _ {F : Type 0} where
  abbrev is_none : Option F → Bool
  is_none none = true
  is_none (some a) = false

  -- A zero-valued Resource{Name: ...}
  unfoldable pub is_reference : Resource F → Bool
  is_reference r = eqb_ℤ r.ceiling (pos 0) && (eqb_ℤ r.budget (pos 0) && is_none r.unit_usd)

  -- The budget of a plan does not cover its ceiling, and the gate does not allow it.
  abbrev pub is_uncovered : Option (Preflight F) → Resource F → Bool
  is_uncovered none r = false
  is_uncovered (some g) r = not g.allow_partial && ltb_ℤ r.budget r.ceiling

  abbrev pub add_unpriced : Resource F → List String → List String
  add_unpriced r names =
      if ltb_ℤ (pos 0) r.ceiling
      then elim r.unit_usd [ none ↦ names ++ r.name ∷ [] | some x ↦ names ]
      else names

  abbrev pub pending_plan : (String → Bool) → StagePlan F → Budget → PendingPlan F
  pending_plan rates s b = record {
    stage = s;
    budget = b;
    limiter = chain_of rates s.resource.name;
  }

  abbrev pub admit_plan : PendingPlan F → RunEnv F → RunEnv F
  admit_plan a env = record env {
    plans = insert a.stage.resource.name a.stage.resource env.plans;
    owners = insert a.stage.resource.name a.stage.step env.owners;
    budgets = insert a.stage.resource.name a.budget env.budgets;
    limiters = insert a.stage.resource.name a.limiter env.limiters;
  }

  unfoldable pub admit_plans : List (PendingPlan F) → RunEnv F → RunEnv F
  admit_plans [] env = env
  admit_plans (a ∷ rest) env = admit_plans rest (admit_plan a env)

  abbrev pub prospect : RunEnv F → Prospect F
  prospect env = record {
    plans = env.plans;
    owners = env.owners;
    pending = [];
    usd = env.estimated_usd;
    unpriced = env.unpriced;
  }

  abbrev pub settle : RunEnv F → Prospect F → RunEnv F
  settle env p = record (admit_plans p.pending env) { estimated_usd = p.usd; unpriced = p.unpriced }

module _ {F : Type 0} (fl : FloatOps F) where
  unfoldable pub new_run_env : (String → Bool) → Option (Preflight F) → RunEnv F
  new_run_env rates gate = record {
    gate = gate;
    plans = [];
    owners = [];
    budgets = [];
    limiters = [];
    has_rate = rates;
    estimated_usd = fl.zero_f;
    unpriced = [];
  }

  abbrev same_price : Option F → Option F → Bool
  same_price none none = true
  same_price (some a) (some b) = fl.eq_f a b
  same_price _ _ = false

  unfoldable pub resource_plans_equal : Resource F → Resource F → Bool
  resource_plans_equal l r =
      str_eq l.name r.name
      && (eqb_ℤ l.ceiling r.ceiling
          && (eqb_ℤ l.budget r.budget && same_price l.unit_usd r.unit_usd))

  abbrev is_bad_price : Option F → Bool
  is_bad_price none = false
  is_bad_price (some x) = not (is_amount fl x)

  unfoldable pub check_amounts : Option (Preflight F) → Resource F → Result (Unit {0})
  check_amounts gate r =
      if ltb_ℤ r.ceiling (pos 0)
      then err (message "step %q: resource %q ceiling must be non-negative")
      else if ltb_ℤ r.budget (pos 0)
      then err (message "step %q: resource %q budget must be non-negative")
      else if is_bad_price r.unit_usd
      then err (message "step %q: resource %q unit price must be finite and non-negative")
      else if is_uncovered gate r
      then err
          (message "step %q: resource %q budget %d cannot cover the stated ceiling of %d calls")
      else ok tt

  abbrev pub add_usd : Resource F → F → F
  add_usd r usd =
      if ltb_ℤ (pos 0) r.ceiling
      then elim r.unit_usd [ none ↦ usd | some x ↦ fl.add_f usd (fl.mul_f (fl.of_int r.ceiling) x) ]
      else usd

  abbrev pub add_plan : (String → Bool) → StagePlan F → Prospect F → Budget → Prospect F
  add_plan rates s p b = record {
    plans = insert s.resource.name s.resource p.plans;
    owners = insert s.resource.name s.step p.owners;
    pending = p.pending ++ pending_plan rates s b ∷ [];
    usd = add_usd s.resource p.usd;
    unpriced = add_unpriced s.resource p.unpriced;
  }

  unfoldable pub declare_plan :
      (String → Bool) → Option (Preflight F) → StagePlan F → Prospect F → Result (Prospect F)
  declare_plan rates gate s p = do
    check_amounts gate s.resource
    b ← new_budget s.resource.budget
    ok (add_plan rates s p b)

  abbrev join_plan : Resource F → Resource F → Prospect F → Result (Prospect F)
  join_plan existing r p =
      if is_reference r || resource_plans_equal existing r
      then ok p
      else err (message "resource %q is declared differently by steps %q and %q")

  -- One round of the loop over the plans.
  unfoldable pub check_plan :
      (String → Bool) → Option (Preflight F) → StagePlan F → Prospect F → Result (Prospect F)
  check_plan rates gate s p =
      if is_blank s.resource.name
      then err (message "step %q declares an admission resource without a name")
      else elim (lookup s.resource.name p.plans) [
        | some existing ↦ join_plan existing s.resource p
        | none ↦ declare_plan rates gate s p
      ]

  unfoldable pub check_plans :
      (String → Bool) → Option (Preflight F) → List (StagePlan F) → Prospect F → Result (Prospect F)
  check_plans rates gate [] p = ok p
  check_plans rates gate (s ∷ ss) p = check_plan rates gate s p >>= λ q. check_plans rates gate ss q

  abbrev is_empty : List String → Bool
  is_empty [] = true
  is_empty (x ∷ xs) = false

  unfoldable pub check_limit : Option (Preflight F) → Result (Unit {0})
  check_limit none = ok tt
  check_limit (some g) =
      if is_amount fl g.max_estimated_usd
      then ok tt
      else err (message "preflight maximum USD must be finite and non-negative")

  unfoldable pub check_gate : Option (Preflight F) → F → List String → Result (Unit {0})
  check_gate none usd unpriced = ok tt
  check_gate (some g) usd unpriced =
      if not (is_empty unpriced) && not g.allow_unpriced
      then err (message "preflight refused the plans: pricing unavailable for %s")
      else if fl.lt_f g.max_estimated_usd usd
      then err (
          message
            "preflight refused the plans: estimated provider cost %.6f exceeds maximum USD %.6f")
      else ok tt

  -- `ensure`; on an error the environment stays as it is.
  unfoldable pub ensure : List (StagePlan F) → RunEnv F → Result (RunEnv F)
  unfolding check_plans check_limit check_gate
  ensure plans env = do
    check_limit env.gate
    p ← check_plans env.has_rate env.gate plans (prospect env)
    check_gate env.gate p.usd p.unpriced
    ok (settle env p)
