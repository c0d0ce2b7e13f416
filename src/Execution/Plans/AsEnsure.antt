-- ===== src/Execution/Plans/AsEnsure.antt =====
-- The resource plans that execution accepts and those that a run accepts: execution/resource_plan.go
-- with runEnv.ensure of flow/run.go.
use flowkit.Base.{
  ◌≡◌, refl, sym, ap, subst, ◌∙◌, String, Bool, true, false, none, some, List, [], ◌∷◌, ◌++◌, map,
  arith,
}
use flowkit.Base.Int.{ℤ, pos, negsuc, ltb_ℤ}
use flowkit.Base.Assoc.{Assoc, lookup, lookup-insert}
use flowkit.Base.Float.{FloatOps, is_amount}
use flowkit.Base.Text.{is_blank}
use flowkit.Errors.{Result, ok, err, ◌>>=◌}
use flowkit.Execution.Budget.{Budget, new_budget}
use flowkit.Execution.Plans.{
  has_name, check_resource, add_cost, check_total, check_resources, validate_resource_plans,
  ResourceBudgets, has_limiter, make_budgets, check_rates, new_resource_budgets,
}
use flowkit.Flow.Accounts.{CostPreflight, cost}
use flowkit.Flow.Env.{
  Preflight, StagePlan, RunEnv, PendingPlan, Prospect, check_amounts, add_plan, pending_plan,
  declare_plan, check_plan, check_plans, check_gate, admit_plan, admit_plans, prospect, settle,
  new_run_env, ensure,
}
use flowkit.Flow.Policy.{Resource}

module _ {F : Type 0} (fl : FloatOps F) where
  abbrev pub gate_of : F → Bool → Bool → Preflight F
  gate_of maximum unpriced partial = record {
    max_estimated_usd = maximum;
    allow_unpriced = unpriced;
    allow_partial = partial;
  }

  abbrev pub staged : String → Resource F → StagePlan F
  staged step r = record { step = step; resource = r }

  -- The costs of a prospect.
  abbrev cost_in : Prospect F → CostPreflight F
  cost_in p = record { estimated_usd = p.usd; missing_prices = p.unpriced }

  budget_made : (z : ℤ) → ltb_ℤ z (pos 0) ≡ false → (b : Budget) × (new_budget z ≡ ok b)
  unfolding new_budget
  budget_made (pos n) h = (record { limit = n; remaining = n }, refl)
  budget_made (negsuc n) h = absurd (ground arith)

  resource-amounts :
      (gate : Preflight F) (seen : List String) (r : Resource F)
      → check_resource fl gate.allow_partial seen r ≡ ok tt
      → (is_blank r.name ≡ false)
        × (has_name r.name seen ≡ false)
        × (ltb_ℤ r.budget (pos 0) ≡ false)
        × (check_amounts fl (some gate) r ≡ ok tt)
  unfolding check_resource check_amounts
  resource-amounts gate seen r h = (ground arith, ground arith, ground arith, ground arith)

  -- One round of ensure for a plan of a new name that the other check accepts.
  round :
      (gate : Preflight F) (rates : String → Bool) (step : String) (r : Resource F) (p : Prospect F)
      (b : Budget)
      → lookup r.name p.plans ≡ none
      → is_blank r.name ≡ false
      → check_amounts fl (some gate) r ≡ ok tt
      → new_budget r.budget ≡ ok b
      → check_plan fl rates (some gate) (staged step r) p
        ≡ ok (add_plan fl rates (staged step r) p b)
  unfolding check_plan declare_plan
  round gate rates step r p b e n h made = rw (n, e, h, made) refl

  cost_round :
      (rates : String → Bool) (step : String) (partial : Bool) (seen : List String) (r : Resource F)
      (p : Prospect F) (b : Budget)
      → check_resource fl partial seen r ≡ ok tt
      → cost_in (add_plan fl rates (staged step r) p b) ≡ add_cost fl r (cost_in p)
  unfolding check_resource add_cost
  cost_round rates step partial seen r p b h = ground arith

  abbrev pub shown : RunEnv F → ResourceBudgets
  shown env = record { budgets = env.budgets; limiters = env.limiters }

  admit_plans-append :
      (l : List (PendingPlan F)) (a : PendingPlan F) (env : RunEnv F)
      → admit_plans (l ++ a ∷ []) env ≡ admit_plan a (admit_plans l env)
  unfolding admit_plans
  admit_plans-append [] a env = refl
  admit_plans-append (b ∷ l) a env = admit_plans-append l a (admit_plan b env)

  -- A name that was not seen has no plan and no budget.
  abbrev Unseen : RunEnv F → List String → Prospect F → Type 0
  Unseen env seen p =
      (n : String)
      → has_name n seen ≡ false
      → (lookup n p.plans ≡ none) × (lookup n (admit_plans p.pending env).budgets ≡ none)

  Unseen-round :
      (env : RunEnv F) (rates : String → Bool) (step : String) (seen : List String) (r : Resource F)
      (p : Prospect F) (b : Budget)
      → Unseen env seen p
      → Unseen env (r.name ∷ seen) (add_plan fl rates (staged step r) p b)
  unfolding has_name
  Unseen-round env rates step seen r p b u n h = (
    ground (arith, lookup-insert r.name n r p.plans, u n),
    subst (λ (e : RunEnv F). lookup n e.budgets ≡ none)
        (sym (admit_plans-append p.pending (pending_plan rates (staged step r) b) env))
        (ground (arith, lookup-insert r.name n b (admit_plans p.pending env).budgets, u n)),
  )

  total-gate :
      (maximum : F) (unpriced partial : Bool) (c d : CostPreflight F)
      → check_total fl maximum unpriced c ≡ (d, none)
      → (c ≡ d)
        × (check_gate fl (some (gate_of maximum unpriced partial)) c.estimated_usd c.missing_prices
            ≡ ok tt)
  unfolding check_total check_gate
  total-gate maximum unpriced partial c d h = (ground arith, ground arith)

  made_round :
      (rates : Assoc Bool) (step : String) (r : Resource F) (rs : List (Resource F))
      (env : RunEnv F) (p : Prospect F) (b : Budget)
      → lookup r.name (admit_plans p.pending env).budgets ≡ none
      → is_blank r.name ≡ false
      → new_budget r.budget ≡ ok b
      → make_budgets rates (r ∷ rs) (shown (admit_plans p.pending env))
        ≡ make_budgets rates rs
            (shown (admit_plans (add_plan fl (has_limiter rates) (staged step r) p b).pending env))
  unfolding make_budgets
  made_round rates step r rs env p b free n made =
      rw (n, free, made, admit_plans-append p.pending _ env) refl

  resources_go_on :
      (maximum : F) (unpriced partial : Bool) (r : Resource F) (rs : List (Resource F))
      (seen : List String) (c d : CostPreflight F)
      → check_resources fl maximum unpriced partial (r ∷ rs) seen c ≡ (d, none)
      → (check_resource fl partial seen r ≡ ok tt)
        × (check_resources fl maximum unpriced partial rs (r.name ∷ seen) (add_cost fl r c)
            ≡ (d, none))
  unfolding check_resources
  resources_go_on maximum unpriced partial r rs seen c d h =
      accepted (check_resource fl partial seen r) refl
    where
      accepted :
          (v : Result (Unit {0}))
          → check_resource fl partial seen r ≡ v
          → (check_resource fl partial seen r ≡ ok tt)
            × (check_resources fl maximum unpriced partial rs (r.name ∷ seen) (add_cost fl r c)
                ≡ (d, none))
      accepted (ok u) e = (e, ground (arith, h, e))
      accepted (err x) e = absurd (ground (arith, h, e))

  -- The loops of the three functions, side by side.
  record Agree (maximum : F) (unpriced partial : Bool) (rates : Assoc Bool) (step : String)
      (env : RunEnv F) (rs : List (Resource F)) (p : Prospect F) (d : CostPreflight F)
      : Type 0 where
    after : Prospect F
    checked :
        check_plans fl
          (has_limiter rates)
          (some (gate_of maximum unpriced partial))
          (map (staged step) rs)
          p
        ≡ ok after
    priced : cost_in after ≡ d
    passed :
        check_gate fl (some (gate_of maximum unpriced partial)) d.estimated_usd d.missing_prices
        ≡ ok tt
    made :
        make_budgets rates rs (shown (admit_plans p.pending env))
        ≡ ok (shown (admit_plans after.pending env))

  loops :
      (maximum : F) (unpriced partial : Bool) (rates : Assoc Bool) (step : String) (env : RunEnv F)
      (rs : List (Resource F)) (seen : List String) (p : Prospect F) (c d : CostPreflight F)
      → Unseen env seen p
      → cost_in p ≡ c
      → check_resources fl maximum unpriced partial rs seen c ≡ (d, none)
      → Agree maximum unpriced partial rates step env rs p d
  unfolding check_resources check_plans make_budgets
  loops maximum unpriced partial rates step env [] seen p c d u e h =
      let (same, gate) = total-gate maximum unpriced partial c d h in
      record {
        after = p;
        checked = refl;
        priced = e ∙ same;
        passed =
            subst
              (λ (x : CostPreflight F).
                check_gate fl (some (gate_of maximum unpriced partial)) x.estimated_usd
                  x.missing_prices
                ≡ ok tt)
              same gate;
        made = refl;
      }
  loops maximum unpriced partial rates step env (r ∷ rs) seen p c d u e h =
      let (accepted, rest) = resources_go_on maximum unpriced partial r rs seen c d h in
      let (named, fresh, whole, amounts) =
        resource-amounts (gate_of maximum unpriced partial) seen r accepted in
      let (b, full) = budget_made r.budget whole in
      let (new, free) = u r.name fresh in
      let q = add_plan fl (has_limiter rates) (staged step r) p b in
      let tail =
        loops maximum unpriced partial rates step env rs (r.name ∷ seen) q (add_cost fl r c) d
          (Unseen-round env (has_limiter rates) step seen r p b u)
          (cost_round (has_limiter rates) step partial seen r p b accepted ∙ ap (add_cost fl r) e)
          rest in
      record {
        after = tail.after;
        checked =
            ap
              (λ x. x >>= λ q.
                check_plans fl (has_limiter rates) (some (gate_of maximum unpriced partial))
                  (map (staged step) rs) q)
              (round (gate_of maximum unpriced partial) (has_limiter rates) step r p b new named
                amounts full)
            ∙ tail.checked;
        priced = tail.priced;
        passed = tail.passed;
        made = made_round rates step r rs env p b free named full ∙ tail.made;
      }

  -- Whatever plans ValidateResourcePlans accepts, a run that starts with the same limit, allowances
  -- and rate limiters accepts too, at the same estimated cost and with the same unpriced resources;
  -- and NewResourceBudgets makes of them the budgets and the limiters that the run has, if its check
  -- of the rate limiters passes.
  pub validate-ensure :
      (plans : List (Resource F)) (maximum : F) (unpriced partial : Bool) (rates : Assoc Bool)
      (step : String) (c : CostPreflight F)
      → validate_resource_plans fl plans maximum unpriced partial ≡ (c, none)
      → (env : RunEnv F) × (ensure fl
            (map (staged step) plans)
            (new_run_env fl (has_limiter rates) (some (gate_of maximum unpriced partial)))
          ≡ ok env)
        × (cost env ≡ c)
        × (new_resource_budgets plans rates
            ≡ check_rates rates (record { budgets = env.budgets; limiters = env.limiters }))
  unfolding validate_resource_plans new_run_env ensure cost new_resource_budgets lookup admit_plans
  validate-ensure plans maximum unpriced partial rates step c h = agreed (is_amount fl maximum) refl
    where
      fresh : RunEnv F
      fresh = new_run_env fl (has_limiter rates) (some (gate_of maximum unpriced partial))

      agreed :
          (b : Bool)
          → is_amount fl maximum ≡ b
          → (env : RunEnv F) × (ensure fl
                (map (staged step) plans)
                (new_run_env fl (has_limiter rates) (some (gate_of maximum unpriced partial)))
              ≡ ok env)
            × (cost env ≡ c)
            × (new_resource_budgets plans rates
                ≡ check_rates rates (record { budgets = env.budgets; limiters = env.limiters }))
      agreed false e = absurd (ground (arith, h, e))
      agreed true e =
          let l =
            loops maximum unpriced partial rates step fresh plans [] (prospect fresh)
              (record { estimated_usd = fl.zero_f; missing_prices = [] }) c (λ n u. (refl, refl))
              refl (ground (arith, h, e)) in
          let passed =
            subst
              (λ (x : CostPreflight F).
                check_gate fl (some (gate_of maximum unpriced partial)) x.estimated_usd
                  x.missing_prices
                ≡ ok tt)
              (sym l.priced) l.passed in
          (
            settle fresh l.after,
            rw (e, l.checked, passed) refl,
            l.priced,
            ap (λ x. x >>= λ m. check_rates rates m) l.made,
          )
