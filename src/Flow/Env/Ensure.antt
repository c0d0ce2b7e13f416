-- ===== src/Flow/Env/Ensure.antt =====
-- What a successful `ensure` does to the plans, the budgets and the limiters.
use flowkit.Base.{
  ◌≡◌, refl, sym, subst, ◌⊎◌, inl, inr, String, Bool, true, false, ◌||◌, Option, none, some, List,
  [], ◌∷◌, ◌++◌, arith, if◌then◌else◌, str_eq, str_eq_iff, Bool-cases, Option-cases,
}
use flowkit.Base.Assoc.{Assoc, lookup, insert, lookup-insert}
use flowkit.Base.Float.{FloatOps}
use flowkit.Base.Text.{is_blank}
use flowkit.Errors.{ok, >>=-eq-ok, ok-injective}
use flowkit.Execution.Budget.{Budget, new_budget}
use flowkit.Flow.Policy.{Resource}
use flowkit.Flow.Env.{
  Preflight, StagePlan, RunEnv, PendingPlan, Prospect, is_reference, resource_plans_equal,
  check_amounts, chain_of, add_plan, pending_plan, declare_plan, check_plan, check_plans,
  check_limit, check_gate, admit_plan, admit_plans, prospect, settle, ensure,
}

module _ {F : Type 0} where
  abbrev pub name_of : PendingPlan F → String
  name_of a = a.stage.resource.name

  -- The pending plan of a name; the last one, if there were several.
  pub find_pending : String → List (PendingPlan F) → Option (PendingPlan F)
  find_pending n [] = none
  find_pending n (a ∷ rest) = elim (find_pending n rest) [
    | some b ↦ some b
    | none ↦ if str_eq (name_of a) n then some a else none
  ]

  find_pending-append :
      (n : String) (a : PendingPlan F) (l : List (PendingPlan F))
      → find_pending n (l ++ a ∷ []) ≡ (if str_eq (name_of a) n then some a else find_pending n l)
  unfolding find_pending
  find_pending-append n a [] = refl
  find_pending-append n a (b ∷ l) = ground (arith, find_pending-append n a l)

  -- What stands under a name after the pending plans are written over the old entries.
  abbrev pub over :
      {A : Type 0} → (PendingPlan F → A) → Option (PendingPlan F) → Option A → Option A
  over f none old = old
  over f (some a) old = some (f a)

  pub has_rate-admit_plans :
      (l : List (PendingPlan F)) (env : RunEnv F) → (admit_plans l env).has_rate ≡ env.has_rate
  unfolding admit_plans
  has_rate-admit_plans [] env = refl
  has_rate-admit_plans (a ∷ l) env = has_rate-admit_plans l (admit_plan a env)

  pub budgets-admit_plans :
      (n : String) (l : List (PendingPlan F)) (env : RunEnv F)
      → lookup n (admit_plans l env).budgets
        ≡ over (λ a. a.budget) (find_pending n l) (lookup n env.budgets)
  unfolding admit_plans find_pending
  budgets-admit_plans n [] env = refl
  budgets-admit_plans n (a ∷ l) env = ground (
    arith,
    budgets-admit_plans n l (admit_plan a env),
    lookup-insert (name_of a) n a.budget env.budgets,
  )

  pub limiters-admit_plans :
      (n : String) (l : List (PendingPlan F)) (env : RunEnv F)
      → lookup n (admit_plans l env).limiters
        ≡ over (λ a. a.limiter) (find_pending n l) (lookup n env.limiters)
  unfolding admit_plans find_pending
  limiters-admit_plans n [] env = refl
  limiters-admit_plans n (a ∷ l) env = ground (
    arith,
    limiters-admit_plans n l (admit_plan a env),
    lookup-insert (name_of a) n a.limiter env.limiters,
  )

  pub plans-admit_plans :
      (n : String) (l : List (PendingPlan F)) (env : RunEnv F)
      → lookup n (admit_plans l env).plans
        ≡ over (λ a. a.stage.resource) (find_pending n l) (lookup n env.plans)
  unfolding admit_plans find_pending
  plans-admit_plans n [] env = refl
  plans-admit_plans n (a ∷ l) env = ground (
    arith,
    plans-admit_plans n l (admit_plan a env),
    lookup-insert (name_of a) n a.stage.resource env.plans,
  )

module _ {F : Type 0} (fl : FloatOps F) where
  -- The plan is a reference, or equal, to an earlier one.
  abbrev pub Joins : StagePlan F → Assoc (Resource F) → Type 0
  Joins s plans =
      (e : Resource F) × (lookup s.resource.name plans ≡ some e)
      × ((is_reference s.resource || resource_plans_equal fl e s.resource) ≡ true)

  abbrev pub Declares :
      (String → Bool) → Option (Preflight F) → StagePlan F → Prospect F → Prospect F → Type 0
  Declares rates gate s p q =
      (b : Budget) × (lookup s.resource.name p.plans ≡ none)
      × (check_amounts fl gate s.resource ≡ ok tt)
      × (new_budget s.resource.budget ≡ ok b)
      × (q ≡ add_plan fl rates s p b)

  declare_plan-ok :
      (rates : String → Bool) (gate : Option (Preflight F)) (s : StagePlan F) (p q : Prospect F)
      → lookup s.resource.name p.plans ≡ none
      → declare_plan fl rates gate s p ≡ ok q
      → Declares rates gate s p q
  unfolding declare_plan
  declare_plan-ok rates gate s p q l h =
      let (u, c, k) = >>=-eq-ok (check_amounts fl gate s.resource) _ h in
      let (b, n, e) = >>=-eq-ok (new_budget s.resource.budget) _ k in
      (b, l, c, n, sym (ok-injective e))

  -- One round of the loop: the plan joins an earlier one, or it is declared now.
  pub check_plan_cases :
      (rates : String → Bool) (gate : Option (Preflight F)) (s : StagePlan F) (p q : Prospect F)
      → check_plan fl rates gate s p ≡ ok q
      → (is_blank s.resource.name ≡ false)
        × ((Joins s p.plans × (q ≡ p)) ⊎ Declares rates gate s p q)
  unfolding check_plan
  check_plan_cases rates gate s p q h = elim (Option-cases (lookup s.resource.name p.plans)) [
    | inl n ↦ (ground arith, inr (declare_plan-ok rates gate s p q n (ground arith)))
    | inr (e, l) ↦ (ground arith, inl ((e, l, ground arith), ground arith))
  ]

  -- What the local variables of `ensure` say of the environment that it will leave.
  pub record Tracks (env : RunEnv F) (p : Prospect F) : Type 0 where
    pub plans_seen :
        (n : String)
        → lookup n p.plans
          ≡ over (λ a. a.stage.resource) (find_pending n p.pending) (lookup n env.plans)
    pub pending_new :
        (n : String) (a : PendingPlan F)
        → find_pending n p.pending ≡ some a
        → (lookup n env.plans ≡ none)
          × (new_budget a.stage.resource.budget ≡ ok a.budget)
          × (a.limiter ≡ chain_of env.has_rate n)

  pub prospect-Tracks : (env : RunEnv F) → Tracks env (prospect env)
  unfolding find_pending
  prospect-Tracks env = record { plans_seen = λ n. refl; pending_new = λ n a h. cc }

  add_plan-plans_seen :
      (env : RunEnv F) (s : StagePlan F) (p : Prospect F) (a : PendingPlan F) (n : String)
      → a.stage ≡ s
      → Tracks env p
      → lookup n (insert s.resource.name s.resource p.plans)
        ≡ over (λ b. b.stage.resource) (find_pending n (p.pending ++ a ∷ [])) (lookup n env.plans)
  add_plan-plans_seen env s p a n e t = ground (
    arith,
    lookup-insert s.resource.name n s.resource p.plans,
    find_pending-append n a p.pending,
    t.plans_seen n,
  )

  old_name_new :
      (env : RunEnv F) (p : Prospect F) (n : String)
      → lookup n p.plans ≡ none
      → Tracks env p
      → lookup n env.plans ≡ none
  old_name_new env p n l t = ground (arith, t.plans_seen n)

  add_plan-pending_new :
      (env : RunEnv F) (s : StagePlan F) (p : Prospect F) (b : Budget) (n : String)
      (a : PendingPlan F)
      → lookup s.resource.name env.plans ≡ none
      → new_budget s.resource.budget ≡ ok b
      → Tracks env p
      → find_pending n (p.pending ++ pending_plan env.has_rate s b ∷ []) ≡ some a
      → (lookup n env.plans ≡ none)
        × (new_budget a.stage.resource.budget ≡ ok a.budget)
        × (a.limiter ≡ chain_of env.has_rate n)
  add_plan-pending_new env s p b n a l h t e = elim (Bool-cases (str_eq s.resource.name n)) [
    | inl y ↦
        let same : s.resource.name ≡ n = (str_eq_iff _ _).0 y in
        let this : pending_plan env.has_rate s b ≡ a =
          ground (arith, find_pending-append n (pending_plan env.has_rate s b) p.pending) in
        rw (← this, ← same) (l, h, refl)
    | inr m ↦
        t.pending_new n a
          (ground (arith, find_pending-append n (pending_plan env.has_rate s b) p.pending))
  ]

  add_plan-Tracks :
      (env : RunEnv F) (s : StagePlan F) (p : Prospect F) (b : Budget)
      → lookup s.resource.name p.plans ≡ none
      → new_budget s.resource.budget ≡ ok b
      → Tracks env p
      → Tracks env (add_plan fl env.has_rate s p b)
  add_plan-Tracks env s p b l h t = record {
    plans_seen = λ n. add_plan-plans_seen env s p (pending_plan env.has_rate s b) n refl t;
    pending_new =
        λ n a. add_plan-pending_new env s p b n a (old_name_new env p s.resource.name l t) h t;
  }

  pub check_plans-Tracks :
      (env : RunEnv F) (ss : List (StagePlan F)) (p q : Prospect F)
      → check_plans fl env.has_rate env.gate ss p ≡ ok q
      → Tracks env p
      → Tracks env q
  unfolding check_plans
  check_plans-Tracks env [] p q h t = subst (Tracks env) (ok-injective h) t
  check_plans-Tracks env (s ∷ ss) p q h t =
      let (m, k, r) = >>=-eq-ok (check_plan fl env.has_rate env.gate s p) _ h in
      check_plans-Tracks env ss m q r (elim ((check_plan_cases env.has_rate env.gate s p m k).1) [
        | inl (j, e) ↦ subst (Tracks env) (sym e) t
        | inr (b, l, c, n, e) ↦ subst (Tracks env) (sym e) (add_plan-Tracks env s p b l n t)
      ])

  -- A successful `ensure` went through the loop and the gate, and then wrote the pending plans.
  pub ensure-parts :
      (ss : List (StagePlan F)) (env env' : RunEnv F)
      → ensure fl ss env ≡ ok env'
      → (q : Prospect F) × (check_plans fl env.has_rate env.gate ss (prospect env) ≡ ok q)
        × (check_gate fl env.gate q.usd q.unpriced ≡ ok tt)
        × (env' ≡ settle env q)
        × (check_limit fl env.gate ≡ ok tt)
  unfolding ensure
  ensure-parts ss env env' h =
      let (u, l, k) = >>=-eq-ok (check_limit fl env.gate) _ h in
      let (q, c, r) = >>=-eq-ok (check_plans fl env.has_rate env.gate ss (prospect env)) _ k in
      let (v, g, e) = >>=-eq-ok (check_gate fl env.gate q.usd q.unpriced) _ r in
      (q, c, g, sym (ok-injective e), l)
