-- ===== src/Flow/Env/Registered.antt =====
-- Every name of the environment has one budget and one chain of limiters, and `ensure` keeps those
-- that are there: flow/run.go, newRunEnv and ensure.
use flowkit.Base.{◌≡◌, refl, subst, String, Bool, Option, none, some, List, arith, ap}
use flowkit.Base.Int.{ℤ, pos, negsuc}
use flowkit.Base.Assoc.{lookup}
use flowkit.Base.Float.{FloatOps}
use flowkit.Errors.{ok}
use flowkit.Execution.Budget.{Budget, new_budget}
use flowkit.Flow.Policy.{Resource}
use flowkit.Flow.Env.{
  Preflight, StagePlan, RunEnv, PendingPlan, Prospect, LimiterRef, chain_of, new_run_env, prospect,
  settle, ensure,
}
use flowkit.Flow.Env.Ensure.{
  has_rate-admit_plans, find_pending, over, budgets-admit_plans, limiters-admit_plans,
  plans-admit_plans, Tracks, prospect-Tracks, check_plans-Tracks, ensure-parts,
}

full_budget :
    (t : ℤ) (b : Budget) → new_budget t ≡ ok b → (pos b.limit ≡ t) × (b.remaining ≡ b.limit)
unfolding new_budget
full_budget (pos t) b h = ground arith
full_budget (negsuc t) b h = absurd (ground arith)

module _ {F : Type 0} where
  -- A name with a plan has a budget of the plan's size and the chain of that budget and its rate; a
  -- name without a plan has neither.
  abbrev pub AtName :
      (String → Bool)
      → String
      → Option (Resource F)
      → Option Budget
      → Option (List LimiterRef)
      → Type 0
  AtName rates n none b l = (b ≡ none) × (l ≡ none)
  AtName rates n (some r) b l =
      (c : Budget) × (b ≡ some c) × (pos c.limit ≡ r.budget) × (l ≡ some (chain_of rates n))

  abbrev pub RegisteredAt : RunEnv F → String → Type 0
  RegisteredAt env n =
      AtName env.has_rate n (lookup n env.plans) (lookup n env.budgets) (lookup n env.limiters)

  pub record Registered (env : RunEnv F) : Type 0 where
    pub at : (n : String) → RegisteredAt env n

  -- What one name becomes when the pending plans are written: what was there stays, and what is new
  -- has a full budget.
  abbrev NameEffect :
      RunEnv F → String → Option (Resource F) → Option Budget → Option (List LimiterRef) → Type 0
  NameEffect env n p b l =
      AtName env.has_rate n p b l
      × ((r : Resource F) → lookup n env.plans ≡ some r → p ≡ some r)
      × ((c : Budget) → lookup n env.budgets ≡ some c → b ≡ some c)
      × (lookup n env.plans ≡ none → (c : Budget) → b ≡ some c → c.remaining ≡ c.limit)

  no_budget :
      (env : RunEnv F) (n : String)
      → Registered env
      → lookup n env.plans ≡ none
      → lookup n env.budgets ≡ none
  no_budget env n v e =
      (subst (λ o. AtName env.has_rate n o (lookup n env.budgets) (lookup n env.limiters)) e
        (v.at n)).0

  written_effect :
      (env : RunEnv F) (n : String) (o : Option (PendingPlan F))
      → Registered env
      → ((a : PendingPlan F)
          → o ≡ some a
          → (lookup n env.plans ≡ none)
            × (new_budget a.stage.resource.budget ≡ ok a.budget)
            × (a.limiter ≡ chain_of env.has_rate n))
      → NameEffect env n
          (over (λ a. a.stage.resource) o (lookup n env.plans))
          (over (λ a. a.budget) o (lookup n env.budgets))
          (over (λ a. a.limiter) o (lookup n env.limiters))
  written_effect env n none v f =
      (v.at n, λ r h. h, λ c h. h, λ h c k. absurd (ground (arith, no_budget env n v h)))
  written_effect env n (some a) v f =
      let (old, full, chained) = f a refl in
      let (size, left) = full_budget _ _ full in
      let gone = no_budget env n v old in
      (
        (a.budget, refl, size, ap some chained),
        λ r h. absurd (ground arith),
        λ c h. absurd (ground arith),
        λ h c k. ground arith,
      )

module _ {F : Type 0} (fl : FloatOps F) where
  pub new_run_env-Registered :
      (rates : String → Bool) (gate : Option (Preflight F)) → Registered (new_run_env fl rates gate)
  unfolding new_run_env lookup
  new_run_env-Registered rates gate = record { at = λ n. (refl, refl) }

  settle_effect :
      (env : RunEnv F) (q : Prospect F) (n : String)
      → Registered env
      → Tracks fl env q
      → NameEffect env n
          (lookup n (settle env q).plans)
          (lookup n (settle env q).budgets)
          (lookup n (settle env q).limiters)
  settle_effect env q n v t =
      rw
        (
          plans-admit_plans n q.pending env,
          budgets-admit_plans n q.pending env,
          limiters-admit_plans n q.pending env,
        )
        (written_effect env n (find_pending n q.pending) v (t.pending_new n))

  -- A successful `ensure` keeps the environment registered. Every plan and every budget that was
  -- there is there unchanged, so nothing spent is forgotten, and each new name starts with a full
  -- budget.
  pub ensure-Registered :
      (ss : List (StagePlan F)) (env env' : RunEnv F)
      → Registered env
      → ensure fl ss env ≡ ok env'
      → Registered env'
        × ((n : String)
            → ((r : Resource F) → lookup n env.plans ≡ some r → lookup n env'.plans ≡ some r)
              × ((b : Budget) → lookup n env.budgets ≡ some b → lookup n env'.budgets ≡ some b)
              × (lookup n env.plans ≡ none
                  → (b : Budget) → lookup n env'.budgets ≡ some b
                  → b.remaining ≡ b.limit))
  ensure-Registered ss env env' v h =
      let (q, c, g, e, k) = ensure-parts fl ss env env' h in
      let t = check_plans-Tracks fl env ss (prospect env) q c (prospect-Tracks fl env) in
      rw e (
        record { at = λ n. rw (has_rate-admit_plans q.pending env) (settle_effect env q n v t).0 },
        λ n. let w = settle_effect env q n v t in (w.1, w.2, w.3),
      )
