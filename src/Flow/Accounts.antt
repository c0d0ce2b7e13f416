-- ===== src/Flow/Accounts.antt =====
-- What a run tells of its environment and its steps: the accessors of runEnv, the plans of its
-- stages, and a step's report (flow/run.go).
use flowkit.Base.{
  ◌≡◌, refl, ap, ◌∙◌, String, Bool, true, false, ◌||◌, Option, none, some, List, [], ◌∷◌, ◌++◌, map,
  if◌then◌else◌, str_eq, str_eq_iff,
}
use flowkit.Base.Int.{pos}
use flowkit.Base.Assoc.{Assoc, lookup, insert, lookup-insert}
use flowkit.Base.Float.{FloatOps}
use flowkit.Execution.Budget.{Budget, BudgetSnapshot, snapshot}
use flowkit.Flow.Policy.{Resource, Policy}
use flowkit.Flow.Env.{RunEnv, StagePlan, LimiterRef}
use flowkit.Flow.Report.{StepReport, Meters, add_meters}

pub record CostPreflight (F : Type 0) : Type 0 where
  pub estimated_usd : F
  pub missing_prices : List String

abbrev snapshots : Assoc Budget → Assoc BudgetSnapshot
snapshots [] = []
snapshots ((name, b) ∷ rest) = (name, snapshot (some b)) ∷ snapshots rest

unfoldable pub is_among : String → List String → Bool
is_among n [] = false
is_among n (name ∷ names) = str_eq name n || is_among n names

module _ {F : Type 0} where
  unfoldable pub limiter : String → RunEnv F → Option (List LimiterRef)
  limiter name env = lookup name env.limiters

  -- The zero plan where the name has none.
  unfoldable pub plan : String → RunEnv F → Resource F
  plan name env = elim (lookup name env.plans) [
    | none ↦ record { name = ""; ceiling = pos 0; budget = pos 0; unit_usd = none }
    | some r ↦ r
  ]

  unfoldable pub all_snapshots : RunEnv F → Assoc BudgetSnapshot
  all_snapshots env = snapshots env.budgets

  unfoldable pub cost : RunEnv F → CostPreflight F
  cost env = record { estimated_usd = env.estimated_usd; missing_prices = env.unpriced }

  -- The loop over the names, into the map so far; a name without a budget has the nil budget's.
  unfoldable pub snapshots_of : List String → RunEnv F → Assoc BudgetSnapshot → Assoc BudgetSnapshot
  snapshots_of [] env found = found
  snapshots_of (name ∷ names) env found =
      snapshots_of names env (insert name (snapshot (lookup name env.budgets)) found)

  -- The spend of a step has, for each of the step's resources, the snapshot of its budget as the
  -- environment has it, and no entry of another name that was not there before.
  pub lookup-snapshots_of :
      (n : String) (names : List String) (env : RunEnv F) (found : Assoc BudgetSnapshot)
      → lookup n (snapshots_of names env found)
        ≡ (if is_among n names then some (snapshot (lookup n env.budgets)) else lookup n found)
  unfolding snapshots_of is_among
  lookup-snapshots_of n [] env found = refl
  lookup-snapshots_of n (name ∷ names) env found =
      lookup-snapshots_of n names env (insert name (snapshot (lookup name env.budgets)) found)
      ∙ chosen (is_among n names) (str_eq name n) refl
          (lookup-insert name n (snapshot (lookup name env.budgets)) found)
    where
      chosen :
          (a b : Bool)
          → str_eq name n ≡ b
          → lookup n (insert name (snapshot (lookup name env.budgets)) found)
            ≡ (if str_eq name n then some (snapshot (lookup name env.budgets)) else lookup n found)
          → (if a
              then some (snapshot (lookup n env.budgets))
              else lookup n (insert name (snapshot (lookup name env.budgets)) found))
            ≡ (if b || a then some (snapshot (lookup n env.budgets)) else lookup n found)
      chosen true true e h = refl
      chosen true false e h = refl
      chosen false true e h =
          h ∙ rw (e) (ap (λ x. some (snapshot (lookup x env.budgets))) ((str_eq_iff name n).0 e))
      chosen false false e h = h ∙ rw (e) refl

  unfoldable pub policy_plans : String → Policy F → List (StagePlan F)
  policy_plans step policy = map (λ r. record { step = step; resource = r }) policy.admission

  -- The plans of each stage, in the order of the stages.
  unfoldable pub collect_plans : List (List (StagePlan F)) → List (StagePlan F)
  collect_plans [] = []
  collect_plans (plans ∷ stages) = plans ++ collect_plans stages

  -- A step's counters with its meters and the budgets of its resources.
  unfoldable pub report :
      FloatOps F → String → List String → StepReport F → Meters F → RunEnv F → Assoc (StepReport F)
  unfolding snapshots_of
  report fl name resources counts meters env =
      (
        name,
        record counts {
          meters = elim meters [ [] ↦ counts.meters | m ∷ ms ↦ add_meters fl [] (m ∷ ms) ];
          spend = snapshots_of resources env [];
        },
      )
      ∷ []
