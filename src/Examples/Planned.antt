-- ===== src/Examples/Planned.antt =====
-- Resource plans of the package execution at a concrete input.
use flowkit.Base.{◌≡◌, refl, ℕ, Bool, true, false, none, some, List, [], ◌∷◌, map}
use flowkit.Base.Assoc.{Assoc}
use flowkit.Base.Text.{is_blank}
use flowkit.Errors.{ok}
use flowkit.Execution.Plans.{
  check_resource, check_resources, check_total, add_cost, has_name, validate_resource_plans,
  new_resource_budgets, check_rates, has_limiter,
}
use flowkit.Execution.Plans.AsEnsure.{staged, gate_of, validate-ensure}
use flowkit.Flow.Accounts.{CostPreflight, cost}
use flowkit.Flow.Env.{RunEnv, ensure, new_run_env}
use flowkit.Flow.Policy.{Resource}
use flowkit.Examples.Rules.{cents}
use flowkit.Examples.Runs.{calls}

abbrev plans : List (Resource ℕ)
plans = calls ∷ record calls { name = "tokens" } ∷ []

abbrev rates : Assoc Bool
rates = ("tokens", true) ∷ []

abbrev costs : CostPreflight ℕ
costs = record { estimated_usd = 12; missing_prices = [] }

accepted : validate_resource_plans cents plans 20 false false ≡ (costs, none)
unfolding validate_resource_plans check_resources check_resource check_total add_cost has_name
    is_blank
accepted = refl

validate-ensure_example :
    (env : RunEnv ℕ) × (ensure cents
        (map (staged cents "embed") plans)
        (new_run_env cents (has_limiter rates) (some (gate_of cents 20 false false)))
      ≡ ok env)
    × (cost env ≡ costs)
    × (new_resource_budgets plans rates
        ≡ check_rates rates (record { budgets = env.budgets; limiters = env.limiters }))
validate-ensure_example = validate-ensure cents plans 20 false false rates "embed" costs accepted
