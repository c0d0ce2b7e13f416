-- ===== src/Examples/Runs.antt =====
-- A run's environment, its admission and its runner at concrete inputs.
use flowkit.Base.{
  ◌≡◌, refl, ℕ, ◌+◌, String, true, false, Option, none, some, List, [], ◌∷◌, arith, ◌==◌, ==_iff,
  if◌then◌else◌,
}
use flowkit.Base.Int.{pos, ◌≤ℤ◌}
use flowkit.Base.Assoc.{lookup, insert}
use flowkit.Base.Text.{is_blank}
use flowkit.Errors.{Error, message, status_error, ok}
use flowkit.Execution.Budget.{Budget, new_budget, BudgetSnapshot, snapshot}
use flowkit.Execution.Chain
use flowkit.Execution.Budget
use flowkit.Execution.Reservation.{waiting}
use flowkit.Flow.Classify.{classify_error}
use flowkit.Flow.Policy.{Resource, quarantine}
use flowkit.Flow.Env.{
  Preflight, StagePlan, RunEnv, LimiterRef, budget_ref, ensure, new_run_env, is_reference,
  check_plans, check_plan, declare_plan, check_amounts, check_limit, check_gate, admit_plans,
}
use flowkit.Flow.Env
use flowkit.Flow.Env.Registered.{Registered, ensure-Registered}
use flowkit.Flow.Env.Settled.{SelfEqual, ensure_again, GateHolds, Declared, ensure_gate}
use flowkit.Execution.Outcome.{uncached}
use flowkit.Flow.Admit.{Pool, Gatekeeper, admit, admit_names}
use flowkit.Flow.Admit
use flowkit.Flow.Admit.Atomic.{SameBudgets, RatesSpareBudgets, admit-Atomic}
use flowkit.Flow.Runner.{Step, Runner, Item}
use flowkit.Flow.Runner.Process.{process, run}
use flowkit.Flow.Runner.Counts.{Runs}
use flowkit.Flow.Runner.Books.{Processed, process-Processed, Booked, run-Booked}
use flowkit.Examples.Rules.{cents}

abbrev pub calls : Resource ℕ
calls = record { name = "calls"; ceiling = pos 2; budget = pos 2; unit_usd = some 3 }

abbrev plans : List (StagePlan ℕ)
plans =
    record { step = "embed"; resource = calls } ∷ record { step = "judge"; resource = calls } ∷ []

abbrev gate : Preflight ℕ
gate = record { max_estimated_usd = 10; allow_unpriced = false; allow_partial = false }

abbrev empty_env : RunEnv ℕ
empty_env = record {
  gate = some gate;
  plans = [];
  owners = [];
  budgets = [];
  limiters = [];
  has_rate = λ n. false;
  estimated_usd = 0;
  unpriced = [];
}

abbrev env : RunEnv ℕ
env = record empty_env {
  plans = ("calls", calls) ∷ [];
  owners = ("calls", "embed") ∷ [];
  budgets = ("calls", record { limit = 2; remaining = 2 }) ∷ [];
  limiters = ("calls", budget_ref "calls" ∷ []) ∷ [];
  estimated_usd = 6;
}

made_env : ensure cents plans empty_env ≡ ok env
unfolding ensure check_plan is_blank lookup declare_plan check_amounts new_budget insert
    is_reference Env.resource_plans_equal admit_plans
made_env = refl

cents_equal : SelfEqual cents
cents_equal x h = (==_iff x x).1 refl

ensure_again_example : ensure cents plans env ≡ ok env
ensure_again_example = ensure_again cents cents_equal plans empty_env env made_env

empty_Registered : Registered empty_env
unfolding lookup
empty_Registered = record { at = λ n. (refl, refl) }

ensure-Registered_example :
    Registered env
    × ((n : String)
        → ((r : Resource ℕ) → lookup n empty_env.plans ≡ some r → lookup n env.plans ≡ some r)
          × ((b : Budget) → lookup n empty_env.budgets ≡ some b → lookup n env.budgets ≡ some b)
          × (lookup n empty_env.plans ≡ none
              → (b : Budget) → lookup n env.budgets ≡ some b
              → b.remaining ≡ b.limit))
ensure-Registered_example = ensure-Registered cents plans empty_env env empty_Registered made_env

ensure_gate_example :
    ((news : List (Resource ℕ)) × Declared cents empty_env env news)
    × ((g : Preflight ℕ) → empty_env.gate ≡ some g → GateHolds cents g env)
    × ((n : String) (r : Resource ℕ)
        → lookup n empty_env.plans ≡ none
        → lookup n env.plans ≡ some r
        → (pos 0 ≤ℤ r.ceiling)
          × (pos 0 ≤ℤ r.budget)
          × ((g : Preflight ℕ)
              → empty_env.gate ≡ some g
              → g.allow_partial ≡ false
              → r.ceiling ≤ℤ r.budget))
ensure_gate_example = ensure_gate cents plans empty_env env made_env

-- The world is the number of calls made.
abbrev pub keeper : Gatekeeper ℕ ℕ
keeper = record { ctx_err = λ w. none; rates = λ n. waiting (λ u p. (none, p)) }

abbrev pool : Pool ℕ ℕ
pool = record { env = env; world = 0 }

abbrev unnamed : Error
unnamed = message "resource has no admitted limiter"

abbrev refused_pool : Pool ℕ ℕ
refused_pool = (admit keeper ("calls" ∷ "other" ∷ []) (pos 1) pool).1

abbrev refused : Option (String × Error)
refused = some ("other", unnamed)

admission_refused : admit keeper ("calls" ∷ "other" ∷ []) (pos 1) pool ≡ (refused, refused_pool)
unfolding admit lookup Chain.admit_by Chain.reserve Chain.reserve_all Admit.resolve
    Admit.reserve_budget Budget.reserve
admission_refused = refl

rates_spare : RatesSpareBudgets keeper
unfolding Chain.admit_by
rates_spare name = record { undo = λ u s n. refl }

admit-Atomic_example : SameBudgets refused_pool pool
admit-Atomic_example =
    admit-Atomic keeper rates_spare ("calls" ∷ "other" ∷ []) (pos 1) pool refused_pool "other"
      unnamed admission_refused

-- A provider that is busy at its first call.
abbrev pub step : Step ℕ ℕ ℕ ℕ
step = record {
  name = "embed";
  kind = "";
  key_digest = λ i. ok "k";
  policy = record {
    workers = pos 1;
    admission = calls ∷ [];
    retry = record {
      attempts = pos 3;
      backoff = record { base = pos 1; ceiling = pos 9 };
      class = none;
    };
    on_error = quarantine;
  };
  do_work = none;
  meter = none;
  attempt_meter = none;
  on_result = none;
  store = none;
  ledger = none;
  draw = λ w n. 0;
  pause = λ d w. (none, w);
  picks_done = λ w. true;
}

abbrev runner : Runner ℕ ℕ ℕ ℕ
runner = record {
  step = step;
  work_fn =
      λ i w. ((i, if w == 0 then some (status_error (pos 503) (message "busy")) else none), w + 1);
  classifier = classify_error;
  backoff = record { base = pos 1; ceiling = pos 9 };
  attempts = 3;
  workers = 1;
  resources = "calls" ∷ [];
}

process-Processed_example : Runs (Processed 3) (Processed 3) (process cents keeper runner 0 7)
process-Processed_example = process-Processed cents keeper runner (omega arith) 0 7

abbrev clean : ℕ → ℕ → Item ℕ
clean index value = record {
  index = index;
  value = some value;
  outcome = record { key_digest = ""; state = uncached };
  quarantined = none;
  skipped = false;
}

run-Booked_example : Runs Booked Booked (run cents keeper runner (clean 0 7 ∷ clean 1 8 ∷ []))
run-Booked_example = run-Booked cents keeper runner (omega arith) (clean 0 7 ∷ clean 1 8 ∷ [])
