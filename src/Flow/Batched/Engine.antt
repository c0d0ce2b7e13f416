-- ===== src/Flow/Batched/Engine.antt =====
-- runBatched of flow/batch.go, and the step that Batched makes of it.
use flowkit.Base.{
  ℕ, String, Bool, true, false, Option, none, some, List, [], ◌∷◌, ◌++◌, map, if◌then◌else◌, str_eq,
  length, replicate,
}
use Prim.Native.String.{◌++◌ as append}
use flowkit.Base.Int.{ℤ, pos_part}
use flowkit.Base.Float.{FloatOps}
use flowkit.Errors.{Error, message, Result, ok, err}
use flowkit.Exec.{◌>>=◌, pure, raise, lift}
use flowkit.Flow.Accounts.{policy_plans}
use flowkit.Flow.Admit.{Gatekeeper}
use flowkit.Flow.Observe.{Act}
use flowkit.Flow.Report.{ItemResult, Event}
use flowkit.Flow.Run.{RunOptions, FlowStep, Schedule, stage_of_step, run}
use flowkit.Flow.Runner.{Step}
use flowkit.Flow.Stages.{overriding, reporting}
use flowkit.Flow.Batched.{
  GroupValue, members, BatchCalls, BatchSpec, OnResult, empty_result, cover_groups, uncovered,
  members_at, remap_ledger, accepts_members, group_step, repair_for_run, place_responses,
  place_repaired,
}

-- The options of a nested run: it has the environment and the observation of its caller, and no reporter.
abbrev pub nested_options :
    {F W : Type 0} → RunOptions F W → Option (Event → W → Option Error × W) → RunOptions F W
nested_options o ledger = record o {
  shared = true;
  observers = record { ledger = ledger; reporter = none };
}

-- A plain step as Run takes it, with its Barrier.
abbrev pub plain_step : {F V W : Type 0} → Bool → (V → Bool) → Step F V V W → FlowStep F V W
plain_step barrier accepts s = record {
  name = s.name;
  stages = stage_of_step barrier accepts s ∷ [];
  override = none;
}

module _ {F V W : Type 0} where
  abbrev pub runnable : Step F V V W → Bool
  runnable s = elim s.do_work [ none ↦ false | some f ↦ true ]

module _ {F V W : Type 0} (fl : FloatOps F) (gk : Gatekeeper F W) (o : RunOptions F W)
    (group_schedule : Schedule F (GroupValue V) W) (schedule : Schedule F V W) (accepts : V → Bool)
    (barrier : Bool) (repair : Step F V V W) (on_result : OnResult V W) where
  -- The run of the repairs, and their results at the indexes of their items.
  unfoldable pub repair_missing :
      List V → List ℕ → List (ItemResult V) → Act F W (List (ItemResult V))
  unfolding members_at repair_for_run place_repaired run reporting
  repair_missing items [] results = pure results
  repair_missing items (i ∷ is) results = do
    let missing = i ∷ is
    repaired ← reporting fl (
        run fl gk (nested_options o (remap_ledger missing o.observers.ledger)) schedule
          (plain_step barrier accepts (repair_for_run repair missing o.observers.ledger))
          (members_at items missing))
    place_repaired on_result missing repaired results

  -- The group calls, and then the repairs.
  unfoldable pub run_groups :
      BatchSpec F V W
      → BatchCalls V W
      → List V
      → List (List ℕ)
      → List Bool
      → Act F W (List (ItemResult V))
  unfolding uncovered group_step place_responses repair_missing run reporting
  run_groups spec calls items groups covered = do
    responses ← reporting fl (
        run fl gk (nested_options o o.observers.ledger) group_schedule
          (plain_step false accepts_members (group_step spec repair calls o.observers.ledger))
          (map (λ g. members (members_at items g)) groups))
    parsed ←
        place_responses on_result calls.split items groups responses
          (replicate (length items) empty_result, uncovered 0 covered)
    repair_missing items parsed.1 parsed.0

  abbrev pub checked_groups :
      BatchSpec F V W → BatchCalls V W → List V → List (List ℤ) → Act F W (List (ItemResult V))
  checked_groups spec calls items groups =
      lift (cover_groups groups (replicate (length items) false))
      >>= run_groups spec calls items (map (λ g. map pos_part g) groups)

  unfoldable pub run_batched : BatchSpec F V W → List V → Act F W (List (ItemResult V))
  unfolding cover_groups run_groups
  run_batched spec items = elim spec.calls [
    | none ↦ raise (message "batched step %q needs Group, DoAll, and Split")
    | some calls ↦
        (if runnable repair
          then checked_groups spec calls items (calls.group items)
          else raise (message "batched step %q needs a runnable repair step"))
  ]

-- Batched: the name of the step, and the step as a barrier stage with the plans and the policy of its
-- repairs.
unfoldable pub batched_name : String → String → String
batched_name name repair_name = if str_eq name "" then append repair_name "-groups" else name

module _ {F V W : Type 0} where
  unfoldable pub validate_batched : BatchSpec F V W → Step F V V W → Result (Unit {0})
  validate_batched spec repair = elim spec.calls [
    | none ↦ err (message "batched step %q needs Group, DoAll, and Split")
    | some calls ↦ elim repair.do_work [
      | none ↦ err (message "batched step %q needs a runnable repair step")
      | some f ↦ ok tt
    ]
  ]

  -- The step with its engine, and what its stage in a pipeline runs.
  unfoldable pub batched_with :
      (V → Bool)
      → Step F V V W
      → BatchSpec F V W
      → (List V → Act F W (List (ItemResult V)))
      → (List V → Act F W (List (ItemResult V)))
      → FlowStep F V W
  unfolding validate_batched
  batched_with accepts repair spec engine nested = record {
    name = spec.name;
    stages =
        record {
          name = spec.name;
          barrier = true;
          policy = spec.policy;
          extra_policies = repair.policy ∷ [];
          plans = policy_plans spec.name spec.policy ++ policy_plans repair.name repair.policy;
          validate = some (validate_batched spec repair);
          build = ok (overriding accepts nested);
        }
        ∷ [];
    override = some engine;
  }

  -- In a pipeline, the stage is a run of the step.
  unfoldable pub batched :
      FloatOps F
      → Gatekeeper F W
      → RunOptions F W
      → Schedule F (GroupValue V) W
      → Schedule F V W
      → (V → Bool)
      → Bool
      → Step F V V W
      → OnResult V W
      → BatchSpec F V W
      → FlowStep F V W
  unfolding batched_name batched_with run_batched run
  batched fl gk o group_schedule schedule accepts barrier repair on_result spec =
      let named = record spec { name = batched_name spec.name repair.name } in
      let engine =
        run_batched fl gk o group_schedule schedule accepts barrier repair on_result named in
      batched_with accepts repair named engine (
        run fl gk (nested_options o o.observers.ledger) schedule
          (batched_with accepts repair named engine engine))
