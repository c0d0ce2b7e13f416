-- ===== src/Flow/Run.antt =====
-- Run of flow/run.go and the pipes of flow/pipe.go. A run is one of its call: its environment, its
-- observation and its report are the scene's.
pub mod Aligned
use flowkit.Base.{
  ℕ, suc, String, Bool, true, false, not, ◌&&◌, Option, none, some, List, [], ◌∷◌, ◌++◌, map,
  if◌then◌else◌, length, replicate,
}
use Prim.Native.String.{◌++◌ as append}
use flowkit.Base.Float.{FloatOps}
use flowkit.Errors.{Error, message, wrapped, joined, Result, ok, err}
use flowkit.Errors
use flowkit.Exec.{Exec, ◌>>=◌, ◌>>◌, pure, raise, lift, settling}
use flowkit.Execution.Outcome.{no_outcome}
use flowkit.Flow.Accounts.{collect_plans, policy_plans, report}
use flowkit.Flow.Admit.{Gatekeeper}
use flowkit.Flow.Env.{Preflight, StagePlan, RunEnv, new_run_env, ensure}
use flowkit.Flow.Observe.{Report, Scene, Observers, Act, emit_ledger, publish}
use flowkit.Flow.Pipeline.{Post, run_stages, stage_event}
use flowkit.Flow.Policy.{Policy, validate_policy}
use flowkit.Flow.Report.{
  merge, ItemResult, Event, run_started, run_completed, run_failed, step_started, step_completed,
}
use flowkit.Flow.Runner.{Step, Item, new_typed_runner}
use flowkit.Flow.Stages.{
  Built, typed, overriding, StageSpec, Own, Stages, fresh_own, own_at, kept_value, on_scene,
  engines_of,
}

-- The options of a run: `shared` says that o.env is there, and `observed` that o.observation is.
pub record RunOptions (F W : Type 0) : Type 0 where
  pub observers : Observers F W
  pub rates : String → Bool
  pub preflight : Option (Preflight F)
  pub shared : Bool
  pub observed : Bool

-- A step as Run takes it: its name, stagesOf, and its own engine if it has one.
pub record FlowStep (F V W : Type 0) : Type 0 where
  pub name : String
  pub stages : List (StageSpec F V W)
  pub override : Option (List V → Exec (Scene F W) (List (ItemResult V)))

module _ {F V W : Type 0} where
  unfoldable pub combine_stages : List (List (StageSpec F V W)) → List (StageSpec F V W)
  combine_stages [] = []
  combine_stages (group ∷ groups) = group ++ combine_stages groups

-- The loop of pipeName from its second name on.
unfoldable pub join_names : String → List String → String
join_names joined_so_far [] = joined_so_far
join_names joined_so_far (name ∷ names) = join_names (append (append joined_so_far "|") name) names

unfoldable pub pipe_name : List String → String
unfolding join_names
pipe_name [] = ""
pipe_name (name ∷ names) = join_names name names

-- The stages' policies, and those of their nested steps.
unfoldable pub check_all : {F : Type 0} → List (Policy F) → Result (Unit {0})
check_all [] = ok tt
check_all (p ∷ ps) = Errors.◌>>◌ (validate_policy p) (check_all ps)

abbrev stage_checked : {A : Type 0} → Result A → Result (Unit {0})
stage_checked (ok a) = ok tt
stage_checked (err e) = err (wrapped "stage %q" e)

abbrev checked_by : Option (Result (Unit {0})) → Result (Unit {0})
checked_by none = ok tt
checked_by (some r) = stage_checked r

module _ {F V W : Type 0} where
  -- Pipe2, Pipe3 and Pipe4
  unfoldable pub pipe : List (FlowStep F V W) → FlowStep F V W
  unfolding combine_stages pipe_name
  pipe steps = record {
    name = pipe_name (map (λ s. s.name) steps);
    stages = combine_stages (map (λ s. s.stages) steps);
    override = none;
  }

  abbrev pub built_as : (V → Bool) → Step F V V W → Result (Built F V W)
  built_as accepts s = elim (new_typed_runner s) [ ok r ↦ ok (typed accepts r) | err e ↦ err e ]

  -- stageOfStep, for a plain step
  unfoldable pub stage_of_step : Bool → (V → Bool) → Step F V V W → StageSpec F V W
  stage_of_step barrier accepts s = record {
    name = s.name;
    barrier = barrier;
    policy = s.policy;
    extra_policies = [];
    plans = policy_plans s.name s.policy;
    validate = none;
    build = built_as accepts s;
  }

  unfoldable pub check_policies : List (StageSpec F V W) → Result (Unit {0})
  unfolding check_all
  check_policies [] = ok tt
  check_policies (s ∷ stages) =
      Errors.◌>>◌ (check_all (s.policy ∷ s.extra_policies)) (check_policies stages)

  -- Every stage is validated and built before the run is announced.
  unfoldable pub probe_stages : List (StageSpec F V W) → Result (Unit {0})
  probe_stages [] = ok tt
  probe_stages (s ∷ stages) =
      Errors.◌>>◌ (checked_by s.validate)
        (Errors.◌>>◌ (stage_checked s.build) (probe_stages stages))

-- errors.Join of what may be nil.
abbrev pub join_errors : Option Error → Option Error → Option Error
join_errors none e = e
join_errors (some a) none = some a
join_errors (some a) (some b) = some (joined a b)

abbrev pub failed_by : {A : Type 0} → Result A → Option Error
failed_by (ok a) = none
failed_by (err e) = some e

abbrev pub terminal_event : ℕ → Option Error → Event
terminal_event total none = stage_event run_completed "" total
terminal_event total (some e) = record (stage_event run_failed "" total) { error = some e }

module _ {F W : Type 0} where
  abbrev pub returned : {A : Type 0} → Option Error → Result A → Act F W A
  returned (some e) r = raise e
  returned none r = lift r

  -- The first event and the first snapshot; a refused snapshot ends the run.
  unfoldable pub begin_run : Observers F W → ℕ → Act F W (Unit {0})
  begin_run o total = do
    emit_ledger o (stage_event run_started "" total)
    settling (publish o [] total false) (λ shown. elim shown [
      | ok u ↦ pure tt
      | err e ↦ settling (emit_ledger o (terminal_event total (some e))) (λ told. raise e)
    ])

  -- The terminal snapshot and the terminal event, with the errors of both.
  unfoldable pub end_run : {A : Type 0} → Observers F W → ℕ → Result A → Act F W A
  end_run o total r =
      settling (λ s. publish o s.report total true s)
        (λ shown.
          let failed = join_errors (failed_by r) (failed_by shown) in
          settling (emit_ledger o (terminal_event total failed))
            (λ told. returned (join_errors failed (failed_by told)) r))

  abbrev has_observer : Observers F W → Bool
  has_observer o = elim o.reporter [
    | some r ↦ true
    | none ↦ elim o.ledger [ some l ↦ true | none ↦ false ]
  ]

  abbrev pub is_root : RunOptions F W → Bool
  is_root o = has_observer o.observers && not o.observed

  abbrev pub around : {A : Type 0} → Bool → RunOptions F W → ℕ → Act F W A → Act F W A
  around false o total core = core
  around true o total core =
      begin_run o.observers total >> settling core (end_run o.observers total)

module _ {F W : Type 0} (fl : FloatOps F) where
  abbrev pub starting : RunOptions F W → Scene F W → Scene F W
  starting o s =
      if o.shared
      then s
      else record s { pool = record (s.pool) { env = new_run_env fl o.rates o.preflight } }

  abbrev pub with_env : Scene F W → Result (RunEnv F) → Result (Unit {0}) × Scene F W
  with_env s (ok env) = (ok tt, record s { pool = record (s.pool) { env = env } })
  with_env s (err e) = (err e, s)

  abbrev pub declare : List (StagePlan F) → Act F W (Unit {0})
  declare plans s = with_env s (ensure fl plans s.pool.env)

  -- What is checked and declared before the first item.
  unfoldable pub prepare :
      {V : Type 0} → RunOptions F W → List (StageSpec F V W) → Act F W (Unit {0})
  unfolding check_policies probe_stages
  prepare o stages = do
    lift (check_policies stages)
    (λ s. (ok tt, starting o s))
    declare (collect_plans (map (λ s. s.plans) stages))
    lift (probe_stages stages)

-- What is left of an item that leaves the last stage; the zero item is an empty result.
abbrev pub result_of : {V : Type 0} → Option (Item V) → ItemResult V
result_of none = record { value = none; cache = no_outcome; quarantined = none; skipped = false }
result_of (some i) = record {
  value = kept_value i.quarantined i.skipped i.value;
  cache = i.outcome;
  quarantined = i.quarantined;
  skipped = i.skipped;
}

-- The items of a run, numbered from `k`.
unfoldable pub inputs_from : {V : Type 0} → ℕ → List V → List (Item V)
inputs_from k [] = []
inputs_from k (v ∷ vs) =
    record { index = k; value = some v; outcome = no_outcome; quarantined = none; skipped = false }
    ∷ inputs_from (suc k) vs

module _ {F V W : Type 0} (fl : FloatOps F) where
  -- runner.report, for the runner at `k`
  abbrev runner_report : RunEnv F → Own F V → Built F V W → Report F
  runner_report env own (typed accepts r) = report fl r.name r.resources own.counts own.meters env
  runner_report env own (overriding accepts run) = own.rep

  abbrev stage_report : RunEnv F → Own F V → Result (Built F V W) → Report F
  stage_report env own (ok b) = runner_report env own b
  stage_report env own (err e) = []

  -- currentReport: the reports of the runners from the `k`-th on, merged.
  unfoldable pub current_report : ℕ → List (StageSpec F V W) → Stages F V W → Report F → Report F
  current_report k [] s r = r
  current_report k (stage ∷ stages) s r =
      current_report (suc k) stages s
        (merge fl r (stage_report s.scene.pool.env (own_at k s.owns) stage.build))

  abbrev pub ended :
      List (StageSpec F V W)
      → Result (List (Option (Item V))) × Stages F V W
      → Result (List (Option (Item V))) × Scene F W
  ended stages (r, s) = (r, record (s.scene) { report = current_report 0 stages s s.scene.report })

-- What the scheduler of a pipeline decides.
abbrev pub Schedule : Type 0 → Type 0 → Type 0 → Type 0
Schedule F V W = ℕ → List (Post (Stages F V W) V) → ℕ × ℕ

module _ {F V W : Type 0} (fl : FloatOps F) (gk : Gatekeeper F W) where
  -- runStages with its runners, over the scene.
  unfoldable pub run_pipeline :
      RunOptions F W
      → Schedule F V W
      → List (StageSpec F V W)
      → List (Item V)
      → Act F W (List (Option (Item V)))
  unfolding engines_of run_stages current_report on_scene
  run_pipeline o schedule stages inputs = do
    engines ← lift (engines_of fl gk 0 stages)
    (λ s. ended fl stages (
        run_stages (λ e. on_scene (emit_ledger o.observers e)) schedule engines inputs
          (record { scene = s; owns = replicate (length stages) fresh_own })))

  -- runCore, for a step with an engine of its own and for a list of stages
  unfoldable pub run_core :
      RunOptions F W → Schedule F V W → FlowStep F V W → List V → Act F W (List (ItemResult V))
  unfolding run_pipeline inputs_from
  run_core o schedule step items = elim step.override [
    | some engine ↦ (do
      emit_ledger o.observers (stage_event step_started step.name (length items))
      results ← engine items
      emit_ledger o.observers (stage_event step_completed step.name (length items))
      pure results)
    | none ↦ (do
      outputs ← run_pipeline o schedule step.stages (inputs_from 0 items)
      pure (map result_of outputs))
  ]

  unfoldable pub run :
      RunOptions F W → Schedule F V W → FlowStep F V W → List V → Act F W (List (ItemResult V))
  unfolding prepare begin_run end_run run_core
  run o schedule step items = do
    prepare fl o step.stages
    around (is_root o) o (length items) (run_core o schedule step items)
