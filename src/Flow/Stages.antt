-- ===== src/Flow/Stages.antt =====
-- The runners of the stages of flow/run.go: stageSpec, overrideStageRunner, and typedRunner as a stage. The
-- values that move through a pipeline are of one type, as in Go's `any`; a type assertion is a test of
-- them. A step with an engine of its own (Bulk, Batched) is an action over all its items;
-- the tests of the context in its sends are left out.
pub mod Engines
pub mod Kept
use flowkit.Base.{
  ℕ, suc, String, Bool, true, false, Option, none, some, List, [], ◌∷◌, ◌++◌, if◌then◌else◌, leb,
  get_elem?, set,
}
use flowkit.Base.Assoc.{Assoc}
use flowkit.Base.Float.{FloatOps}
use flowkit.Errors.{message, wrapped, Result, ok, err}
use flowkit.Exec.{◌>>◌, fail_with, Exec, ◌>>=◌, pure, lift}
use flowkit.Flow.Admit.{Gatekeeper}
use flowkit.Flow.Env.{StagePlan}
use flowkit.Flow.Observe.{Report, Scene, Act}
use flowkit.Flow.Pipeline.{Engine, streaming, draining}
use flowkit.Flow.Policy.{Policy, ItemError}
use flowkit.Flow.Report.{Meters, StepReport, zero_report, merge, ItemResult}
use flowkit.Flow.Runner.{Runner, Item, St}
use flowkit.Flow.Runner.Process.{handle}

-- What stage.build makes: a typedRunner, or an overrideStageRunner. `accepts` is the type assertion.
pub data Built (F V W : Type 0) : Type 0 where
  typed : (V → Bool) → Runner F V V W → Built F V W
  overriding : (V → Bool) → (List V → Exec (Scene F W) (List (ItemResult V))) → Built F V W

pub record StageSpec (F V W : Type 0) : Type 0 where
  pub name : String
  pub barrier : Bool
  pub policy : Policy F
  pub extra_policies : List (Policy F)
  pub plans : List (StagePlan F)
  -- nil, or a check
  pub validate : Option (Result (Unit {0}))
  pub build : Result (Built F V W)

-- The state of the runners of a pipeline, by their position.
pub record Own (F V : Type 0) : Type 0 where
  pub counts : StepReport F
  pub meters : Meters F
  pub inflight : Assoc (Result (Item V))
  pub rep : Report F

pub record Stages (F V W : Type 0) : Type 0 where
  pub scene : Scene F W
  pub owns : List (Own F V)

abbrev pub fresh_own : {F V : Type 0} → Own F V
fresh_own = record { counts = zero_report; meters = []; inflight = []; rep = [] }

-- item.flagged()
abbrev pub is_flagged : {V : Type 0} → Item V → Bool
is_flagged i = elim i.quarantined [ none ↦ i.skipped | some e ↦ true ]

-- item.value.(I)
abbrev pub assert : {V : Type 0} → (V → Bool) → Option V → Option V
assert accepts none = none
assert accepts (some v) = if accepts v then some v else none

abbrev pub own_at : {F V : Type 0} → ℕ → List (Own F V) → Own F V
own_at k owns = elim (get_elem? owns k) [ none ↦ fresh_own | some o ↦ o ]

abbrev pub at_item : ℕ → Option ItemError → Option ItemError
at_item index none = none
at_item index (some e) = some (record e { index = index })

-- A value is kept only where the item is not flagged.
abbrev pub kept_value : {V : Type 0} → Option ItemError → Bool → Option V → Option V
kept_value none false v = v
kept_value q skipped v = none

module _ {V : Type 0} where
  -- The insertion of an item into a list in the order of the indexes (sort.Slice).
  unfoldable pub insert_item : Item V → List (Item V) → List (Item V)
  insert_item i [] = i ∷ []
  insert_item i (j ∷ items) =
      let rest = insert_item i items in if leb i.index j.index then i ∷ j ∷ items else j ∷ rest

  unfoldable pub sort_items : List (Item V) → List (Item V)
  unfolding insert_item
  sort_items [] = []
  sort_items (i ∷ items) = insert_item i (sort_items items)

  unfoldable pub clean_items : List (Item V) → List (Item V)
  clean_items [] = []
  clean_items (i ∷ items) = let rest = clean_items items in if is_flagged i then rest else i ∷ rest

  unfoldable pub flagged_items : List (Item V) → List (Item V)
  flagged_items [] = []
  flagged_items (i ∷ items) =
      let rest = flagged_items items in if is_flagged i then i ∷ rest else rest

  -- The typed inputs of the engine.
  unfoldable pub values_of : (V → Bool) → List (Item V) → Result (List V)
  values_of accepts [] = ok []
  values_of accepts (i ∷ items) =
      let rest = values_of accepts items in
      elim (assert accepts i.value) [
        | none ↦ err (message "item %d has type %T, stage expects %T")
        | some v ↦ elim rest [ ok vs ↦ ok (v ∷ vs) | err e ↦ err e ]
      ]

  -- The results of the engine at the indexes of its items.
  unfoldable pub place_results : List (Item V) → List (ItemResult V) → List (Item V)
  place_results [] rs = []
  place_results (i ∷ items) [] = []
  place_results (i ∷ items) (r ∷ rs) =
      record {
        index = i.index;
        value = kept_value r.quarantined r.skipped r.value;
        outcome = r.cache;
        quarantined = at_item i.index r.quarantined;
        skipped = r.skipped;
      }
      ∷ place_results items rs

module _ {F W : Type 0} where
  -- A nested run reports to its caller: its report is merged when it ends, with or without an error.
  abbrev pub reported :
      {A : Type 0} → FloatOps F → Report F → Result A × Scene F W → Result A × Scene F W
  reported fl outer (r, s) = (r, record s { report = merge fl outer s.report })

  unfoldable pub reporting : {A : Type 0} → FloatOps F → Act F W A → Act F W A
  reporting fl m s = reported fl s.report (m (record s { report = [] }))

module _ {F V W : Type 0} where
  -- What the runner at `k` sees of the state.
  abbrev pub seen_by : ℕ → Stages F V W → St F V W
  seen_by k s = record {
    counts = (own_at k s.owns).counts;
    meters = (own_at k s.owns).meters;
    pool = s.scene.pool;
    inflight = (own_at k s.owns).inflight;
  }

  abbrev pub put_own : ℕ → Stages F V W → St F V W → Stages F V W
  put_own k s t = record {
    scene = record (s.scene) { pool = t.pool };
    owns =
        set s.owns k (record (own_at k s.owns) {
          counts = t.counts;
          meters = t.meters;
          inflight = t.inflight;
        });
  }

  abbrev pub focused :
      {A : Type 0} → ℕ → Stages F V W → Result A × St F V W → Result A × Stages F V W
  focused k s (r, t) = (r, put_own k s t)

  unfoldable pub focus : {A : Type 0} → ℕ → Exec (St F V W) A → Exec (Stages F V W) A
  focus k m s = focused k s (m (seen_by k s))

  -- An action of the scene, which keeps the runners.
  abbrev pub staged : {A : Type 0} → Stages F V W → Result A × Scene F W → Result A × Stages F V W
  staged s (r, t) = (r, record s { scene = t })

  unfoldable pub on_scene : {A : Type 0} → Exec (Scene F W) A → Exec (Stages F V W) A
  on_scene m s = staged s (m s.scene)

-- ctx.Err() as it stands now.
unfoldable pub check_context : {F W : Type 0} → Gatekeeper F W → Exec (Scene F W) (Unit {0})
check_context gk s = fail_with (λ e. e) (gk.ctx_err s.pool.world) s

module _ {F V W : Type 0} (fl : FloatOps F) (gk : Gatekeeper F W) where
  -- overrideStageRunner.run, over the drained stream; `nested` is Run of its step.
  unfoldable pub run_override :
      (V → Bool)
      → (List V → Exec (Scene F W) (List (ItemResult V)))
      → List (Item V)
      → Exec (Stages F V W) (List (Item V))
  unfolding sort_items clean_items flagged_items values_of place_results on_scene reporting
      check_context
  run_override accepts nested items = do
    let clean = sort_items (clean_items items)
    on_scene (check_context gk)
    vs ← lift (values_of accepts clean)
    results ← on_scene (reporting fl (nested vs))
    pure (place_results clean results ++ flagged_items items)

  -- A worker's round on an item of its stream.
  unfoldable pub handle_item : Runner F V V W → (V → Bool) → Item V → Exec (St F V W) (Item V)
  unfolding handle
  handle_item r accepts i = handle fl gk r i i.quarantined i.skipped (assert accepts i.value)

  unfoldable pub engine_of : ℕ → Bool → Built F V W → Engine (Stages F V W) V
  unfolding run_override handle_item focus
  engine_of k barrier (typed accepts r) = streaming barrier (λ i. focus k (handle_item r accepts i))
  engine_of k barrier (overriding accepts nested) = draining (run_override accepts nested)

  -- The runners of the stages, the `k`-th first.
  unfoldable pub engines_of :
      ℕ → List (StageSpec F V W) → Result (List (String × Engine (Stages F V W) V))
  unfolding engine_of
  engines_of k [] = ok []
  engines_of k (s ∷ stages) =
      let rest = engines_of (suc k) stages in
      elim s.build [
        | err e ↦ err (wrapped "stage %q" e)
        | ok b ↦ elim rest [
          | err e ↦ err e
          | ok engines ↦ ok ((s.name, engine_of k s.barrier b) ∷ engines)
        ]
      ]
