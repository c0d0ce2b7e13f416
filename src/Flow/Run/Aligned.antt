-- ===== src/Flow/Run/Aligned.antt =====
-- The results of Run stand at the indexes of its items: flow/run.go.
use flowkit.Base.{
  ◌≡◌, refl, ap, subst, ◌∙◌, ℕ, zero, suc, ◌+◌, ◌<◌, String, Bool, true, false, Option, none, some,
  List, [], ◌∷◌, map, length, get_elem?, replicate, All, arith,
}
use mathlib.Core.List.{Memᴰ}
use flowkit.Base.Assoc.{lookup}
use flowkit.Base.Float.{FloatOps}
use flowkit.Errors.{Error, Result, ok, err, ok-injective}
use flowkit.Exec.{◌>>=◌, ◌>>◌, pure, lift, settling, settled_by}
use flowkit.Exec.Yields.{After, Yields, bind-Yields, seq-Yields, pure-Yields, raise-Yields}
use flowkit.Flow.Admit.{Gatekeeper}
use flowkit.Flow.Observe.{Scene, Observers, Act, emit_ledger, publish}
use flowkit.Flow.Pipeline.{Engine, run_stages, stage_event}
use flowkit.Flow.Pipeline.Ordered.Moves.{indexes}
use flowkit.Flow.Pipeline.Ordered.Finish.{Complete, run_stages-Complete}
use flowkit.Flow.Report.{ItemResult, step_started, step_completed}
use flowkit.Flow.Runner.{Item}
use flowkit.Flow.Stages.{StageSpec, Stages, fresh_own, on_scene, engines_of}
use flowkit.Flow.Stages.Kept.{ResultAt, AllRemember, WholeItem, kept_value-Shape, on_scene-Yields}
use flowkit.Flow.Stages.Engines.{BuiltSound, engines_of-Perform}
use flowkit.Flow.Run.{
  RunOptions, FlowStep, Schedule, join_errors, failed_by, terminal_event, returned, begin_run,
  end_run, around, is_root, result_of, inputs_from, ended, run_pipeline, run_core, run,
}

-- There is a result for each item, at its place: a value, a quarantined item whose record has the
-- item's index, or a skipped item.
pub record Aligned {V : Type 0} (total : ℕ) (rs : List (ItemResult V)) : Type 0 where
  pub long : length rs ≡ total
  pub at : (k : ℕ) → k < total → (r : ItemResult V) × (get_elem? rs k ≡ some r) × ResultAt k r

-- An action of the scene: an error is a value of Go, and nothing is asked of the scene.
abbrev pub Gives : {F W A : Type 0} → (A → Type 0) → Act F W A → Type 0
Gives Q m = Yields Unit (λ s. Unit) Q m

module _ {F W : Type 0} where
  pub any : {A : Type 0} (m : Act F W A) → Gives (λ a. Unit) m
  any {A} m = record { at = λ s u. kept (m s) }
    where
      kept : (r : Result A × Scene F W) → After Unit (λ s. Unit) (λ a. Unit) r
      kept (ok a, s) = (tt, tt)
      kept (err e, s) = (tt, tt)

  Gives-then :
      {A B : Type 0} (Q : B → Type 0) (m : Act F W A) (f : A → Act F W B)
      → ((a : A) → Gives Q (f a))
      → Gives Q (m >>= f)
  Gives-then Q m f h = bind-Yields Unit (λ s. Unit) (λ a. Unit) Q m f (any m) (λ a u. h a)

  settling-Gives :
      {A B : Type 0} (Q : A → Type 0) (R : B → Type 0) (m : Act F W A) (k : Result A → Act F W B)
      → Gives Q m
      → ((a : A) → Q a → Gives R (k (ok a)))
      → ((e : Error) → Gives R (k (err e)))
      → Gives R (settling m k)
  settling-Gives Q R m k h good bad = record { at = λ s u. kept (m s) (h.at s u) }
    where
      kept :
          (x : Result _ × Scene F W)
          → After Unit (λ s. Unit) Q x
          → After Unit (λ s. Unit) R (settled_by k x)
      kept (ok a, s) (q, u) = (good a q).at s tt
      kept (err e, s) (u, v) = (bad e).at s tt

  returned-Gives :
      {A : Type 0} (Q : A → Type 0) (e : Option Error) (r : Result A)
      → ((a : A) → r ≡ ok a → Q a)
      → Gives {F = F} {W = W} Q (returned e r)
  returned-Gives Q (some e) r h = raise-Yields Unit (λ s. Unit) Q e tt
  returned-Gives Q none (ok a) h = pure-Yields Unit (λ s. Unit) Q a (h a refl)
  returned-Gives Q none (err e) h = raise-Yields Unit (λ s. Unit) Q e tt

  end_run-Gives :
      {A : Type 0} (Q : A → Type 0) (o : Observers F W) (total : ℕ) (r : Result A)
      → ((a : A) → r ≡ ok a → Q a)
      → Gives Q (end_run o total r)
  unfolding end_run
  end_run-Gives {A} Q o total r h =
      settling-Gives {A = Unit} (λ u. Unit) Q (λ s. publish o s.report total true s)
        (λ shown.
          settling
            (emit_ledger o (terminal_event total (join_errors (failed_by r) (failed_by shown))))
            (λ told.
              returned (join_errors (join_errors (failed_by r) (failed_by shown)) (failed_by told))
                r))
        (any (λ s. publish o s.report total true s)) (λ u v. closing none) (λ e. closing (some e))
    where
      closing :
          (shown : Option Error)
          → Gives {F = F} {W = W} Q (
              settling
                (emit_ledger o (terminal_event total (join_errors (failed_by r) shown)))
                (λ told.
                  returned (join_errors (join_errors (failed_by r) shown) (failed_by told)) r))
      closing shown =
          settling-Gives (λ u. Unit) Q
            (emit_ledger o (terminal_event total (join_errors (failed_by r) shown)))
            (λ told. returned (join_errors (join_errors (failed_by r) shown) (failed_by told)) r)
            (any (emit_ledger o (terminal_event total (join_errors (failed_by r) shown))))
            (λ u v. returned-Gives Q (join_errors (join_errors (failed_by r) shown) none) r h)
            (λ e. returned-Gives Q (join_errors (join_errors (failed_by r) shown) (some e)) r h)

module _ {V : Type 0} where
  result_of-At : (k : ℕ) (i : Item V) → i.index ≡ k → WholeItem i → ResultAt k (result_of (some i))
  result_of-At k i e w =
      subst (λ n. ResultAt n (result_of (some i))) e
        (kept_value-Shape i.index i.value i.quarantined i.skipped w.shape)

  length-results : (outs : List (Option (Item V))) → length (map result_of outs) ≡ length outs
  length-results [] = refl
  length-results (o ∷ outs) = ap suc (length-results outs)

  get_elem?-results :
      (outs : List (Option (Item V))) (k : ℕ) (o : Option (Item V))
      → get_elem? outs k ≡ some o
      → get_elem? (map result_of outs) k ≡ some (result_of o)
  get_elem?-results [] k o h = cc
  get_elem?-results (x ∷ outs) zero o h = ap result_at h
    where
      result_at : Option (Option (Item V)) → Option (ItemResult V)
      result_at none = none
      result_at (some p) = some (result_of p)
  get_elem?-results (x ∷ outs) (suc k) o h = get_elem?-results outs k o h

  results-Aligned :
      (total : ℕ) (outs : List (Option (Item V)))
      → Complete total WholeItem outs
      → Aligned total (map result_of outs)
  results-Aligned total outs c = record {
    long = length-results outs ∙ c.long;
    at = λ k b.
        let (i, stands, e, w) = c.at k b in
        (result_of (some i), get_elem?-results outs k (some i) stands, result_of-At k i e w);
  }

  inputs-Whole : (k : ℕ) (vs : List V) → All WholeItem (inputs_from k vs)
  unfolding inputs_from
  inputs-Whole k [] = tt
  inputs-Whole k (v ∷ vs) = (record { at = refl; shape = tt }, inputs-Whole (suc k) vs)

  length-inputs : (k : ℕ) (vs : List V) → length (inputs_from k vs) ≡ length vs
  unfolding inputs_from
  length-inputs k [] = refl
  length-inputs k (v ∷ vs) = ap suc (length-inputs (suc k) vs)

  inputs-cover : (k n : ℕ) (vs : List V) → n < length vs → Memᴰ (k + n) (indexes (inputs_from k vs))
  unfolding inputs_from
  inputs-cover k n [] h = absurd (omega arith)
  inputs-cover k zero (v ∷ vs) h = Memᴰ.head (omega arith)
  inputs-cover k (suc n) (v ∷ vs) h = Memᴰ.tail (
      subst (λ m. Memᴰ m (indexes (inputs_from (suc k) vs))) (omega arith)
        (inputs-cover (suc k) n vs (omega arith)))

module _ {F V W : Type 0} where
  -- What an engine of a step's own is relied on for: a result at the place of each item.
  abbrev pub AlignsAll : Option (List V → Act F W (List (ItemResult V))) → Type 0
  AlignsAll none = Unit
  AlignsAll (some engine) = (vs : List V) → Gives (Aligned (length vs)) (engine vs)

module _ {F V W : Type 0} (fl : FloatOps F) (gk : Gatekeeper F W) where
  fresh-Remember :
      (s : Scene F W) (n : ℕ)
      → AllRemember {F = F} {V = V} {W = W} (record { scene = s; owns = replicate n fresh_own })
  unfolding lookup
  fresh-Remember s zero k d o h = absurd (ground (arith, o, h))
  fresh-Remember s (suc n) zero d o h = absurd (ground (arith, o, h))
  fresh-Remember s (suc n) (suc k) d o h = fresh-Remember s n k d o h

  -- The results of the stages: a result at the index of each item.
  pipeline-Complete :
      (o : RunOptions F W) (schedule : Schedule F V W) (stages : List (StageSpec F V W))
      (items : List V)
      → All (λ s. BuiltSound s.build) stages
      → Gives
          (Complete (length items) WholeItem)
          (run_pipeline fl gk o schedule stages (inputs_from 0 items))
  unfolding run_pipeline
  pipeline-Complete o schedule stages items sound =
      bind-Yields Unit (λ s. Unit) (λ engines. engines_of fl gk 0 stages ≡ ok engines) _ _ _
        (lifted (engines_of fl gk 0 stages))
        (λ engines e. record {
          at = λ s u.
              kept
                (run_stages (λ e. on_scene (emit_ledger o.observers e)) schedule engines
                  (inputs_from 0 items)
                  (record { scene = s; owns = replicate (length stages) fresh_own }))
                ((staged engines e).at _ (fresh-Remember s (length stages)));
        })
    where
      Engines : Type 0
      Engines = List (String × Engine (Stages F V W) V)

      lifted : (r : Result Engines) → Gives {F = F} {W = W} (λ engines. r ≡ ok engines) (lift r)
      lifted (ok engines) = pure-Yields Unit (λ s. Unit) _ engines refl
      lifted (err e) = raise-Yields Unit (λ s. Unit) _ e tt

      kept :
          (x : Result (List (Option (Item V))) × Stages F V W)
          → After Unit AllRemember (Complete (length items) WholeItem) x
          → After Unit (λ s. Unit) (Complete (length items) WholeItem) (ended fl stages x)
      kept (ok outs, s) (c, i) = (c, tt)
      kept (err e, s) i = (tt, tt)

      staged :
          (engines : Engines)
          → engines_of fl gk 0 stages ≡ ok engines
          → Yields Unit AllRemember (Complete (length items) WholeItem) (
              run_stages
                (λ e. on_scene (emit_ledger o.observers e))
                schedule
                engines
                (inputs_from 0 items))
      staged engines e =
          subst
            (λ n. Yields Unit AllRemember (Complete n WholeItem) (
              run_stages (λ e. on_scene (emit_ledger o.observers e)) schedule engines
                (inputs_from 0 items)))
            (length-inputs 0 items)
            (run_stages-Complete Unit AllRemember (λ k. WholeItem) _ schedule engines
              (inputs_from 0 items) (λ e. on_scene-Yields _ _ (any (emit_ledger o.observers e)))
              (engines_of-Perform fl gk (length engines) 0 0 stages engines sound e (omega arith))
              (inputs-Whole 0 items)
              (λ n b.
                subst (λ m. Memᴰ m (indexes (inputs_from 0 items))) (omega arith)
                  (inputs-cover 0 n items (omega (arith, b, length-inputs 0 items)))))

  core-Aligned :
      (o : RunOptions F W) (schedule : Schedule F V W) (step : FlowStep F V W) (items : List V)
      → All (λ s. BuiltSound s.build) step.stages
      → AlignsAll step.override
      → Gives (Aligned (length items)) (run_core fl gk o schedule step items)
  unfolding run_core
  core-Aligned o schedule step items sound law = by_engine step.override law
    where
      by_engine :
          (own : Option (List V → Act F W (List (ItemResult V))))
          → AlignsAll own
          → Gives (Aligned (length items)) (elim own [
            | some engine ↦ (do
              emit_ledger o.observers (stage_event step_started step.name (length items))
              results ← engine items
              emit_ledger o.observers (stage_event step_completed step.name (length items))
              pure results)
            | none ↦ (do
              outputs ← run_pipeline fl gk o schedule step.stages (inputs_from 0 items)
              pure (map result_of outputs))
          ])
      by_engine none law =
          bind-Yields Unit (λ s. Unit) _ _ _ _
            (pipeline-Complete o schedule step.stages items sound)
            (λ outs c. pure-Yields Unit (λ s. Unit) _ _ (results-Aligned (length items) outs c))
      by_engine (some engine) law =
          seq-Yields Unit (λ s. Unit) _ _ _ (any _)
            (bind-Yields Unit (λ s. Unit) _ _ _ _ (law items)
              (λ rs a.
                seq-Yields Unit (λ s. Unit) _ _ _ (any _) (pure-Yields Unit (λ s. Unit) _ rs a)))

  -- The results of a run stand at the indexes of its items, whatever the order in which its stages
  -- move, and with or without observers, preflight and a shared environment: a run of stages that are
  -- sound, or of an engine of the step's own that aligns its results, returns an error or, for each
  -- item at its place, a value, a quarantine record with the item's index, or a skipped item.
  pub run-Aligned :
      (o : RunOptions F W) (schedule : Schedule F V W) (step : FlowStep F V W) (items : List V)
      → All (λ s. BuiltSound s.build) step.stages
      → AlignsAll step.override
      → Gives (Aligned (length items)) (run fl gk o schedule step items)
  unfolding run end_run
  run-Aligned o schedule step items sound law =
      seq-Yields Unit (λ s. Unit) _ _ _ (any _) (by_root (is_root o))
    where
      core : Gives (Aligned (length items)) (run_core fl gk o schedule step items)
      core = core-Aligned o schedule step items sound law

      by_root :
          (b : Bool)
          → Gives
              (Aligned (length items))
              (around b o (length items) (run_core fl gk o schedule step items))
      by_root false = core
      by_root true =
          seq-Yields Unit (λ s. Unit) (Aligned (length items))
            (begin_run o.observers (length items)) _ (any (begin_run o.observers (length items)))
            (settling-Gives (Aligned (length items)) (Aligned (length items))
              (run_core fl gk o schedule step items) (end_run o.observers (length items)) core
              (λ rs a.
                end_run-Gives (Aligned (length items)) o.observers (length items) (ok rs)
                  (λ ss e. subst (Aligned (length items)) (ok-injective e) a))
              (λ e.
                end_run-Gives (Aligned (length items)) o.observers (length items) (err e)
                  (λ ss q. absurd (cc))))
