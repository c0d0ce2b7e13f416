-- ===== src/Flow/Stages/Engines.antt =====
-- The engines of a pipeline's stages give each item back, whole: flow/run.go.
use flowkit.Base.{
  ◌≡◌, refl, subst, ◌∙◌, ℕ, suc, ◌+◌, String, Bool, Option, none, some, List, [], ◌∷◌, ◌++◌, length,
  All, All-append, arith,
}
use mathlib.Core.List.{Permᴰ, map-append}
use mathlib.Core.List.Permᴰ
use flowkit.Base.Float.{FloatOps}
use flowkit.Base.Placed.{map-Permᴰ}
use flowkit.Errors.{Error, wrapped, Result, ok, err, ok-injective}
use flowkit.Exec.{lift, fail_with}
use flowkit.Exec.Yields.{
  After, Yields, seq-Yields, weaken-Yields, bind-Yields, pure-Yields, raise-Yields,
}
use flowkit.Flow.Admit.{Gatekeeper}
use flowkit.Flow.Observe.{Report, Scene, Act}
use flowkit.Flow.Pipeline.{Engine}
use flowkit.Flow.Pipeline.Ordered.Moves.{indexes, Performs}
use flowkit.Flow.Pipeline.Ordered.Finish.{AllPerform}
use flowkit.Flow.Report.{ItemResult}
use flowkit.Flow.Runner.{Item}
use flowkit.Flow.Runner.Whole.{IsWhole, Remembers, handle-Whole}
use flowkit.Flow.Stages.{
  Built, typed, overriding, StageSpec, Stages, assert, sort_items, clean_items, flagged_items,
  values_of, place_results, reported, reporting, check_context, run_override, handle_item,
  engine_of, engines_of,
}
use flowkit.Flow.Stages.Kept.{
  AllRemember, IsResult, WholeItem, focus-Yields, on_scene-Yields, sort_items-perm, split-perm,
  indexes-place_results, place_results-Whole, flagged-Whole, length-values_of,
}

module _ {F W : Type 0} (fl : FloatOps F) where
  pub reporting-Yields :
      {A : Type 0} (Q : A → Type 0) (m : Act F W A)
      → Yields Unit (λ s. Unit) Q m
      → Yields Unit (λ s. Unit) Q (reporting fl m)
  unfolding reporting
  reporting-Yields {A} Q m h = record {
    at = λ s i. kept s.report (m (record s { report = [] })) (h.at _ tt);
  }
    where
      kept :
          (r : Report F) (x : Result A × Scene F W)
          → After Unit (λ s. Unit) Q x
          → After Unit (λ s. Unit) Q (reported fl r x)
      kept r (ok a, s) h = h
      kept r (err e, s) h = h

module _ {F V W : Type 0} where
  -- What a pipeline relies on of an engine of a step's own: a result for each item.
  abbrev pub OneResultEach : (List V → Act F W (List (ItemResult V))) → Type 0
  OneResultEach nested =
      (vs : List V)
      → Yields Unit (λ s. Unit) (λ rs. (length rs ≡ length vs) × All IsResult rs) (nested vs)

  abbrev pub BuiltSound : Result (Built F V W) → Type 0
  BuiltSound (ok (overriding accepts nested)) = OneResultEach nested
  BuiltSound r = Unit

module _ {F V W : Type 0} (fl : FloatOps F) (gk : Gatekeeper F W) where
  override-Performs :
      (accepts : V → Bool) (nested : List V → Act F W (List (ItemResult V))) (items : List (Item V))
      → OneResultEach nested
      → All WholeItem items
      → Yields Unit AllRemember
          (λ outs. Permᴰ (indexes outs) (indexes items) × All WholeItem outs)
          (run_override fl gk accepts nested items)
  unfolding run_override check_context
  override-Performs accepts nested items law h =
      seq-Yields Unit AllRemember _ _ _ (on_scene-Yields _ _ checked) (
        bind-Yields Unit AllRemember (λ vs. length vs ≡ length clean) _ _ _
          (lifted (values_of accepts clean) (length-values_of accepts clean))
          (λ vs e.
            bind-Yields Unit AllRemember (λ rs. (length rs ≡ length vs) × All IsResult rs) _ _ _
              (on_scene-Yields _ _ (reporting-Yields fl _ (nested vs) (law vs)))
              (λ rs k.
                pure-Yields Unit AllRemember _ (place_results clean rs ++ flagged_items items)
                  (outcome rs (k.0 ∙ e) k.1))))
    where
      tested :
          (s : Scene F W) (o : Option Error)
          → After Unit (λ s. Unit) (λ u. Unit) (fail_with (λ e. e) o s)
      tested s none = (tt, tt)
      tested s (some e) = (tt, tt)

      checked : Yields Unit (λ s. Unit) (λ u. Unit) (check_context gk)
      checked = record { at = λ s i. tested s (gk.ctx_err s.pool.world) }

      clean : List (Item V)
      clean = sort_items (clean_items items)

      lifted :
          (r : Result (List V))
          → ((vs : List V) → r ≡ ok vs → length vs ≡ length clean)
          → Yields Unit
              (AllRemember {F = F} {V = V} {W = W})
              (λ vs. length vs ≡ length clean)
              (lift r)
      lifted (ok vs) k = pure-Yields Unit (AllRemember {F = F} {V = V} {W = W}) _ vs (k vs refl)
      lifted (err e) k = raise-Yields Unit (AllRemember {F = F} {V = V} {W = W}) _ e tt

      outcome :
          (rs : List (ItemResult V))
          → length rs ≡ length clean
          → All IsResult rs
          → Permᴰ (indexes (place_results clean rs ++ flagged_items items)) (indexes items)
            × All WholeItem (place_results clean rs ++ flagged_items items)
      outcome rs e k = (
        rw (map-append, indexes-place_results clean rs e)
            (rw (← map-append (λ (i : Item V). i.index) clean (flagged_items items)) (
              map-Permᴰ (λ (i : Item V). i.index)
                (Permᴰ.trans
                  (Permᴰ.append_right (flagged_items items) (sort_items-perm (clean_items items)))
                  (split-perm items)))),
        All-append WholeItem _ _ (place_results-Whole clean rs k) (flagged-Whole items h),
      )

  abbrev kept_place :
      (i : Item V) (o : Item V) → IsWhole i.index o → (o.index ≡ i.index) × WholeItem o
  kept_place i o w = (w.at, record { at = refl; shape = w.shape })

  engine-Performs :
      (k n : ℕ) (barrier : Bool) (b : Built F V W)
      → BuiltSound (ok b)
      → Performs Unit AllRemember (λ j. WholeItem) n (engine_of fl gk k barrier b)
  unfolding engine_of handle_item
  engine-Performs k n barrier (overriding accepts nested) law =
      λ items h. override-Performs accepts nested items law h
  engine-Performs k n barrier (typed accepts r) law = λ i h. focus-Yields _ k _ (
      weaken-Yields Unit Remembers (IsWhole i.index) _ _ (kept_place i)
        (handle-Whole fl gk r i (assert accepts i.value) h))

  -- Each stage that is built makes of whole items whole items, at the same indexes.
  pub engines_of-Perform :
      (last k n : ℕ) (stages : List (StageSpec F V W))
      (engines : List (String × Engine (Stages F V W) V))
      → All (λ s. BuiltSound s.build) stages
      → engines_of fl gk k stages ≡ ok engines
      → n + length engines ≡ last
      → AllPerform Unit AllRemember (λ j. WholeItem) last n engines
  unfolding engines_of
  engines_of-Perform last k n [] engines h q =
      subst
        (λ es.
          n + length es ≡ last
          → AllPerform Unit (AllRemember {F = F} {V = V} {W = W}) (λ j. WholeItem) last n es)
        (ok-injective q) (λ e. omega (arith, e))
  engines_of-Perform last k n (s ∷ stages) engines (h, hs) q =
      joined s.build (engines_of fl gk (suc k) stages) h
        (engines_of-Perform last (suc k) (suc n) stages) q
    where
      joined :
          (b : Result (Built F V W)) (rest : Result (List (String × Engine (Stages F V W) V)))
          → BuiltSound b
          → ((es : List (String × Engine (Stages F V W) V))
              → All (λ t. BuiltSound t.build) stages
              → rest ≡ ok es
              → suc n + length es ≡ last
              → AllPerform Unit
                  (AllRemember {F = F} {V = V} {W = W})
                  (λ j. WholeItem)
                  last
                  (suc n)
                  es)
          → (elim b [
            | err e ↦ err (wrapped "stage %q" e)
            | ok x ↦ elim rest [
              | err e ↦ err e
              | ok es ↦ ok ((s.name, engine_of fl gk k s.barrier x) ∷ es)
            ]
          ])
            ≡ ok engines
          → n + length engines ≡ last
          → AllPerform Unit (AllRemember {F = F} {V = V} {W = W}) (λ j. WholeItem) last n engines
      joined (err e) rest law ih q = cc
      joined (ok x) (err e) law ih q = cc
      joined (ok x) (ok es) law ih q =
          subst
            (λ all.
              n + length all ≡ last
              → AllPerform Unit (AllRemember {F = F} {V = V} {W = W}) (λ j. WholeItem) last n all)
            (ok-injective q)
            (λ e. (engine-Performs k n s.barrier x law, ih es hs refl (omega (arith, e))))
