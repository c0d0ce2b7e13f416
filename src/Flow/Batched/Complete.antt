-- ===== src/Flow/Batched/Complete.antt =====
-- A run of a batched step: flow/batch.go in Run of flow/run.go.
use flowkit.Base.{
  ◌≡◌, refl, ap, subst, ◌∙◌, ℕ, suc, ◌<◌, Bool, true, false, Option, none, some, List, [], ◌∷◌,
  ◌++◌, map, length, get_elem?, replicate, All, All-append, length-replicate, Bool-cases, arith,
  inl, inr, if◌then◌else◌,
}
use mathlib.Core.List.{Memᴰ}
use flowkit.Base.Float.{FloatOps}
use flowkit.Base.Placed.{Memᴰ-append_left, Memᴰ-append_right}
use flowkit.Errors.{message, Result, ok, err}
use flowkit.Exec.{◌>>=◌, raise, lift}
use flowkit.Exec.Yields.{bind-Yields, pure-Yields, raise-Yields, weaken-Yields}
use flowkit.Flow.Admit.{Gatekeeper}
use flowkit.Flow.Observe.{Act}
use flowkit.Flow.Report.{ItemResult}
use flowkit.Flow.Runner.{Step, Runner, new_typed_runner}
use flowkit.Flow.Stages.{typed, reporting}
use flowkit.Flow.Stages.Kept.{IsResult}
use flowkit.Flow.Stages.Engines.{OneResultEach, BuiltSound, reporting-Yields}
use flowkit.Flow.Run.{RunOptions, Schedule, built_as, stage_of_step, run}
use flowkit.Flow.Run.Aligned.{Aligned, Gives, run-Aligned}
use flowkit.Flow.Batched.{
  GroupValue, members, BatchCalls, BatchSpec, OnResult, empty_result, is_covered, cover_groups,
  uncovered, members_at, remap_ledger, accepts_members, group_step, repair_for_run,
}
use flowkit.Flow.Batched.Covered.{
  all_of, indexes_of, Marked, cover_groups-Marked, uncovered_there, uncovered_inside, none_marked,
}
use flowkit.Flow.Batched.Repaired.{
  Held, length-members_at, place_responses-Held, place_repaired-Held,
}
use flowkit.Flow.Batched.Engine.{
  nested_options, plain_step, repair_missing, run_groups, runnable, checked_groups, run_batched,
  batched_name, batched_with, batched,
}

module _ {V : Type 0} where
  all_results :
      (rs : List (ItemResult V))
      → ((k : ℕ) → k < length rs → (r : ItemResult V) × (get_elem? rs k ≡ some r) × IsResult r)
      → All IsResult rs
  all_results [] h = tt
  all_results (r ∷ rs) h =
      (first (h 0 (omega arith)), all_results rs (λ k b. h (suc k) (omega arith)))
    where
      first : (s : ItemResult V) × (some r ≡ some s) × IsResult s → IsResult r
      first (s, e, good) = subst IsResult {x = s} {y = r} (cc) good

  -- Aligned results are results, one for each item.
  Aligned-each :
      (total : ℕ) (rs : List (ItemResult V))
      → Aligned total rs
      → (length rs ≡ total) × All IsResult rs
  Aligned-each total rs a = (
    a.long,
    all_results rs
        (λ k b. let (r, at, good) = a.at k (subst (λ n. k < n) a.long b) in (r, at, (k, good))),
  )

  Held-Aligned : (total : ℕ) (rs : List (ItemResult V)) → Held total rs [] → Aligned total rs
  Held-Aligned total rs h = record {
    long = h.long;
    at = λ k b. elim (h.due k b) [ inl s ↦ s | inr m ↦ elim m [ ] ];
  }

  pub first_Held :
      (total : ℕ) (covered : List Bool) (groups : List (List ℕ))
      → Marked (replicate total false) (all_of groups) covered
      → Held {V = V} total (replicate total empty_result) (uncovered 0 covered ++ all_of groups)
  first_Held total covered groups m = record {
    long = length-replicate total empty_result;
    inside =
        All-append (λ i. i < total) (uncovered 0 covered) (all_of groups)
          (subst (λ n. All (λ i. i < n) (uncovered 0 covered)) (omega (arith, whole))
            (uncovered_inside 0 covered))
          (subst (λ n. All (λ i. i < n) (all_of groups)) (length-replicate total false) m.inside);
    due = λ n b. inr (elim (Bool-cases (is_covered covered n)) [
      | inl e ↦ elim (m.only n e) [
        | inl c ↦ absurd (ground (arith, c, none_marked total n))
        | inr there ↦ Memᴰ-append_right (uncovered 0 covered) (all_of groups) there
      ]
      | inr e ↦ Memᴰ-append_left (uncovered 0 covered) (all_of groups) (
          subst (λ k. Memᴰ k (uncovered 0 covered)) (omega arith)
            (uncovered_there 0 n covered (omega (arith, b, whole)) e))
    ]);
  }
    where
      whole : length covered ≡ total
      whole = m.long ∙ length-replicate total false

module _ {F V W : Type 0} where
  built_as-Sound : (accepts : V → Bool) (s : Step F V V W) → BuiltSound (built_as accepts s)
  built_as-Sound accepts s = by_runner (new_typed_runner s)
    where
      by_runner :
          (r : Result (Runner F V V W))
          → BuiltSound {F = F} {V = V} {W = W}
              (elim r [ ok r ↦ ok (typed accepts r) | err e ↦ err e ])
      by_runner (ok r) = tt
      by_runner (err e) = tt

module _ {F V W : Type 0} (fl : FloatOps F) (gk : Gatekeeper F W) where
  -- A plain step's run, nested in another.
  plain-Aligned :
      (o : RunOptions F W) (schedule : Schedule F V W) (barrier : Bool) (accepts : V → Bool)
      (s : Step F V V W) (items : List V)
      → Gives
          (Aligned (length items))
          (reporting fl (run fl gk o schedule (plain_step barrier accepts s) items))
  unfolding stage_of_step
  plain-Aligned o schedule barrier accepts s items =
      reporting-Yields fl _ (run fl gk o schedule (plain_step barrier accepts s) items) (
        run-Aligned fl gk o schedule (plain_step barrier accepts s) items
          (built_as-Sound accepts s, tt) tt)

module _ {F V W : Type 0} (fl : FloatOps F) (gk : Gatekeeper F W) (o : RunOptions F W)
    (group_schedule : Schedule F (GroupValue V) W) (schedule : Schedule F V W) (accepts : V → Bool)
    (barrier : Bool) (repair : Step F V V W) (on_result : OnResult V W) where
  repair_missing-Aligned :
      (items : List V) (missing : List ℕ) (results : List (ItemResult V))
      → Held (length items) results missing
      → Gives (Aligned (length items)) (
          repair_missing fl gk o group_schedule schedule accepts barrier repair on_result items
            missing results)
  unfolding repair_missing
  repair_missing-Aligned items [] results h =
      pure-Yields Unit (λ s. Unit) _ results (Held-Aligned (length items) results h)
  repair_missing-Aligned items (i ∷ is) results h =
      bind-Yields Unit (λ s. Unit) _ _ _ _
        (plain-Aligned fl gk (nested_options o (remap_ledger (i ∷ is) o.observers.ledger)) schedule
          barrier accepts (repair_for_run repair (i ∷ is) o.observers.ledger)
          (members_at items (i ∷ is)))
        (λ rs a.
          let (long, good) = Aligned-each (length (members_at items (i ∷ is))) rs a in
          weaken-Yields Unit (λ s. Unit) (λ out. Held (length items) out []) _ _
            (λ out k. Held-Aligned (length items) out k)
            (place_repaired-Held on_result (length items) (i ∷ is) rs results
              (long ∙ length-members_at items (i ∷ is) h.inside) good h))

  length-groups :
      (items : List V) (groups : List (List ℕ))
      → length (map (λ g. members (members_at items g)) groups) ≡ length groups
  length-groups items [] = refl
  length-groups items (g ∷ groups) = ap suc (length-groups items groups)

  run_groups-Aligned :
      (spec : BatchSpec F V W) (calls : BatchCalls V W) (items : List V) (groups : List (List ℕ))
      (covered : List Bool)
      → Marked (replicate (length items) false) (all_of groups) covered
      → Gives (Aligned (length items)) (
          run_groups fl gk o group_schedule schedule accepts barrier repair on_result spec calls
            items groups covered)
  unfolding run_groups
  run_groups-Aligned spec calls items groups covered m =
      bind-Yields Unit (λ s. Unit) _ _ _ _
        (plain-Aligned fl gk (nested_options o o.observers.ledger) group_schedule false
          accepts_members (group_step spec repair calls o.observers.ledger)
          (map (λ g. members (members_at items g)) groups))
        (λ rs a.
          bind-Yields Unit (λ s. Unit) _ _ _ _
            (place_responses-Held on_result (length items) calls.split items groups rs
              (replicate (length items) empty_result, uncovered 0 covered)
              (a.long ∙ length-groups items groups) (first_Held (length items) covered groups m))
            (λ p h. repair_missing-Aligned items p.1 p.0 h))

  run_batched-Aligned :
      (spec : BatchSpec F V W) (items : List V)
      → Gives
          (Aligned (length items))
          (run_batched fl gk o group_schedule schedule accepts barrier repair on_result spec items)
  unfolding run_batched
  run_batched-Aligned spec items = by_calls spec.calls
    where
      accepted :
          (calls : BatchCalls V W) (r : Result (List Bool))
          → cover_groups (calls.group items) (replicate (length items) false) ≡ r
          → Gives (Aligned (length items)) (
              lift r
              >>= run_groups fl gk o group_schedule schedule accepts barrier repair on_result spec
                  calls items
                  (indexes_of (calls.group items)))
      accepted calls (ok covered) e =
          run_groups-Aligned spec calls items (indexes_of (calls.group items)) covered
            (cover_groups-Marked (calls.group items) _ covered e)
      accepted calls (err x) e = raise-Yields Unit (λ s. Unit) _ x tt

      by_repair :
          (calls : BatchCalls V W) (b : Bool)
          → Gives {F = F} {W = W} (Aligned {V = V} (length items)) (
              if b
              then checked_groups fl gk o group_schedule schedule accepts barrier repair on_result
                  spec calls items
                  (calls.group items)
              else raise (message "batched step %q needs a runnable repair step"))
      by_repair calls true = accepted calls _ refl
      by_repair calls false = raise-Yields Unit (λ s. Unit) _ (message _) tt

      by_calls :
          (c : Option (BatchCalls V W))
          → Gives {F = F} {W = W} (Aligned {V = V} (length items)) (elim c [
            | none ↦ raise (message "batched step %q needs Group, DoAll, and Split")
            | some calls ↦
                (if runnable repair
                  then checked_groups fl gk o group_schedule schedule accepts barrier repair
                      on_result spec calls items
                      (calls.group items)
                  else raise (message "batched step %q needs a runnable repair step"))
          ])
      by_calls none = raise-Yields Unit (λ s. Unit) _ (message _) tt
      by_calls (some calls) = by_repair calls (runnable repair)

  abbrev named : BatchSpec F V W → BatchSpec F V W
  named spec = record spec { name = batched_name spec.name repair.name }

  -- Run of a batched step returns an error or, for each item at its place, a value, a quarantine record
  -- with the item's index, or a skipped item: whatever its groups are and its group calls answer, and in
  -- whatever order its nested runs move, each item has a result of its group or of its repair.
  pub batched-Aligned :
      (outer : RunOptions F W) (outer_schedule : Schedule F V W) (spec : BatchSpec F V W)
      (items : List V)
      → Gives (Aligned (length items)) (
          run fl gk outer outer_schedule
            (batched fl gk o group_schedule schedule accepts barrier repair on_result spec)
            items)
  unfolding batched batched_with
  batched-Aligned outer outer_schedule spec items =
      run-Aligned fl gk outer outer_schedule
        (batched fl gk o group_schedule schedule accepts barrier repair on_result spec) items
        (stage_sound, tt) (run_batched-Aligned (named spec))
    where
      engine : List V → Act F W (List (ItemResult V))
      engine =
          run_batched fl gk o group_schedule schedule accepts barrier repair on_result (named spec)

      -- The stage is a run of the step, which has the same engine.
      stage_sound : OneResultEach (
          run fl gk
            (nested_options o o.observers.ledger)
            schedule
            (batched_with accepts repair (named spec) engine engine))
      stage_sound vs =
          weaken-Yields Unit (λ s. Unit) (Aligned (length vs)) _ _ (Aligned-each (length vs))
            (run-Aligned fl gk (nested_options o o.observers.ledger) schedule
              (batched_with accepts repair (named spec) engine engine) vs
              (
                (λ us.
                    weaken-Yields Unit (λ s. Unit) (Aligned (length us)) _ _
                      (Aligned-each (length us)) (run_batched-Aligned (named spec) us)),
                tt,
              )
              (run_batched-Aligned (named spec)))
