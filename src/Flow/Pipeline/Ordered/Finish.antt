-- ===== src/Flow/Pipeline/Ordered/Finish.antt =====
-- A whole run of a pipeline: drive and run_stages, for runStages of flow/run.go.
use flowkit.Base.{
  String, none, none, replicate, length-replicate, ◌≡◌, refl, sym, ap, subst, ℕ, zero, suc, ◌<◌,
  ◌≤◌, Bool, true, false, Option, some, List, [], ◌∷◌, length, get_elem?, All, arith, inl, inr,
  Bool-cases,
}
use mathlib.Core.List.{Memᴰ}
use flowkit.Base.Placed.{Memᴰ-append_left}
use flowkit.Exec.{Exec}
use flowkit.Exec.Yields.{Yields, bind-Yields, pure-Yields}
use flowkit.Flow.Report.{Event}
use flowkit.Flow.Runner.{Item}
use flowkit.Flow.Pipeline.{
  Engine, Phase, idle, running, drained, closed, is_closed, Post, deliver, phase_moves, moves_left,
  advance, all_closed, chosen, drive, open_line, run_stages,
}
use flowkit.Flow.Pipeline.Ordered.Moves.{indexes, Performs, Rests}
use flowkit.Flow.Pipeline.Ordered.Lines.{
  Standing, standing_sent, filled_sent, chosen_can, advance-Advanced,
}
use flowkit.Flow.Pipeline.Ordered.Delivery.{waiting, Filled, Owed, deliver-Owed}

-- The results of all indexes, at their indexes.
pub record Complete {V : Type 0} (total : ℕ) (Good : Item V → Type 0)
    (results : List (Option (Item V))) : Type 0 where
  pub long : length results ≡ total
  pub at :
      (n : ℕ)
      → n < total
      → (o : Item V) × (get_elem? results n ≡ some (some o)) × (o.index ≡ n) × Good o

no_item : {V : Type 0} (n k : ℕ) (o : Item V) → get_elem? (replicate k none) n ≡ some (some o) → ⊥
no_item n zero o h = cc
no_item zero (suc k) o h = cc
no_item (suc n) (suc k) o h = no_item n k o h

module _ {S V : Type 0} (Fails : Type 0) (Inv : S → Type 0) (P : ℕ → Item V → Type 0)
    (last : ℕ) where
  -- What each stage of a list, the `k`-th first, does with its items.
  abbrev pub AllPerform : ℕ → List (String × Engine S V) → Type 0
  AllPerform k [] = k ≡ last
  AllPerform k ((name, engine) ∷ stages) = Performs Fails Inv P k engine × AllPerform (suc k) stages

module _ {S V : Type 0} (Fails : Type 0) (Inv : S → Type 0) (P : ℕ → Item V → Type 0)
    (last total : ℕ) where
  none_waits :
      (c : Bool) (k : ℕ) (posts : List (Post S V))
      → Standing Fails Inv P last total c k posts
      → all_closed posts ≡ true
      → waiting posts ≡ []
  unfolding all_closed
  none_waits c k [] st h = refl
  none_waits c k (p ∷ ps) (at, st) h =
      at_phase p.phase refl (none_waits (is_closed p.phase) (suc k) ps st)
    where
      at_phase :
          (ph : Phase)
          → p.phase ≡ ph
          → (all_closed ps ≡ true → waiting ps ≡ [])
          → waiting (p ∷ ps) ≡ []
      at_phase idle e rest = absurd (ground (arith, h, e))
      at_phase running e rest = absurd (ground (arith, h, e))
      at_phase drained e rest = absurd (ground (arith, h, e))
      at_phase closed e rest =
          let (o, none_left) = subst (λ f. Rests c f p.queue) e at.rests in
          rw (none_left, rest (rw (e) at h)) refl

  no_moves : (posts : List (Post S V)) → moves_left posts ≡ 0 → all_closed posts ≡ true
  unfolding moves_left all_closed
  no_moves [] h = refl
  no_moves (p ∷ ps) h = at_phase p.phase refl (no_moves ps (omega arith))
    where
      at_phase : (ph : Phase) → p.phase ≡ ph → all_closed ps ≡ true → all_closed (p ∷ ps) ≡ true
      at_phase idle e rest = absurd (omega (arith, ap phase_moves e))
      at_phase running e rest = absurd (omega (arith, ap phase_moves e))
      at_phase drained e rest = absurd (omega (arith, ap phase_moves e))
      at_phase closed e rest = rw (e) rest

  Complete-line :
      (posts : List (Post S V)) (results : List (Option (Item V)))
      → Standing Fails Inv P last total true 0 posts
      → Filled total (P last) results
      → ((n : ℕ) → n < total → Owed n posts results)
      → all_closed posts ≡ true
      → Complete total (P last) results
  Complete-line posts results st f owed h = record { long = f.long; at = λ n b. found n (owed n b) }
    where
      found :
          (n : ℕ)
          → Owed n posts results
          → (o : Item V) × (get_elem? results n ≡ some (some o)) × (o.index ≡ n) × P last o
      found n (inl (o, e)) = let (same, good) = f.at n o e in (o, e, same, good)
      found n (inr m) = elim (subst (λ t. Memᴰ n t) (none_waits true 0 posts st h) m) [ ]

  module _ (emit : Event → Exec S (Unit {0})) (events : ℕ)
      (emits : (e : Event) → Yields Fails Inv (λ u. Unit) (emit e)) where
    drive-Yields :
        (schedule : ℕ → List (Post S V) → ℕ × ℕ) (fuel : ℕ) (posts : List (Post S V))
        (results : List (Option (Item V)))
        → moves_left posts ≤ fuel
        → Standing Fails Inv P last total true 0 posts
        → Filled total (P last) results
        → ((n : ℕ) → n < total → Owed n posts results)
        → Yields Fails Inv (Complete total (P last)) (drive emit events schedule fuel posts results)
    unfolding drive
    drive-Yields schedule zero posts results h st f owed = rw (no_moves posts (omega arith)) (
        pure-Yields Fails Inv _ _
          (Complete-line posts results st f owed (no_moves posts (omega arith))))
    drive-Yields schedule (suc fuel) posts results h st f owed =
        elim (Bool-cases (all_closed posts)) [
          | inl e ↦ rw (e) (pure-Yields Fails Inv _ _ (Complete-line posts results st f owed e))
          | inr e ↦ rw (e) (
              bind-Yields Fails Inv _ _
                (advance emit events (chosen (schedule fuel posts).0 posts) (schedule fuel posts).1
                  posts results)
                _
                (advance-Advanced Fails Inv P last total emit events emits true 0
                  (chosen (schedule fuel posts).0 posts) (schedule fuel posts).1 posts results st f
                  (chosen_can Fails Inv P last total 0 posts (schedule fuel posts).0 st e))
                (λ line a.
                  drive-Yields schedule fuel line.posts line.results (omega (arith, a.fewer))
                    a.standing a.filled (λ n b. a.owed n b (owed n b))))
        ]

  opened :
      (k : ℕ) (stages : List (String × Engine S V))
      → AllPerform Fails Inv P last k stages
      → Standing Fails Inv P last total false k (open_line stages)
  unfolding open_line
  opened k [] h = h
  opened k ((name, engine) ∷ stages) (law, h) =
      (record { law = law; items = tt; rests = tt }, opened (suc k) stages h)

-- Whatever the order in which the stages and their workers move, a pipeline ends, and it has for
-- every index an item of that index of which `P` of the last stage holds: if the inputs have all the
-- indexes below their number, `P 0` holds of them, and each stage makes of items with `P k`, at the
-- same indexes, items with `P (k + 1)`. It fails only where a stage or the ledger does.
pub run_stages-Complete :
    {S V : Type 0} (Fails : Type 0) (Inv : S → Type 0) (P : ℕ → Item V → Type 0)
    (emit : Event → Exec S (Unit {0})) (schedule : ℕ → List (Post S V) → ℕ × ℕ)
    (stages : List (String × Engine S V)) (inputs : List (Item V))
    → ((e : Event) → Yields Fails Inv (λ u. Unit) (emit e))
    → AllPerform Fails Inv P (length stages) 0 stages
    → All (P 0) inputs
    → ((n : ℕ) → n < length inputs → Memᴰ n (indexes inputs))
    → Yields Fails Inv
        (Complete (length inputs) (P (length stages)))
        (run_stages emit schedule stages inputs)
unfolding run_stages
run_stages-Complete Fails Inv P emit schedule stages inputs emits law at covers =
    let fresh = replicate (length inputs) none in
    let line = deliver inputs (open_line stages) fresh in
    let start = opened Fails Inv P (length stages) (length inputs) 0 stages law in
    drive-Yields Fails Inv P (length stages) (length inputs) emit (length inputs) emits schedule
      (moves_left line.posts) line.posts line.results (omega arith)
      (standing_sent Fails Inv P (length stages) (length inputs) true 0 inputs (open_line stages)
        fresh at start)
      (filled_sent Fails Inv P (length stages) (length inputs) false 0 inputs (open_line stages)
        fresh at start
        (record {
          long = length-replicate (length inputs) none;
          at = λ n o h. absurd (no_item n (length inputs) o h);
        }))
      (λ n b.
        deliver-Owed n inputs (open_line stages) fresh
          (subst (λ t. n < t) (sym (length-replicate (length inputs) none)) b)
          (inr (Memᴰ-append_left (indexes inputs) (waiting (open_line stages)) (covers n b))))
