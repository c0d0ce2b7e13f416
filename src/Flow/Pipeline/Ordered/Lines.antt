-- ===== src/Flow/Pipeline/Ordered/Lines.antt =====
-- A move of a whole pipeline: advance and chosen, for runStages of flow/run.go.
use flowkit.Base.{
  ◌≡◌, refl, sym, ap, subst, ℕ, zero, suc, ◌<◌, Bool, true, false, Option, List, [], ◌∷◌, ◌++◌,
  length, All, All-append, arith, inl, inr, Bool-cases,
}
use flowkit.Base.Placed.{Memᴰ-append_left, Memᴰ-append_right, Memᴰ-append_cases}
use flowkit.Exec.{Exec}
use flowkit.Exec.Yields.{Yields, bind-Yields, pure-Yields}
use flowkit.Flow.Report.{Event}
use flowkit.Flow.Runner.{Item}
use flowkit.Flow.Pipeline.{
  Engine, streaming, draining, Phase, idle, running, drained, closed, is_closed, Post, Line,
  deliver, behind, can_run, can_advance, moves_left, move, advance, front, all_closed, chosen,
}
use flowkit.Flow.Pipeline.Ordered.Moves.{indexes, SameMembers, Rests, AtPost, Moved, move-Moved}
use flowkit.Flow.Pipeline.Ordered.Delivery.{
  waiting, Filled, Owed, deliver-Owed, length-deliver, moves_left-deliver, collect-Filled,
}

can_run-true : {S V : Type 0} (e : Engine S V) (q : List (Item V)) → can_run true e q ≡ true
can_run-true (streaming barrier handle) q = refl
can_run-true (draining run) q = refl

module _ {S V : Type 0} (Fails : Type 0) (Inv : S → Type 0) (P : ℕ → Item V → Type 0)
    (last total : ℕ) where
  -- The stages from the `k`-th on, of which `last` is the number after the last one.
  abbrev pub Standing : Bool → ℕ → List (Post S V) → Type 0
  Standing input_closed k [] = k ≡ last
  Standing input_closed k (p ∷ ps) =
      AtPost Fails Inv P input_closed k p × Standing (is_closed p.phase) (suc k) ps

  -- A move of the line from the stage `k` on.
  pub record Advanced (input_closed : Bool) (k : ℕ) (posts : List (Post S V))
      (results : List (Option (Item V))) (line : Line S V) : Type 0 where
    pub standing : Standing input_closed k line.posts
    pub filled : Filled total (P last) line.results
    pub owed : (n : ℕ) → n < total → Owed n posts results → Owed n line.posts line.results
    pub fewer : moves_left line.posts < moves_left posts
    pub long : length line.posts ≡ length posts

  Rests-open : (b : Bool) (ph : Phase) (q r : List (Item V)) → Rests false ph q → Rests b ph r
  Rests-open b idle q r h = tt
  Rests-open b running q r h = tt
  Rests-open b drained q r h = cc
  Rests-open b closed q r h = cc

  pub standing_sent :
      (b : Bool) (k : ℕ) (items : List (Item V)) (ps : List (Post S V))
      (results : List (Option (Item V)))
      → All (P k) items
      → Standing false k ps
      → Standing b k (deliver items ps results).posts
  unfolding deliver
  standing_sent b k items [] results h st = st
  standing_sent b k items (p ∷ ps) results h (at, st) = (
    record {
      law = at.law;
      items = All-append (P k) p.queue items at.items h;
      rests = Rests-open b p.phase p.queue _ at.rests;
    },
    st,
  )

  pub filled_sent :
      (b : Bool) (k : ℕ) (items : List (Item V)) (ps : List (Post S V))
      (results : List (Option (Item V)))
      → All (P k) items
      → Standing b k ps
      → Filled total (P last) results
      → Filled total (P last) (deliver items ps results).results
  unfolding deliver
  filled_sent b k items [] results h st f =
      collect-Filled total (P last) items results (subst (λ k. All (P k) items) st h) f
  filled_sent b k items (p ∷ ps) results h st f = f

  Owed-behind :
      (n : ℕ) (q : Post S V) (ps : List (Post S V)) (results : List (Option (Item V)))
      → Owed n ps results
      → Owed n (q ∷ ps) results
  Owed-behind n q ps results (inl h) = inl h
  Owed-behind n q ps results (inr m) = inr (Memᴰ-append_right (indexes q.queue) (waiting ps) m)

  Owed-moved :
      (n : ℕ) (p q : Post S V) (items : List (Item V)) (ps : List (Post S V))
      (results : List (Option (Item V)))
      → n < length results
      → SameMembers (indexes p.queue) (indexes items ++ indexes q.queue)
      → Owed n (p ∷ ps) results
      → Owed n (q ∷ (deliver items ps results).posts) (deliver items ps results).results
  Owed-moved n p q items ps results b same (inl has) =
      let sent = deliver items ps results in
      Owed-behind n q sent.posts sent.results (deliver-Owed n items ps results b (inl has))
  Owed-moved n p q items ps results b same (inr m) =
      let sent = deliver items ps results in
      elim (Memᴰ-append_cases (indexes p.queue) (waiting ps) m) [
        | inr g ↦
            Owed-behind n q sent.posts sent.results
              (deliver-Owed n items ps results b (inr (Memᴰ-append_right (indexes items) _ g)))
        | inl g ↦ elim (Memᴰ-append_cases (indexes items) (indexes q.queue) (same.there n g)) [
          | inl e ↦
              Owed-behind n q sent.posts sent.results
                (deliver-Owed n items ps results b (inr (Memᴰ-append_left (indexes items) _ e)))
          | inr e ↦ inr (Memᴰ-append_left (indexes q.queue) _ e)
        ]
      ]

  -- The first stage of those that are looked at moves.
  Moved-line :
      (c : Bool) (k : ℕ) (p : Post S V) (ps : List (Post S V)) (results : List (Option (Item V)))
      (out : Post S V × List (Item V))
      → Standing c k (p ∷ ps)
      → Filled total (P last) results
      → Moved Fails Inv P c k p out
      → Advanced c k (p ∷ ps) results (behind out.0 (deliver out.1 ps results))
  unfolding moves_left
  Moved-line c k p ps results (q, items) (at, st) f h = record {
    standing = (
      h.post,
      standing_sent (is_closed q.phase) (suc k) items ps results h.sent
          (subst (λ b. Standing b (suc k) ps) h.was_open st),
    );
    filled = filled_sent _ (suc k) items ps results h.sent st f;
    owed = λ n b o. Owed-moved n p q items ps results (subst (λ t. n < t) (sym f.long) b) h.same o;
    fewer =
        rw (length-deliver items ps results, moves_left-deliver items ps results)
          (omega (arith, h.fewer (length ps)));
    long = ap suc (length-deliver items ps results);
  }

  behind_moved :
      (c : Bool) (k : ℕ) (p : Post S V) (ps : List (Post S V)) (results : List (Option (Item V)))
      (line : Line S V)
      → AtPost Fails Inv P c k p
      → Advanced (is_closed p.phase) (suc k) ps results line
      → Advanced c k (p ∷ ps) results (behind p line)
  unfolding moves_left
  behind_moved c k p ps results line at a = record {
    standing = (at, a.standing);
    filled = a.filled;
    owed = λ n b o. after n b o;
    fewer = rw (a.long) (omega (arith, a.fewer));
    long = ap suc a.long;
  }
    where
      after : (n : ℕ) → n < total → Owed n (p ∷ ps) results → Owed n (p ∷ line.posts) line.results
      after n b (inl h) = Owed-behind n p line.posts line.results (a.owed n b (inl h))
      after n b (inr m) = elim (Memᴰ-append_cases (indexes p.queue) (waiting ps) m) [
        | inl g ↦ inr (Memᴰ-append_left (indexes p.queue) _ g)
        | inr g ↦ Owed-behind n p line.posts line.results (a.owed n b (inr g))
      ]

  -- The first stage that is not closed can move.
  can_front :
      (k : ℕ) (posts : List (Post S V))
      → Standing true k posts
      → all_closed posts ≡ false
      → can_advance true (front posts) posts ≡ true
  unfolding can_advance front all_closed
  can_front k [] st h = cc
  can_front k (p ∷ ps) (at, st) h = at_phase p.phase refl (can_front (suc k) ps)
    where
      at_phase :
          (ph : Phase)
          → p.phase ≡ ph
          → (Standing true (suc k) ps
              → all_closed ps ≡ false
              → can_advance true (front ps) ps ≡ true)
          → can_advance true (front (p ∷ ps)) (p ∷ ps) ≡ true
      at_phase idle e rest = rw (e) refl
      at_phase running e rest = rw (e) (can_run-true p.engine p.queue)
      at_phase drained e rest = rw (e) refl
      at_phase closed e rest =
          rw (e) (rest (subst (λ f. Standing (is_closed f) (suc k) ps) e st) (rw (e) at h))

  pub chosen_can :
      (k : ℕ) (posts : List (Post S V)) (pick : ℕ)
      → Standing true k posts
      → all_closed posts ≡ false
      → can_advance true (chosen pick posts) posts ≡ true
  unfolding chosen
  chosen_can k posts pick st h = elim (Bool-cases (can_advance true pick posts)) [
    | inl e ↦ rw (e) e
    | inr e ↦ rw (e) (can_front k posts st h)
  ]

  module _ (emit : Event → Exec S (Unit {0})) (events : ℕ)
      (emits : (e : Event) → Yields Fails Inv (λ u. Unit) (emit e)) where
    pub advance-Advanced :
        (c : Bool) (k pick j : ℕ) (posts : List (Post S V)) (results : List (Option (Item V)))
        → Standing c k posts
        → Filled total (P last) results
        → can_advance c pick posts ≡ true
        → Yields Fails Inv (Advanced c k posts results) (advance emit events pick j posts results)
    unfolding advance can_advance
    advance-Advanced c k pick j [] results st f go = cc
    advance-Advanced c k zero j (p ∷ ps) results (at, st) f go =
        bind-Yields Fails Inv _ _ (move emit events j p) _
          (move-Moved Fails Inv P emit events emits c k j p at go)
          (λ out h. pure-Yields Fails Inv _ _ (Moved-line c k p ps results out (at, st) f h))
    advance-Advanced c k (suc pick) j (p ∷ ps) results (at, st) f go =
        bind-Yields Fails Inv _ _ (advance emit events pick j ps results) _
          (advance-Advanced (is_closed p.phase) (suc k) pick j ps results st f go)
          (λ line a. pure-Yields Fails Inv _ _ (behind_moved c k p ps results line at a))
