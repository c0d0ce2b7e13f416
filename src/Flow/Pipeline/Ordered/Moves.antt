-- ===== src/Flow/Pipeline/Ordered/Moves.antt =====
-- One move of a stage of a pipeline: flow/run.go.
use flowkit.Base.{
  String, ◌≡◌, refl, sym, ap, subst, ◌∙◌, ℕ, zero, suc, ◌+◌, ◌*◌, ◌<◌, Bool, true, false, List, [],
  ◌∷◌, ◌++◌, map, length, All, arith,
}
use mathlib.Core.List.{Memᴰ, Permᴰ, append-nil}
use flowkit.Base.Placed.{Memᴰ-Permᴰ, Permᴰ-Memᴰ, length-Permᴰ}
use flowkit.Errors.{wrapped}
use flowkit.Exec.{Exec, ◌>>◌, pure}
use flowkit.Exec.Yields.{wrapping-Yields, Yields, bind-Yields, seq-Yields, pure-Yields}
use flowkit.Flow.Report.{Event, step_started, step_completed}
use flowkit.Flow.Runner.{Item}
use flowkit.Flow.Pipeline.{
  Engine, streaming, draining, Phase, idle, running, drained, closed, is_closed, Post, pick_at,
  can_run, can_go, can_move, phase_moves, stage_event, work_on, move_in, move,
}

abbrev pub indexes : {V : Type 0} → List (Item V) → List ℕ
indexes items = map (λ i. i.index) items

-- Two lists have the same members.
pub record SameMembers (xs ys : List ℕ) : Type 0 where
  pub there : (n : ℕ) → Memᴰ n xs → Memᴰ n ys
  pub back : (n : ℕ) → Memᴰ n ys → Memᴰ n xs

pub SameMembers-refl : (xs : List ℕ) → SameMembers xs xs
SameMembers-refl xs = record { there = λ n h. h; back = λ n h. h }

module _ {V : Type 0} where
  pick_at-All :
      (Q : Item V → Type 0) (j : ℕ) (x : Item V) (xs : List (Item V))
      → Q x
      → All Q xs
      → Q (pick_at j x xs).0 × All Q (pick_at j x xs).1
  unfolding pick_at
  pick_at-All Q zero x xs h hs = (h, hs)
  pick_at-All Q (suc j) x [] h hs = (h, hs)
  pick_at-All Q (suc j) x (y ∷ ys) h (k, hs) =
      let rest = pick_at-All Q j y ys k hs in (rest.0, (h, rest.1))

  length-pick_at : (j : ℕ) (x : Item V) (xs : List (Item V)) → length (pick_at j x xs).1 ≡ length xs
  unfolding pick_at
  length-pick_at zero x xs = refl
  length-pick_at (suc j) x [] = refl
  length-pick_at (suc j) x (y ∷ ys) = ap suc (length-pick_at j y ys)

  -- The item that is taken and those that stay are the items that waited.
  taken_there :
      (n j : ℕ) (x : Item V) (xs : List (Item V))
      → Memᴰ n (indexes (x ∷ xs))
      → Memᴰ n ((pick_at j x xs).0.index ∷ indexes (pick_at j x xs).1)
  unfolding pick_at
  taken_there n zero x xs h = h
  taken_there n (suc j) x [] h = h
  taken_there n (suc j) x (y ∷ ys) (Memᴰ.head e) = Memᴰ.tail (Memᴰ.head e)
  taken_there n (suc j) x (y ∷ ys) (Memᴰ.tail h) = shifted (taken_there n j y ys h)
    where
      shifted :
          Memᴰ n ((pick_at j y ys).0.index ∷ indexes (pick_at j y ys).1)
          → Memᴰ n ((pick_at j y ys).0.index ∷ x.index ∷ indexes (pick_at j y ys).1)
      shifted (Memᴰ.head e) = Memᴰ.head e
      shifted (Memᴰ.tail h) = Memᴰ.tail (Memᴰ.tail h)

  taken_back :
      (n j : ℕ) (x : Item V) (xs : List (Item V))
      → Memᴰ n ((pick_at j x xs).0.index ∷ indexes (pick_at j x xs).1)
      → Memᴰ n (indexes (x ∷ xs))
  unfolding pick_at
  taken_back n zero x xs h = h
  taken_back n (suc j) x [] h = h
  taken_back n (suc j) x (y ∷ ys) (Memᴰ.head e) = Memᴰ.tail (taken_back n j y ys (Memᴰ.head e))
  taken_back n (suc j) x (y ∷ ys) (Memᴰ.tail (Memᴰ.head e)) = Memᴰ.head e
  taken_back n (suc j) x (y ∷ ys) (Memᴰ.tail (Memᴰ.tail h)) =
      Memᴰ.tail (taken_back n j y ys (Memᴰ.tail h))

length-indexes : {V : Type 0} (items : List (Item V)) → length (indexes items) ≡ length items
length-indexes [] = refl
length-indexes (i ∷ items) = ap suc (length-indexes items)

-- A stage that has drained its stream has no item left, and its input is closed.
abbrev pub Rests : {V : Type 0} → Bool → Phase → List (Item V) → Type 0
Rests input_closed drained queue = (input_closed ≡ true) × (queue ≡ [])
Rests input_closed closed queue = (input_closed ≡ true) × (queue ≡ [])
Rests input_closed phase queue = Unit

-- What the pipeline relies on: `P k` holds of the items before the stage `k`, and the stage makes of
-- them, at the same indexes, items of which `P (k + 1)` holds.
module _ {S V : Type 0} (Fails : Type 0) (Inv : S → Type 0) (P : ℕ → Item V → Type 0) where
  abbrev pub Performs : ℕ → Engine S V → Type 0
  Performs k (streaming barrier handle) =
      (i : Item V) → P k i → Yields Fails Inv (λ o. (o.index ≡ i.index) × P (suc k) o) (handle i)
  Performs k (draining run) =
      (items : List (Item V))
      → All (P k) items
      → Yields Fails Inv (λ outs. Permᴰ (indexes outs) (indexes items) × All (P (suc k)) outs)
          (run items)

  pub record AtPost (input_closed : Bool) (k : ℕ) (p : Post S V) : Type 0 where
    pub law : Performs k p.engine
    pub items : All (P k) p.queue
    pub rests : Rests input_closed p.phase p.queue

  -- What a move of a stage leaves, with `r` stages behind it.
  pub record Moved (input_closed : Bool) (k : ℕ) (p : Post S V) (out : Post S V × List (Item V))
      : Type 0 where
    pub post : AtPost input_closed k out.0
    pub sent : All (P (suc k)) out.1
    pub same : SameMembers (indexes p.queue) (indexes out.1 ++ indexes out.0.queue)
    pub fewer :
        (r : ℕ)
        → phase_moves out.0.phase + length out.0.queue * suc r + length out.1 * r
          < phase_moves p.phase + length p.queue * suc r
    pub was_open : is_closed p.phase ≡ false

  module _ (emit : Event → Exec S (Unit {0})) (total : ℕ)
      (emits : (e : Event) → Yields Fails Inv (λ u. Unit) (emit e)) where
    abbrev at_phase : String → Engine S V → Phase → List (Item V) → Post S V
    at_phase name e ph q = record { name = name; engine = e; phase = ph; queue = q }

    -- The start of a stage, and its end with no item left.
    announced :
        (c : Bool) (k : ℕ) (name : String) (e : Engine S V) (q : List (Item V)) (ph next : Phase)
        (event : Event)
        → Performs k e
        → All (P k) q
        → Rests c next q
        → phase_moves next < phase_moves ph
        → is_closed ph ≡ false
        → Yields Fails Inv
            (Moved c k (at_phase name e ph q))
            (emit event >> pure (at_phase name e next q, []))
    announced c k name e q ph next event law items rests below still =
        seq-Yields Fails Inv _ (emit event) _ (emits event) (
          pure-Yields Fails Inv _ _ (record {
            post = record { law = law; items = items; rests = rests };
            sent = tt;
            same = SameMembers-refl (indexes q);
            fewer = λ r. omega arith;
            was_open = still;
          }))

    sent_one :
        (c : Bool) (k j : ℕ) (name : String) (b : Bool) (h : Item V → Exec S (Item V)) (i : Item V)
        (items : List (Item V)) (o : Item V)
        → Performs k (streaming b h)
        → All (P k) (i ∷ items)
        → (o.index ≡ (pick_at j i items).0.index) × P (suc k) o
        → Moved c k
            (at_phase name (streaming b h) running (i ∷ items))
            (at_phase name (streaming b h) running (pick_at j i items).1, o ∷ [])
    sent_one c k j name b h i items o law at (same, good) = record {
      post = record { law = law; items = (pick_at-All (P k) j i items at.0 at.1).1; rests = tt };
      sent = (good, tt);
      same = record {
        there = λ n m.
            subst (λ t. Memᴰ n (t ∷ indexes (pick_at j i items).1)) (sym same)
              (taken_there n j i items m);
        back = λ n m.
            taken_back n j i items (subst (λ t. Memᴰ n (t ∷ indexes (pick_at j i items).1)) same m);
      };
      fewer = λ r. omega (arith, ap (λ (t : ℕ). t * suc r) (length-pick_at j i items));
      was_open = refl;
    }

    sent_all :
        (k : ℕ) (name : String) (run : List (Item V) → Exec S (List (Item V)))
        (items outs : List (Item V))
        → Performs k (draining run)
        → Permᴰ (indexes outs) (indexes items) × All (P (suc k)) outs
        → Moved true k
            (at_phase name (draining run) running items)
            (at_phase name (draining run) drained [], outs)
    sent_all k name run items outs law (perm, good) = record {
      post = record { law = law; items = tt; rests = (refl, refl) };
      sent = good;
      same =
          rw (append-nil)
            (record { there = λ n m. Memᴰ-Permᴰ perm m; back = λ n m. Permᴰ-Memᴰ perm m });
      fewer = λ r. omega (
        arith,
        ap (λ (t : ℕ). t * r)
            (sym (length-indexes outs) ∙ length-Permᴰ perm ∙ length-indexes items),
      );
      was_open = refl;
    }

    work_on-Moved :
        (c : Bool) (k j : ℕ) (name : String) (e : Engine S V) (q : List (Item V))
        → Performs k e
        → All (P k) q
        → can_run c e q ≡ true
        → Yields Fails Inv
            (Moved c k (at_phase name e running q))
            (work_on emit total j (at_phase name e running q) e q)
    unfolding work_on
    work_on-Moved c k j name (streaming b h) [] law items go =
        announced c k name (streaming b h) [] running closed (stage_event step_completed name total)
          law items (ground arith, refl) (omega arith) refl
    work_on-Moved c k j name (streaming b h) (i ∷ items) law at go =
        bind-Yields Fails Inv _ _ (h (pick_at j i items).0) _
          (law (pick_at j i items).0 (pick_at-All (P k) j i items at.0 at.1).0)
          (λ o good. pure-Yields Fails Inv _ _ (sent_one c k j name b h i items o law at good))
    work_on-Moved c k j name (draining run) q law items go =
        bind-Yields Fails Inv _ _ (run q) _ (law q items) (λ outs h. pure-Yields Fails Inv _ _ (
          subst
            (λ b.
              Moved b k (at_phase name (draining run) running q)
                (at_phase name (draining run) drained [], outs))
            (sym go) (sent_all k name run q outs law h)))

    move_in-Moved :
        (c : Bool) (k j : ℕ) (name : String) (e : Engine S V) (ph : Phase) (q : List (Item V))
        → AtPost c k (at_phase name e ph q)
        → can_go c ph e q ≡ true
        → Yields Fails Inv
            (Moved c k (at_phase name e ph q))
            (move_in emit total j (at_phase name e ph q) ph)
    unfolding move_in
    move_in-Moved c k j name e idle q at go =
        announced c k name e q idle running (stage_event step_started name total) at.law at.items tt
          (omega arith) refl
    move_in-Moved c k j name e running q at go = work_on-Moved c k j name e q at.law at.items go
    move_in-Moved c k j name e drained q at go =
        announced c k name e q drained closed (stage_event step_completed name total) at.law
          at.items at.rests (omega arith) refl
    move_in-Moved c k j name e closed q at go = cc

    pub move-Moved :
        (c : Bool) (k j : ℕ) (p : Post S V)
        → AtPost c k p
        → can_move c p ≡ true
        → Yields Fails Inv (Moved c k p) (move emit total j p)
    unfolding move
    move-Moved c k j p at go =
        wrapping-Yields Fails Inv _ (wrapped "stage %q") (move_in emit total j p p.phase)
          (move_in-Moved c k j p.name p.engine p.phase p.queue at go)
