-- ===== src/Flow/Batched/Placed.antt =====
-- Where the responses to the group calls go: place_group, place_response and place_responses after the
-- coverage check, flow/batch.go.
use flowkit.Base.{
  ◌≡◌, refl, sym, ap, subst, ◌∙◌, ℕ, zero, suc, ◌+◌, ◌<◌, String, Bool, false, Option, none, some,
  List, [], ◌∷◌, ◌++◌, length, set, get_elem?, replicate, All, length-replicate, Bool-cases, arith,
  ◌⊎◌, inl, inr,
}
use mathlib.Core.List.{Memᴰ}
use flowkit.Base.Int.{ℤ}
use flowkit.Errors.{Result, ok, err}
use flowkit.Exec.{◌>>◌}
use flowkit.Exec.Yields.{After, bind-Yields, seq-Yields, pure-Yields}
use flowkit.Execution.Outcome.{no_outcome}
use flowkit.Flow.Observe.{Scene, Act}
use flowkit.Flow.Report.{ItemResult}
use flowkit.Flow.Run.Aligned.{Gives, any}
use flowkit.Flow.Batched.{
  GroupValue, OnResult, Parsed, parsed_at, text_of, value_result, is_set_aside, members_at, observe,
  place_group, place_response, place_responses, cover_groups, uncovered, empty_result,
}
use flowkit.Flow.Batched.Covered.{all_of, indexes_of, cover_groups-Marked}
use flowkit.Flow.Batched.Complete.{first_Held}
use flowkit.Flow.Batched.Repaired.{Settled, Held, has_item, place_responses-Held}

module _ {V : Type 0} (R : V → V → Type 0) where
  -- The values that Split has for positions from `k` on are right for the members there.
  abbrev pub Places : Result (ℕ → Option V) → ℕ → List V → Type 0
  Places parsed k [] = Unit {0}
  Places parsed k (x ∷ vs) =
      ((v : V) → parsed_at parsed k ≡ some v → R x v) × Places parsed (suc k) vs

  -- The caller's contract of Split: the value at a position is right for the member at it.
  abbrev pub SplitsRight : (String → List V → Result (ℕ → Option V)) → Type 0
  SplitsRight split = (text : String) (vs : List V) → Places (split text vs) 0 vs

  -- The results have their length, each index has its result or is to be repaired, and each value is
  -- right for the item of its index.
  pub record Sorted (items : List V) (q : Parsed V) : Type 0 where
    pub long : length q.0 ≡ length items
    pub due : (n : ℕ) → n < length items → Settled n q.0 ⊎ Memᴰ n q.1
    pub right :
        (n : ℕ) (x : V) (r : ItemResult V) (v : V)
        → get_elem? items n ≡ some x
        → get_elem? q.0 n ≡ some r
        → r.value ≡ some v
        → R x v

module _ {V : Type 0} (Right : ℕ → V → Type 0) where
  -- The values of the results from index `k` on are right.
  abbrev RightFrom : ℕ → List (ItemResult V) → Type 0
  RightFrom k [] = Unit {0}
  RightFrom k (r ∷ rs) = ((v : V) → r.value ≡ some v → Right k v) × RightFrom (suc k) rs

  set-RightFrom :
      (k i : ℕ) (rs : List (ItemResult V)) (r : ItemResult V)
      → ((v : V) → r.value ≡ some v → Right (k + i) v)
      → RightFrom k rs
      → RightFrom k (set rs i r)
  set-RightFrom k i [] r h g = tt
  set-RightFrom k zero (x ∷ rs) r h g = ((λ v e. subst (λ n. Right n v) (omega arith) (h v e)), g.1)
  set-RightFrom k (suc i) (x ∷ rs) r h g =
      (g.0, set-RightFrom (suc k) i rs r (λ v e. subst (λ n. Right n v) (omega arith) (h v e)) g.1)

  right_at :
      (k n : ℕ) (rs : List (ItemResult V)) (r : ItemResult V) (v : V)
      → RightFrom k rs
      → get_elem? rs n ≡ some r
      → r.value ≡ some v
      → Right (k + n) v
  right_at k n [] r v h e is = absurd (cc)
  right_at k zero (x ∷ rs) r v h e is =
      subst (λ m. Right m v) (omega arith)
        (h.0 v (ap (λ (y : ItemResult V). y.value) (some_is e) ∙ is))
    where
      some_is : {a b : ItemResult V} → some a ≡ some b → a ≡ b
      some_is e = cc
  right_at k (suc n) (x ∷ rs) r v h e is =
      subst (λ m. Right m v) (omega arith) (right_at (suc k) n rs r v h.1 e is)

  blank_right : (k n : ℕ) → RightFrom k (replicate n empty_result)
  blank_right k zero = tt
  blank_right k (suc n) = ((λ v e. absurd (cc)), blank_right (suc k) n)

  -- The values that have been parsed are right at the indexes of a group.
  abbrev AtPositions : Result (ℕ → Option V) → ℕ → List ℕ → Type 0
  AtPositions parsed k [] = Unit {0}
  AtPositions parsed k (i ∷ is) =
      ((v : V) → parsed_at parsed k ≡ some v → Right i v) × AtPositions parsed (suc k) is

module _ {F V W : Type 0} (on_result : OnResult V W) (Right : ℕ → V → Type 0) where
  abbrev StaysRight : Act F W (Parsed V) → Type 0
  StaysRight m = Gives (λ q. RightFrom Right 0 q.0) m

  place_group-RightFrom :
      (parsed : Result (ℕ → Option V)) (k : ℕ) (is : List ℕ) (p : Parsed V)
      → AtPositions Right parsed k is
      → RightFrom Right 0 p.0
      → StaysRight (place_group on_result parsed k is p)
  unfolding place_group
  place_group-RightFrom parsed k [] p at h = pure-Yields Unit (λ s. Unit) _ p h
  place_group-RightFrom parsed k (i ∷ is) p at h =
      by_value (parsed_at parsed k) at.0
        (place_group-RightFrom parsed (suc k) is (p.0, p.1 ++ i ∷ []) at.1 h)
        (λ v r.
          place_group-RightFrom parsed (suc k) is (set p.0 i (value_result v), p.1) at.1
            (set-RightFrom Right 0 i p.0 (value_result v)
              (λ o e. subst (λ n. Right n o) (omega arith) (subst (Right i) (some_is e) r)) h))
    where
      some_is : {a b : V} → some a ≡ some b → a ≡ b
      some_is e = cc

      by_value :
          (o : Option V)
          → ((v : V) → o ≡ some v → Right i v)
          → StaysRight (place_group on_result parsed (suc k) is (p.0, p.1 ++ i ∷ []))
          → ((v : V)
              → Right i v
              → StaysRight
                  (place_group on_result parsed (suc k) is (set p.0 i (value_result v), p.1)))
          → StaysRight (elim o [
            | none ↦ place_group on_result parsed (suc k) is (p.0, p.1 ++ i ∷ [])
            | some v ↦
                observe on_result i v no_outcome
                >> place_group on_result parsed (suc k) is (set p.0 i (value_result v), p.1)
          ])
      by_value none good left right = left
      by_value (some v) good left right =
          seq-Yields Unit (λ s. Unit) _ _ _ (any (observe on_result i v no_outcome))
            (right v (good v refl))

module _ {V : Type 0} (R : V → V → Type 0) (items : List V) where
  abbrev RightFor : ℕ → V → Type 0
  RightFor n v = (x : V) → get_elem? items n ≡ some x → R x v

  members-AtPositions :
      (parsed : Result (ℕ → Option V)) (k : ℕ) (is : List ℕ)
      → All (λ i. i < length items) is
      → Places R parsed k (members_at items is)
      → AtPositions RightFor parsed k is
  unfolding members_at
  members-AtPositions parsed k [] b h = tt
  members-AtPositions parsed k (i ∷ is) b h =
      found (get_elem? items i) refl h (λ j g. members-AtPositions parsed j is b.1 g)
    where
      some_is : {a b : V} → some a ≡ some b → a ≡ b
      some_is e = cc

      found :
          (o : Option V)
          → get_elem? items i ≡ o
          → Places R parsed k
              (elim o [ none ↦ members_at items is | some v ↦ v ∷ members_at items is ])
          → ((j : ℕ) → Places R parsed j (members_at items is) → AtPositions RightFor parsed j is)
          → AtPositions RightFor parsed k (i ∷ is)
      found none e h rest = absurd (has_item items i b.0 e)
      found (some y) e h rest =
          ((λ v p x g. subst (λ z. R z v) (some_is (sym e ∙ g)) (h.0 v p)), rest (suc k) h.1)

module _ {F V W : Type 0} (on_result : OnResult V W) (R : V → V → Type 0)
    (split : String → List V → Result (ℕ → Option V)) (law : SplitsRight R split)
    (items : List V) where
  place_response-RightFrom :
      (group : List ℕ) (r : ItemResult (GroupValue V)) (p : Parsed V)
      → All (λ i. i < length items) group
      → RightFrom (RightFor R items) 0 p.0
      → StaysRight {F = F} on_result
          (RightFor R items)
          (place_response on_result split items group r p)
  unfolding place_response
  place_response-RightFrom group r p b h = elim (Bool-cases (is_set_aside r)) [
    | inl e ↦ rw (e) (pure-Yields Unit (λ s. Unit) _ (p.0, p.1 ++ group) h)
    | inr e ↦ rw (e) (
        place_group-RightFrom on_result (RightFor R items)
          (split (text_of r.value) (members_at items group)) 0 group p
          (members-AtPositions R items (split (text_of r.value) (members_at items group)) 0 group b
            (law (text_of r.value) (members_at items group)))
          h)
  ]

  place_responses-RightFrom :
      (groups : List (List ℕ)) (rs : List (ItemResult (GroupValue V))) (p : Parsed V)
      → All (λ i. i < length items) (all_of groups)
      → RightFrom (RightFor R items) 0 p.0
      → StaysRight {F = F} on_result
          (RightFor R items)
          (place_responses on_result split items groups rs p)
  unfolding place_responses
  place_responses-RightFrom [] rs p b h = pure-Yields Unit (λ s. Unit) _ p h
  place_responses-RightFrom (g ∷ groups) [] p b h = pure-Yields Unit (λ s. Unit) _ p h
  place_responses-RightFrom (g ∷ groups) (r ∷ rs) p b h =
      let (first, rest) = all_parts g (all_of groups) b in
      bind-Yields Unit (λ s. Unit) _ _ _ _ (place_response-RightFrom g r p first h)
        (λ q k. place_responses-RightFrom groups rs q rest k)
    where
      all_parts :
          (xs ys : List ℕ)
          → All (λ i. i < length items) (xs ++ ys)
          → All (λ i. i < length items) xs × All (λ i. i < length items) ys
      all_parts [] ys a = (tt, a)
      all_parts (x ∷ xs) ys a = let (l, r) = all_parts xs ys a.1 in ((a.0, l), r)

  -- After the coverage check has let some groups through, and with one response for each group: every
  -- index has its result or is to be repaired, those of refused groups, of positions without a value
  -- and of no group included; and every value is right for the item at its index, by any relation that
  -- Split keeps at the positions of a group.
  pub place_responses-Sorted :
      (groups : List (List ℤ)) (covered : List Bool) (rs : List (ItemResult (GroupValue V)))
      → cover_groups groups (replicate (length items) false) ≡ ok covered
      → length rs ≡ length groups
      → Gives {F = F} (Sorted R items) (
          place_responses on_result split items
            (indexes_of groups)
            rs
            (replicate (length items) empty_result, uncovered 0 covered))
  place_responses-Sorted groups covered rs e long =
      let m = cover_groups-Marked groups (replicate (length items) false) covered e in
      record {
        at = λ s u.
            both _
              ((place_responses-Held on_result (length items) split items (indexes_of groups) rs
                  (replicate (length items) empty_result, uncovered 0 covered)
                  (long ∙ sym (length-indexes groups))
                  (first_Held (length items) covered (indexes_of groups) m)).at
                s u)
              ((place_responses-RightFrom (indexes_of groups) rs
                  (replicate (length items) empty_result, uncovered 0 covered)
                  (subst (λ n. All (λ i. i < n) (all_of (indexes_of groups)))
                    (length-replicate (length items) false) m.inside)
                  (blank_right (RightFor R items) 0 (length items))).at
                s u);
      }
    where
      length-indexes : (groups : List (List ℤ)) → length (indexes_of groups) ≡ length groups
      length-indexes [] = refl
      length-indexes (g ∷ gs) = ap suc (length-indexes gs)

      both :
          (x : Result (Parsed V) × Scene F W)
          → After Unit (λ s. Unit) (λ q. Held (length items) q.0 q.1) x
          → After Unit (λ s. Unit) (λ q. RightFrom (RightFor R items) 0 q.0) x
          → After Unit (λ s. Unit) (Sorted R items) x
      both (ok q, s) (h, u) (r, v) = (
        record {
          long = h.long;
          due = h.due;
          right = λ n x y o at there is.
              right_at (RightFor R items) 0 n q.0 y o r there is x
                (subst (λ m. get_elem? items m ≡ some x) (omega arith) at);
        },
        u,
      )
      both (err e, s) h r = (tt, tt)
