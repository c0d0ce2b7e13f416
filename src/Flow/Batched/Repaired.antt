-- ===== src/Flow/Batched/Repaired.antt =====
-- Every item of a batched step has its result, from its group or from its repair: flow/batch.go.
use flowkit.Base.{
  ◌≡◌, ◌≢◌, refl, sym, ap, subst, ◌∙◌, ℕ, zero, suc, ◌<◌, String, Bool, true, false, Option, none,
  some, List, [], ◌∷◌, ◌++◌, length, set, get_elem?, All, length-set, get_elem?-set_self,
  get_elem?-set_ne, Bool-cases, arith, ◌⊎◌, inl, inr, ◌==◌, ==_iff,
}
use mathlib.Core.List.{Memᴰ, append-nil, append_assoc}
use flowkit.Errors.{Result}
use flowkit.Exec.{◌>>◌}
use flowkit.Exec.Yields.{bind-Yields, seq-Yields, pure-Yields}
use flowkit.Execution.Outcome.{no_outcome}
use flowkit.Flow.Policy.{ItemError}
use flowkit.Flow.Report.{ItemResult}
use flowkit.Flow.Runner.Whole.{Shape}
use flowkit.Flow.Stages.{at_item}
use flowkit.Flow.Stages.Kept.{ResultAt, IsResult}
use flowkit.Flow.Run.Aligned.{Gives, any}
use flowkit.Flow.Batched.{
  GroupValue, OnResult, Parsed, parsed_at, text_of, value_result, is_set_aside, members_at, observe,
  place_group, place_response, place_responses, place_repaired,
}
use flowkit.Flow.Batched.Covered.{all_of}

taken_out :
    (P : ℕ → Type 0) (xs : List ℕ) (i : ℕ) (ys : List ℕ)
    → All P (xs ++ i ∷ ys)
    → P i × All P (xs ++ ys)
taken_out P [] i ys (h, hs) = (h, hs)
taken_out P (x ∷ xs) i ys (h, hs) = let (p, rest) = taken_out P xs i ys hs in (p, (h, rest))

passed_over :
    (n : ℕ) (xs : List ℕ) (i : ℕ) (ys : List ℕ) → n ≢ i → Memᴰ n (xs ++ i ∷ ys) → Memᴰ n (xs ++ ys)
passed_over n [] i ys ne (Memᴰ.head e) = absurd (ne e)
passed_over n [] i ys ne (Memᴰ.tail h) = h
passed_over n (x ∷ xs) i ys ne (Memᴰ.head e) = Memᴰ.head e
passed_over n (x ∷ xs) i ys ne (Memᴰ.tail h) = Memᴰ.tail (passed_over n xs i ys ne h)

module _ {V : Type 0} where
  abbrev pub Settled : ℕ → List (ItemResult V) → Type 0
  Settled n results = (r : ItemResult V) × (get_elem? results n ≡ some r) × ResultAt n r

  -- Every index has its result, or is among those that still wait.
  pub record Held (total : ℕ) (results : List (ItemResult V)) (waiting : List ℕ) : Type 0 where
    pub long : length results ≡ total
    pub inside : All (λ i. i < total) waiting
    pub due : (n : ℕ) → n < total → Settled n results ⊎ Memᴰ n waiting

  -- A result that is put at its index settles it.
  settles :
      (total : ℕ) (results : List (ItemResult V)) (xs : List ℕ) (i : ℕ) (ys : List ℕ)
      (r : ItemResult V)
      → ResultAt i r
      → Held total results (xs ++ i ∷ ys)
      → Held total (set results i r) (xs ++ ys)
  settles total results xs i ys r good h = record {
    long = length-set results i r ∙ h.long;
    inside = (taken_out _ xs i ys h.inside).1;
    due = λ n b. elim (Bool-cases (i == n)) [
      | inl e ↦ inl (
        r,
        subst (λ m. get_elem? (set results i r) m ≡ some r) ((==_iff i n).0 e)
            (get_elem?-set_self results i r
              (omega (arith, h.long, (taken_out (λ j. j < total) xs i ys h.inside).0))),
        subst (λ m. ResultAt m r) ((==_iff i n).0 e) good,
      )
      | inr e ↦ elim (h.due n b) [
        | inl (s, at, fine) ↦
            inl (s, get_elem?-set_ne results r (λ q. ground (arith, e, q)) ∙ at, fine)
        | inr m ↦ inr (passed_over n xs i ys (λ q. ground (arith, e, q)) m)
      ]
    ];
  }

  regrouped :
      (total : ℕ) (results : List (ItemResult V)) (xs ys zs : List ℕ)
      → Held total results (xs ++ (ys ++ zs))
      → Held total results ((xs ++ ys) ++ zs)
  regrouped total results xs ys zs h = subst (Held total results) (sym (append_assoc xs ys zs)) h

  adjusted-At :
      (n i : ℕ) (v : Option V) (q : Option ItemError) (skipped : Bool)
      → Shape n v q skipped
      → Shape i v (at_item i q) skipped
  adjusted-At n i (some v) none false h = tt
  adjusted-At n i none (some e) false h = refl
  adjusted-At n i none none true h = tt
  adjusted-At n i none none false h = h
  adjusted-At n i none (some e) true h = h
  adjusted-At n i (some v) none true h = h
  adjusted-At n i (some v) (some e) true h = h
  adjusted-At n i (some v) (some e) false h = h

  pub has_item : (items : List V) (i : ℕ) → i < length items → get_elem? items i ≢ none
  has_item [] i h e = absurd (omega arith)
  has_item (x ∷ items) zero h e = cc
  has_item (x ∷ items) (suc i) h e = has_item items i (omega arith) e

  pub length-members_at :
      (items : List V) (is : List ℕ)
      → All (λ i. i < length items) is
      → length (members_at items is) ≡ length is
  unfolding members_at
  length-members_at items [] h = refl
  length-members_at items (i ∷ is) (h, hs) =
      found (get_elem? items i) refl (length-members_at items is hs)
    where
      found :
          (o : Option V)
          → get_elem? items i ≡ o
          → length (members_at items is) ≡ length is
          → length (elim o [ none ↦ members_at items is | some v ↦ v ∷ members_at items is ])
            ≡ suc (length is)
      found none e rest = absurd (has_item items i h e)
      found (some v) e rest = ap suc rest

module _ {F V W : Type 0} (on_result : OnResult V W) (total : ℕ) where
  place_group-Held :
      (parsed : Result (ℕ → Option V)) (k : ℕ) (is rest : List ℕ) (p : Parsed V)
      → Held total p.0 (p.1 ++ (is ++ rest))
      → Gives {F = F} (λ q. Held total q.0 (q.1 ++ rest)) (place_group on_result parsed k is p)
  unfolding place_group
  place_group-Held parsed k [] rest p h = pure-Yields Unit (λ s. Unit) _ p h
  place_group-Held parsed k (i ∷ is) rest p h =
      by_value (parsed_at parsed k)
        (place_group-Held parsed (suc k) is rest (p.0, p.1 ++ i ∷ [])
          (regrouped total p.0 p.1 (i ∷ []) (is ++ rest) h))
        (λ v.
          place_group-Held parsed (suc k) is rest (set p.0 i (value_result v), p.1)
            (settles total p.0 p.1 i (is ++ rest) (value_result v) tt h))
    where
      by_value :
          (o : Option V)
          → Gives {F = F}
              (λ q. Held total q.0 (q.1 ++ rest))
              (place_group on_result parsed (suc k) is (p.0, p.1 ++ i ∷ []))
          → ((v : V)
              → Gives {F = F}
                  (λ q. Held total q.0 (q.1 ++ rest))
                  (place_group on_result parsed (suc k) is (set p.0 i (value_result v), p.1)))
          → Gives {F = F}
              (λ q. Held total q.0 (q.1 ++ rest))
              (elim o [
                | none ↦ place_group on_result parsed (suc k) is (p.0, p.1 ++ i ∷ [])
                | some v ↦
                    observe on_result i v no_outcome
                    >> place_group on_result parsed (suc k) is (set p.0 i (value_result v), p.1)
              ])
      by_value none left right = left
      by_value (some v) left right =
          seq-Yields Unit (λ s. Unit) _ _ _ (any (observe on_result i v no_outcome)) (right v)

  place_response-Held :
      (split : String → List V → Result (ℕ → Option V)) (items : List V) (group rest : List ℕ)
      (r : ItemResult (GroupValue V)) (p : Parsed V)
      → Held total p.0 (p.1 ++ (group ++ rest))
      → Gives {F = F}
          (λ q. Held total q.0 (q.1 ++ rest))
          (place_response on_result split items group r p)
  unfolding place_response
  place_response-Held split items group rest r p h = elim (Bool-cases (is_set_aside r)) [
    | inl e ↦
        rw (e) (
          pure-Yields Unit (λ s. Unit) _ (p.0, p.1 ++ group) (regrouped total p.0 p.1 group rest h))
    | inr e ↦
        rw (e)
          (place_group-Held (split (text_of r.value) (members_at items group)) 0 group rest p h)
  ]

  -- After the responses, the indexes that have no result are those to repair.
  pub place_responses-Held :
      (split : String → List V → Result (ℕ → Option V)) (items : List V) (groups : List (List ℕ))
      (rs : List (ItemResult (GroupValue V))) (p : Parsed V)
      → length rs ≡ length groups
      → Held total p.0 (p.1 ++ all_of groups)
      → Gives {F = F} (λ q. Held total q.0 q.1) (place_responses on_result split items groups rs p)
  unfolding place_responses
  place_responses-Held split items [] rs p e h =
      pure-Yields Unit (λ s. Unit) _ p (subst (Held total p.0) (append-nil p.1) h)
  place_responses-Held split items (g ∷ groups) [] p e h = absurd (omega arith)
  place_responses-Held split items (g ∷ groups) (r ∷ rs) p e h =
      bind-Yields Unit (λ s. Unit) _ _ _ _ (place_response-Held split items g (all_of groups) r p h)
        (λ q k. place_responses-Held split items groups rs q (omega arith) k)

  pub place_repaired-Held :
      (is : List ℕ) (rs : List (ItemResult V)) (results : List (ItemResult V))
      → length rs ≡ length is
      → All IsResult rs
      → Held total results is
      → Gives {F = F} (λ out. Held total out []) (place_repaired on_result is rs results)
  unfolding place_repaired
  place_repaired-Held [] rs results e good h = pure-Yields Unit (λ s. Unit) _ results h
  place_repaired-Held (i ∷ is) [] results e good h = absurd (omega arith)
  place_repaired-Held (i ∷ is) (r ∷ rs) results e ((n, shape), good) h =
      seq-Yields Unit (λ s. Unit) _ _ _ (any _)
        (place_repaired-Held is rs
          (set results i (record r { quarantined = at_item i r.quarantined })) (omega arith) good
          (settles total results [] i is (record r { quarantined = at_item i r.quarantined })
            (adjusted-At n i r.value r.quarantined r.skipped shape) h))
