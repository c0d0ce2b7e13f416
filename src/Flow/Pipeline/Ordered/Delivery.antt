-- ===== src/Flow/Pipeline/Ordered/Delivery.antt =====
-- What is sent along a pipeline, and a move of the whole line: flow/run.go.
use flowkit.Base.{
  ◌≡◌, refl, ap, subst, ◌∙◌, ℕ, zero, suc, ◌+◌, ◌*◌, ◌<◌, Option, some, List, [], ◌∷◌, ◌++◌, length,
  set, get_elem?, All, length-append, length-set, get_elem?-set_self, arith, ◌⊎◌, inl, inr,
}
use mathlib.Core.List.{Memᴰ, append-nil, map-append}
use flowkit.Base.Placed.{Memᴰ-append_rotate}
use flowkit.Flow.Runner.{Item}
use flowkit.Flow.Pipeline.{Post, collect, deliver, moves_left}
use flowkit.Flow.Pipeline.Ordered.Moves.{indexes}

module _ {S V : Type 0} where
  -- The indexes of the items that wait in the channels.
  abbrev pub waiting : List (Post S V) → List ℕ
  waiting [] = []
  waiting (p ∷ ps) = indexes p.queue ++ waiting ps

set_cases :
    {A : Type 0} (xs : List A) (i : ℕ) (v : A) (n : ℕ) (o : A)
    → get_elem? (set xs i v) n ≡ some o
    → ((i ≡ n) × (v ≡ o)) ⊎ (get_elem? xs n ≡ some o)
set_cases [] i v n o h = inr h
set_cases (x ∷ xs) zero v zero o h = inl (refl, cc)
set_cases (x ∷ xs) zero v (suc n) o h = inr h
set_cases (x ∷ xs) (suc i) v zero o h = inr h
set_cases (x ∷ xs) (suc i) v (suc n) o h = elim (set_cases xs i v n o h) [
  | inl (e, f) ↦ inl (ap suc e, f)
  | inr f ↦ inr f
]

module _ {V : Type 0} where
  -- The collector has the item of an index.
  abbrev pub Has : ℕ → List (Option (Item V)) → Type 0
  Has n results = (o : Item V) × (get_elem? results n ≡ some (some o))

  -- What stands in the results stands at its index, and `Good` holds of it.
  pub record Filled (total : ℕ) (Good : Item V → Type 0) (results : List (Option (Item V)))
      : Type 0 where
    pub long : length results ≡ total
    pub at : (n : ℕ) (o : Item V) → get_elem? results n ≡ some (some o) → (o.index ≡ n) × Good o

  set-Filled :
      (total : ℕ) (Good : Item V → Type 0) (i : Item V) (results : List (Option (Item V)))
      → Good i
      → Filled total Good results
      → Filled total Good (set results i.index (some i))
  set-Filled total Good i results g f = record {
    long = length-set results i.index (some i) ∙ f.long;
    at = λ n o h. placed n o (set_cases results i.index (some i) n (some o) h);
  }
    where
      same_item : {o : Item V} → some i ≡ some o → i ≡ o
      same_item e = cc

      placed :
          (n : ℕ) (o : Item V)
          → ((i.index ≡ n) × (some i ≡ some o)) ⊎ (get_elem? results n ≡ some (some o))
          → (o.index ≡ n) × Good o
      placed n o (inl (e, same)) =
          subst (λ (x : Item V). (x.index ≡ n) × Good x) (same_item same) (e, g)
      placed n o (inr old) = f.at n o old

  set-Has :
      (n k : ℕ) (i : Item V) (results : List (Option (Item V)))
      → Has n results
      → Has n (set results k (some i))
  set-Has n k i [] h = h
  set-Has zero zero i (x ∷ results) h = (i, refl)
  set-Has (suc n) zero i (x ∷ results) h = h
  set-Has zero (suc k) i (x ∷ results) h = h
  set-Has (suc n) (suc k) i (x ∷ results) h = set-Has n k i results h

  pub collect-Filled :
      (total : ℕ) (Good : Item V → Type 0) (items : List (Item V))
      (results : List (Option (Item V)))
      → All Good items
      → Filled total Good results
      → Filled total Good (collect items results)
  unfolding collect
  collect-Filled total Good [] results g f = f
  collect-Filled total Good (i ∷ items) results g f =
      collect-Filled total Good items (set results i.index (some i)) g.1
        (set-Filled total Good i results g.0 f)

  collect-Has_old :
      (n : ℕ) (items : List (Item V)) (results : List (Option (Item V)))
      → Has n results
      → Has n (collect items results)
  unfolding collect
  collect-Has_old n [] results h = h
  collect-Has_old n (i ∷ items) results h =
      collect-Has_old n items (set results i.index (some i)) (set-Has n i.index i results h)

  collect-Has_new :
      (n : ℕ) (items : List (Item V)) (results : List (Option (Item V)))
      → n < length results
      → Memᴰ n (indexes items)
      → Has n (collect items results)
  unfolding collect
  collect-Has_new n [] results h m = elim m [ ]
  collect-Has_new n (i ∷ items) results h (Memᴰ.head e) =
      collect-Has_old n items (set results i.index (some i)) (
        i,
        subst (λ k. get_elem? (set results k (some i)) n ≡ some (some i)) e
            (get_elem?-set_self results n (some i) h),
      )
  collect-Has_new n (i ∷ items) results h (Memᴰ.tail m) =
      collect-Has_new n items (set results i.index (some i))
        (omega (arith, length-set results i.index (some i))) m

module _ {S V : Type 0} where
  -- An index is collected, or its item waits.
  abbrev pub Owed : ℕ → List (Post S V) → List (Option (Item V)) → Type 0
  Owed n posts results = Has n results ⊎ Memᴰ n (waiting posts)

  pub deliver-Owed :
      (n : ℕ) (items : List (Item V)) (ps : List (Post S V)) (results : List (Option (Item V)))
      → n < length results
      → Has n results ⊎ Memᴰ n (indexes items ++ waiting ps)
      → Owed n (deliver items ps results).posts (deliver items ps results).results
  unfolding deliver
  deliver-Owed n items [] results h (inl has) = inl (collect-Has_old n items results has)
  deliver-Owed n items [] results h (inr m) =
      inl (collect-Has_new n items results h (rw (append-nil) at m))
  deliver-Owed n items (p ∷ ps) results h (inl has) = inl has
  deliver-Owed n items (p ∷ ps) results h (inr m) =
      inr (rw (map-append) (Memᴰ-append_rotate n (indexes items) (indexes p.queue) (waiting ps) m))

  pub length-deliver :
      (items : List (Item V)) (ps : List (Post S V)) (results : List (Option (Item V)))
      → length (deliver items ps results).posts ≡ length ps
  unfolding deliver
  length-deliver items [] results = refl
  length-deliver items (p ∷ ps) results = refl

  pub moves_left-deliver :
      (items : List (Item V)) (ps : List (Post S V)) (results : List (Option (Item V)))
      → moves_left (deliver items ps results).posts ≡ moves_left ps + length items * length ps
  unfolding deliver moves_left
  moves_left-deliver items [] results = omega arith
  moves_left-deliver items (p ∷ ps) results =
      omega (arith, ap (λ (t : ℕ). t * suc (length ps)) (length-append p.queue items))
