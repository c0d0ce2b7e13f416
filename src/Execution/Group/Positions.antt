-- ===== src/Execution/Group/Positions.antt =====
-- What a group holds: the positions of its key, and what batches hold: the misses in order.
use flowkit.Base.{
  ◌≡◌, refl, sym, ap, ◌∙◌, ℕ, zero, suc, ◌≤◌, String, Bool, true, false, List, [], ◌∷◌, ◌++◌,
  if◌then◌else◌, str_eq, str_eq_iff, length, take, drop, All, arith, length-drop, take-append-drop,
  length-take-le,
}
use mathlib.Core.List.{append_assoc, append-nil}
use flowkit.Errors.{Result, ok, err, ◌>>=◌, >>=-eq-ok, ok-injective}
use flowkit.Execution.Group.{Group, add_item, group_items, batches_of}

module _ {K T : Type 0} where
  -- The indexes that stand under a digest.
  unfoldable pub indexes_of : String → List (Group K T) → List ℕ
  indexes_of d [] = []
  indexes_of d (g ∷ gs) = if str_eq g.digest d then g.indexes else indexes_of d gs

  -- The digest of an item's key.
  abbrev pub digest_at : (T → Result K) → (K → Result String) → T → Result String
  digest_at key digest item = key item >>= digest

  -- The indexes from `i` on whose items have the digest, in ascending order.
  unfoldable pub positions : (T → Result K) → (K → Result String) → String → ℕ → List T → List ℕ
  positions key digest d i [] = []
  positions key digest d i (item ∷ items) =
      let rest = positions key digest d (suc i) items in
      elim (digest_at key digest item) [
        | ok e ↦ if str_eq e d then i ∷ rest else rest
        | err e ↦ rest
      ]

  indexes_of-add_item :
      (d e : String) (k : K) (item : T) (i : ℕ) (gs : List (Group K T))
      → indexes_of d (add_item e k item i gs)
        ≡ indexes_of d gs ++ (if str_eq e d then i ∷ [] else [])
  unfolding indexes_of add_item
  indexes_of-add_item d e k item i [] = refl
  indexes_of-add_item d e k item i (g ∷ gs) =
      joined (str_eq g.digest e) (str_eq g.digest d) (str_eq e d) refl refl refl
        (indexes_of-add_item d e k item i gs)
    where
      joined :
          (a b c : Bool)
          → str_eq g.digest e ≡ a
          → str_eq g.digest d ≡ b
          → str_eq e d ≡ c
          → indexes_of d (add_item e k item i gs) ≡ indexes_of d gs ++ (if c then i ∷ [] else [])
          → indexes_of d (
              if a
              then record g { indexes = g.indexes ++ (i ∷ []) } ∷ gs
              else g ∷ add_item e k item i gs)
            ≡ (if b then g.indexes else indexes_of d gs) ++ (if c then i ∷ [] else [])
      joined true true true x y z h = rw y
      joined true true false x y z h =
          ground (arith, str_eq_iff g.digest e, str_eq_iff g.digest d, str_eq_iff e d)
      joined true false true x y z h =
          ground (arith, str_eq_iff g.digest e, str_eq_iff g.digest d, str_eq_iff e d)
      joined true false false x y z h = rw (y, append-nil)
      joined false true true x y z h =
          ground (arith, str_eq_iff g.digest e, str_eq_iff g.digest d, str_eq_iff e d)
      joined false true false x y z h = rw (y, append-nil)
      joined false false c x y z h = rw (y, h)

  -- Every group holds the positions of its key: where the keys of all items can be built, the indexes
  -- that end under a digest are those it had, then the positions of the items with this digest, in
  -- ascending order and each once.
  pub group_items-positions :
      (key : T → Result K) (digest : K → Result String) (d : String) (i : ℕ) (items : List T)
      (gs out : List (Group K T))
      → group_items key digest i items gs ≡ ok out
      → indexes_of d out ≡ indexes_of d gs ++ positions key digest d i items
  unfolding group_items positions
  group_items-positions key digest d i [] gs out e =
      ap (indexes_of d) (sym (ok-injective e)) ∙ sym (append-nil (indexes_of d gs))
  group_items-positions key digest d i (item ∷ items) gs out e =
      let (k, kd, rest) = >>=-eq-ok (key item) _ e in
      let (h, hd, last) = >>=-eq-ok (digest k) _ rest in
      group_items-positions key digest d (suc i) items (add_item h k item i gs) out last
      ∙ ap (λ x. x ++ positions key digest d (suc i) items) (indexes_of-add_item d h k item i gs)
      ∙ append_assoc (indexes_of d gs) _ _
      ∙ ap (λ x. indexes_of d gs ++ x) (split k h (str_eq h d) kd hd refl)
    where
      split :
          (k : K) (h : String) (b : Bool)
          → key item ≡ ok k
          → digest k ≡ ok h
          → str_eq h d ≡ b
          → (if b then i ∷ [] else []) ++ positions key digest d (suc i) items
            ≡ elim (digest_at key digest item) [
              | ok e ↦
                  if str_eq e d
                  then i ∷ positions key digest d (suc i) items
                  else positions key digest d (suc i) items
              | err e ↦ positions key digest d (suc i) items
            ]
      split k h true kd hd x = rw (kd, hd, x)
      split k h false kd hd x = rw (kd, hd, x)

module _ {T : Type 0} where
  unfoldable pub flat : List (List T) → List T
  flat [] = []
  flat (b ∷ bs) = b ++ flat bs

  -- A partition of a list into its batches.
  pub record Batched (size : ℕ) (items : List T) (bs : List (List T)) : Type 0 where
    pub whole : flat bs ≡ items
    pub bounded : All (λ b. length b ≤ size) bs
    pub filled : All (λ b. 1 ≤ length b) bs

  -- Where the batch size is positive and the rounds are as many as the misses, the batches are the
  -- misses in order, none left out or doubled, and each batch holds between one and `size` of them.
  pub batches_of-Batched :
      (fuel size : ℕ) (items : List T)
      → 1 ≤ size
      → length items ≤ fuel
      → Batched size items (batches_of fuel size items)
  unfolding batches_of flat
  batches_of-Batched zero size [] h g = record { whole = refl; bounded = tt; filled = tt }
  batches_of-Batched zero size (x ∷ items) h g = absurd (omega arith)
  batches_of-Batched (suc fuel) size [] h g = record { whole = refl; bounded = tt; filled = tt }
  batches_of-Batched (suc fuel) size (x ∷ items) h g =
      let rest =
        batches_of-Batched fuel size (drop size (x ∷ items)) h
          (omega (arith, length-drop size (x ∷ items))) in
      record {
        whole = ap (λ r. take size (x ∷ items) ++ r) rest.whole ∙ take-append-drop size (x ∷ items);
        bounded = (length-take-le size (x ∷ items), rest.bounded);
        filled = (first_filled size h, rest.filled);
      }
    where
      first_filled : (n : ℕ) → 1 ≤ n → 1 ≤ length (take n (x ∷ items))
      first_filled (suc n) h = omega arith
      first_filled zero h = omega arith
