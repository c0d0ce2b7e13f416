-- ===== src/Execution/CachedMap/Groups.antt =====
-- What the groups of MapCached hold: execution/cached_map.go.
use flowkit.Base.{
  ◌≡◌, refl, sym, ap, subst, ◌∙◌, ◌⊎◌, inl, inr, ℕ, String, Bool, true, false, Option, some, List,
  [], ◌∷◌, ◌++◌, if◌then◌else◌, set, get_elem?, All, All-append, str_eq, str_eq_iff,
}
use mathlib.Core.List.{Memᴰ, append_assoc}
use flowkit.Base.Placed.{Upto, set-Upto, Memᴰ-append_left, Memᴰ-append_right, Memᴰ-append_cases}
use flowkit.Errors.{Result, ok, ◌>>=◌}
use flowkit.Execution.Group.{Group, add_item}
use flowkit.Execution.CachedMap.{place}

module _ {K T : Type 0} where
  -- Every index of the groups, in their order.
  unfoldable pub all_indexes : List (Group K T) → List ℕ
  all_indexes [] = []
  all_indexes (g ∷ gs) = g.indexes ++ all_indexes gs

  pub all_indexes-append :
      (gs hs : List (Group K T)) → all_indexes (gs ++ hs) ≡ all_indexes gs ++ all_indexes hs
  unfolding all_indexes
  all_indexes-append [] hs = refl
  all_indexes-append (g ∷ gs) hs =
      ap (λ x. g.indexes ++ x) (all_indexes-append gs hs)
      ∙ sym (append_assoc g.indexes (all_indexes gs) (all_indexes hs))

  module _ (key : T → Result K) (digest : K → Result String) (items : List T) where
    -- An index of a digest: its item has the digest.
    pub record IsAt (d : String) (i : ℕ) : Type 0 where
      pub item : T
      pub there : get_elem? items i ≡ some item
      pub digest_is : (key item >>= digest) ≡ ok d

    -- A group is one of its own item, and its indexes are of its digest.
    pub record IsGroup (g : Group K T) : Type 0 where
      pub key_is : key g.item ≡ ok g.key
      pub digest_is : digest g.key ≡ ok g.digest
      pub indexes_are : All (IsAt g.digest) g.indexes

    pub add_item-IsGroup :
        (d : String) (k : K) (item : T) (i : ℕ) (gs : List (Group K T))
        → key item ≡ ok k
        → digest k ≡ ok d
        → get_elem? items i ≡ some item
        → All IsGroup gs
        → All IsGroup (add_item d k item i gs)
    unfolding add_item
    add_item-IsGroup d k item i [] kd hd e h =
        (record { key_is = kd; digest_is = hd; indexes_are = (new d, tt) }, tt)
      where
        new : (d' : String) → IsAt d i
        new d' = record { item = item; there = e; digest_is = rw (kd, hd) }
    add_item-IsGroup d k item i (g ∷ gs) kd hd e (h, hs) =
        joined (str_eq g.digest d) refl (add_item-IsGroup d k item i gs kd hd e hs)
      where
        joined :
            (b : Bool)
            → str_eq g.digest d ≡ b
            → All IsGroup (add_item d k item i gs)
            → All IsGroup (
                if b
                then record g { indexes = g.indexes ++ (i ∷ []) } ∷ gs
                else g ∷ add_item d k item i gs)
        joined true same rest = (
          record {
            key_is = h.key_is;
            digest_is = h.digest_is;
            indexes_are = All-append (IsAt g.digest) g.indexes (i ∷ []) h.indexes_are (
              record {
                item = item;
                there = e;
                digest_is = rw (kd, hd) (ap ok (sym ((str_eq_iff g.digest d).0 same)));
              },
              tt,
            );
          },
          hs,
        )
        joined false other rest = (h, rest)

  pub add_item-old :
      (d : String) (k : K) (item : T) (i j : ℕ) (gs : List (Group K T))
      → Memᴰ j (all_indexes gs)
      → Memᴰ j (all_indexes (add_item d k item i gs))
  unfolding add_item all_indexes
  add_item-old d k item i j [] h = elim h [ ]
  add_item-old d k item i j (g ∷ gs) h =
      joined (str_eq g.digest d) (λ m. add_item-old d k item i j gs m)
    where
      joined :
          (b : Bool)
          → (Memᴰ j (all_indexes gs) → Memᴰ j (all_indexes (add_item d k item i gs)))
          → Memᴰ j (
              all_indexes (
                if b
                then record g { indexes = g.indexes ++ (i ∷ []) } ∷ gs
                else g ∷ add_item d k item i gs))
      joined true old =
          subst (Memᴰ j) (sym (append_assoc g.indexes (i ∷ []) (all_indexes gs)))
            (widened g.indexes h)
        where
          widened :
              (is : List ℕ) → Memᴰ j (is ++ all_indexes gs) → Memᴰ j (is ++ (i ∷ all_indexes gs))
          widened [] m = Memᴰ.tail m
          widened (x ∷ is) (Memᴰ.head e) = Memᴰ.head e
          widened (x ∷ is) (Memᴰ.tail m) = Memᴰ.tail (widened is m)
      joined false old = either g.indexes h
        where
          either :
              (is : List ℕ)
              → Memᴰ j (is ++ all_indexes gs)
              → Memᴰ j (is ++ all_indexes (add_item d k item i gs))
          either [] m = old m
          either (x ∷ is) (Memᴰ.head e) = Memᴰ.head e
          either (x ∷ is) (Memᴰ.tail m) = Memᴰ.tail (either is m)

  pub add_item-new :
      (d : String) (k : K) (item : T) (i : ℕ) (gs : List (Group K T))
      → Memᴰ i (all_indexes (add_item d k item i gs))
  unfolding add_item all_indexes
  add_item-new d k item i [] = Memᴰ.head refl
  add_item-new d k item i (g ∷ gs) = joined (str_eq g.digest d) (add_item-new d k item i gs)
    where
      joined :
          (b : Bool)
          → Memᴰ i (all_indexes (add_item d k item i gs))
          → Memᴰ i (
              all_indexes (
                if b
                then record g { indexes = g.indexes ++ (i ∷ []) } ∷ gs
                else g ∷ add_item d k item i gs))
      joined true new =
          Memᴰ-append_left (g.indexes ++ (i ∷ [])) (all_indexes gs)
            (Memᴰ-append_right g.indexes (i ∷ []) (Memᴰ.head refl))
      joined false new = Memᴰ-append_right g.indexes _ new

-- A group that is missing moves from the groups to load to the misses.
pub missed_left :
    {K T : Type 0} (gs misses : List (Group K T)) (g : Group K T) (k : ℕ)
    → Memᴰ k (all_indexes (g ∷ gs) ++ all_indexes misses)
    → Memᴰ k (all_indexes gs ++ all_indexes (misses ++ (g ∷ [])))
unfolding all_indexes
missed_left gs misses g k m =
    subst (λ is. Memᴰ k (all_indexes gs ++ is)) (sym (all_indexes-append misses (g ∷ [])))
      (moved (Memᴰ-append_cases (g.indexes ++ all_indexes gs) (all_indexes misses) m))
  where
    last : Memᴰ k g.indexes → Memᴰ k (all_indexes gs ++ (all_indexes misses ++ (g.indexes ++ [])))
    last h =
        Memᴰ-append_right (all_indexes gs) _
          (Memᴰ-append_right (all_indexes misses) _ (Memᴰ-append_left g.indexes [] h))

    first :
        Memᴰ k g.indexes ⊎ Memᴰ k (all_indexes gs)
        → Memᴰ k (all_indexes gs ++ (all_indexes misses ++ (g.indexes ++ [])))
    first (inl h) = last h
    first (inr h) = Memᴰ-append_left (all_indexes gs) _ h

    moved :
        Memᴰ k (g.indexes ++ all_indexes gs) ⊎ Memᴰ k (all_indexes misses)
        → Memᴰ k (all_indexes gs ++ (all_indexes misses ++ (g.indexes ++ [])))
    moved (inl h) = first (Memᴰ-append_cases g.indexes (all_indexes gs) h)
    moved (inr h) = Memᴰ-append_right (all_indexes gs) _ (Memᴰ-append_left (all_indexes misses) _ h)

-- Indexes that are the same ones, and more.
pub more-Upto :
    {A : Type 0} (rest more : List ℕ) (xs want : List A)
    → ((k : ℕ) → Memᴰ k rest → Memᴰ k more)
    → Upto rest xs want
    → Upto more xs want
more-Upto rest more xs want sub h = record { long = h.long; at = λ k b. widen k (h.at k b) }
  where
    widen :
        (k : ℕ)
        → (get_elem? xs k ≡ get_elem? want k) ⊎ Memᴰ k rest
        → (get_elem? xs k ≡ get_elem? want k) ⊎ Memᴰ k more
    widen k (inl e) = inl e
    widen k (inr m) = inr (sub k m)

-- A value at every one of its indexes.
pub place-Upto :
    {R : Type 0} (v : R) (is rest : List ℕ) (results want : List (Option R))
    → All (λ i. get_elem? want i ≡ some (some v)) is
    → Upto (is ++ rest) results want
    → Upto rest (place v is results) want
unfolding place
place-Upto v [] rest results want h u = u
place-Upto v (i ∷ is) rest results want (e, h) u =
    place-Upto v is rest (set results i (some v)) want h
      (set-Upto i (is ++ rest) (some v) results want u e)
