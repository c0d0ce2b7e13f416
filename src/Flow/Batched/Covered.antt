-- ===== src/Flow/Batched/Covered.antt =====
-- The coverage check of a batched step: flow/batch.go.
use flowkit.Base.{
  ◌≡◌, refl, ap, subst, ◌∙◌, ℕ, zero, suc, ◌+◌, ◌<◌, Bool, true, false, not, List, [], ◌∷◌, ◌++◌,
  map, length, set, replicate, All, All-append, length-set, Bool-cases, arith, ◌⊎◌, inl, inr,
}
use mathlib.Core.List.{Memᴰ}
use flowkit.Base.Int.{ℤ, pos, negsuc, pos_part}
use flowkit.Base.Placed.{Memᴰ-append_left, Memᴰ-append_right}
use flowkit.Errors.{Result, ok, err, ok-injective}
use flowkit.Flow.Batched.{is_member, is_covered, cover_group, cover_groups, uncovered}

-- The indexes of all the groups.
abbrev pub all_of : List (List ℕ) → List ℕ
all_of [] = []
all_of (g ∷ groups) = g ++ all_of groups

abbrev pub indexes_of : List (List ℤ) → List (List ℕ)
indexes_of groups = map (λ g. map pos_part g) groups

-- What the check of indexes `is` leaves of the marks `covered`.
pub record Marked (covered : List Bool) (is : List ℕ) (now : List Bool) : Type 0 where
  pub long : length now ≡ length covered
  pub inside : All (λ i. i < length covered) is
  pub only : (n : ℕ) → is_covered now n ≡ true → (is_covered covered n ≡ true) ⊎ Memᴰ n is

member_inside : (total : ℕ) (i : ℤ) → not (is_member total i) ≡ false → pos_part i < total
member_inside total (pos n) h = ground (arith, h)
member_inside total (negsuc n) h = absurd (ground (arith, h))

set_marked :
    (covered : List Bool) (i n : ℕ)
    → is_covered (set covered i true) n ≡ true
    → (is_covered covered n ≡ true) ⊎ (n ≡ i)
set_marked [] i n h = inl h
set_marked (b ∷ covered) zero zero h = inr refl
set_marked (b ∷ covered) zero (suc n) h = inl h
set_marked (b ∷ covered) (suc i) zero h = inl h
set_marked (b ∷ covered) (suc i) (suc n) h = elim (set_marked covered i n h) [
  | inl e ↦ inl e
  | inr e ↦ inr (ap suc e)
]

all_resized : (a b : ℕ) (is : List ℕ) → a ≡ b → All (λ i. i < a) is → All (λ i. i < b) is
all_resized a b is e h = subst (λ n. All (λ i. i < n) is) e h

Marked-then :
    (covered mid now : List Bool) (is js : List ℕ)
    → Marked covered is mid
    → Marked mid js now
    → Marked covered (is ++ js) now
Marked-then covered mid now is js a b = record {
  long = b.long ∙ a.long;
  inside = All-append _ is js a.inside (all_resized _ _ js a.long b.inside);
  only = λ n h. elim (b.only n h) [
    | inl e ↦ elim (a.only n e) [ inl c ↦ inl c | inr m ↦ inr (Memᴰ-append_left is js m) ]
    | inr m ↦ inr (Memᴰ-append_right is js m)
  ];
}

cover_group-Marked :
    (g : List ℤ) (covered now : List Bool)
    → cover_group g covered ≡ ok now
    → Marked covered (map pos_part g) now
unfolding cover_group
cover_group-Marked [] covered now h =
    subst (Marked covered []) (ok-injective h)
      (record { long = refl; inside = tt; only = λ n e. inl e })
cover_group-Marked (i ∷ is) covered now h = elim (Bool-cases (not (is_member (length covered) i))) [
  | inl e ↦ absurd (ground (arith, h, e))
  | inr e ↦ elim (Bool-cases (is_covered covered (pos_part i))) [
    | inl f ↦ absurd (ground (arith, h, e, f))
    | inr f ↦
        Marked-then covered (set covered (pos_part i) true) now (pos_part i ∷ []) (map pos_part is)
          (record {
            long = length-set covered (pos_part i) true;
            inside = (member_inside (length covered) i e, tt);
            only = λ n c. elim (set_marked covered (pos_part i) n c) [
              | inl d ↦ inl d
              | inr d ↦ inr (Memᴰ.head d)
            ];
          })
          (cover_group-Marked is (set covered (pos_part i) true) now (ground (arith, h, e, f)))
  ]
]

-- The groups that are accepted have indexes inside only, and whoever is marked is in one of them.
pub cover_groups-Marked :
    (groups : List (List ℤ)) (covered now : List Bool)
    → cover_groups groups covered ≡ ok now
    → Marked covered (all_of (indexes_of groups)) now
unfolding cover_groups
cover_groups-Marked [] covered now h =
    subst (Marked covered []) (ok-injective h)
      (record { long = refl; inside = tt; only = λ n e. inl e })
cover_groups-Marked (g ∷ groups) covered now h =
    checked (cover_group g covered) refl (λ mid q. cover_groups-Marked groups mid now q) h
  where
    checked :
        (r : Result (List Bool))
        → cover_group g covered ≡ r
        → ((mid : List Bool)
            → cover_groups groups mid ≡ ok now
            → Marked mid (all_of (indexes_of groups)) now)
        → (elim r [ err e ↦ err e | ok mid ↦ cover_groups groups mid ]) ≡ ok now
        → Marked covered (map pos_part g ++ all_of (indexes_of groups)) now
    checked (err e) q rest h = cc
    checked (ok mid) q rest h =
        Marked-then covered mid now (map pos_part g) (all_of (indexes_of groups))
          (cover_group-Marked g covered mid q) (rest mid h)

pub uncovered_there :
    (k n : ℕ) (covered : List Bool)
    → n < length covered
    → is_covered covered n ≡ false
    → Memᴰ (k + n) (uncovered k covered)
unfolding uncovered
uncovered_there k n [] h e = absurd (omega arith)
uncovered_there k zero (b ∷ covered) h e = rw (e) (Memᴰ.head (omega arith))
uncovered_there k (suc n) (b ∷ covered) h e =
    let there =
      subst (λ m. Memᴰ m (uncovered (suc k) covered)) (omega arith)
        (uncovered_there (suc k) n covered (omega arith) e) in
    elim (Bool-cases b) [ inl t ↦ rw (t) there | inr t ↦ rw (t) (Memᴰ.tail there) ]

pub uncovered_inside :
    (k : ℕ) (covered : List Bool) → All (λ i. i < k + length covered) (uncovered k covered)
unfolding uncovered
uncovered_inside k [] = tt
uncovered_inside k (b ∷ covered) =
    let inside =
      all_resized (suc k + length covered) (k + suc (length covered)) (uncovered (suc k) covered)
        (omega arith) (uncovered_inside (suc k) covered) in
    elim (Bool-cases b) [ inl t ↦ rw (t) inside | inr t ↦ rw (t) (omega arith, inside) ]

pub none_marked : (total n : ℕ) → is_covered (replicate total false) n ≡ false
none_marked zero n = refl
none_marked (suc total) zero = refl
none_marked (suc total) (suc n) = none_marked total n
