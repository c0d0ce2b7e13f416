-- ===== src/Base/Placed.antt =====
-- Writing the entries of a list by index, in any order of the indexes.
use Prim.Native.Nat.{ℕ, zero, suc, ◌+◌, ◌<◌}
use mathlib.Core.Path.{◌≡◌, refl, sym, ap, subst, ◌∙◌}
use mathlib.Core.Logic.{◌⊎◌, inl, inr}
use mathlib.Core.List.{List, [], ◌∷◌, ◌++◌, map, Memᴰ, Permᴰ}
use mathlib.Core.Bool.{true, false}
use mathlib.Core.Option.{some}
use native.Mathlib.Omega.{arith}
use flowkit.Base.Tests.{◌==◌, ==_iff, Bool-cases}
use flowkit.Base.Lists.{
  length, get_elem?, set, All, get_elem?-set_self, get_elem?-set_ne, length-set,
}

module _ {ℓ} {A : Type ℓ} where
  -- Entries numbered from `i` on.
  abbrev pub numbered : ℕ → List A → List (ℕ × A)
  numbered i [] = []
  numbered i (x ∷ xs) = (i, x) ∷ numbered (suc i) xs

  pub All-Permᴰ {κ} : (P : A → Type κ) {l m : List A} → Permᴰ l m → All P m → All P l
  All-Permᴰ P Permᴰ.nil h = tt
  All-Permᴰ P (Permᴰ.cons e p) (h, hs) = (subst P (sym e) h, All-Permᴰ P p hs)
  All-Permᴰ P (Permᴰ.swap e f) (h, (k, hs)) = (subst P (sym e) k, (subst P (sym f) h, hs))
  All-Permᴰ P (Permᴰ.trans p q) h = All-Permᴰ P p (All-Permᴰ P q h)

  pub Memᴰ-Permᴰ : {a : A} {l m : List A} → Permᴰ l m → Memᴰ a m → Memᴰ a l
  Memᴰ-Permᴰ Permᴰ.nil h = elim h [ ]
  Memᴰ-Permᴰ (Permᴰ.cons e p) (Memᴰ.head h) = Memᴰ.head (h ∙ sym e)
  Memᴰ-Permᴰ (Permᴰ.cons e p) (Memᴰ.tail h) = Memᴰ.tail (Memᴰ-Permᴰ p h)
  Memᴰ-Permᴰ (Permᴰ.swap e f) (Memᴰ.head h) = Memᴰ.tail (Memᴰ.head (h ∙ sym f))
  Memᴰ-Permᴰ (Permᴰ.swap e f) (Memᴰ.tail (Memᴰ.head h)) = Memᴰ.head (h ∙ sym e)
  Memᴰ-Permᴰ (Permᴰ.swap e f) (Memᴰ.tail (Memᴰ.tail h)) = Memᴰ.tail (Memᴰ.tail h)
  Memᴰ-Permᴰ (Permᴰ.trans p q) h = Memᴰ-Permᴰ p (Memᴰ-Permᴰ q h)

  pub Permᴰ-Memᴰ : {a : A} {l m : List A} → Permᴰ l m → Memᴰ a l → Memᴰ a m
  Permᴰ-Memᴰ Permᴰ.nil h = h
  Permᴰ-Memᴰ (Permᴰ.cons e p) (Memᴰ.head h) = Memᴰ.head (h ∙ e)
  Permᴰ-Memᴰ (Permᴰ.cons e p) (Memᴰ.tail h) = Memᴰ.tail (Permᴰ-Memᴰ p h)
  Permᴰ-Memᴰ (Permᴰ.swap e f) (Memᴰ.head h) = Memᴰ.tail (Memᴰ.head (h ∙ e))
  Permᴰ-Memᴰ (Permᴰ.swap e f) (Memᴰ.tail (Memᴰ.head h)) = Memᴰ.head (h ∙ f)
  Permᴰ-Memᴰ (Permᴰ.swap e f) (Memᴰ.tail (Memᴰ.tail h)) = Memᴰ.tail (Memᴰ.tail h)
  Permᴰ-Memᴰ (Permᴰ.trans p q) h = Permᴰ-Memᴰ q (Permᴰ-Memᴰ p h)

  pub length-Permᴰ : {l m : List A} → Permᴰ l m → length l ≡ length m
  length-Permᴰ Permᴰ.nil = refl
  length-Permᴰ (Permᴰ.cons e p) = ap suc (length-Permᴰ p)
  length-Permᴰ (Permᴰ.swap e f) = refl
  length-Permᴰ (Permᴰ.trans p q) = length-Permᴰ p ∙ length-Permᴰ q

  pub Memᴰ-append_left : {a : A} (xs ys : List A) → Memᴰ a xs → Memᴰ a (xs ++ ys)
  Memᴰ-append_left [] ys h = elim h [ ]
  Memᴰ-append_left (x ∷ xs) ys (Memᴰ.head h) = Memᴰ.head h
  Memᴰ-append_left (x ∷ xs) ys (Memᴰ.tail h) = Memᴰ.tail (Memᴰ-append_left xs ys h)

  pub Memᴰ-append_right : {a : A} (xs ys : List A) → Memᴰ a ys → Memᴰ a (xs ++ ys)
  Memᴰ-append_right [] ys h = h
  Memᴰ-append_right (x ∷ xs) ys h = Memᴰ.tail (Memᴰ-append_right xs ys h)

pub Memᴰ-append_cases {ℓ} :
    {A : Type ℓ} {a : A} (xs ys : List A) → Memᴰ a (xs ++ ys) → Memᴰ a xs ⊎ Memᴰ a ys
Memᴰ-append_cases [] ys h = inr h
Memᴰ-append_cases (x ∷ xs) ys (Memᴰ.head h) = inl (Memᴰ.head h)
Memᴰ-append_cases (x ∷ xs) ys (Memᴰ.tail h) = elim (Memᴰ-append_cases xs ys h) [
  | inl m ↦ inl (Memᴰ.tail m)
  | inr m ↦ inr m
]

pub Memᴰ-append_rotate {ℓ} :
    {A : Type ℓ} (n : A) (xs ys zs : List A) → Memᴰ n (xs ++ (ys ++ zs)) → Memᴰ n ((ys ++ xs) ++ zs)
Memᴰ-append_rotate n xs ys zs m = elim (Memᴰ-append_cases xs (ys ++ zs) m) [
  | inl h ↦ Memᴰ-append_left (ys ++ xs) zs (Memᴰ-append_right ys xs h)
  | inr h ↦ elim (Memᴰ-append_cases ys zs h) [
    | inl g ↦ Memᴰ-append_left (ys ++ xs) zs (Memᴰ-append_left ys xs g)
    | inr g ↦ Memᴰ-append_right (ys ++ xs) zs g
  ]
]

pub map-Permᴰ {ℓ κ} :
    {A : Type ℓ} {B : Type κ} (f : A → B) {l m : List A} → Permᴰ l m → Permᴰ (map f l) (map f m)
map-Permᴰ f Permᴰ.nil = Permᴰ.nil
map-Permᴰ f (Permᴰ.cons e p) = Permᴰ.cons (ap f e) (map-Permᴰ f p)
map-Permᴰ f (Permᴰ.swap d e) = Permᴰ.swap (ap f d) (ap f e)
map-Permᴰ f (Permᴰ.trans p q) = Permᴰ.trans (map-Permᴰ f p) (map-Permᴰ f q)

module _ {ℓ} {A : Type ℓ} where
  -- A list agrees with another one but for the indexes that are left to write.
  pub record Upto (rest : List ℕ) (xs want : List A) : Type ℓ where
    pub long : length xs ≡ length want
    pub at : (k : ℕ) → k < length want → (get_elem? xs k ≡ get_elem? want k) ⊎ Memᴰ k rest

  pub inside : (xs : List A) (i : ℕ) (v : A) → get_elem? xs i ≡ some v → i < length xs
  inside [] i v h = cc
  inside (x ∷ xs) zero v h = omega arith
  inside (x ∷ xs) (suc i) v h = omega (arith, inside xs i v h)

  pub set-Upto :
      (i : ℕ) (rest : List ℕ) (v : A) (xs want : List A)
      → Upto (i ∷ rest) xs want
      → get_elem? want i ≡ some v
      → Upto rest (set xs i v) want
  set-Upto i rest v xs want h e = record {
    long = length-set xs i v ∙ h.long;
    at = λ k below. written k below (Bool-cases (i == k)) (h.at k below);
  }
    where
      written :
          (k : ℕ)
          → k < length want
          → ((i == k) ≡ true) ⊎ ((i == k) ≡ false)
          → (get_elem? xs k ≡ get_elem? want k) ⊎ Memᴰ k (i ∷ rest)
          → (get_elem? (set xs i v) k ≡ get_elem? want k) ⊎ Memᴰ k rest
      written k below (inl same) h' = inl (
          subst (λ k. get_elem? (set xs i v) k ≡ get_elem? want k) ((==_iff i k).0 same)
            (get_elem?-set_self xs i v (subst (λ n. i < n) (sym h.long) (inside want i v e))
              ∙ sym e))
      written k below (inr other) (inl h') =
          inl (get_elem?-set_ne xs v (λ e. ground (arith, ==_iff i k)) ∙ h')
      written k below (inr other) (inr (Memᴰ.head h')) = absurd (ground (arith, ==_iff i k))
      written k below (inr other) (inr (Memᴰ.tail h')) = inr h'

  same_entries :
      (xs want : List A)
      → length xs ≡ length want
      → ((k : ℕ) → k < length want → get_elem? xs k ≡ get_elem? want k)
      → xs ≡ want
  same_entries [] [] h k = refl
  same_entries [] (y ∷ want) h k = absurd (omega arith)
  same_entries (x ∷ xs) [] h k = absurd (omega arith)
  same_entries (x ∷ xs) (y ∷ want) h k =
      heads (k 0 (omega arith))
        (same_entries xs want (omega arith) (λ j b. k (suc j) (omega arith)))
    where
      heads : some x ≡ some y → xs ≡ want → (x ∷ xs) ≡ (y ∷ want)
      heads a b = cc

  pub all_written : (xs want : List A) → Upto [] xs want → xs ≡ want
  all_written xs want h = same_entries xs want h.long (λ k below. entry k (h.at k below))
    where
      entry :
          (k : ℕ)
          → (get_elem? xs k ≡ get_elem? want k) ⊎ Memᴰ k []
          → get_elem? xs k ≡ get_elem? want k
      entry k (inl e) = e
      entry k (inr h) = elim h [ ]

  pub none_written :
      (rest : List ℕ) (xs want : List A)
      → length xs ≡ length want
      → ((k : ℕ) → k < length want → Memᴰ k rest)
      → Upto rest xs want
  none_written rest xs want h covers = record { long = h; at = λ k below. inr (covers k below) }

  pub numbered-Memᴰ :
      (i k : ℕ) (xs : List A)
      → k < length xs
      → Memᴰ (i + k) (map (λ (j : ℕ × A). j.0) (numbered i xs))
  numbered-Memᴰ i k [] h = absurd (omega arith)
  numbered-Memᴰ i zero (x ∷ xs) h = Memᴰ.head (omega arith)
  numbered-Memᴰ i (suc k) (x ∷ xs) h = Memᴰ.tail (
      subst (λ n. Memᴰ n (map (λ (j : ℕ × A). j.0) (numbered (suc i) xs))) (omega arith)
        (numbered-Memᴰ (suc i) k xs (omega arith)))
