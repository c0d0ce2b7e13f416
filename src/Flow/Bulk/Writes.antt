-- ===== src/Flow/Bulk/Writes.antt =====
-- What the parts of a bulk step write into its results: flow/bulk.go.
use flowkit.Base.{
  ◌≡◌, ◌≢◌, sym, subst, ◌∙◌, ℕ, ◌<◌, Option, none, some, List, [], ◌∷◌, ◌++◌, length, set,
  length-set, get_elem?, get_elem?-set_self, get_elem?-set_ne, Bool-cases, arith, ◌⊎◌, inl, inr,
  ◌==◌, ==_iff,
}
use mathlib.Core.List.{Memᴰ}
use flowkit.Base.Placed.{Memᴰ-append_cases}
use flowkit.Errors.{Error, Result, ok, err}
use flowkit.Exec.{Exec, then_do, ◌>>=◌, ◌>>◌, pure, raise, fail_with}
use flowkit.Flow.Report.{ItemResult}
use flowkit.Flow.Stages.Kept.{ResultAt}

-- What holds after an action that succeeds, where `P` held before it.
abbrev pub Reached : {S A : Type 0} → (A → S → Type 0) → Result A × S → Type 0
Reached Q (ok a, s) = Q a s
Reached Q (err e, s) = Unit

pub record Leads {S A : Type 0} (P : S → Type 0) (Q : A → S → Type 0) (m : Exec S A) : Type 0 where
  pub at : (s : S) → P s → Reached Q (m s)

module _ {S : Type 0} where
  then_do-Reached :
      {A B : Type 0} (Q : A → S → Type 0) (R : B → S → Type 0) (f : A → Exec S B) (r : Result A × S)
      → Reached Q r
      → ((a : A) → Leads (Q a) R (f a))
      → Reached R (then_do f r)
  then_do-Reached Q R f (ok a, s) q k = (k a).at s q
  then_do-Reached Q R f (err e, s) q k = tt

  pub bind-Leads :
      {A B : Type 0} (P : S → Type 0) (Q : A → S → Type 0) (R : B → S → Type 0) (m : Exec S A)
      (f : A → Exec S B)
      → Leads P Q m
      → ((a : A) → Leads (Q a) R (f a))
      → Leads P R (m >>= f)
  bind-Leads P Q R m f h k = record { at = λ s p. then_do-Reached Q R f (m s) (h.at s p) k }

  pub seq-Leads :
      {B : Type 0} (P : S → Type 0) (Q : S → Type 0) (R : B → S → Type 0) (m : Exec S (Unit {0}))
      (f : Exec S B)
      → Leads P (λ u. Q) m
      → Leads Q R f
      → Leads P R (m >> f)
  seq-Leads P Q R m f h k = record {
    at = λ s p. then_do-Reached (λ u. Q) R (λ u. f) (m s) (h.at s p) (λ u. k);
  }

  pub pure-Leads :
      {A : Type 0} (P : S → Type 0) (Q : A → S → Type 0) (a : A)
      → ((s : S) → P s → Q a s)
      → Leads P Q (pure a)
  pure-Leads P Q a h = record { at = h }

  pub raise-Leads :
      {A : Type 0} (P : S → Type 0) (Q : A → S → Type 0) (e : Error) → Leads P Q (raise {A = A} e)
  raise-Leads P Q e = record { at = λ s p. tt }

  pub fail_with-Leads :
      (P : S → Type 0) (f : Error → Error) (o : Option Error) → Leads P (λ u. P) (fail_with f o)
  fail_with-Leads P f none = pure-Leads P _ tt (λ s p. p)
  fail_with-Leads P f (some e) = raise-Leads P _ (f e)

  -- What follows from what is reached.
  pub Reached-map :
      {A : Type 0} (Q R : A → S → Type 0) (r : Result A × S)
      → ((a : A) (s : S) → Q a s → R a s)
      → Reached Q r
      → Reached R r
  Reached-map Q R (ok a, s) f q = f a s q
  Reached-map Q R (err e, s) f q = tt

-- A result of its index, and its value, where it has one, is right there.
pub record Good {V : Type 0} (Right : ℕ → V → Type 0) (n : ℕ) (r : ItemResult V) : Type 0 where
  pub shape : ResultAt n r
  pub right : (v : V) → r.value ≡ some v → Right n v

-- A result without a value.
pub blank-Good :
    {V : Type 0} (Right : ℕ → V → Type 0) (n : ℕ) (r : ItemResult V)
    → ResultAt n r
    → r.value ≡ none
    → Good Right n r
blank-Good Right n r h e = record { shape = h; right = λ v g. absurd (cc) }

module _ {V : Type 0} (Right : ℕ → V → Type 0) where
  -- An index has its result.
  abbrev pub Settled : ℕ → List (ItemResult V) → Type 0
  Settled n results = (r : ItemResult V) × (get_elem? results n ≡ some r) × Good Right n r

  -- Every index has its result, or is still owed one.
  pub record Due (total : ℕ) (owed : ℕ → Type 0) (results : List (ItemResult V)) : Type 0 where
    pub long : length results ≡ total
    pub due : (n : ℕ) → n < total → Settled n results ⊎ owed n

  pub Due-fewer :
      (total : ℕ) (owed left : ℕ → Type 0) (results : List (ItemResult V))
      → ((n : ℕ) → owed n → left n)
      → Due total owed results
      → Due total left results
  Due-fewer total owed left results f h = record {
    long = h.long;
    due = λ n b. elim (h.due n b) [ inl s ↦ inl s | inr m ↦ inr (f n m) ];
  }

  -- A result that is put at its index.
  pub Due-put :
      (total : ℕ) (owed : ℕ → Type 0) (i : ℕ) (is : List ℕ) (r : ItemResult V)
      (results : List (ItemResult V))
      → Good Right i r
      → Due total (λ n. Memᴰ n (i ∷ is) ⊎ owed n) results
      → Due total (λ n. Memᴰ n is ⊎ owed n) (set results i r)
  Due-put total owed i is r results good h = record {
    long = length-set results i r ∙ h.long;
    due = λ n b. elim (Bool-cases (i == n)) [
      | inl e ↦ inl (placed n b ((==_iff i n).0 e))
      | inr e ↦ apart n (λ q. ground (arith, e, q)) (h.due n b)
    ];
  }
    where
      placed : (n : ℕ) → n < total → i ≡ n → Settled n (set results i r)
      placed n b e =
          subst (λ m. Settled m (set results i r)) e
            (r, get_elem?-set_self results i r (omega (arith, h.long, b, e)), good)

      apart :
          (n : ℕ)
          → i ≢ n
          → Settled n results ⊎ (Memᴰ n (i ∷ is) ⊎ owed n)
          → Settled n (set results i r) ⊎ (Memᴰ n is ⊎ owed n)
      apart n ne (inl (s, at, fine)) = inl (s, get_elem?-set_ne results r ne ∙ at, fine)
      apart n ne (inr (inl (Memᴰ.head e))) = absurd (ne (sym e))
      apart n ne (inr (inl (Memᴰ.tail m))) = inr (inl m)
      apart n ne (inr (inr o)) = inr (inr o)

  pub Due-none :
      (total : ℕ) (owed : ℕ → Type 0) (results : List (ItemResult V))
      → Due total (λ n. Memᴰ n [] ⊎ owed n) results
      → Due total owed results
  Due-none total owed results h = Due-fewer total _ owed results (λ n m. only n m) h
    where
      only : (n : ℕ) → Memᴰ n [] ⊎ owed n → owed n
      only n (inl m) = elim m [ ]
      only n (inr o) = o

  pub Due-split :
      (total : ℕ) (owed : ℕ → Type 0) (is js : List ℕ) (results : List (ItemResult V))
      → Due total (λ n. Memᴰ n (is ++ js) ⊎ owed n) results
      → Due total (λ n. Memᴰ n is ⊎ (Memᴰ n js ⊎ owed n)) results
  Due-split total owed is js results h = Due-fewer total _ _ results (λ n m. split n m) h
    where
      split : (n : ℕ) → Memᴰ n (is ++ js) ⊎ owed n → Memᴰ n is ⊎ (Memᴰ n js ⊎ owed n)
      split n (inl m) = elim (Memᴰ-append_cases is js m) [ inl a ↦ inl a | inr b ↦ inr (inl b) ]
      split n (inr o) = inr (inr o)
