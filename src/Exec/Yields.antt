-- ===== src/Exec/Yields.antt =====
-- What an action returns and what holds after it: an invariant of the state, a predicate of the value,
-- and `Fails` where it returns an error. A `Fails` that is empty makes the action total.
use flowkit.Errors.{Error, Result, ok, err}
use flowkit.Exec.{wrap_failed, wrapping, Exec, then_do, ◌>>=◌, ◌>>◌, pure, raise}

abbrev pub After : {S A : Type 0} → Type 0 → (S → Type 0) → (A → Type 0) → Result A × S → Type 0
After Fails Inv P (ok a, s) = P a × Inv s
After Fails Inv P (err e, s) = Fails × Inv s

pub record Yields {S A : Type 0} (Fails : Type 0) (Inv : S → Type 0) (P : A → Type 0) (m : Exec S A)
    : Type 0 where
  pub at : (s : S) → Inv s → After Fails Inv P (m s)

module _ {S : Type 0} (Fails : Type 0) (Inv : S → Type 0) where
  then_do-After :
      {A B : Type 0} (P : A → Type 0) (Q : B → Type 0) (f : A → Exec S B) (r : Result A × S)
      → After Fails Inv P r
      → ((a : A) → P a → Yields Fails Inv Q (f a))
      → After Fails Inv Q (then_do f r)
  then_do-After P Q f (ok a, s) (p, h) k = (k a p).at s h
  then_do-After P Q f (err e, s) h k = h

  pub bind-Yields :
      {A B : Type 0} (P : A → Type 0) (Q : B → Type 0) (m : Exec S A) (f : A → Exec S B)
      → Yields Fails Inv P m
      → ((a : A) → P a → Yields Fails Inv Q (f a))
      → Yields Fails Inv Q (m >>= f)
  bind-Yields P Q m f h k = record { at = λ s i. then_do-After P Q f (m s) (h.at s i) k }

  pub seq-Yields :
      {B : Type 0} (Q : B → Type 0) (m : Exec S (Unit {0})) (k : Exec S B)
      → Yields Fails Inv (λ a. Unit) m
      → Yields Fails Inv Q k
      → Yields Fails Inv Q (m >> k)
  seq-Yields Q m k h g = record {
    at = λ s i. then_do-After (λ a. Unit) Q (λ _. k) (m s) (h.at s i) (λ a u. g);
  }

  pub pure-Yields : {A : Type 0} (P : A → Type 0) (a : A) → P a → Yields Fails Inv P (pure a)
  pure-Yields P a p = record { at = λ s i. (p, i) }

  pub raise-Yields :
      {A : Type 0} (P : A → Type 0) (e : Error) → Fails → Yields Fails Inv P (raise e)
  raise-Yields P e f = record { at = λ s i. (f, i) }

  pub weaken-Yields :
      {A : Type 0} (P Q : A → Type 0) (m : Exec S A)
      → ((a : A) → P a → Q a)
      → Yields Fails Inv P m
      → Yields Fails Inv Q m
  weaken-Yields {A} P Q m f h = record { at = λ s i. kept (m s) (h.at s i) }
    where
      kept : (r : Result A × S) → After Fails Inv P r → After Fails Inv Q r
      kept (ok a, s) (p, i) = (f a p, i)
      kept (err e, s) i = i

pub wrapping-Yields :
    {S A : Type 0} (Fails : Type 0) (Inv : S → Type 0) (Q : A → Type 0) (f : Error → Error)
    (m : Exec S A)
    → Yields Fails Inv Q m
    → Yields Fails Inv Q (wrapping f m)
wrapping-Yields {S} {A} Fails Inv Q f m h = record { at = λ s i. kept (m s) (h.at s i) }
  where
    kept : (r : Result A × S) → After Fails Inv Q r → After Fails Inv Q (wrap_failed f r)
    kept (ok a, s) a' = a'
    kept (err e, s) a' = a'
