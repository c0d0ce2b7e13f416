-- ===== src/Exec.antt =====
-- Actions that change a state and may fail: what they have done before a failure stays done.
pub mod Yields
use flowkit.Base.{Option, none, some}
use flowkit.Errors.{Error, Result, ok, err}

abbrev pub Exec : Type 0 → Type 0 → Type 0
Exec S A = S → Result A × S

module _ {S : Type 0} where
  abbrev pub then_do : {A B : Type 0} → (A → Exec S B) → Result A × S → Result B × S
  then_do f (ok a, s) = f a s
  then_do f (err e, s) = (err e, s)

  infixl 5 ◌>>=◌ ◌>>◌
  abbrev pub ◌>>=◌ : {A B : Type 0} → Exec S A → (A → Exec S B) → Exec S B
  ◌>>=◌ m f s = then_do f (m s)

  abbrev pub ◌>>◌ : {B : Type 0} → Exec S (Unit {0}) → Exec S B → Exec S B
  ◌>>◌ m k s = then_do (λ _. k) (m s)

  abbrev pub pure : {A : Type 0} → A → Exec S A
  pure a s = (ok a, s)

  abbrev pub raise : {A : Type 0} → Error → Exec S A
  raise e s = (err e, s)

  abbrev pub lift : {A : Type 0} → Result A → Exec S A
  lift (ok a) = pure a
  lift (err e) = raise e

  -- A call that returns an error or nil, wrapped by `f`.
  abbrev pub fail_with : (Error → Error) → Option Error → Exec S (Unit {0})
  fail_with f none = pure tt
  fail_with f (some e) = raise (f e)

  -- An action whose error is wrapped by `f`.
  abbrev pub wrap_failed : {A : Type 0} → (Error → Error) → Result A × S → Result A × S
  wrap_failed f (ok a, s) = (ok a, s)
  wrap_failed f (err e, s) = (err (f e), s)

  abbrev pub wrapping : {A : Type 0} → (Error → Error) → Exec S A → Exec S A
  wrapping f m s = wrap_failed f (m s)

  -- What is done with the result of an action, an error included.
  abbrev pub settled_by : {A B : Type 0} → (Result A → Exec S B) → Result A × S → Result B × S
  settled_by f (r, s) = f r s

  abbrev pub settling : {A B : Type 0} → Exec S A → (Result A → Exec S B) → Exec S B
  settling m f s = settled_by f (m s)

  -- What an action does to the state, whether it succeeds or fails.
  pub record Keeps (Q : S → S → Type 0) {A : Type 0} (m : Exec S A) : Type 0 where
    pub at : (s : S) → Q s (m s).1

  -- A relation of states that holds along a sequence of steps.
  pub record Along (Q : S → S → Type 0) : Type 0 where
    pub still : (s : S) → Q s s
    pub step : (s t u : S) → Q s t → Q t u → Q s u

module _ {S : Type 0} (Q : S → S → Type 0) (along : Along Q) where
  then_do-Keeps :
      {A B : Type 0} (f : A → Exec S B) (s : S) (r : Result A × S)
      → Q s r.1
      → ((a : A) → Keeps Q (f a))
      → Q s (then_do f r).1
  then_do-Keeps f s (ok a, t) h k = along.step s t _ h ((k a).at t)
  then_do-Keeps f s (err e, t) h k = h

  pub bind-Keeps :
      {A B : Type 0} (m : Exec S A) (f : A → Exec S B)
      → Keeps Q m
      → ((a : A) → Keeps Q (f a))
      → Keeps Q (m >>= f)
  bind-Keeps m f h k = record { at = λ s. then_do-Keeps f s (m s) (h.at s) k }

  pub seq-Keeps :
      {B : Type 0} (m : Exec S (Unit {0})) (k : Exec S B) → Keeps Q m → Keeps Q k → Keeps Q (m >> k)
  seq-Keeps m k h g = record { at = λ s. then_do-Keeps (λ _. k) s (m s) (h.at s) (λ _. g) }

  pub pure-Keeps : {A : Type 0} (a : A) → Keeps Q (pure a)
  pure-Keeps a = record { at = λ s. along.still s }

  pub raise-Keeps : {A : Type 0} (e : Error) → Keeps Q (raise {A = A} e)
  raise-Keeps e = record { at = λ s. along.still s }

  pub lift-Keeps : {A : Type 0} (r : Result A) → Keeps Q (lift r)
  lift-Keeps (ok a) = pure-Keeps a
  lift-Keeps (err e) = raise-Keeps e

  pub fail_with-Keeps : (f : Error → Error) (o : Option Error) → Keeps Q (fail_with f o)
  fail_with-Keeps f none = pure-Keeps tt
  fail_with-Keeps f (some e) = raise-Keeps (f e)
