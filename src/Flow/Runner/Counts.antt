-- ===== src/Flow/Runner/Counts.antt =====
-- What the actions of flow/run.go do to the counters of their step, for the proofs about Runner.Books.
use flowkit.Base.{◌≡◌, refl, sym, subst, Option, none, some}
use flowkit.Errors.{Error, Result, ok, err}
use flowkit.Exec.{Exec, then_do, ◌>>=◌, pure, raise, fail_with}
use flowkit.Flow.Report.{StepReport}
use flowkit.Flow.Runner.{St}

abbrev pub Same : {F : Type 0} → StepReport F → StepReport F → Type 0
Same a b = b ≡ a

module _ {F : Type 0} (T : StepReport F → StepReport F → Type 0) where
  same : ((a : StepReport F) → T a a) → (a b : StepReport F) → b ≡ a → T a b
  same still a b e = subst (T a) (sym e) (still a)

module _ {F O W : Type 0} where
  -- What an action that ends in a result, or in an error, has done to the counters.
  abbrev pub After :
      {A : Type 0}
      → (StepReport F → StepReport F → Type 0)
      → (StepReport F → StepReport F → Type 0)
      → St F O W
      → Result A × St F O W
      → Type 0
  After E P s (ok a, t) = P s.counts t.counts
  After E P s (err e, t) = E s.counts t.counts

  pub record Runs (E P : StepReport F → StepReport F → Type 0) {A : Type 0} (m : Exec (St F O W) A)
      : Type 0 where
    pub at : (s : St F O W) → After E P s (m s)

  abbrev pub Quiet : {A : Type 0} → Exec (St F O W) A → Type 0
  Quiet m = Runs Same Same m

  module _ (E P G R T U : StepReport F → StepReport F → Type 0) where
    joined :
        {B : Type 0} (s t : St F O W) (u : Result B × St F O W)
        → P s.counts t.counts
        → ((a b c : StepReport F) → P a b → G b c → T a c)
        → ((a b c : StepReport F) → P a b → R b c → U a c)
        → After G R t u
        → After T U s u
    joined s t (ok b, u) h fails late g = late _ _ _ h g
    joined s t (err e, u) h fails late g = fails _ _ _ h g

    then_do-Runs :
        {A B : Type 0} (f : A → Exec (St F O W) B) (s : St F O W) (r : Result A × St F O W)
        → After E P s r
        → ((a : A) → Runs G R (f a))
        → ((a b : StepReport F) → E a b → T a b)
        → ((a b c : StepReport F) → P a b → G b c → T a c)
        → ((a b c : StepReport F) → P a b → R b c → U a c)
        → After T U s (then_do f r)
    then_do-Runs f s (err e, t) h k early fails late = early _ _ h
    then_do-Runs f s (ok a, t) h k early fails late = joined s t (f a t) h fails late ((k a).at t)

    pub both-Runs :
        {A B : Type 0} (m : Exec (St F O W) A) (f : A → Exec (St F O W) B)
        → Runs E P m
        → ((a : A) → Runs G R (f a))
        → ((a b : StepReport F) → E a b → T a b)
        → ((a b c : StepReport F) → P a b → G b c → T a c)
        → ((a b c : StepReport F) → P a b → R b c → U a c)
        → Runs T U (m >>= f)
    both-Runs m f h k early fails late = record {
      at = λ s. then_do-Runs f s (m s) (h.at s) k early fails late;
    }

  After-weaken :
      {A : Type 0} (E P T U : StepReport F → StepReport F → Type 0) (s : St F O W)
      (r : Result A × St F O W)
      → ((a b : StepReport F) → E a b → T a b)
      → ((a b : StepReport F) → P a b → U a b)
      → After E P s r
      → After T U s r
  After-weaken E P T U s (ok a, t) e p h = p _ _ h
  After-weaken E P T U s (err c, t) e p h = e _ _ h

  pub Runs-weaken :
      {A : Type 0} (E T : StepReport F → StepReport F → Type 0) (m : Exec (St F O W) A)
      → Runs E E m
      → ((a b : StepReport F) → E a b → T a b)
      → Runs T T m
  Runs-weaken E T m h e = record { at = λ s. After-weaken E E T T s (m s) e e (h.at s) }

  pub bind-Runs :
      (E P R T : StepReport F → StepReport F → Type 0) {A B : Type 0} (m : Exec (St F O W) A)
      (f : A → Exec (St F O W) B)
      → Runs E P m
      → ((a : A) → Runs R R (f a))
      → ((a b : StepReport F) → E a b → T a b)
      → ((a b c : StepReport F) → P a b → R b c → T a c)
      → Runs T T (m >>= f)
  bind-Runs E P R T m f h k early late = both-Runs E P R R T T m f h k early late late

  module _ (T : StepReport F → StepReport F → Type 0) (still : (a : StepReport F) → T a a) where
    pub Quiet-bind :
        {A B : Type 0} (m : Exec (St F O W) A) (f : A → Exec (St F O W) B)
        → Quiet m
        → ((a : A) → Runs T T (f a))
        → Runs T T (m >>= f)
    Quiet-bind m f h k =
        bind-Runs Same Same T T m f h k (same T still) (λ a b c e. subst (λ x. T x c) e)

    pub bind-Quiet :
        {A B : Type 0} (m : Exec (St F O W) A) (f : A → Exec (St F O W) B)
        → Runs T T m
        → ((a : A) → Quiet (f a))
        → Runs T T (m >>= f)
    bind-Quiet m f h k =
        bind-Runs T T Same T m f h k (λ a b t. t) (λ a b c t e. subst (T a) (sym e) t)

  pub pure-Quiet : {A : Type 0} (a : A) → Quiet (pure a)
  pure-Quiet a = record { at = λ s. refl }

  pub raise-Quiet : {A : Type 0} (e : Error) → Quiet (raise {A = A} e)
  raise-Quiet e = record { at = λ s. refl }

  pub fail_with-Quiet : (f : Error → Error) (o : Option Error) → Quiet (fail_with f o)
  fail_with-Quiet f none = pure-Quiet tt
  fail_with-Quiet f (some e) = raise-Quiet (f e)
