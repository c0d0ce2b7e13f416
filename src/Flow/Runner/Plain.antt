-- ===== src/Flow/Runner/Plain.antt =====
-- The actions of typedRunner in flow/run.go that keep the calls which duplicates wait for.
use flowkit.Base.{
  ◌≡◌, ℕ, ◌==◌, String, Bool, true, false, Option, none, some, arith, str_eq, Bool-cases, inl, inr,
}
use flowkit.Base.Int.{ℤ}
use flowkit.Base.Assoc.{Assoc, lookup, insert, lookup-insert}
use flowkit.Base.Float.{FloatOps}
use flowkit.Errors.{Error, wrapped, Result, ok, err}
use flowkit.Exec.{Exec, ◌>>=◌, ◌>>◌, pure, raise, lift, fail_with}
use flowkit.Exec.Yields.{After, Yields, bind-Yields, seq-Yields, pure-Yields, raise-Yields}
use flowkit.Execution.Outcome.{CacheOutcome}
use flowkit.Flow.Classify.{is_valid}
use flowkit.Flow.Policy.{ItemError, retry_delay}
use flowkit.Flow.Report.{Meters, StepReport, Event}
use flowkit.Flow.Admit.{Pool, Gatekeeper}
use flowkit.Flow.Runner.{Runner, Item, St}
use flowkit.Flow.Runner.Work.{
  count, call, called, ctx_error, emit, event, call_hook, notify, meter_value, add_metered, metered,
  entered, enter, back_off, check_class, judge, attempt_once, start_if, meters_of, called_once,
}

-- A value, a quarantined item whose record has the index, or a skipped item.
abbrev pub Shape : {O : Type 0} → ℕ → Option O → Option ItemError → Bool → Type 0
Shape index (some v) none false = Unit
Shape index none (some e) false = e.index ≡ index
Shape index none none true = Unit
Shape index v q skipped = ⊥

pub record IsWhole {O : Type 0} (index : ℕ) (o : Item O) : Type 0 where
  pub at : o.index ≡ index
  pub shape : Shape o.index o.value o.quarantined o.skipped

pub remembered :
    {O : Type 0} (m : Assoc (Result (Item O))) (digest d : String) (led : Result (Item O))
    (p : Item O)
    → (led ≡ ok p → IsWhole p.index p)
    → (lookup d m ≡ some (ok p) → IsWhole p.index p)
    → lookup d (insert digest led m) ≡ some (ok p)
    → IsWhole p.index p
remembered m digest d led p new old e = elim (Bool-cases (str_eq digest d)) [
  | inl same ↦ new (ground (arith, e, same, lookup-insert digest d led m))
  | inr apart ↦ old (ground (arith, e, apart, lookup-insert digest d led m))
]

module _ {F O W : Type 0} where
  -- The calls that are kept for their duplicates have whole items.
  abbrev pub Remembers : St F O W → Type 0
  Remembers s = (d : String) (o : Item O) → lookup d s.inflight ≡ some (ok o) → IsWhole o.index o

  -- An action that keeps them, whatever it returns.
  abbrev pub Plain : {A : Type 0} → Exec (St F O W) A → Type 0
  Plain m = Yields Unit Remembers (λ a. Unit {0}) m

  abbrev pub Whole : ℕ → Exec (St F O W) (Item O) → Type 0
  Whole index m = Yields Unit Remembers (IsWhole index) m

  pub Plain-then :
      {A B : Type 0} (Q : B → Type 0) (m : Exec (St F O W) A) (f : A → Exec (St F O W) B)
      → Plain m
      → ((a : A) → Yields Unit Remembers Q (f a))
      → Yields Unit Remembers Q (m >>= f)
  Plain-then Q m f h k = bind-Yields Unit Remembers (λ a. Unit) Q m f h (λ a u. k a)

  pub Plain-seq :
      {B : Type 0} (Q : B → Type 0) (m : Exec (St F O W) (Unit {0})) (k : Exec (St F O W) B)
      → Plain m
      → Yields Unit Remembers Q k
      → Yields Unit Remembers Q (m >> k)
  Plain-seq Q m k h g = seq-Yields Unit Remembers Q m k h g

  pub Plain-pure : {A : Type 0} (a : A) → Plain (pure a)
  Plain-pure a = pure-Yields Unit Remembers _ a tt

  pub raised : {A : Type 0} (Q : A → Type 0) (e : Error) → Yields Unit Remembers Q (raise {A = A} e)
  raised Q e = raise-Yields Unit Remembers Q e tt

  pub Plain-fail : (f : Error → Error) (o : Option Error) → Plain (fail_with f o)
  Plain-fail f none = Plain-pure tt
  Plain-fail f (some e) = raised _ (f e)

  pub Plain-lift : {A : Type 0} (r : Result A) → Plain (lift r)
  Plain-lift (ok a) = Plain-pure a
  Plain-lift (err e) = raised _ e

module _ {F I O W : Type 0} (fl : FloatOps F) (k : Gatekeeper F W) (r : Runner F I O W) where
  pub called-Plain :
      {A : Type 0} (s : St F O W) (x : A × W)
      → Remembers s
      → After Unit Remembers (λ a. Unit) (called fl k r s x)
  called-Plain s (a, w) h = (tt, h)

  pub call-Plain : {A : Type 0} (f : W → A × W) → Plain (call fl k r f)
  call-Plain f = record { at = λ s h. called-Plain s (f s.pool.world) h }

  pub count-Plain : (f : StepReport F → StepReport F) → Plain (count fl k r f)
  count-Plain f = record { at = λ s h. (tt, h) }

  pub asked-Plain :
      (f : W → Option Error × W) (g : Error → Error) → Plain (call fl k r f >>= fail_with g)
  asked-Plain f g = Plain-then _ (call fl k r f) _ (call-Plain f) (Plain-fail g)

  pub emit-Plain : (l : Option (Event → W → Option Error × W)) (e : Event) → Plain (emit fl k r l e)
  emit-Plain none e = Plain-pure tt
  emit-Plain (some l) e = asked-Plain (l e) _

  pub event-Plain : (e : Event) → Plain (event fl k r e)
  unfolding event
  event-Plain e = emit-Plain r.ledger e

  pub hook-Plain :
      (h : Option (ℕ → O → CacheOutcome → W → Option Error × W)) (index : ℕ) (v : O)
      (o : CacheOutcome)
      → Plain (call_hook fl k r h index v o)
  hook-Plain none index v o = Plain-pure tt
  hook-Plain (some h) index v o = asked-Plain (h index v o) _

  pub notify-Plain : (index : ℕ) (v : O) (o : CacheOutcome) → Plain (notify fl k r index v o)
  unfolding notify
  notify-Plain index v o = hook-Plain r.on_result index v o

  pub metered-Plain : (m : Option (Meters F)) → Plain (metered fl k r m)
  unfolding meter_value
  metered-Plain none = Plain-pure tt
  metered-Plain (some m) = record { at = λ s h. added s _ h }
    where
      added :
          (s : St F O W) (m : Result (Meters F))
          → Remembers s
          → After Unit Remembers (λ a. Unit) (add_metered fl k r m s)
      added s (ok m) h = (tt, h)
      added s (err e) h = (tt, h)

  pub enter-Plain : Plain (enter fl k r)
  unfolding enter
  enter-Plain = record { at = λ s h. let_in s _ h }
    where
      let_in :
          (s : St F O W) (x : Option (String × Error) × Pool F W)
          → Remembers s
          → After Unit Remembers (λ a. Unit) (entered fl k r s x)
      let_in s (none, p) h = (tt, h)
      let_in s (some (n, e), p) h = (tt, h)

  pub back_off-Plain : (d : ℤ) → Plain (back_off fl k r d)
  unfolding back_off
  back_off-Plain d =
      asked-Plain (λ w. r.pause (retry_delay (r.draw w) d r.backoff.ceiling) w) (λ c. c)

  pub judge-Plain : (e : Error) → Plain (judge fl k r e)
  unfolding judge
  judge-Plain e =
      Plain-then _ (ctx_error fl k r) _ (record { at = λ s h. (tt, h) })
        (λ o.
          Plain-seq _ _ _ (Plain-fail (λ c. wrapped "step %q item %d" e) o)
            (classed (is_valid (r.classifier e))))
    where
      classed : (b : Bool) → Plain (check_class fl k r b (r.classifier e))
      classed true = Plain-pure _
      classed false = raised _ _

  pub attempt_once-Plain : (attempt : ℕ) (item : I) → Plain (attempt_once fl k r attempt item)
  unfolding attempt_once
  attempt_once-Plain attempt item = Plain-seq _ _ _ enter-Plain (
      Plain-seq _ _ _ (count-Plain (start_if fl k r (attempt == 1))) (
        Plain-then _ _ _ (call-Plain (r.work_fn item)) (λ out.
          Plain-seq _ _ _ (count-Plain (called_once fl k r))
            (Plain-seq _ _ _ (metered-Plain (meters_of fl k r out)) (Plain-pure out)))))
