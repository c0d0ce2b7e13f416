-- ===== src/Flow/Runner/Untouched.antt =====
-- The actions of flow/run.go that leave the counters of their step alone.
use flowkit.Base.{refl, ℕ, String, Bool, true, false, Option, none, some}
use flowkit.Base.Int.{ℤ}
use flowkit.Base.Float.{FloatOps}
use flowkit.Errors.{Error, wrapped, Result, ok, err}
use flowkit.Flow.Classify.{ErrorClass, is_valid}
use flowkit.Flow.Policy.{retry_delay}
use flowkit.Exec.{◌>>=◌, fail_with}
use flowkit.Execution.Outcome.{CacheOutcome}
use flowkit.Flow.Report.{Meters, Event}
use flowkit.Flow.Admit.{Pool, Gatekeeper}
use flowkit.Flow.Runner.{Runner, St}
use flowkit.Flow.Runner.Work.{
  call, called, ctx_error, emit, event, call_hook, notify, meter_value, add_metered, metered,
  entered, enter, back_off, check_class, judge,
}
use flowkit.Flow.Runner.Counts.{
  After, Same, Quiet, Quiet-bind, pure-Quiet, raise-Quiet, fail_with-Quiet,
}

module _ {F I O W : Type 0} (fl : FloatOps F) (k : Gatekeeper F W) (r : Runner F I O W) where
  pub called-Same : {A : Type 0} (s : St F O W) (x : A × W) → After Same Same s (called fl k r s x)
  called-Same s (a, w) = refl

  pub call-Quiet : {A : Type 0} (f : W → A × W) → Quiet (call fl k r f)
  call-Quiet f = record { at = λ s. called-Same s (f s.pool.world) }

  pub ctx_error-Quiet : Quiet (ctx_error fl k r)
  ctx_error-Quiet = record { at = λ s. refl }

  -- A call that returns an error or nil.
  asked-Quiet :
      (f : W → Option Error × W) (g : Error → Error)
      → Quiet {F = F} {O = O} (call fl k r f >>= fail_with g)
  asked-Quiet f g = Quiet-bind Same (λ a. refl) (call fl k r f) _ (call-Quiet f) (fail_with-Quiet g)

  emit-Quiet : (l : Option (Event → W → Option Error × W)) (e : Event) → Quiet (emit fl k r l e)
  emit-Quiet none e = pure-Quiet tt
  emit-Quiet (some l) e = asked-Quiet (l e) _

  pub event-Quiet : (e : Event) → Quiet (event fl k r e)
  unfolding event
  event-Quiet e = emit-Quiet r.ledger e

  call_hook-Quiet :
      (h : Option (ℕ → O → CacheOutcome → W → Option Error × W)) (index : ℕ) (v : O)
      (o : CacheOutcome)
      → Quiet (call_hook fl k r h index v o)
  call_hook-Quiet none index v o = pure-Quiet tt
  call_hook-Quiet (some h) index v o = asked-Quiet (h index v o) _

  pub notify-Quiet : (index : ℕ) (v : O) (o : CacheOutcome) → Quiet (notify fl k r index v o)
  unfolding notify
  notify-Quiet index v o = call_hook-Quiet r.on_result index v o

  add_metered-Same :
      (s : St F O W) (m : Result (Meters F)) → After Same Same s (add_metered fl k r m s)
  add_metered-Same s (ok m) = refl
  add_metered-Same s (err e) = refl

  pub metered-Quiet : (m : Option (Meters F)) → Quiet (metered fl k r m)
  unfolding meter_value
  metered-Quiet none = pure-Quiet tt
  metered-Quiet (some m) = record { at = λ s. add_metered-Same s _ }

  entered-Same :
      (s : St F O W) (x : Option (String × Error) × Pool F W)
      → After Same Same s (entered fl k r s x)
  entered-Same s (none, p) = refl
  entered-Same s (some (n, e), p) = refl

  pub enter-Quiet : Quiet (enter fl k r)
  unfolding enter
  enter-Quiet = record { at = λ s. entered-Same s _ }

  pub back_off-Quiet : (d : ℤ) → Quiet (back_off fl k r d)
  unfolding back_off
  back_off-Quiet d =
      asked-Quiet (λ w. r.pause (retry_delay (r.draw w) d r.backoff.ceiling) w) (λ c. c)

  check_class-Quiet : (b : Bool) (c : ErrorClass) → Quiet (check_class fl k r b c)
  check_class-Quiet true c = pure-Quiet c
  check_class-Quiet false c = raise-Quiet _

  pub judge-Quiet : (e : Error) → Quiet (judge fl k r e)
  unfolding judge
  judge-Quiet e =
      Quiet-bind Same (λ a. refl) (ctx_error fl k r) _ ctx_error-Quiet
        (λ o.
          Quiet-bind Same (λ a. refl) _ _ (fail_with-Quiet (λ _. wrapped "step %q item %d" e) o)
            (λ _. check_class-Quiet (is_valid (r.classifier e)) (r.classifier e)))
