-- ===== src/Flow/Runner/Ending.antt =====
-- What success and fail of flow/run.go add to the counters of their step.
use flowkit.Base.{◌≡◌, refl, subst, ℕ, ◌+◌, String, Option, none, some}
use flowkit.Base.Float.{FloatOps}
use flowkit.Errors.{Error, wrapped}
use flowkit.Flow.Classify.{ErrorClass, transient, data_class, fatal, other}
use flowkit.Flow.Policy.{FailureMode, fail_fast, quarantine, skip, other_mode}
use flowkit.Exec.{Exec, ◌>>◌, pure, fail_with}
use flowkit.Execution.Outcome.{CacheOutcome, stored_state}
use flowkit.Flow.Report.{StepReport, Event, EventType, stored_event}
use flowkit.Flow.Admit.{Gatekeeper}
use flowkit.Flow.Runner.{StoreOps, Runner, St}
use flowkit.Flow.Runner.Work.{count, call, event, commit_value, success, resolve_failure, fail}
use flowkit.Flow.Runner.Counts.{
  Runs, Same, Quiet, Quiet-bind, bind-Quiet, pure-Quiet, fail_with-Quiet, both-Runs,
}
use flowkit.Flow.Runner.Untouched.{call-Quiet, event-Quiet, notify-Quiet, metered-Quiet}
use flowkit.Flow.Runner.Tallies.{Ends, Ends-still, add_stored, add_skipped, add_quarantined}

module _ {F I O W : Type 0} (fl : FloatOps F) (k : Gatekeeper F W) (r : Runner F I O W) where
  pub count-then :
      (G R T U : StepReport F → StepReport F → Type 0) (f : StepReport F → StepReport F)
      {B : Type 0} (m : Exec (St F O W) B)
      → Runs G R m
      → ((a c : StepReport F) → G (f a) c → T a c)
      → ((a c : StepReport F) → R (f a) c → U a c)
      → Runs T U (count fl k r f >> m)
  count-then G R T U f m h fails late =
      both-Runs T (λ a b. b ≡ f a) G R T U (count fl k r f) (λ _. m) (record { at = λ s. refl })
        (λ _. h) (λ a b t. t) (λ a b c e g. fails a c (subst (λ x. G x c) e g))
        (λ a b c e g. late a c (subst (λ x. R x c) e g))

  pub told-Quiet :
      {A : Type 0} (e : Event) (m : Exec (St F O W) A) → Quiet m → Quiet (event fl k r e >> m)
  told-Quiet e m h =
      Quiet-bind Same (λ a. refl) (event fl k r e) (λ _. m) (event-Quiet fl k r e) (λ _. h)

  store-Ends :
      (index : ℕ) (v : O) (d : String) (ops : StoreOps O W) (e : Option Error)
      → Runs Ends Ends {A = EventType × CacheOutcome} (
          fail_with {S = St F O W} (wrapped "step %q item %d: store cache entry") e
          >> (count fl k r (λ c. record c { stored = c.stored + 1 })
              >> pure (stored_event, record { key_digest = d; state = stored_state })))
  store-Ends index v d ops e =
      Quiet-bind Ends Ends-still _ _ (fail_with-Quiet _ e)
        (λ _. count-then Same Same Ends Ends _ _ (pure-Quiet _) add_stored add_stored)

  commit_value-Ends :
      (index : ℕ) (v : O) (key : Option (String × StoreOps O W))
      → Runs Ends Ends (commit_value fl k r index v key)
  unfolding commit_value
  commit_value-Ends index v none = record { at = λ s. Ends-still s.counts }
  commit_value-Ends index v (some (d, ops)) =
      Quiet-bind Ends Ends-still (call fl k r (ops.store d v)) _ (call-Quiet fl k r _)
        (store-Ends index v d ops)

  pub success-Ends :
      (index : ℕ) (v : O) (key : Option (String × StoreOps O W))
      → Runs Ends Ends (success fl k r index v key)
  unfolding success
  success-Ends index v key = Quiet-bind Ends Ends-still _ _ (metered-Quiet fl k r _) (λ _.
      bind-Quiet Ends Ends-still (commit_value fl k r index v key) _ (commit_value-Ends index v key)
        (λ done. told-Quiet _ _ (
          Quiet-bind Same (λ a. refl) _ _ (notify-Quiet fl k r index v done.1)
            (λ _. pure-Quiet _))))

  resolve_failure-Ends :
      (mode : FailureMode) (index : ℕ) (e : Error) (c : ErrorClass) (attempts : ℕ)
      → Runs Ends Ends (resolve_failure fl k r mode index e c attempts)
  unfolding resolve_failure
  resolve_failure-Ends fail_fast index e c attempts = record { at = λ s. Ends-still s.counts }
  resolve_failure-Ends skip index e c attempts =
      count-then Same Same Ends Ends _ _ (told-Quiet _ _ (pure-Quiet _)) add_skipped add_skipped
  resolve_failure-Ends quarantine index e c attempts =
      count-then Same Same Ends Ends _ _ (told-Quiet _ _ (pure-Quiet _)) add_quarantined
        add_quarantined
  resolve_failure-Ends (other_mode n) index e c attempts =
      count-then Same Same Ends Ends _ _ (told-Quiet _ _ (pure-Quiet _)) add_quarantined
        add_quarantined

  pub fail-Ends :
      (index : ℕ) (e : Error) (c : ErrorClass) (attempts : ℕ)
      → Runs Ends Ends (fail fl k r index e c attempts)
  unfolding fail
  fail-Ends index e fatal attempts = record { at = λ s. Ends-still s.counts }
  fail-Ends index e transient attempts = resolve_failure-Ends r.policy.on_error _ _ _ _
  fail-Ends index e data_class attempts = resolve_failure-Ends r.policy.on_error _ _ _ _
  fail-Ends index e (other n) attempts = resolve_failure-Ends r.policy.on_error _ _ _ _
