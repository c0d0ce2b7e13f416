-- ===== src/Flow/Runner/Work.antt =====
-- work, success and fail of flow/run.go: one fresh call with its admissions and retries.
use flowkit.Base.{
  ℕ, zero, suc, ◌+◌, String, Bool, true, false, ◌&&◌, Option, none, some, ◌==◌, if◌then◌else◌,
}
use flowkit.Base.Int.{ℤ, pos}
use flowkit.Base.Assoc.{insert}
use flowkit.Base.Float.{FloatOps}
use flowkit.Errors.{Error, message, wrapped, budget_exceeded, is_error, Result, ok, err}
use flowkit.Flow.Classify.{ErrorClass, transient, fatal, class_name, is_valid}
use flowkit.Flow.Policy.{FailureMode, fail_fast, skip, retry_delay, next_retry_delay}
use flowkit.Exec.{Exec, ◌>>=◌, ◌>>◌, pure, raise, fail_with}
use flowkit.Execution.Outcome.{stored_state, CacheOutcome, no_outcome}
use flowkit.Flow.Report.{
  Meters, add_checked, StepReport, count_at, Event, EventType, stored_event, done_event,
  retry_event, quarantined_event, skipped_event,
}
use flowkit.Flow.Admit.{Pool, Gatekeeper, admit}
use flowkit.Flow.Runner.{StoreOps, Runner, Item, St}

module _ {F I O W : Type 0} (fl : FloatOps F) (k : Gatekeeper F W) (r : Runner F I O W) where
  abbrev pub Act : Type 0 → Type 0
  Act A = Exec (St F O W) A

  -- runner.count
  abbrev pub count : (StepReport F → StepReport F) → Act (Unit {0})
  count f s = (ok tt, record s { counts = f s.counts })

  -- A call of a collaborator, which acts on the world.
  abbrev pub called : {A : Type 0} → St F O W → A × W → Result A × St F O W
  called s (a, w) = (ok a, record s { pool = record (s.pool) { world = w } })

  abbrev pub call : {A : Type 0} → (W → A × W) → Act A
  call f s = called s (f s.pool.world)

  abbrev pub ctx_error : Act (Option Error)
  ctx_error s = (ok (k.ctx_err s.pool.world), s)

  -- emitLedger and runner.event
  abbrev pub emit : Option (Event → W → Option Error × W) → Event → Act (Unit {0})
  emit none e = pure tt
  emit (some ledger) e =
      call (ledger e) >>= fail_with (λ c. wrapped "step %q" (wrapped "ledger event" c))

  unfoldable pub event : Event → Act (Unit {0})
  event e = emit r.ledger e

  abbrev pub item_event : EventType → ℕ → Event
  item_event type index = record {
    step = r.name;
    index = some index;
    type = type;
    class = "";
    attempt = 0;
    total = 0;
    error = none;
  }

  abbrev pub call_hook :
      Option (ℕ → O → CacheOutcome → W → Option Error × W) → ℕ → O → CacheOutcome → Act (Unit {0})
  call_hook none index value outcome = pure tt
  call_hook (some hook) index value outcome =
      call (hook index value outcome) >>= fail_with (wrapped "step %q item %d: result hook")

  unfoldable pub notify : ℕ → O → CacheOutcome → Act (Unit {0})
  notify index value outcome = call_hook r.on_result index value outcome

  abbrev pub add_metered : Result (Meters F) → Act (Unit {0})
  add_metered (ok m) s = (ok tt, record s { meters = m })
  add_metered (err e) s = (err (wrapped "step %q item %d" e), s)

  unfoldable pub meter_value : Meters F → Act (Unit {0})
  meter_value m s = add_metered (add_checked fl s.meters m) s

  abbrev pub metered : Option (Meters F) → Act (Unit {0})
  metered none = pure tt
  metered (some m) = meter_value m

  abbrev pub finished : ℕ → O → CacheOutcome → Item O
  finished index value outcome = record {
    index = index;
    value = some value;
    outcome = outcome;
    quarantined = none;
    skipped = false;
  }

  -- The store and the outcome of a fresh value; an uncached step has no key.
  unfoldable pub commit_value :
      ℕ → O → Option (String × StoreOps O W) → Act (EventType × CacheOutcome)
  commit_value index value none = pure (done_event, no_outcome)
  commit_value index value (some (digest, ops)) = do
    e ← call (ops.store digest value)
    fail_with (wrapped "step %q item %d: store cache entry") e
    count (λ c. record c { stored = c.stored + 1 })
    pure (stored_event, record { key_digest = digest; state = stored_state })

  unfoldable pub success : ℕ → O → Option (String × StoreOps O W) → Act (Item O)
  success index value key = do
    metered (elim r.meter [ none ↦ none | some m ↦ some (m value) ])
    done ← commit_value index value key
    event (item_event done.0 index)
    notify index value done.1
    pure (finished index value done.1)

  abbrev failure_event : EventType → ℕ → Error → ErrorClass → Event
  failure_event type index cause class = record (item_event type index) {
    class = class_name class;
    error = some cause;
  }

  -- What becomes of an item whose attempts are over.
  unfoldable pub resolve_failure : FailureMode → ℕ → Error → ErrorClass → ℕ → Act (Item O)
  resolve_failure fail_fast index cause class attempts =
      raise (wrapped "step %q item %d [%s]" cause)
  resolve_failure skip index cause class attempts = do
    count (λ c. record c { skipped = c.skipped + 1 })
    event (failure_event skipped_event index cause class)
    pure (record {
      index = index;
      value = none;
      outcome = no_outcome;
      quarantined = none;
      skipped = true;
    })
  resolve_failure mode index cause class attempts = do
    count (λ c. record c { quarantined = c.quarantined + 1 })
    event (failure_event quarantined_event index cause class)
    pure (record {
      index = index;
      value = none;
      outcome = no_outcome;
      quarantined = some (record {
        step = r.name;
        index = index;
        class = class;
        attempts = attempts;
        cause = cause;
      });
      skipped = false;
    })

  unfoldable pub fail : ℕ → Error → ErrorClass → ℕ → Act (Item O)
  unfolding resolve_failure
  fail index cause fatal attempts = raise (wrapped "step %q item %d [%s]" cause)
  fail index cause class attempts = resolve_failure r.policy.on_error index cause class attempts

  -- A refused admission fails the run; a spent budget says what was planned.
  abbrev pub admitted : Option (String × Error) → Act (Unit {0})
  admitted none = pure tt
  admitted (some (name, e)) = raise (
      wrapped
        (if is_error budget_exceeded e
          then "step %q item %d attempt %d: resource %q admission refused"
          else "step %q item %d attempt %d: wait for resource %q")
        e)

  abbrev pub entered : St F O W → Option (String × Error) × Pool F W → Result (Unit {0}) × St F O W
  entered s (o, p) = admitted o (record s { pool = p })

  unfoldable pub enter : Act (Unit {0})
  enter s = entered s (admit k r.resources (pos 1) s.pool)

  -- The wait before a retry.
  unfoldable pub back_off : ℤ → Act (Unit {0})
  back_off delay = do
    e ← call (λ w. r.pause (retry_delay (r.draw w) delay r.backoff.ceiling) w)
    fail_with (λ c. c) e

  abbrev pub count_retry : ErrorClass → StepReport F → StepReport F
  count_retry class c = record c {
    retries = c.retries + 1;
    retries_by_class =
        insert (class_name class) (count_at (class_name class) c.retries_by_class + 1)
          c.retries_by_class;
  }

  abbrev pub is_transient : ErrorClass → Bool
  is_transient transient = true
  is_transient _ = false

  abbrev pub start_if : Bool → StepReport F → StepReport F
  start_if true c = record c { started_sequences = c.started_sequences + 1 }
  start_if false c = c

  abbrev pub meters_of : O × Option Error → Option (Meters F)
  meters_of out = elim r.attempt_meter [ none ↦ none | some m ↦ some (m out.0 out.1) ]

  abbrev pub called_once : StepReport F → StepReport F
  called_once c = record c { work_calls = c.work_calls + 1 }

  -- The call of the step's function.
  abbrev pub calling : I → Act (O × Option Error)
  calling item = do
    out ← call (r.work_fn item)
    count called_once
    metered (meters_of out)
    pure out

  -- The admission and the call of one attempt, counted and metered.
  unfoldable pub attempt_once : ℕ → I → Act (O × Option Error)
  unfolding enter
  attempt_once attempt item = do enter; count (start_if (attempt == 1)); calling item

  abbrev pub check_class : Bool → ErrorClass → Act ErrorClass
  check_class true class = pure class
  check_class false class =
      raise (message "step %q item %d: classifier returned unknown error class %d")

  -- The class of an attempt's error, unless the run is over.
  unfoldable pub judge : Error → Act ErrorClass
  judge e = do
    over ← ctx_error
    fail_with (λ c. wrapped "step %q item %d" e) over
    check_class (is_valid (r.classifier e)) (r.classifier e)

  unfoldable pub announce_retry : ℕ → ℕ → Error → ErrorClass → Act (Unit {0})
  announce_retry index attempt e class = do
    count (count_retry class)
    event (record (failure_event retry_event index e class) { attempt = attempt })

  abbrev pub retry_or_fail : Bool → Act (Item O) → ℕ → Error → ErrorClass → ℕ → Act (Item O)
  retry_or_fail true again index e class attempt = announce_retry index attempt e class >> again
  retry_or_fail false again index e class attempt = fail index e class attempt

  -- The loop of `work`: `left` attempts may follow the one that is made now.
  abbrev pub after_attempt :
      (ℤ → Act (Item O))
      → Bool
      → ℕ
      → ℕ
      → ℤ
      → Option (String × StoreOps O W)
      → O × Option Error
      → Act (Item O)
  after_attempt again may_retry attempt index delay key (value, none) = success index value key
  after_attempt again may_retry attempt index delay key (value, some e) = do
    class ← judge e
    retry_or_fail (is_transient class && may_retry) (again delay) index e class attempt

  -- The last attempt is not followed by another.
  abbrev pub no_more : ℤ → Act (Item O)
  no_more delay = raise (message "unreachable")

  abbrev pub resume : (ℤ → Act (Item O)) → ℤ → Act (Item O)
  resume next delay = back_off delay >> next (next_retry_delay delay r.backoff.ceiling)

  unfoldable pub attempt_from : ℕ → ℕ → ℕ → I → Option (String × StoreOps O W) → ℤ → Act (Item O)
  unfolding success fail attempt_once judge announce_retry back_off
  attempt_from zero attempt index item key delay = do
    out ← attempt_once attempt item
    after_attempt no_more false attempt index delay key out
  attempt_from (suc left) attempt index item key delay = do
    out ← attempt_once attempt item
    after_attempt (resume (attempt_from left (suc attempt) index item key)) true attempt index delay
        key out
