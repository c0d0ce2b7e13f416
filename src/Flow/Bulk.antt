-- ===== src/Flow/Bulk.antt =====
-- flow/bulk.go: the groups of duplicate keys, the loads, and one bulk call with its admissions and
-- retries. The counters, the meters and the results of the step stand in the state with the pool.

pub mod Batches
pub mod Complete
pub mod Engine
pub mod Filled
pub mod Kept
pub mod Keyed
pub mod Loads
pub mod Writes
use flowkit.Base.{
  ℕ, zero, suc, ◌+◌, String, Bool, true, false, not, ◌&&◌, Option, none, some, List, [], ◌∷◌, ◌++◌,
  ◌==◌, if◌then◌else◌, str_eq, length, set, map,
}
use flowkit.Base.Int.{ℤ, pos}
use flowkit.Base.Assoc.{insert}
use flowkit.Base.Float.{FloatOps}
use flowkit.Errors.{Error, message, wrapped, budget_exceeded, is_error, Result, ok, err}
use flowkit.Exec.{Exec, ◌>>=◌, ◌>>◌, pure, raise, fail_with}
use flowkit.Execution.Group.{Group}
use flowkit.Execution.Outcome.{hit, stored_state, CacheOutcome, no_outcome}
use flowkit.Flow.Admit.{Pool, Gatekeeper, admit}
use flowkit.Flow.Batched.{OnResult}
use flowkit.Flow.Classify.{ErrorClass, transient, fatal, class_name, is_valid, classify_error}
use flowkit.Flow.Policy.{
  FailureMode, fail_fast, skip, Backoff, retry_delay, next_retry_delay, with_defaults, at_least_one,
}
use flowkit.Flow.Report.{
  Meters, add_checked, count_at, StepReport, ItemResult, Event, EventType, hit_event, stored_event,
  done_event, retry_event, quarantined_event, skipped_event,
}
use flowkit.Flow.Runner.{StoreOps, Step}

pub record BulkState (F V W : Type 0) : Type 0 where
  pub counts : StepReport F
  pub meters : Meters F
  pub pool : Pool F W
  pub results : List (ItemResult V)

-- keyGroup: its digest, its first item and its indexes
abbrev pub KeyGroup : Type 0 → Type 0
KeyGroup V = Group String V

abbrev pub Ledger : Type 0 → Type 0
Ledger W = Option (Event → W → Option Error × W)

abbrev pub BulkAct : Type 0 → Type 0 → Type 0 → Type 0 → Type 0
BulkAct F V W A = Exec (BulkState F V W) A

module _ {F V W : Type 0} where
  abbrev pub count : (StepReport F → StepReport F) → BulkAct F V W (Unit {0})
  count f s = (ok tt, record s { counts = f s.counts })

  abbrev pub put_result : ℕ → ItemResult V → BulkAct F V W (Unit {0})
  put_result i r s = (ok tt, record s { results = set s.results i r })

  abbrev pub called : {A : Type 0} → BulkState F V W → A × W → Result A × BulkState F V W
  called s (a, w) = (ok a, record s { pool = record (s.pool) { world = w } })

  abbrev pub call : {A : Type 0} → (W → A × W) → BulkAct F V W A
  call f s = called s (f s.pool.world)

  unfoldable pub emit : Ledger W → Event → BulkAct F V W (Unit {0})
  emit ledger e = elim ledger [
    | none ↦ pure tt
    | some l ↦ call (l e) >>= fail_with (λ c. wrapped "step %q" (wrapped "ledger event" c))
  ]

  unfoldable pub notify : OnResult V W → ℕ → V → CacheOutcome → BulkAct F V W (Unit {0})
  notify on_result i v outcome = elim on_result [
    | none ↦ pure tt
    | some f ↦ call (f i v outcome) >>= fail_with (wrapped "step %q item %d: result hook")
  ]

abbrev pub bulk_event : EventType → String → ℕ → Event
bulk_event type name i = record {
  step = name;
  index = some i;
  type = type;
  class = "";
  attempt = 0;
  total = 0;
  error = none;
}

abbrev pub valued : {V : Type 0} → V → CacheOutcome → ItemResult V
valued v outcome = record { value = some v; cache = outcome; quarantined = none; skipped = false }

abbrev pub failed_event : EventType → String → ℕ → Error → ErrorClass → Event
failed_event type name i cause class = record (bulk_event type name i) {
  class = class_name class;
  error = some cause;
}

-- What the attempts of a bulk call end in: its values, or the last error with its class and the number
-- of the attempts.
pub data Ending (V : Type 0) : Type 0 where
  worked : List V → Ending V
  gave_up : Error → ErrorClass → ℕ → Ending V

module _ {F V W : Type 0} (fl : FloatOps F) (gk : Gatekeeper F W) (s : Step F V V W)
    (do_bulk : List V → W → (List V × Option Error) × W) (ledger : Ledger W)
    (on_result : OnResult V W) where
  -- The indexes of a group that was loaded.
  unfoldable pub hit_indexes : V → CacheOutcome → List ℕ → BulkAct F V W (Unit {0})
  unfolding emit notify
  hit_indexes v outcome [] = pure tt
  hit_indexes v outcome (i ∷ is) = do
    count (λ c. record c { hits = c.hits + 1 })
    put_result i (valued v outcome)
    emit ledger (bulk_event hit_event s.name i)
    notify on_result i v outcome
    hit_indexes v outcome is

  -- What a load returns: the miss counts every index of its group.
  abbrev pub loaded : KeyGroup V → Option V → BulkAct F V W (List (KeyGroup V))
  loaded g none = do count (λ c. record c { misses = c.misses + length g.indexes }); pure (g ∷ [])
  loaded g (some v) = do
    hit_indexes v (record { key_digest = g.digest; state = hit }) g.indexes
    pure []

  abbrev pub read : KeyGroup V → Result (Option V) → BulkAct F V W (List (KeyGroup V))
  read g (err e) = raise (wrapped "step %q item %d: load cache entry: %w" e)
  read g (ok found) = loaded g found

  -- The loop over the groups of a cached step; what it returns are the misses.
  unfoldable pub load_groups : StoreOps V W → List (KeyGroup V) → BulkAct F V W (List (KeyGroup V))
  unfolding hit_indexes
  load_groups ops [] = pure []
  load_groups ops (g ∷ groups) = do
    found ← call (ops.load g.digest)
    missed ← read g found
    rest ← load_groups ops groups
    pure (missed ++ rest)

  abbrev pub add_metered : Result (Meters F) → BulkAct F V W (Unit {0})
  add_metered (ok m) t = (ok tt, record t { meters = m })
  add_metered (err e) t = (err (wrapped "step %q" e), t)

  unfoldable pub meter_all : List (Meters F) → BulkAct F V W (Unit {0})
  meter_all [] = pure tt
  meter_all (m ∷ ms) = (λ t. add_metered (add_checked fl t.meters m) t) >> meter_all ms

  abbrev pub attempt_meters : List V → Option Error → List (Meters F)
  attempt_meters values e = elim s.attempt_meter [ none ↦ [] | some m ↦ map (λ v. m v e) values ]

  abbrev pub result_meters : List V → List (Meters F)
  result_meters values = elim s.meter [ none ↦ [] | some m ↦ map m values ]

  abbrev pub refusal : Option (String × Error) → BulkAct F V W (Unit {0})
  refusal none = pure tt
  refusal (some (name, e)) = raise (
      wrapped
        (if is_error budget_exceeded e
          then "step %q attempt %d: resource %q admission refused a %d-item batch"
          else "step %q attempt %d: wait for resource %q")
        e)

  abbrev pub entered :
      BulkState F V W → Option (String × Error) × Pool F W → Result (Unit {0}) × BulkState F V W
  entered t (refused, p) = refusal refused (record t { pool = p })

  abbrev pub started_once : StepReport F → StepReport F
  started_once c = record c { started_sequences = c.started_sequences + 1 }

  abbrev pub kept : StepReport F → StepReport F
  kept c = c

  -- One attempt: an admission of a unit for each group, and the call.
  unfoldable pub attempt_bulk : ℕ → List V → BulkAct F V W (List V × Option Error)
  unfolding meter_all
  attempt_bulk attempt items = do
    (λ t. entered t (admit gk (map (λ r. r.name) s.policy.admission) (pos (length items)) t.pool))
    count (if attempt == 1 then started_once else kept)
    out ← call (do_bulk items)
    count (λ c. record c { work_calls = c.work_calls + 1 })
    meter_all (attempt_meters out.0 out.1)
    pure out

  -- The events of a retry, for every index of every group.
  unfoldable pub retry_indexes : Error → ErrorClass → ℕ → List ℕ → BulkAct F V W (Unit {0})
  unfolding emit
  retry_indexes e class attempt [] = pure tt
  retry_indexes e class attempt (i ∷ is) = do
    emit ledger (record (failed_event retry_event s.name i e class) { attempt = attempt })
    retry_indexes e class attempt is

  abbrev pub count_retry : ErrorClass → StepReport F → StepReport F
  count_retry class c = record c {
    retries = c.retries + 1;
    retries_by_class =
        insert (class_name class) (count_at (class_name class) c.retries_by_class + 1)
          c.retries_by_class;
  }

  abbrev pub check_class : Bool → ErrorClass → BulkAct F V W ErrorClass
  check_class true class = pure class
  check_class false class = raise (message "step %q: classifier returned unknown error class %d")

  abbrev pub class_of : Error → ErrorClass
  class_of e = elim s.policy.retry.class [ none ↦ classify_error e | some c ↦ c e ]

  -- The class of a failed call, unless the run is over.
  unfoldable pub judge : Error → BulkAct F V W ErrorClass
  judge e = do
    over ← call (λ w. (gk.ctx_err w, w))
    fail_with (λ c. wrapped "step %q" e) over
    check_class (is_valid (class_of e)) (class_of e)

  abbrev pub backoff : Backoff
  backoff = with_defaults s.policy.retry.backoff

  unfoldable pub back_off : ℤ → BulkAct F V W (Unit {0})
  back_off delay = do
    e ← call (λ w. s.pause (retry_delay (s.draw w) delay backoff.ceiling) w)
    fail_with (λ c. c) e

  abbrev pub retry_or_end :
      Bool → BulkAct F V W (Ending V) → List ℕ → Error → ErrorClass → ℕ → BulkAct F V W (Ending V)
  retry_or_end true again is e class attempt = do
    count (count_retry class)
    retry_indexes e class attempt is
    again
  retry_or_end false again is e class attempt = pure (gave_up e class attempt)

  abbrev pub is_transient : ErrorClass → Bool
  is_transient transient = true
  is_transient _ = false

  abbrev pub after_attempt :
      (ℤ → BulkAct F V W (Ending V))
      → Bool
      → ℕ
      → List V
      → List ℕ
      → ℤ
      → List V × Option Error
      → BulkAct F V W (Ending V)
  after_attempt again may_retry attempt items is delay (values, none) =
      if length values == length items
      then pure (worked values)
      else raise (message "step %q: bulk call returned %d results for %d items")
  after_attempt again may_retry attempt items is delay (values, some e) = do
    class ← judge e
    retry_or_end (is_transient class && may_retry) (again delay) is e class attempt

  abbrev pub no_more : ℤ → BulkAct F V W (Ending V)
  no_more delay = raise (message "unreachable")

  abbrev pub resume : (ℤ → BulkAct F V W (Ending V)) → ℤ → BulkAct F V W (Ending V)
  resume next delay = back_off delay >> next (next_retry_delay delay backoff.ceiling)

  -- The loop over the attempts: `left` may follow the one that is made now.
  unfoldable pub bulk_attempts : ℕ → ℕ → List V → List ℕ → ℤ → BulkAct F V W (Ending V)
  unfolding attempt_bulk retry_indexes judge back_off
  bulk_attempts zero attempt items is delay = do
    out ← attempt_bulk attempt items
    after_attempt no_more false attempt items is delay out
  bulk_attempts (suc left) attempt items is delay = do
    out ← attempt_bulk attempt items
    after_attempt (resume (bulk_attempts left (suc attempt) items is)) true attempt items is delay
        out
