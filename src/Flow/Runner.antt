-- ===== src/Flow/Runner.antt =====
-- typedRunner of flow/run.go: one item through the cache, the admission, the retries and the failure
-- mode of its step. `process` runs each leader to its end before the next item: a follower waits for
-- its leader, so it acts after the leader's last step under any schedule.
pub mod Work
pub mod Process
pub mod Counts
pub mod Untouched
pub mod Tallies
pub mod Ending
pub mod Attempts
pub mod Settling
pub mod Books
pub mod Plain
pub mod Whole
use flowkit.Base.{
  ℕ, zero, suc, ◌+◌, String, Bool, true, false, not, ◌&&◌, ◌||◌, Option, none, some, List, [], ◌∷◌,
  map, ltb, ◌==◌, if◌then◌else◌, str_eq,
}
use flowkit.Base.Int.{ℤ, pos}
use flowkit.Base.Assoc.{Assoc, lookup, insert}
use flowkit.Base.Float.{FloatOps}
use flowkit.Errors.{Error, message, wrapped, budget_exceeded, is_error, Result, ok, err}
use flowkit.Flow.Classify.{ErrorClass, transient, fatal, class_name, is_valid, classify_error}
use flowkit.Flow.Policy.{
  Policy, Backoff, FailureMode, fail_fast, quarantine, skip, ItemError, with_defaults, retry_delay,
  next_retry_delay, at_least_one,
}
use flowkit.Exec.{Exec, ◌>>=◌, ◌>>◌, pure, raise, lift, fail_with}
use flowkit.Execution.Outcome.{CacheState, uncached, hit, stored_state, CacheOutcome, no_outcome}
use flowkit.Flow.Report.{
  Meters, add_checked, StepReport, count_at, Event, EventType, hit_event, stored_event, done_event,
  retry_event, quarantined_event, skipped_event,
}
use flowkit.Flow.Admit.{Pool, Gatekeeper, admit}

-- The durability seam, by the digest of a key. Load gives none when no entry exists.
pub record StoreOps (O W : Type 0) : Type 0 where
  pub load : String → W → Result (Option O) × W
  pub store : String → O → W → Option Error × W

-- A step with the options of its run. Step.Key and Key.Digest are one function, which may fail; the
-- provider, the hooks and the ledger act on the world.
pub record Step (F I O W : Type 0) : Type 0 where
  pub name : String
  pub kind : String
  pub key_digest : I → Result String
  pub policy : Policy F
  pub do_work : Option (I → W → (O × Option Error) × W)
  pub meter : Option (O → Meters F)
  pub attempt_meter : Option (O → Option Error → Meters F)
  pub on_result : Option (ℕ → O → CacheOutcome → W → Option Error × W)
  pub store : Option (StoreOps O W)
  pub ledger : Option (Event → W → Option Error × W)
  -- rand.Int63n, and the wait of a delay: an error if the context ended first
  pub draw : W → ℕ → ℕ
  pub pause : ℤ → W → Option Error × W
  -- which case a select takes when the context and the leader have both ended
  pub picks_done : W → Bool

pub record Runner (F I O W : Type 0) : Type 0 where
  pub step : Step F I O W
  pub open step use *
  pub work_fn : I → W → (O × Option Error) × W
  pub classifier : Error → ErrorClass
  pub backoff : Backoff
  pub attempts : ℕ
  pub workers : ℕ
  pub resources : List String

-- An item that leaves the stage.
pub record Item (O : Type 0) : Type 0 where
  pub index : ℕ
  pub value : Option O
  pub outcome : CacheOutcome
  pub quarantined : Option ItemError
  pub skipped : Bool

pub record St (F O W : Type 0) : Type 0 where
  pub counts : StepReport F
  pub meters : Meters F
  pub pool : Pool F W
  -- the finished calls by digest
  pub inflight : Assoc (Result (Item O))

module _ {F I O W : Type 0} where
  abbrev both_meters : Step F I O W → Bool
  both_meters s = elim s.meter [
    | none ↦ false
    | some m ↦ elim s.attempt_meter [ none ↦ false | some a ↦ true ]
  ]

  unfoldable pub new_typed_runner : Step F I O W → Result (Runner F I O W)
  unfolding with_defaults
  new_typed_runner s =
      if str_eq s.name "" then err (message "every step needs a name") else elim s.do_work [
        | none ↦ err (message "step %q has no Do function")
        | some work ↦
            if both_meters s
            then err (message "step %q cannot set both Meter and AttemptMeter")
            else ok (record {
              step = s;
              work_fn = work;
              classifier = elim s.policy.retry.class [ none ↦ classify_error | some c ↦ c ];
              backoff = with_defaults s.policy.retry.backoff;
              attempts = at_least_one s.policy.retry.attempts;
              workers = at_least_one s.policy.workers;
              resources = map (λ r. r.name) s.policy.admission;
            })
      ]
