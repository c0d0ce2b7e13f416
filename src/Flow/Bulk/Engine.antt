-- ===== src/Flow/Bulk/Engine.antt =====
-- runBulk of flow/bulk.go, and the step that Bulk makes of it. A batch runs from its start to its end
-- in one job of Map; the progress lines of the log are left out.
use flowkit.Base.{
  ℕ, zero, suc, ◌+◌, Bool, true, false, ◌||◌, Option, none, some, List, [], ◌∷◌, ◌++◌,
  if◌then◌else◌, str_eq, length, map, replicate,
}
use flowkit.Base.Int.{ℤ, pos, pos_part, ltb_ℤ}
use flowkit.Base.Float.{FloatOps}
use flowkit.Errors.{Error, message, wrapped, Result, ok, err}
use flowkit.Exec.{◌>>=◌, ◌>>◌, pure, raise, lift, fail_with}
use flowkit.Execution.Group.{group_items, make_batches}
use flowkit.Execution.Map.{Job, map_items}
use flowkit.Execution.Outcome.{stored_state, CacheOutcome, no_outcome}
use flowkit.Flow.Accounts.{report}
use flowkit.Flow.Admit.{Gatekeeper}
use flowkit.Flow.Batched.{OnResult, empty_result}
use flowkit.Flow.Classify.{ErrorClass, fatal}
use flowkit.Flow.Observe.{Scene, Act}
use flowkit.Flow.Policy.{FailureMode, fail_fast, skip, with_defaults, at_least_one}
use flowkit.Flow.Report.{
  zero_report, merge, StepReport, ItemResult, EventType, stored_event, done_event,
  quarantined_event, skipped_event,
}
use flowkit.Flow.Runner.{StoreOps, Step}
use flowkit.Flow.Bulk.{
  BulkState, KeyGroup, Ledger, BulkAct, Ending, worked, gave_up, count, put_result, call, emit,
  notify, bulk_event, failed_event, valued, meter_all, result_meters, load_groups, bulk_attempts,
}

-- The indexes of a batch's groups.
unfoldable pub batch_indexes : {V : Type 0} → List (KeyGroup V) → List ℕ
batch_indexes [] = []
batch_indexes (g ∷ groups) = g.indexes ++ batch_indexes groups

-- The groups of an uncached step, one for each item.
unfoldable pub single_groups : {V : Type 0} → ℕ → List V → List (KeyGroup V)
single_groups i [] = []
single_groups i (v ∷ vs) =
    record { digest = ""; key = ""; item = v; indexes = i ∷ [] } ∷ single_groups (suc i) vs

module _ {F V W : Type 0} (fl : FloatOps F) (gk : Gatekeeper F W) (s : Step F V V W)
    (do_bulk : List V → W → (List V × Option Error) × W) (ledger : Ledger W)
    (on_result : OnResult V W) where
  abbrev pub set_aside : Bool → ℕ → Error → ErrorClass → ℕ → ItemResult V
  set_aside true i e class attempts = record {
    value = none;
    cache = no_outcome;
    quarantined = none;
    skipped = true;
  }
  set_aside false i e class attempts = record {
    value = none;
    cache = no_outcome;
    quarantined =
        some (record { step = s.name; index = i; class = class; attempts = attempts; cause = e });
    skipped = false;
  }

  abbrev pub count_aside : Bool → StepReport F → StepReport F
  count_aside true c = record c { skipped = c.skipped + 1 }
  count_aside false c = record c { quarantined = c.quarantined + 1 }

  -- Every index of a batch whose call has failed.
  unfoldable pub file_failed : Bool → Error → ErrorClass → ℕ → List ℕ → BulkAct F V W (Unit {0})
  file_failed skips e class attempts [] = pure tt
  file_failed skips e class attempts (i ∷ is) = do
    count (count_aside skips)
    put_result i (set_aside skips i e class attempts)
    emit ledger (failed_event (if skips then skipped_event else quarantined_event) s.name i e class)
    file_failed skips e class attempts is

  abbrev pub is_fatal : ErrorClass → Bool
  is_fatal fatal = true
  is_fatal _ = false

  abbrev pub is_fail_fast : FailureMode → Bool
  is_fail_fast fail_fast = true
  is_fail_fast _ = false

  abbrev pub is_skip : FailureMode → Bool
  is_skip skip = true
  is_skip _ = false

  unfoldable pub fail_batch : Error → ErrorClass → ℕ → List ℕ → BulkAct F V W (Unit {0})
  unfolding file_failed
  fail_batch e class attempts is =
      if is_fatal class || is_fail_fast s.policy.on_error
      then raise (wrapped "step %q batch [%s]" e)
      else file_failed (is_skip s.policy.on_error) e class attempts is

  -- The results of a group, and then its events and hooks.
  unfoldable pub put_all : ItemResult V → List ℕ → BulkAct F V W (Unit {0})
  put_all r [] = pure tt
  put_all r (i ∷ is) = put_result i r >> put_all r is

  unfoldable pub tell_all : EventType → V → CacheOutcome → List ℕ → BulkAct F V W (Unit {0})
  tell_all type v outcome [] = pure tt
  tell_all type v outcome (i ∷ is) = do
    emit ledger (bulk_event type s.name i)
    notify on_result i v outcome
    tell_all type v outcome is

  -- The store of a value of a cached step.
  unfoldable pub commit :
      Option (StoreOps V W) → KeyGroup V → V → BulkAct F V W (EventType × CacheOutcome)
  commit none g v = pure (done_event, no_outcome)
  commit (some ops) g v = do
    e ← call (ops.store g.digest v)
    fail_with (wrapped "step %q item %d: store cache entry") e
    count (λ c. record c { stored = c.stored + 1 })
    pure (stored_event, record { key_digest = g.digest; state = stored_state })

  unfoldable pub commit_groups :
      Option (StoreOps V W) → List (KeyGroup V) → List V → BulkAct F V W (Unit {0})
  unfolding commit put_all tell_all
  commit_groups cache [] values = pure tt
  commit_groups cache (g ∷ groups) [] = pure tt
  commit_groups cache (g ∷ groups) (v ∷ values) = do
    done ← commit cache g v
    put_all (valued v done.1) g.indexes
    tell_all done.0 v done.1 g.indexes
    commit_groups cache groups values

  unfoldable pub end_batch :
      Option (StoreOps V W) → List (KeyGroup V) → Ending V → BulkAct F V W (Unit {0})
  unfolding fail_batch commit_groups
  end_batch cache groups (gave_up e class attempts) =
      fail_batch e class attempts (batch_indexes groups)
  end_batch cache groups (worked values) =
      meter_all fl gk s do_bulk ledger on_result
        (result_meters fl gk s do_bulk ledger on_result values)
      >> commit_groups cache groups values

  abbrev pub predecessor : ℕ → ℕ
  predecessor zero = zero
  predecessor (suc n) = n

  -- The work of one batch.
  unfoldable pub work_batch : Option (StoreOps V W) → List (KeyGroup V) → BulkAct F V W (Unit {0})
  unfolding end_batch batch_indexes
  work_batch cache groups =
      bulk_attempts fl gk s do_bulk ledger on_result
        (predecessor (at_least_one s.policy.retry.attempts)) 1 (map (λ g. g.item) groups)
        (batch_indexes groups) (with_defaults s.policy.retry.backoff).base
      >>= end_batch cache groups

  unfoldable pub work_batches :
      (List (Job (List (KeyGroup V))) → List (Job (List (KeyGroup V))))
      → Option (StoreOps V W)
      → ℕ
      → List (KeyGroup V)
      → BulkAct F V W (Unit {0})
  unfolding work_batch make_batches
  work_batches schedule cache size misses = lift (make_batches size misses) >>= λ batches.
      map_items schedule (record { limiter = none; cost = none }) batches (some (work_batch cache))
      >>= λ done. pure tt

  -- The groups, their loads, and the batches of what is missing.
  unfoldable pub bulk_items :
      (List (Job (List (KeyGroup V))) → List (Job (List (KeyGroup V))))
      → Option (StoreOps V W)
      → ℕ
      → List V
      → BulkAct F V W (List (ItemResult V))
  unfolding single_groups work_batches
  bulk_items schedule cache size items = do
    elim cache [
      | none ↦ work_batches schedule none size (single_groups 0 items)
      | some ops ↦ (do
        groups ← lift (group_items s.key_digest (λ d. ok d) 0 items [])
        misses ← load_groups fl gk s do_bulk ledger on_result ops groups
        work_batches schedule (some ops) size misses)
    ]
    (λ t. (ok t.results, t))

-- Bulk's function and its batch size
pub record BulkSpec (V W : Type 0) : Type 0 where
  pub do_bulk : Option (List V → W → (List V × Option Error) × W)
  pub batch_size : ℤ

module _ {F V W : Type 0} (fl : FloatOps F) where
  abbrev pub both_meters : Step F V V W → Bool
  both_meters s = elim s.meter [
    | none ↦ false
    | some m ↦ elim s.attempt_meter [ none ↦ false | some a ↦ true ]
  ]

  -- The step has what a bulk step needs.
  unfoldable pub check_bulk :
      BulkSpec V W → Step F V V W → Result (List V → W → (List V × Option Error) × W)
  check_bulk spec s = elim spec.do_bulk [
    | none ↦ err (message "bulk step %q needs a bulk function")
    | some do_bulk ↦
        if ltb_ℤ spec.batch_size (pos 1)
        then err (message "bulk step %q batch size must be positive")
        else if str_eq s.name ""
        then err (message "every step needs a name")
        else if both_meters s
        then err (message "step %q cannot set both Meter and AttemptMeter")
        else ok do_bulk
  ]

  abbrev pub bulk_state : ℕ → Scene F W → BulkState F V W
  bulk_state total scene = record {
    counts = zero_report;
    meters = [];
    pool = scene.pool;
    results = replicate total empty_result;
  }

  -- The report of the step, whether it has results or an error.
  abbrev pub bulk_ended :
      {A : Type 0} → Step F V V W → Scene F W → Result A × BulkState F V W → Result A × Scene F W
  bulk_ended s scene (r, t) = (
    r,
    record scene {
      pool = t.pool;
      report =
          merge fl scene.report
            (report fl s.name (map (λ x. x.name) s.policy.admission) t.counts t.meters t.pool.env);
    },
  )

  -- The cache of a step with an identity.
  abbrev pub cache_of : Step F V V W → Option (StoreOps V W)
  cache_of s = if str_eq s.kind "" then none else s.store

  unfoldable pub run_bulk :
      Gatekeeper F W
      → (List (Job (List (KeyGroup V))) → List (Job (List (KeyGroup V))))
      → BulkSpec V W
      → Step F V V W
      → List V
      → Act F W (List (ItemResult V))
  unfolding check_bulk bulk_items
  run_bulk gk schedule spec s items scene =
      let work : BulkAct F V W (List (ItemResult V)) = (do
        do_bulk ← lift (check_bulk spec s)
        count (λ c. record c { items = length items })
        bulk_items fl gk s do_bulk s.ledger s.on_result schedule (cache_of s)
            (pos_part spec.batch_size) items) in
      bulk_ended s scene (work (bulk_state (length items) scene))
