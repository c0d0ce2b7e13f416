-- ===== src/Flow/Runner/Process.antt =====
-- work, lead, follow, process and report of flow/run.go, and the items of one stage in order.
use flowkit.Base.{
  ℕ, ◌+◌, ◌-◌, String, Bool, true, false, Option, none, some, List, [], ◌∷◌, if◌then◌else◌, str_eq,
}
use flowkit.Base.Assoc.{lookup, insert}
use flowkit.Base.Float.{FloatOps}
use flowkit.Errors.{Error, message, wrapped, Result, ok, err}
use flowkit.Flow.Policy.{ItemError}
use flowkit.Exec.{◌>>=◌, ◌>>◌, pure, raise, lift}
use flowkit.Execution.Outcome.{CacheState, uncached, hit, CacheOutcome, no_outcome}
use flowkit.Flow.Report.{
  StepReport, EventType, hit_event, stored_event, quarantined_event, skipped_event,
}
use flowkit.Flow.Admit.{Gatekeeper}
use flowkit.Flow.Runner.{StoreOps, Runner, Item, St}
use flowkit.Flow.Runner.Work.{
  Act, count, call, ctx_error, event, item_event, notify, finished, attempt_from,
}

module _ {F I O W : Type 0} (fl : FloatOps F) (k : Gatekeeper F W) (r : Runner F I O W) where
  unfoldable pub work : ℕ → I → Option (String × StoreOps O W) → Act fl k r (Item O)
  unfolding attempt_from
  work index item key = attempt_from fl k r (r.attempts - 1) 1 index item key r.backoff.base

  abbrev pub load_error : {A : Type 0} → Result A → Result A
  load_error (ok a) = ok a
  load_error (err e) = err (wrapped "step %q item %d: load cache entry" e)

  -- What a load found.
  unfoldable pub lead_with : ℕ → I → String → StoreOps O W → Option O → Act fl k r (Item O)
  unfolding event notify
  lead_with index item digest ops (some loaded) = do
    count fl k r (λ c. record c { hits = c.hits + 1 })
    event fl k r (item_event fl k r hit_event index)
    notify fl k r index loaded (record { key_digest = digest; state = hit })
    pure (finished fl k r index loaded (record { key_digest = digest; state = hit }))
  lead_with index item digest ops none = do
    count fl k r (λ c. record c { misses = c.misses + 1 })
    work index item (some (digest, ops))

  unfoldable pub lead : ℕ → I → String → StoreOps O W → Act fl k r (Item O)
  unfolding lead_with
  lead index item digest ops = do
    loaded ← call fl k r (ops.load digest)
    found ← lift (load_error loaded)
    lead_with index item digest ops found

  abbrev at_index : ℕ → ItemError → ItemError
  at_index index e = record e { index = index }

  abbrev is_hit : CacheState → Bool
  is_hit hit = true
  is_hit _ = false

  abbrev with_state : String → CacheState → CacheOutcome
  with_state digest uncached = no_outcome
  with_state digest state = record { key_digest = digest; state = state }

  -- A leader's item as a follower's: the quarantine record names the follower.
  abbrev pub copied : ℕ → String → Item O → Item O
  copied index digest led = record {
    index = index;
    value = led.value;
    outcome = with_state digest led.outcome.state;
    quarantined = elim led.quarantined [ none ↦ none | some e ↦ some (at_index index e) ];
    skipped = led.skipped;
  }

  -- What a follower counts, and its event.
  abbrev pub destiny :
      Option ItemError → Bool → CacheState → (StepReport F → StepReport F) × EventType
  destiny (some e) skipped state = (
    (λ c. record c { misses = c.misses + 1; quarantined = c.quarantined + 1 }),
    quarantined_event,
  )
  destiny none true state =
      ((λ c. record c { misses = c.misses + 1; skipped = c.skipped + 1 }), skipped_event)
  destiny none false hit = ((λ c. record c { hits = c.hits + 1 }), hit_event)
  destiny none false state = ((λ c. record c { misses = c.misses + 1 }), stored_event)

  -- The hook is called on values only.
  abbrev pub notify_value :
      ℕ → Option O → CacheOutcome → Option ItemError → Bool → Act fl k r (Unit {0})
  notify_value index (some v) outcome none false = notify fl k r index v outcome
  notify_value index value outcome quarantined skipped = pure tt

  unfoldable pub follow_leader : ℕ → String → Result (Item O) → Act fl k r (Item O)
  unfolding event notify
  follow_leader index digest (err e) = raise e
  follow_leader index digest (ok led) = do
    let resolved = destiny led.quarantined led.skipped led.outcome.state
    count fl k r resolved.0
    event fl k r (item_event fl k r resolved.1 index)
    let item = copied index digest led
    notify_value index item.value item.outcome item.quarantined item.skipped
    pure (copied index digest led)

  abbrev pub stop_wait : Option Error → Bool → Act fl k r (Unit {0})
  stop_wait (some e) false = raise e
  stop_wait o picks_done = pure tt

  unfoldable pub follow : ℕ → String → Result (Item O) → Act fl k r (Item O)
  unfolding follow_leader
  follow index digest led = do
    over ← ctx_error fl k r
    picks ← (λ s. (ok (r.picks_done s.pool.world), s))
    stop_wait over picks
    follow_leader index digest led

  -- The leader's result is kept for its duplicates, an error included.
  abbrev pub remember : String → Result (Item O) × St F O W → Result (Item O) × St F O W
  remember digest (led, s) = (led, record s { inflight = insert digest led s.inflight })

  unfoldable pub by_digest :
      ℕ → I → String → StoreOps O W → Option (Result (Item O)) → Act fl k r (Item O)
  unfolding follow lead
  by_digest index item digest ops (some led) s = follow index digest led s
  by_digest index item digest ops none s = remember digest (lead index item digest ops s)

  unfoldable pub with_store : ℕ → I → Option (StoreOps O W) → Act fl k r (Item O)
  unfolding work by_digest
  with_store index item none = work index item none
  with_store index item (some ops) = do
    digest ← lift (r.key_digest item)
    led ← (λ s. (ok (lookup digest s.inflight), s))
    by_digest index item digest ops led

  -- The store of the run, if the step has a kind.
  abbrev pub cached_by : Option (StoreOps O W)
  cached_by = if str_eq r.kind "" then none else r.store

  unfoldable pub process : ℕ → I → Act fl k r (Item O)
  unfolding with_store
  process index item = do
    count fl k r (λ c. record c { items = c.items + 1 })
    with_store index item cached_by

  -- An item that a failure has ended passes the stage as it is.
  abbrev pub passed : Item I → Item O
  passed i = record {
    index = i.index;
    value = none;
    outcome = i.outcome;
    quarantined = i.quarantined;
    skipped = i.skipped;
  }

  unfoldable pub handle : Item I → Option ItemError → Bool → Option I → Act fl k r (Item O)
  unfolding process
  handle i none false (some item) = process i.index item
  handle i none false none = raise (message "item %d has type %T, step %q expects %T")
  handle i quarantined skipped value = pure (passed i)

  -- The items of a stage; the first error ends the run.
  unfoldable pub run : List (Item I) → Act fl k r (List (Item O))
  unfolding handle
  run [] = pure []
  run (i ∷ items) = do
    out ← handle i i.quarantined i.skipped i.value
    outs ← run items
    pure (out ∷ outs)
