-- ===== src/Flow/Runner/Whole.antt =====
-- What leaves a stage: each item of typedRunner in flow/run.go is a value, a quarantined or a skipped
-- item, and has the index of the item that came in.
use flowkit.Base.{
  ◌≡◌, refl, ap, subst, ℕ, zero, suc, ◌-◌, ◌+◌, String, Bool, true, false, ◌&&◌, Option, none, some,
}
use flowkit.Base.Int.{ℤ}
use flowkit.Base.Assoc.{lookup}
use flowkit.Base.Float.{FloatOps}
use flowkit.Errors.{Error, wrapped, Result, ok, err, ok-injective}
use flowkit.Exec.Yields.{After, bind-Yields, pure-Yields}
use flowkit.Execution.Outcome.{stored_state, CacheOutcome}
use flowkit.Flow.Classify.{ErrorClass, transient, data_class, fatal, other}
use flowkit.Flow.Policy.{
  FailureMode, fail_fast, quarantine, skip, other_mode, ItemError, next_retry_delay,
}
use flowkit.Flow.Report.{stored_event}
use flowkit.Flow.Admit.{Gatekeeper}
use flowkit.Flow.Runner.{StoreOps, Runner, Item, St}
use flowkit.Flow.Runner.Work.{
  Act, ctx_error, finished, commit_value, success, resolve_failure, fail, announce_retry,
  retry_or_fail, after_attempt, attempt_from, count_retry, is_transient,
}
use flowkit.Flow.Runner.Process.{
  work, load_error, lead_with, lead, copied, destiny, notify_value, follow_leader, stop_wait,
  follow, remember, by_digest, with_store, cached_by, process, passed, handle,
}
pub use flowkit.Flow.Runner.Plain.{Shape, IsWhole, Remembers, Whole}
use flowkit.Flow.Runner.Plain.{
  Plain, Plain-then, Plain-seq, Plain-pure, raised, Plain-fail, Plain-lift, remembered, call-Plain,
  count-Plain, event-Plain, notify-Plain, metered-Plain, back_off-Plain, judge-Plain,
  attempt_once-Plain,
}

module _ {F I O W : Type 0} (fl : FloatOps F) (k : Gatekeeper F W) (r : Runner F I O W) where
  commit-Plain :
      (index : ℕ) (v : O) (key : Option (String × StoreOps O W))
      → Plain (commit_value fl k r index v key)
  unfolding commit_value
  commit-Plain index v none = Plain-pure _
  commit-Plain index v (some (digest, ops)) =
      Plain-then _ _ _ (call-Plain fl k r (ops.store digest v)) (λ e.
        Plain-seq _ _ _ (Plain-fail (wrapped "step %q item %d: store cache entry") e) (
          Plain-seq _ _ _ (count-Plain fl k r (λ c. record c { stored = c.stored + 1 }))
            (Plain-pure (stored_event, record { key_digest = digest; state = stored_state }))))

  IsWhole-value : (index : ℕ) (v : O) (c : CacheOutcome) → IsWhole index (finished fl k r index v c)
  IsWhole-value index v c = record { at = refl; shape = tt }

  success-Whole :
      (index : ℕ) (v : O) (key : Option (String × StoreOps O W))
      → Whole index (success fl k r index v key)
  unfolding success
  success-Whole index v key =
      Plain-seq _ _ _ (metered-Plain fl k r (elim r.meter [ none ↦ none | some m ↦ some (m v) ])) (
        Plain-then _ _ _ (commit-Plain index v key) (λ done.
          Plain-seq _ _ _ (event-Plain fl k r _) (
            Plain-seq _ _ _ (notify-Plain fl k r index v done.1)
              (pure-Yields Unit Remembers _ _ (IsWhole-value index v done.1)))))

  resolve-Whole :
      (mode : FailureMode) (index : ℕ) (e : Error) (c : ErrorClass) (attempts : ℕ)
      → Whole index (resolve_failure fl k r mode index e c attempts)
  unfolding resolve_failure
  resolve-Whole fail_fast index e c attempts = raised _ _
  resolve-Whole skip index e c attempts =
      Plain-seq _ _ _ (count-Plain fl k r (λ c. record c { skipped = c.skipped + 1 })) (
        Plain-seq _ _ _ (event-Plain fl k r _)
          (pure-Yields Unit Remembers _ _ (record { at = refl; shape = tt })))
  resolve-Whole quarantine index e c attempts =
      Plain-seq _ _ _ (count-Plain fl k r (λ c. record c { quarantined = c.quarantined + 1 })) (
        Plain-seq _ _ _ (event-Plain fl k r _)
          (pure-Yields Unit Remembers _ _ (record { at = refl; shape = refl })))
  resolve-Whole (other_mode n) index e c attempts =
      Plain-seq _ _ _ (count-Plain fl k r (λ c. record c { quarantined = c.quarantined + 1 })) (
        Plain-seq _ _ _ (event-Plain fl k r _)
          (pure-Yields Unit Remembers _ _ (record { at = refl; shape = refl })))

  fail-Whole :
      (index : ℕ) (e : Error) (c : ErrorClass) (attempts : ℕ)
      → Whole index (fail fl k r index e c attempts)
  unfolding fail
  fail-Whole index e fatal attempts = raised _ _
  fail-Whole index e transient attempts = resolve-Whole r.policy.on_error index e _ attempts
  fail-Whole index e data_class attempts = resolve-Whole r.policy.on_error index e _ attempts
  fail-Whole index e (other n) attempts = resolve-Whole r.policy.on_error index e _ attempts

  retry-Whole :
      (b : Bool) (again : Act fl k r (Item O)) (index : ℕ) (e : Error) (c : ErrorClass)
      (attempt : ℕ)
      → Whole index again
      → Whole index (retry_or_fail fl k r b again index e c attempt)
  unfolding announce_retry
  retry-Whole true again index e c attempt h =
      Plain-seq _ _ _
        (Plain-seq _ _ _ (count-Plain fl k r (count_retry fl k r c)) (event-Plain fl k r _)) h
  retry-Whole false again index e c attempt h = fail-Whole index e c attempt

  after-Whole :
      (again : ℤ → Act fl k r (Item O)) (may_retry : Bool) (attempt index : ℕ) (delay : ℤ)
      (key : Option (String × StoreOps O W)) (out : O × Option Error)
      → ((d : ℤ) → Whole index (again d))
      → Whole index (after_attempt fl k r again may_retry attempt index delay key out)
  after-Whole again may_retry attempt index delay key (v, none) h = success-Whole index v key
  after-Whole again may_retry attempt index delay key (v, some e) h =
      Plain-then _ _ _ (judge-Plain fl k r e) (λ c.
        retry-Whole (is_transient fl k r c && may_retry) (again delay) index e c attempt (h delay))

  attempt-Whole :
      (left attempt index : ℕ) (item : I) (key : Option (String × StoreOps O W)) (delay : ℤ)
      → Whole index (attempt_from fl k r left attempt index item key delay)
  unfolding attempt_from
  attempt-Whole zero attempt index item key delay =
      Plain-then _ _ _ (attempt_once-Plain fl k r attempt item)
        (λ out. after-Whole _ false attempt index delay key out (λ d. raised _ _))
  attempt-Whole (suc left) attempt index item key delay =
      Plain-then _ _ _ (attempt_once-Plain fl k r attempt item) (λ out.
        after-Whole _ true attempt index delay key out (λ d.
          Plain-seq _ _ _ (back_off-Plain fl k r d) (
            attempt-Whole left (suc attempt) index item key
              (next_retry_delay d r.backoff.ceiling))))

  work-Whole :
      (index : ℕ) (item : I) (key : Option (String × StoreOps O W))
      → Whole index (work fl k r index item key)
  unfolding work
  work-Whole index item key = attempt-Whole (r.attempts - 1) 1 index item key r.backoff.base

  lead_with-Whole :
      (index : ℕ) (item : I) (digest : String) (ops : StoreOps O W) (loaded : Option O)
      → Whole index (lead_with fl k r index item digest ops loaded)
  unfolding lead_with
  lead_with-Whole index item digest ops (some v) =
      Plain-seq _ _ _ (count-Plain fl k r (λ c. record c { hits = c.hits + 1 })) (
        Plain-seq _ _ _ (event-Plain fl k r _) (
          Plain-seq _ _ _ (notify-Plain fl k r index v _)
            (pure-Yields Unit Remembers _ _ (IsWhole-value index v _))))
  lead_with-Whole index item digest ops none =
      Plain-seq _ _ _ (count-Plain fl k r (λ c. record c { misses = c.misses + 1 }))
        (work-Whole index item (some (digest, ops)))

  lead-Whole :
      (index : ℕ) (item : I) (digest : String) (ops : StoreOps O W)
      → Whole index (lead fl k r index item digest ops)
  unfolding lead
  lead-Whole index item digest ops =
      Plain-then _ _ _ (call-Plain fl k r (ops.load digest)) (λ loaded.
        Plain-then _ _ _ (Plain-lift (load_error fl k r loaded))
          (lead_with-Whole index item digest ops))

  copied-Shape :
      (n index : ℕ) (v : Option O) (q : Option ItemError) (skipped : Bool)
      → Shape n v q skipped
      → Shape index v (elim q [ none ↦ none | some e ↦ some (record e { index = index }) ]) skipped
  copied-Shape n index (some v) none false h = tt
  copied-Shape n index none (some e) false h = refl
  copied-Shape n index none none true h = tt
  copied-Shape n index none none false h = h
  copied-Shape n index none (some e) true h = h
  copied-Shape n index (some v) none true h = h
  copied-Shape n index (some v) (some e) skipped h = absurd (broken skipped h)
    where
      broken : (b : Bool) → Shape n (some v) (some e) b → ⊥
      broken true h = h
      broken false h = h

  value-Plain :
      (index : ℕ) (v : Option O) (c : CacheOutcome) (q : Option ItemError) (skipped : Bool)
      → Plain (notify_value fl k r index v c q skipped)
  value-Plain index (some v) c none false = notify-Plain fl k r index v c
  value-Plain index (some v) c none true = Plain-pure tt
  value-Plain index (some v) c (some e) skipped = Plain-pure tt
  value-Plain index none c q skipped = Plain-pure tt

  follow_leader-Whole :
      (index : ℕ) (digest : String) (led : Result (Item O))
      → ((o : Item O) → led ≡ ok o → IsWhole o.index o)
      → Whole index (follow_leader fl k r index digest led)
  unfolding follow_leader
  follow_leader-Whole index digest (err e) h = raised _ _
  follow_leader-Whole index digest (ok led) h =
      let item = copied fl k r index digest led in
      Plain-seq _ _ _
        (count-Plain fl k r (destiny fl k r led.quarantined led.skipped led.outcome.state).0)
        (Plain-seq _ _ _ (event-Plain fl k r _) (
          Plain-seq _ _ _ (value-Plain index item.value item.outcome item.quarantined item.skipped)
            (pure-Yields Unit Remembers _ _ (record {
              at = refl;
              shape =
                  copied-Shape led.index index led.value led.quarantined led.skipped
                    (h led refl).shape;
            }))))

  follow-Whole :
      (index : ℕ) (digest : String) (led : Result (Item O))
      → ((o : Item O) → led ≡ ok o → IsWhole o.index o)
      → Whole index (follow fl k r index digest led)
  unfolding follow
  follow-Whole index digest led h =
      Plain-then _ (ctx_error fl k r) _ (record { at = λ s i. (tt, i) })
        (λ over.
          Plain-then _ (λ s. (ok (r.picks_done s.pool.world), s)) _ (record { at = λ s i. (tt, i) })
            (λ picks.
              Plain-seq _ _ _ (stopped over picks) (follow_leader-Whole index digest led h)))
    where
      stopped : (o : Option Error) (b : Bool) → Plain (stop_wait fl k r o b)
      stopped none b = Plain-pure tt
      stopped (some e) true = Plain-pure tt
      stopped (some e) false = raised _ e

  by_digest-Whole :
      (index : ℕ) (item : I) (digest : String) (ops : StoreOps O W) (led : Option (Result (Item O)))
      → ((o : Item O) → led ≡ some (ok o) → IsWhole o.index o)
      → Whole index (by_digest fl k r index item digest ops led)
  unfolding by_digest
  by_digest-Whole index item digest ops (some led) h = record {
    at = (follow-Whole index digest led (λ o e. h o (ap some e))).at;
  }
  by_digest-Whole index item digest ops none h = record {
    at = λ s i.
        kept (lead fl k r index item digest ops s) ((lead-Whole index item digest ops).at s i);
  }
    where
      own : (o p : Item O) → IsWhole index o → ok o ≡ ok p → IsWhole p.index p
      own o p w x =
          subst (λ (t : Item O). IsWhole t.index t) (ok-injective x)
            (record { at = refl; shape = w.shape })

      kept :
          (x : Result (Item O) × St F O W)
          → After Unit Remembers (IsWhole index) x
          → After Unit Remembers (IsWhole index) (remember fl k r digest x)
      kept (ok o, s) (w, i) =
          (w, λ d p e. remembered s.inflight digest d (ok o) p (λ x. own o p w x) (i d p) e)
      kept (err e, s) (u, i) =
          (u, λ d p x. remembered s.inflight digest d (err e) p (λ y. cc) (i d p) x)

  with_store-Whole :
      (index : ℕ) (item : I) (ops : Option (StoreOps O W))
      → Whole index (with_store fl k r index item ops)
  unfolding with_store
  with_store-Whole index item none = work-Whole index item none
  with_store-Whole index item (some ops) =
      Plain-then _ _ _ (Plain-lift (r.key_digest item)) (λ digest.
        bind-Yields Unit Remembers (λ led. (o : Item O) → led ≡ some (ok o) → IsWhole o.index o) _
          (λ s. (ok (lookup digest s.inflight), s)) _
          (record { at = λ s i. (λ o e. i digest o e, i) })
          (λ led h. by_digest-Whole index item digest ops led h))

  process-Whole : (index : ℕ) (item : I) → Whole index (process fl k r index item)
  unfolding process
  process-Whole index item =
      Plain-seq _ _ _ (count-Plain fl k r (λ c. record c { items = c.items + 1 }))
        (with_store-Whole index item (cached_by fl k r))

  drop_value :
      {V : Type 0} (n : ℕ) (v : Option V) (q : Option ItemError) (skipped : Bool)
      → (q ≡ none → skipped ≡ false → ⊥)
      → Shape n v q skipped
      → Shape {O = O} n none q skipped
  drop_value n v none false flagged h = flagged refl refl
  drop_value n none (some e) false flagged h = h
  drop_value n none none true flagged h = tt
  drop_value n none (some e) true flagged h = h
  drop_value n (some v) none true flagged h = absurd h
  drop_value n (some v) (some e) true flagged h = absurd h
  drop_value n (some v) (some e) false flagged h = absurd h

  -- A worker makes of a whole item a whole item of the same index, whatever its value's type is.
  pub handle-Whole :
      (i : Item I) (v : Option I)
      → IsWhole i.index i
      → Whole i.index (handle fl k r i i.quarantined i.skipped v)
  unfolding handle
  handle-Whole i v w = by_flags i.quarantined i.skipped v (λ flagged. record {
    at = refl;
    shape = drop_value i.index i.value i.quarantined i.skipped flagged w.shape;
  })
    where
      by_flags :
          (q : Option ItemError) (skipped : Bool) (v : Option I)
          → ((q ≡ none → skipped ≡ false → ⊥) → IsWhole i.index (passed fl k r i))
          → Whole i.index (handle fl k r i q skipped v)
      by_flags none false (some item) h = process-Whole i.index item
      by_flags none false none h = raised _ _
      by_flags none true v h = pure-Yields Unit Remembers _ _ (h (λ a b. cc))
      by_flags (some e) skipped v h = pure-Yields Unit Remembers _ _ (h (λ a b. cc))
