-- ===== src/Flow/Runner/Settling.antt =====
-- What the items of a stage add to the counters of their step, item by item (flow/run.go).
use flowkit.Base.{
  ◌≡◌, refl, sym, subst, ℕ, ◌+◌, ◌-◌, ◌≤◌, String, Bool, true, false, Option, none, some, arith,
}
use flowkit.Base.Assoc.{lookup}
use flowkit.Base.Float.{FloatOps}
use flowkit.Errors.{Error, Result, ok, err}
use flowkit.Flow.Policy.{ItemError}
use flowkit.Exec.{Exec, ◌>>=◌, lift}
use flowkit.Execution.Outcome.{CacheState, uncached, hit, stored_state, pending, CacheOutcome}
use flowkit.Flow.Report.{StepReport}
use flowkit.Flow.Admit.{Gatekeeper}
use flowkit.Flow.Runner.{StoreOps, Runner, Item, St}
use flowkit.Flow.Runner.Work.{call, ctx_error}
use flowkit.Flow.Runner.Process.{
  work, lead_with, lead, load_error, destiny, notify_value, follow_leader, stop_wait, follow,
  remember, by_digest, with_store,
}
use flowkit.Flow.Runner.Counts.{
  After, Runs, Same, Quiet, Runs-weaken, Quiet-bind, pure-Quiet, raise-Quiet,
}
use flowkit.Flow.Runner.Untouched.{call-Quiet, ctx_error-Quiet, notify-Quiet}
use flowkit.Flow.Runner.Tallies.{Tries}
use flowkit.Flow.Runner.Ending.{count-then, told-Quiet}
use flowkit.Flow.Runner.Attempts.{attempt_from-Tries}

module _ {F : Type 0} where
  -- What resolving one item adds, when its step makes `most` attempts.
  pub record Taken (most : ℕ) (a b : StepReport F) : Type 0 where
    pub items : b.items ≡ a.items
    pub looked : b.hits + b.misses ≤ a.hits + a.misses + 1
    pub starts : b.started_sequences ≤ a.started_sequences + 1
    pub calls : b.work_calls ≤ a.work_calls + most
    pub paid :
        b.work_calls + a.started_sequences + a.retries
        ≤ a.work_calls + b.started_sequences + b.retries
    pub useful : b.stored + b.retries + a.work_calls ≤ b.work_calls + a.stored + a.retries
    pub flags : b.quarantined + b.skipped ≤ a.quarantined + a.skipped + 1

  Taken-none : (m : ℕ) (a : StepReport F) → Taken m a a
  Taken-none m a = record {
    items = grind arith;
    looked = grind arith;
    starts = grind arith;
    calls = grind arith;
    paid = grind arith;
    useful = grind arith;
    flags = grind arith;
  }

  Taken-Tries : (m : ℕ) (a b : StepReport F) → 1 ≤ m → Tries true (m - 1) a b → Taken m a b
  Taken-Tries m a b h x = record {
    items = grind arith;
    looked = grind arith;
    starts = grind arith;
    calls = grind arith;
    paid = grind arith;
    useful = grind arith;
    flags = grind arith;
  }

  abbrev missed : StepReport F → StepReport F
  missed c = record c { misses = c.misses + 1 }

  abbrev hit_once : StepReport F → StepReport F
  hit_once c = record c { hits = c.hits + 1 }

  Taken-missed :
      (m : ℕ) (a b : StepReport F) → 1 ≤ m → Tries true (m - 1) (missed a) b → Taken m a b
  Taken-missed m a b h x = record {
    items = grind arith;
    looked = grind arith;
    starts = grind arith;
    calls = grind arith;
    paid = grind arith;
    useful = grind arith;
    flags = grind arith;
  }

  Taken-hit : (m : ℕ) (a b : StepReport F) → b ≡ hit_once a → Taken m a b
  Taken-hit m a b e = subst (Taken m a) (sym e) (record {
    items = grind arith;
    looked = grind arith;
    starts = grind arith;
    calls = grind arith;
    paid = grind arith;
    useful = grind arith;
    flags = grind arith;
  })

  Taken-quarantined :
      (m : ℕ) (c b : StepReport F)
      → b ≡ record c { misses = c.misses + 1; quarantined = c.quarantined + 1 }
      → Taken m c b
  Taken-quarantined m c b e = subst (Taken m c) (sym e) (record {
    items = grind arith;
    looked = grind arith;
    starts = grind arith;
    calls = grind arith;
    paid = grind arith;
    useful = grind arith;
    flags = grind arith;
  })

  Taken-skipped :
      (m : ℕ) (c b : StepReport F)
      → b ≡ record c { misses = c.misses + 1; skipped = c.skipped + 1 }
      → Taken m c b
  Taken-skipped m c b e = subst (Taken m c) (sym e) (record {
    items = grind arith;
    looked = grind arith;
    starts = grind arith;
    calls = grind arith;
    paid = grind arith;
    useful = grind arith;
    flags = grind arith;
  })

  Taken-only_missed :
      (m : ℕ) (c b : StepReport F) → b ≡ record c { misses = c.misses + 1 } → Taken m c b
  Taken-only_missed m c b e = subst (Taken m c) (sym e) (record {
    items = grind arith;
    looked = grind arith;
    starts = grind arith;
    calls = grind arith;
    paid = grind arith;
    useful = grind arith;
    flags = grind arith;
  })

module _ {F I O W : Type 0} (fl : FloatOps F) (k : Gatekeeper F W) (r : Runner F I O W) where
  module _ (most : 1 ≤ r.attempts) where
    abbrev Work : StepReport F → StepReport F → Type 0
    Work = Tries true (r.attempts - 1)

    work-Tries :
        (index : ℕ) (item : I) (key : Option (String × StoreOps O W))
        → Runs Work Work (work fl k r index item key)
    unfolding work
    work-Tries index item key = attempt_from-Tries fl k r (r.attempts - 1) 0 index item key _

    work-Taken :
        (index : ℕ) (item : I) (key : Option (String × StoreOps O W))
        → Runs (Taken r.attempts) (Taken r.attempts) (work fl k r index item key)
    work-Taken index item key =
        Runs-weaken Work (Taken r.attempts) _ (work-Tries index item key)
          (λ a b x. Taken-Tries r.attempts a b most x)

    lead_with-Taken :
        (index : ℕ) (item : I) (d : String) (ops : StoreOps O W) (o : Option O)
        → Runs (Taken r.attempts) (Taken r.attempts) (lead_with fl k r index item d ops o)
    unfolding lead_with
    lead_with-Taken index item d ops none =
        count-then fl k r Work Work (Taken r.attempts) (Taken r.attempts) missed _
          (work-Tries index item _) (λ a b x. Taken-missed r.attempts a b most x)
          (λ a b x. Taken-missed r.attempts a b most x)
    lead_with-Taken index item d ops (some v) =
        count-then fl k r Same Same (Taken r.attempts) (Taken r.attempts) hit_once _
          (told-Quiet fl k r _ _
            (Quiet-bind Same (λ a. refl) _ _ (notify-Quiet fl k r index v _) (λ _. pure-Quiet _)))
          (Taken-hit r.attempts) (Taken-hit r.attempts)

    pub lift-Quiet : {A : Type 0} (x : Result A) → Quiet (lift {S = St F O W} x)
    lift-Quiet (ok a) = pure-Quiet a
    lift-Quiet (err e) = raise-Quiet e

    Taken-bind :
        {A B : Type 0} (m : Exec (St F O W) A) (f : A → Exec (St F O W) B)
        → Quiet m
        → ((a : A) → Runs (Taken r.attempts) (Taken r.attempts) (f a))
        → Runs (Taken r.attempts) (Taken r.attempts) (m >>= f)
    Taken-bind m f h g = Quiet-bind (Taken r.attempts) (Taken-none r.attempts) m f h g

    lead-Taken :
        (index : ℕ) (item : I) (d : String) (ops : StoreOps O W)
        → Runs (Taken r.attempts) (Taken r.attempts) (lead fl k r index item d ops)
    unfolding lead
    lead-Taken index item d ops =
        Taken-bind (call fl k r (ops.load d)) _ (call-Quiet fl k r (ops.load d)) (λ x.
          Taken-bind (lift (load_error fl k r x)) _ (lift-Quiet _)
            (lead_with-Taken index item d ops))

    destiny-Taken :
        (q : Option ItemError) (sk : Bool) (c : CacheState) (a b : StepReport F)
        → b ≡ (destiny fl k r q sk c).0 a
        → Taken r.attempts a b
    destiny-Taken (some e) sk c a b g = Taken-quarantined r.attempts a b g
    destiny-Taken none true c a b g = Taken-skipped r.attempts a b g
    destiny-Taken none false hit a b g = Taken-hit r.attempts a b g
    destiny-Taken none false uncached a b g = Taken-only_missed r.attempts a b g
    destiny-Taken none false stored_state a b g = Taken-only_missed r.attempts a b g
    destiny-Taken none false pending a b g = Taken-only_missed r.attempts a b g

    notify_value-Quiet :
        (index : ℕ) (v : Option O) (o : CacheOutcome) (q : Option ItemError) (sk : Bool)
        → Quiet (notify_value fl k r index v o q sk)
    notify_value-Quiet index (some v) o none false = notify-Quiet fl k r index v o
    notify_value-Quiet index (some v) o none true = pure-Quiet tt
    notify_value-Quiet index (some v) o (some q) sk = pure-Quiet tt
    notify_value-Quiet index none o q sk = pure-Quiet tt

    follow_leader-Taken :
        (index : ℕ) (d : String) (led : Result (Item O))
        → Runs (Taken r.attempts) (Taken r.attempts) (follow_leader fl k r index d led)
    unfolding follow_leader
    follow_leader-Taken index d (err e) = record { at = λ s. Taken-none r.attempts s.counts }
    follow_leader-Taken index d (ok led) =
        count-then fl k r Same Same (Taken r.attempts) (Taken r.attempts) _ _
          (told-Quiet fl k r _ _ (
            Quiet-bind Same (λ a. refl) _ _ (notify_value-Quiet index _ _ _ _) (λ _. pure-Quiet _)))
          (destiny-Taken led.quarantined led.skipped led.outcome.state)
          (destiny-Taken led.quarantined led.skipped led.outcome.state)

    stop_wait-Quiet : (o : Option Error) (b : Bool) → Quiet (stop_wait fl k r o b)
    stop_wait-Quiet (some e) false = raise-Quiet e
    stop_wait-Quiet (some e) true = pure-Quiet tt
    stop_wait-Quiet none b = pure-Quiet tt

    follow-Taken :
        (index : ℕ) (d : String) (led : Result (Item O))
        → Runs (Taken r.attempts) (Taken r.attempts) (follow fl k r index d led)
    unfolding follow
    follow-Taken index d led = Taken-bind (ctx_error fl k r) _ (ctx_error-Quiet fl k r) (λ o.
        Taken-bind (λ s. (ok (r.picks_done s.pool.world), s)) _ (record { at = λ s. refl })
          (λ b.
            Taken-bind (stop_wait fl k r o b) _ (stop_wait-Quiet o b)
              (λ _. follow_leader-Taken index d led)))

    remember-After :
        (d : String) (s : St F O W) (x : Result (Item O) × St F O W)
        → After (Taken r.attempts) (Taken r.attempts) s x
        → After (Taken r.attempts) (Taken r.attempts) s (remember fl k r d x)
    remember-After d s (ok a, t) h = h
    remember-After d s (err e, t) h = h

    by_digest-Taken :
        (index : ℕ) (item : I) (d : String) (ops : StoreOps O W) (o : Option (Result (Item O)))
        → Runs (Taken r.attempts) (Taken r.attempts) (by_digest fl k r index item d ops o)
    unfolding by_digest
    by_digest-Taken index item d ops (some led) = follow-Taken index d led
    by_digest-Taken index item d ops none = record {
      at = λ s. remember-After d s _ ((lead-Taken index item d ops).at s);
    }

    pub with_store-Taken :
        (index : ℕ) (item : I) (o : Option (StoreOps O W))
        → Runs (Taken r.attempts) (Taken r.attempts) (with_store fl k r index item o)
    unfolding with_store
    with_store-Taken index item none = work-Taken index item none
    with_store-Taken index item (some ops) =
        Taken-bind (lift (r.key_digest item)) _ (lift-Quiet _) (λ d.
          Taken-bind (λ s. (ok (lookup d s.inflight), s)) _ (record { at = λ s. refl })
            (by_digest-Taken index item d ops))
