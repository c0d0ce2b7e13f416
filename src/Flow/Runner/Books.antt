-- ===== src/Flow/Runner/Books.antt =====
-- The counters of a step over the items of a stage (process and run of flow/run.go).
use flowkit.Base.{◌≡◌, ℕ, ◌+◌, ◌≤◌, Bool, true, false, Option, none, some, List, [], ◌∷◌, arith}
use flowkit.Base.Float.{FloatOps}
use flowkit.Flow.Policy.{ItemError}
use flowkit.Flow.Report.{StepReport}
use flowkit.Flow.Admit.{Gatekeeper}
use flowkit.Flow.Runner.{Runner, Item}
use flowkit.Flow.Runner.Process.{cached_by, process, handle, run}
use flowkit.Flow.Runner.Counts.{Runs, bind-Runs, Runs-weaken}
use flowkit.Flow.Runner.Ending.{count-then}
use flowkit.Flow.Runner.Settling.{Taken, with_store-Taken}

module _ {F : Type 0} where
  -- A stage's books: every lookup, first call and flag belongs to an item, every work call to a first
  -- call or a retry, and every stored value or retry to a work call.
  pub record Booked (a b : StepReport F) : Type 0 where
    pub items : a.items ≤ b.items
    pub looked : b.hits + b.misses + a.items ≤ a.hits + a.misses + b.items
    pub starts : b.started_sequences + a.items ≤ a.started_sequences + b.items
    pub paid :
        b.work_calls + a.started_sequences + a.retries
        ≤ a.work_calls + b.started_sequences + b.retries
    pub useful : b.stored + b.retries + a.work_calls ≤ b.work_calls + a.stored + a.retries
    pub flags : b.quarantined + b.skipped + a.items ≤ a.quarantined + a.skipped + b.items

  Booked-none : (a : StepReport F) → Booked a a
  Booked-none a = record {
    items = grind arith;
    looked = grind arith;
    starts = grind arith;
    paid = grind arith;
    useful = grind arith;
    flags = grind arith;
  }

  Booked-join : (a b c : StepReport F) → Booked a b → Booked b c → Booked a c
  Booked-join a b c x y = record {
    items = grind arith;
    looked = grind arith;
    starts = grind arith;
    paid = grind arith;
    useful = grind arith;
    flags = grind arith;
  }

  abbrev counted_item : StepReport F → StepReport F
  counted_item c = record c { items = c.items + 1 }

  -- The counters of one item, with the item itself.
  pub record Processed (most : ℕ) (a b : StepReport F) : Type 0 where
    pub one : b.items ≡ a.items + 1
    pub taken : Taken most (counted_item a) b

  Processed-Booked : (m : ℕ) (a b : StepReport F) → Processed m a b → Booked a b
  Processed-Booked m a b x = record {
    items = grind arith;
    looked = grind arith;
    starts = grind arith;
    paid = grind arith;
    useful = grind arith;
    flags = grind arith;
  }

module _ {F I O W : Type 0} (fl : FloatOps F) (k : Gatekeeper F W) (r : Runner F I O W) where
  module _ (most : 1 ≤ r.attempts) where
    Taken-Processed :
        (a b : StepReport F) → Taken r.attempts (counted_item a) b → Processed r.attempts a b
    Taken-Processed a b x = record { one = x.items; taken = x }

    -- Where a step makes at least one attempt, `process` counts the item once and does at most as much
    -- as one item may, whether it returns a result or an error: one lookup, one first call, one
    -- flag, no more work calls than the step's attempts, each of them paid by the first call or a
    -- counted retry, and no stored value or retry without a work call.
    pub process-Processed :
        (index : ℕ) (item : I)
        → Runs (Processed r.attempts) (Processed r.attempts) (process fl k r index item)
    unfolding process
    process-Processed index item =
        count-then fl k r (Taken r.attempts) (Taken r.attempts) (Processed r.attempts)
          (Processed r.attempts) counted_item _
          (with_store-Taken fl k r most index item (cached_by fl k r)) Taken-Processed
          Taken-Processed

    handle-Booked :
        (i : Item I) (q : Option ItemError) (sk : Bool) (v : Option I)
        → Runs Booked Booked (handle fl k r i q sk v)
    unfolding handle
    handle-Booked i none false (some item) =
        Runs-weaken (Processed r.attempts) Booked _ (process-Processed i.index item)
          (Processed-Booked r.attempts)
    handle-Booked i none false none = record { at = λ s. Booked-none s.counts }
    handle-Booked i none true v = record { at = λ s. Booked-none s.counts }
    handle-Booked i (some q) sk v = record { at = λ s. Booked-none s.counts }

    -- Where a step makes at least one attempt, the counters of a stage balance after any run over any
    -- items, whether it ends in results or in an error: hits and misses, first calls, and quarantined
    -- and skipped items are no more than the items counted; work calls are no more than first calls
    -- and retries; and stored values and retries are no more than work calls.
    pub run-Booked : (items : List (Item I)) → Runs Booked Booked (run fl k r items)
    unfolding run
    run-Booked [] = record { at = λ s. Booked-none s.counts }
    run-Booked (i ∷ items) =
        bind-Runs Booked Booked Booked Booked (handle fl k r i i.quarantined i.skipped i.value) _
          (handle-Booked i i.quarantined i.skipped i.value)
          (λ out.
            bind-Runs Booked Booked Booked Booked (run fl k r items) _ (run-Booked items)
              (λ outs. record { at = λ s. Booked-none s.counts }) (λ a b x. x) Booked-join)
          (λ a b x. x) Booked-join
