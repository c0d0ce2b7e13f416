-- ===== src/Flow/Runner/Tallies.antt =====
-- What one item may add to the counters of its step, for the proofs about flow/run.go.
use flowkit.Base.{◌≡◌, refl, sym, subst, ℕ, suc, ◌+◌, ◌≤◌, Bool, true, false, arith}
use flowkit.Base.Float.{FloatOps}
use flowkit.Flow.Classify.{ErrorClass}
use flowkit.Flow.Report.{StepReport}
use flowkit.Flow.Admit.{Gatekeeper}
use flowkit.Flow.Runner.{Runner}
use flowkit.Flow.Runner.Work.{count_retry, start_if, called_once}

-- One more work call, the first of its item or a later one.
abbrev pub first : Bool → ℕ
first true = 1
first false = 0

module _ {F : Type 0} where
  -- What the attempts of one item add, when `left` more may follow.
  pub record Tries (start : Bool) (left : ℕ) (a b : StepReport F) : Type 0 where
    pub calls : b.work_calls ≤ a.work_calls + suc left
    pub starts : b.started_sequences ≤ a.started_sequences + first start
    pub paid :
        b.work_calls + a.started_sequences + a.retries + first start
        ≤ a.work_calls + b.started_sequences + b.retries + 1
    pub useful : b.stored + b.retries + a.work_calls ≤ b.work_calls + a.stored + a.retries
    pub flags : b.quarantined + b.skipped ≤ a.quarantined + a.skipped + 1
    pub items : b.items ≡ a.items
    pub looked : b.hits + b.misses ≡ a.hits + a.misses

  -- What an attempt that is over may still count.
  pub record Ends (a b : StepReport F) : Type 0 where
    pub calls : b.work_calls ≡ a.work_calls
    pub starts : b.started_sequences ≡ a.started_sequences
    pub retries : b.retries ≡ a.retries
    pub stored : b.stored ≤ a.stored + 1
    pub flags : b.quarantined + b.skipped ≤ a.quarantined + a.skipped + 1
    pub items : b.items ≡ a.items
    pub looked : b.hits + b.misses ≡ a.hits + a.misses

  pub Ends-still : (a : StepReport F) → Ends a a
  Ends-still a = record {
    calls = refl;
    starts = refl;
    retries = refl;
    stored = omega arith;
    flags = omega arith;
    items = refl;
    looked = refl;
  }

  pub add_stored : (a c : StepReport F) → c ≡ record a { stored = a.stored + 1 } → Ends a c
  add_stored a c e = subst (Ends a) (sym e) (record {
    calls = refl;
    starts = refl;
    retries = refl;
    stored = omega arith;
    flags = omega arith;
    items = refl;
    looked = refl;
  })

  pub add_skipped : (a c : StepReport F) → c ≡ record a { skipped = a.skipped + 1 } → Ends a c
  add_skipped a c e = subst (Ends a) (sym e) (record {
    calls = refl;
    starts = refl;
    retries = refl;
    stored = omega arith;
    flags = omega arith;
    items = refl;
    looked = refl;
  })

  pub add_quarantined :
      (a c : StepReport F) → c ≡ record a { quarantined = a.quarantined + 1 } → Ends a c
  add_quarantined a c e = subst (Ends a) (sym e) (record {
    calls = refl;
    starts = refl;
    retries = refl;
    stored = omega arith;
    flags = omega arith;
    items = refl;
    looked = refl;
  })

  -- What follows the call of an attempt.
  pub record Rest (left : ℕ) (a b : StepReport F) : Type 0 where
    pub calls : b.work_calls ≤ a.work_calls + left
    pub starts : b.started_sequences ≤ a.started_sequences
    pub paid :
        b.work_calls + a.retries + a.started_sequences
        ≤ a.work_calls + b.retries + b.started_sequences
    pub useful : b.stored + b.retries + a.work_calls ≤ b.work_calls + a.stored + a.retries + 1
    pub flags : b.quarantined + b.skipped ≤ a.quarantined + a.skipped + 1
    pub items : b.items ≡ a.items
    pub looked : b.hits + b.misses ≡ a.hits + a.misses

  -- An attempt that calls nothing.
  pub Tries-none : (b : Bool) (n : ℕ) (a : StepReport F) → Tries b n a a
  Tries-none b n a = record {
    calls = omega arith;
    starts = omega arith;
    paid = grind arith;
    useful = omega arith;
    flags = omega arith;
    items = refl;
    looked = refl;
  }

  pub Rest-none : (n : ℕ) (a : StepReport F) → Rest n a a
  Rest-none n a = record {
    calls = grind arith;
    starts = grind arith;
    paid = grind arith;
    useful = grind arith;
    flags = grind arith;
    items = grind arith;
    looked = grind arith;
  }

  pub Rest-end : (n : ℕ) (a b : StepReport F) → Ends a b → Rest n a b
  Rest-end n a b x = record {
    calls = grind arith;
    starts = grind arith;
    paid = grind arith;
    useful = grind arith;
    flags = grind arith;
    items = grind arith;
    looked = grind arith;
  }

module _ {F I O W : Type 0} (fl : FloatOps F) (k : Gatekeeper F W) (r : Runner F I O W) where
  -- The counters after the call of an attempt.
  abbrev pub made : Bool → StepReport F → StepReport F
  made b a = called_once fl k r (start_if fl k r b a)

  abbrev pub Made : Bool → StepReport F → StepReport F → Type 0
  Made b x y = y ≡ made b x

  abbrev pub Called : StepReport F → StepReport F → Type 0
  Called x y = y ≡ called_once fl k r x

  pub Tries-made : (b : Bool) (n : ℕ) (a c : StepReport F) → Rest n (made b a) c → Tries b n a c
  Tries-made true n a c x = record {
    calls = grind arith;
    starts = grind arith;
    paid = grind arith;
    useful = grind arith;
    flags = grind arith;
    items = grind arith;
    looked = grind arith;
  }
  Tries-made false n a c x = record {
    calls = grind arith;
    starts = grind arith;
    paid = grind arith;
    useful = grind arith;
    flags = grind arith;
    items = grind arith;
    looked = grind arith;
  }

  abbrev pub Counted : ErrorClass → StepReport F → StepReport F → Type 0
  Counted class x y = y ≡ count_retry fl k r class x

  pub Rest-Counted :
      (n : ℕ) (class : ErrorClass) (a c : StepReport F) → Counted class a c → Rest (suc n) a c
  Rest-Counted n class a c e = subst (Rest (suc n) a) (sym e) (record {
    calls = grind arith;
    starts = grind arith;
    paid = grind arith;
    useful = grind arith;
    flags = grind arith;
    items = refl;
    looked = refl;
  })

  pub Rest-retry :
      (n : ℕ) (a c : StepReport F) (class : ErrorClass)
      → Tries false n (count_retry fl k r class a) c
      → Rest (suc n) a c
  Rest-retry n a c class x = record {
    calls = grind arith;
    starts = grind arith;
    paid = grind arith;
    useful = grind arith;
    flags = grind arith;
    items = grind arith;
    looked = grind arith;
  }
