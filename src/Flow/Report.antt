-- ===== src/Flow/Report.antt =====
-- flow/report.go: meters, step reports and their merging, results and events. A nil map is an empty
-- one. Counters are numbers: they count what happened, and 2^63 of it is out of reach.
pub mod Merge
use flowkit.Base.{
  ℕ, ◌+◌, String, Bool, true, false, not, Option, none, some, List, [], ◌∷◌, if◌then◌else◌,
}
use flowkit.Base.Assoc.{Assoc, lookup, insert}
use flowkit.Base.Float.{FloatOps}
use flowkit.Errors.{Error, message, Result, ok, err, ◌>>=◌}
use flowkit.Execution.Budget.{BudgetSnapshot}
use flowkit.Execution.Outcome.{
  CacheState, uncached, hit, stored_state, pending, CacheOutcome, no_outcome,
}
use flowkit.Flow.Policy.{ItemError}

abbrev pub Meters : Type 0 → Type 0
Meters F = Assoc F

module _ {F : Type 0} (fl : FloatOps F) where
  abbrev meter_at : String → Meters F → F
  meter_at name m = elim (lookup name m) [ none ↦ fl.zero_f | some v ↦ v ]

  unfoldable pub add_meters : Meters F → Meters F → Meters F
  add_meters m [] = m
  add_meters m ((name, v) ∷ rest) = add_meters (insert name (fl.add_f (meter_at name m) v) m) rest

  -- The loop of AddChecked, which writes nothing.
  unfoldable pub check_meters : Meters F → Meters F → Result (Unit {0})
  check_meters m [] = ok tt
  check_meters m ((name, v) ∷ rest) =
      if not (fl.is_finite v)
      then err (message "meter %q is not finite")
      else if not (fl.is_finite (fl.add_f (meter_at name m) v))
      then err (message "meter %q total is not finite")
      else check_meters m rest

  unfoldable pub add_checked : Meters F → Meters F → Result (Meters F)
  unfolding check_meters add_meters
  add_checked m other = check_meters m other >>= λ _. ok (add_meters m other)

pub record StepReport (F : Type 0) : Type 0 where
  pub items : ℕ
  pub hits : ℕ
  pub misses : ℕ
  pub stored : ℕ
  pub work_calls : ℕ
  pub started_sequences : ℕ
  pub retries : ℕ
  pub quarantined : ℕ
  pub skipped : ℕ
  pub retries_by_class : Assoc ℕ
  pub spend : Assoc BudgetSnapshot
  pub meters : Meters F

abbrev pub zero_report : {F : Type 0} → StepReport F
zero_report = record {
  items = 0;
  hits = 0;
  misses = 0;
  stored = 0;
  work_calls = 0;
  started_sequences = 0;
  retries = 0;
  quarantined = 0;
  skipped = 0;
  retries_by_class = [];
  spend = [];
  meters = [];
}

abbrev pub count_at : String → Assoc ℕ → ℕ
count_at k m = elim (lookup k m) [ none ↦ 0 | some n ↦ n ]

unfoldable pub add_counts : Assoc ℕ → Assoc ℕ → Assoc ℕ
add_counts m [] = m
add_counts m ((k, n) ∷ rest) = add_counts (insert k (count_at k m + n) m) rest

-- The later snapshot of a resource replaces the earlier.
unfoldable pub put_all {ℓ} : {V : Type ℓ} → Assoc V → Assoc V → Assoc V
put_all m [] = m
put_all m ((k, v) ∷ rest) = put_all (insert k v m) rest

-- Report.Step: the zero value when the name is absent.
unfoldable pub step_of : {F : Type 0} → String → Assoc (StepReport F) → StepReport F
step_of name r = elim (lookup name r) [ none ↦ zero_report | some s ↦ s ]

module _ {F : Type 0} (fl : FloatOps F) where
  unfoldable pub merge_step : StepReport F → StepReport F → StepReport F
  merge_step a b = record {
    items = a.items + b.items;
    hits = a.hits + b.hits;
    misses = a.misses + b.misses;
    stored = a.stored + b.stored;
    work_calls = a.work_calls + b.work_calls;
    started_sequences = a.started_sequences + b.started_sequences;
    retries = a.retries + b.retries;
    quarantined = a.quarantined + b.quarantined;
    skipped = a.skipped + b.skipped;
    retries_by_class = add_counts a.retries_by_class b.retries_by_class;
    spend = put_all a.spend b.spend;
    meters = add_meters fl a.meters b.meters;
  }

  -- Report.merge, over the map of steps
  unfoldable pub merge : Assoc (StepReport F) → Assoc (StepReport F) → Assoc (StepReport F)
  unfolding merge_step step_of
  merge r [] = r
  merge r ((name, s) ∷ rest) = merge (insert name (merge_step (step_of name r) s) r) rest

pub record ItemResult (O : Type 0) : Type 0 where
  pub value : Option O
  pub cache : CacheOutcome
  pub quarantined : Option ItemError
  pub skipped : Bool

pub data EventType : Type 0 where
  run_started step_started step_completed run_completed run_failed : EventType
  hit_event stored_event done_event retry_event quarantined_event skipped_event : EventType

-- The time stamp is the ledger's; a step or an error that the event omits is "" or none.
pub record Event : Type 0 where
  pub step : String
  pub index : Option ℕ
  pub type : EventType
  pub class : String
  pub attempt : ℕ
  pub total : ℕ
  pub error : Option Error
