-- ===== src/Flow/Bulk/Kept.antt =====
-- What a bulk call leaves as it was: its admissions, retries and meters write no result. flow/bulk.go.
use flowkit.Base.{
  ◌≡◌, ℕ, ◌+◌, zero, suc, String, Bool, true, false, ◌&&◌, Option, none, some, List, [], ◌∷◌, map,
  length, Bool-cases, inl, inr, if◌then◌else◌, ◌==◌, ==_iff,
}
use flowkit.Base.Int.{ℤ, pos}
use flowkit.Base.Float.{FloatOps}
use flowkit.Errors.{Error, message, wrapped, Result, ok, err}
use flowkit.Exec.{◌>>=◌, ◌>>◌, fail_with}
use flowkit.Execution.Outcome.{CacheOutcome}
use flowkit.Flow.Admit.{Pool, Gatekeeper, admit}
use flowkit.Flow.Batched.{OnResult}
use flowkit.Flow.Classify.{ErrorClass, is_valid}
use flowkit.Flow.Policy.{retry_delay, next_retry_delay}
use flowkit.Flow.Report.{Meters, add_checked, StepReport, ItemResult, Event}
use flowkit.Flow.Runner.{Step}
use flowkit.Flow.Bulk.{
  BulkState, Ledger, BulkAct, Ending, worked, gave_up, count, call, called, emit, notify, meter_all,
  add_metered, attempt_meters, entered, started_once, kept, attempt_bulk, retry_indexes,
  count_retry, check_class, class_of, judge, backoff, back_off, retry_or_end, is_transient,
  after_attempt, no_more, resume, bulk_attempts,
}
use flowkit.Flow.Bulk.Writes.{
  Reached, Leads, bind-Leads, seq-Leads, pure-Leads, raise-Leads, fail_with-Leads,
}

module _ {F V W : Type 0} (H : List (ItemResult V) → Type 0) where
  -- A fact of the results.
  abbrev pub On : BulkState F V W → Type 0
  On s = H s.results

  abbrev pub Steady : {A : Type 0} → BulkAct F V W A → Type 0
  Steady m = Leads On (λ a. On) m

  pub count-Steady : (f : StepReport F → StepReport F) → Steady (count f)
  count-Steady f = record { at = λ s h. h }

  pub call-Steady : {A : Type 0} (f : W → A × W) → Steady (call f)
  call-Steady {A} f = record { at = λ s h. kept_by s (f s.pool.world) h }
    where
      kept_by : (s : BulkState F V W) (x : A × W) → On s → Reached (λ a. On) (called s x)
      kept_by s (a, w) h = h

  asked-Steady : (f : W → Option Error × W) (g : Error → Error) → Steady (call f >>= fail_with g)
  asked-Steady f g =
      bind-Leads On (λ a. On) (λ a. On) (call f) (fail_with g) (call-Steady f)
        (λ o. fail_with-Leads On g o)

  pub emit-Steady : (ledger : Ledger W) (e : Event) → Steady (emit ledger e)
  unfolding emit
  emit-Steady none e = pure-Leads On _ tt (λ s h. h)
  emit-Steady (some l) e = asked-Steady (l e) _

  pub notify-Steady :
      (hook : OnResult V W) (i : ℕ) (v : V) (outcome : CacheOutcome)
      → Steady (notify hook i v outcome)
  unfolding notify
  notify-Steady none i v outcome = pure-Leads On _ tt (λ s h. h)
  notify-Steady (some f) i v outcome = asked-Steady (f i v outcome) _

-- Each item has a value of its own that is right for it.
abbrev pub Pairs : {V : Type 0} → (V → V → Type 0) → List V → List V → Type 0
Pairs R [] values = Unit {0}
Pairs R (x ∷ items) [] = ⊥
Pairs R (x ∷ items) (v ∷ values) = R x v × Pairs R items values

abbrev Replies : {V : Type 0} → (V → V → Type 0) → List V → List V × Option Error → Type 0
Replies R items (values, none) = length values ≡ length items → Pairs R items values
Replies R items (values, some e) = Unit {0}

-- The caller's contract of a bulk call: where it returns no error and as many values as it has been
-- given items, each value is right for the item at its place.
abbrev pub Answers :
    {V W : Type 0} → (V → V → Type 0) → (List V → W → (List V × Option Error) × W) → Type 0
Answers {V} {W} R do_bulk = (items : List V) (w : W) → Replies R items (do_bulk items w).0

abbrev pub Fits : {V : Type 0} → (V → V → Type 0) → List V → Ending V → Type 0
Fits R items (worked values) = Pairs R items values
Fits R items (gave_up e class attempts) = Unit {0}

module _ {F V W : Type 0} (fl : FloatOps F) (gk : Gatekeeper F W) (st : Step F V V W)
    (do_bulk : List V → W → (List V × Option Error) × W) (ledger : Ledger W)
    (on_result : OnResult V W) (R : V → V → Type 0) (law : Answers R do_bulk)
    (H : List (ItemResult V) → Type 0) where
  abbrev pub Kept : {A : Type 0} → BulkAct F V W A → Type 0
  Kept m = Steady H m

  keeps_then :
      {A B : Type 0} (R : B → BulkState F V W → Type 0) (m : BulkAct F V W A)
      (f : A → BulkAct F V W B)
      → Kept m
      → ((a : A) → Leads (On H) R (f a))
      → Leads (On H) R (m >>= f)
  keeps_then R m f h k = bind-Leads (On H) (λ a. On H) R m f h k

  keeps_seq :
      {B : Type 0} (R : B → BulkState F V W → Type 0) (m : BulkAct F V W (Unit {0}))
      (f : BulkAct F V W B)
      → Kept m
      → Leads (On H) R f
      → Leads (On H) R (m >> f)
  keeps_seq R m f h k = seq-Leads (On H) (On H) R m f h k

  pub meter_all-Steady :
      (ms : List (Meters F)) → Kept (meter_all fl gk st do_bulk ledger on_result ms)
  unfolding meter_all
  meter_all-Steady [] = pure-Leads (On H) _ tt (λ s h. h)
  meter_all-Steady (m ∷ ms) =
      keeps_seq _ _ _ (record { at = λ s h. one s (add_checked fl s.meters m) h })
        (meter_all-Steady ms)
    where
      one :
          (s : BulkState F V W) (r : Result (Meters F))
          → H s.results
          → Reached (λ u. On H) (add_metered fl gk st do_bulk ledger on_result r s)
      one s (ok m) h = h
      one s (err e) h = tt

  -- The call, with what it has returned.
  call-Replies :
      (items : List V)
      → Leads {S = BulkState F V W}
          (On H)
          (λ out s. On H s × Replies R items out)
          (call (do_bulk items))
  call-Replies items = record {
    at = λ s h. called_by s (do_bulk items s.pool.world) (law items s.pool.world) h;
  }
    where
      called_by :
          (s : BulkState F V W) (x : (List V × Option Error) × W)
          → Replies R items x.0
          → H s.results
          → Reached (λ out s. On H s × Replies R items out) (called s x)
      called_by s (out, w) r h = (h, r)

  attempt_bulk-Leads :
      (attempt : ℕ) (items : List V)
      → Leads
          (On H)
          (λ out s. On H s × Replies R items out)
          (attempt_bulk fl gk st do_bulk ledger on_result attempt items)
  unfolding attempt_bulk
  attempt_bulk-Leads attempt items =
      keeps_seq _ _ _
        (record {
          at = λ s h.
              inside s
                (admit gk (map (λ r. r.name) st.policy.admission) (pos (length items)) s.pool) h;
        })
        (keeps_seq _ _ _
          (count-Steady H (
            if attempt == 1
            then started_once fl gk st do_bulk ledger on_result
            else kept fl gk st do_bulk ledger on_result))
          (bind-Leads _ (λ out s. On H s × Replies R items out) _ _ _ (call-Replies items)
            (λ out. record {
              at = λ s h.
                  (keeps_seq (λ x s. On H s × Replies R items x) _ _
                      (count-Steady H (λ c. record c { work_calls = c.work_calls + 1 }))
                      (keeps_seq (λ x s. On H s × Replies R items x) _ _
                        (meter_all-Steady
                          (attempt_meters fl gk st do_bulk ledger on_result out.0 out.1))
                        (pure-Leads (On H) _ out (λ t k. (k, h.1))))).at
                    s h.0;
            })))
    where
      inside :
          (s : BulkState F V W) (x : Option (String × Error) × Pool F W)
          → H s.results
          → Reached (λ u. On H) (entered fl gk st do_bulk ledger on_result s x)
      inside s (none, p) h = h
      inside s (some (name, e), p) h = tt

  retry_indexes-Steady :
      (e : Error) (class : ErrorClass) (attempt : ℕ) (is : List ℕ)
      → Kept (retry_indexes fl gk st do_bulk ledger on_result e class attempt is)
  unfolding retry_indexes
  retry_indexes-Steady e class attempt [] = pure-Leads (On H) _ tt (λ s h. h)
  retry_indexes-Steady e class attempt (i ∷ is) =
      keeps_seq _ _ _ (emit-Steady H ledger _) (retry_indexes-Steady e class attempt is)

  back_off-Steady : (delay : ℤ) → Kept (back_off fl gk st do_bulk ledger on_result delay)
  unfolding back_off
  back_off-Steady delay =
      keeps_then _ _ _
        (call-Steady H (λ w.
          st.pause
            (retry_delay (st.draw w) delay (backoff fl gk st do_bulk ledger on_result).ceiling) w))
        (λ o. fail_with-Leads (On H) (λ c. c) o)

  judge-Steady : (e : Error) → Kept (judge fl gk st do_bulk ledger on_result e)
  unfolding judge
  judge-Steady e = keeps_then _ _ _ (call-Steady H (λ w. (gk.ctx_err w, w))) (λ o.
      keeps_seq _ _ _ (fail_with-Leads (On H) (λ c. wrapped "step %q" e) o) (
        checked (is_valid (class_of fl gk st do_bulk ledger on_result e))
          (class_of fl gk st do_bulk ledger on_result e)))
    where
      checked :
          (b : Bool) (class : ErrorClass)
          → Kept (check_class fl gk st do_bulk ledger on_result b class)
      checked true class = pure-Leads (On H) _ class (λ s h. h)
      checked false class = raise-Leads (On H) _ (message _)

  -- The end of the attempts: the results as they were, and a right value for each item.
  abbrev pub Ends : List V → Ending V → BulkState F V W → Type 0
  Ends items e s = H s.results × Fits R items e

  after_attempt-Leads :
      (again : ℤ → BulkAct F V W (Ending V)) (may_retry : Bool) (attempt : ℕ) (items : List V)
      (is : List ℕ) (delay : ℤ) (out : List V × Option Error)
      → Replies R items out
      → ((d : ℤ) → Leads (On H) (Ends items) (again d))
      → Leads (On H) (Ends items) (
          after_attempt fl gk st do_bulk ledger on_result again may_retry attempt items is delay
            out)
  after_attempt-Leads again may_retry attempt items is delay (values, none) r h =
      elim (Bool-cases (length values == length items)) [
        | inl e ↦ rw (e) (
            pure-Leads (On H) _ (worked values)
              (λ s k. (k, r ((==_iff (length values) (length items)).0 e))))
        | inr e ↦ rw (e) (raise-Leads (On H) _ (message _))
      ]
  after_attempt-Leads again may_retry attempt items is delay (values, some e) r h =
      keeps_then _ _ _ (judge-Steady e)
        (λ class. ended (is_transient fl gk st do_bulk ledger on_result class && may_retry) class)
    where
      ended :
          (b : Bool) (class : ErrorClass)
          → Leads
              (On H)
              (Ends items)
              (retry_or_end fl gk st do_bulk ledger on_result b (again delay) is e class attempt)
      ended true class =
          keeps_seq (Ends items) _ _
            (count-Steady H (count_retry fl gk st do_bulk ledger on_result class))
            (keeps_seq (Ends items) _ _ (retry_indexes-Steady e class attempt is) (h delay))
      ended false class = pure-Leads (On H) (Ends items) (gave_up e class attempt) (λ s k. (k, tt))

  pub bulk_attempts-Leads :
      (left attempt : ℕ) (items : List V) (is : List ℕ) (delay : ℤ)
      → Leads
          (On H)
          (Ends items)
          (bulk_attempts fl gk st do_bulk ledger on_result left attempt items is delay)
  unfolding bulk_attempts
  bulk_attempts-Leads zero attempt items is delay =
      bind-Leads _ (λ out s. On H s × Replies R items out) _ _ _ (attempt_bulk-Leads attempt items)
        (λ out. record {
          at = λ s h.
              (after_attempt-Leads (no_more fl gk st do_bulk ledger on_result) false attempt items
                  is delay out h.1 (λ d. raise-Leads (On H) _ (message _))).at
                s h.0;
        })
  bulk_attempts-Leads (suc left) attempt items is delay =
      bind-Leads _ (λ out s. On H s × Replies R items out) _ _ _ (attempt_bulk-Leads attempt items)
        (λ out. record {
          at = λ s h.
              (after_attempt-Leads
                  (resume fl gk st do_bulk ledger on_result
                    (bulk_attempts fl gk st do_bulk ledger on_result left (suc attempt) items is))
                  true attempt items is delay out h.1
                  (λ d. keeps_seq _ _ _ (back_off-Steady d) (
                    bulk_attempts-Leads left (suc attempt) items is
                      (next_retry_delay d (backoff fl gk st do_bulk ledger on_result).ceiling)))).at
                s h.0;
        })
