-- ===== src/Examples/Rules.antt =====
-- Error classes, delays and reports at concrete inputs.
use Prim.Native.Nat.{min}
use flowkit.Base.{
  ◌≡◌, refl, subst, some, ◌↔◌, ℕ, ◌+◌, ◌*◌, ◌/◌, ◌^◌, ◌≤◌, ◌<◌, true, false, [], ◌∷◌, arith, ltb,
  ◌==◌,
}
use flowkit.Base.Int.{ℤ, pos, pos_part, ◌≤ℤ◌}
use flowkit.Base.Assoc.{Assoc, lookup}
use flowkit.Base.Float.{FloatOps}
use flowkit.Errors.{
  Error, message, wrapped, sentinel, data_error, status_error, joined, canceled, deadline_exceeded,
  budget_exceeded, is_error, http_status, ok,
}
use flowkit.Flow.Classify.{
  transient, data_class, fatal, classify_error, is_data_error, marshal_text, unmarshal_text,
  classify_status,
}
use flowkit.Flow.Classify.Laws.{
  InChain, is_retryable, transient_only_if, classify_priority, marshal_text_iff,
}
use flowkit.Flow.Policy.{next_retry_delay, retry_delay, clamp}
use flowkit.Flow.Policy.Delays.{
  next_retry_delay_bounds, nth_delay, nth_delay_exponential, retry_delay_jitter,
}
use flowkit.Flow.Report.{StepReport, zero_report, merge, step_of}
use flowkit.Flow.Report.Merge.{step_of-merge, HasKeysOnce, HasMapsOnce, Folds}

abbrev busy : Error
busy = wrapped "call" (status_error (pos 503) (message "busy"))

busy_transient : classify_error busy ≡ transient
unfolding classify_error is_data_error is_error http_status classify_status
busy_transient = refl

transient_only_if_example :
    ((d : Error) → ¬ InChain (data_error d) busy)
    × ¬ InChain (sentinel canceled) busy
    × ¬ InChain (sentinel deadline_exceeded) busy
    × ¬ InChain (sentinel budget_exceeded) busy
    × ((c : ℤ) × (x : Error) × InChain (status_error c x) busy × (is_retryable c ≡ true))
transient_only_if_example = transient_only_if busy busy_transient

abbrev spent : Error
spent = joined busy (sentinel budget_exceeded)

classify_priority_example :
    ((d : Error) → InChain (data_error d) spent → classify_error spent ≡ data_class)
    × (is_data_error spent ≡ false
        → InChain (sentinel budget_exceeded) spent
        → classify_error spent ≡ fatal)
    × (is_data_error spent ≡ false
        → InChain (sentinel canceled) spent
        → classify_error spent ≡ fatal)
classify_priority_example = classify_priority spent

marshal_text_iff_example :
    (marshal_text data_class ≡ ok "data") ↔ (unmarshal_text "data" ≡ ok data_class)
marshal_text_iff_example = marshal_text_iff data_class "data"

next_retry_delay_bounds_example :
    (pos 0 ≤ℤ next_retry_delay (pos 40) (pos 60)) × (next_retry_delay (pos 40) (pos 60) ≤ℤ pos 60)
next_retry_delay_bounds_example =
    next_retry_delay_bounds (pos 40) (pos 60) (omega arith) (omega arith)

nth_delay_exponential_example :
    clamp (nth_delay (pos 2) (pos 60) 7) (pos 60) ≡ pos (min 60 (2 * 2 ^ 7))
nth_delay_exponential_example =
    nth_delay_exponential 2 60 7 (omega arith) (omega arith) (omega arith)

below : (n : ℕ) → 0 < n → 0 < n
below n h = h

retry_delay_jitter_example :
    (c j : ℕ) × (clamp (pos 8) (pos 60) ≡ pos c)
    × (j ≤ c / 2)
    × (retry_delay (λ n. 0) (pos 8) (pos 60) ≡ pos (min 60 (c + j)))
retry_delay_jitter_example =
    retry_delay_jitter (λ n. 0) (pos 8) 60 below (omega arith) (omega arith)

-- Prices in whole cents, which are all finite.
abbrev pub cents : FloatOps ℕ
cents = record {
  zero_f = 0;
  of_int = pos_part;
  add_f = ◌+◌;
  mul_f = ◌*◌;
  lt_f = ltb;
  eq_f = ◌==◌;
  is_finite = λ x. true;
}

abbrev first_report : Assoc (StepReport ℕ)
first_report = ("embed", record zero_report { items = 3 }) ∷ []

abbrev second_report : Assoc (StepReport ℕ)
second_report = ("embed", record zero_report { items = 2 }) ∷ ("judge", zero_report) ∷ []

second_once : HasKeysOnce second_report
unfolding lookup
second_once = (refl, (refl, tt))

some_is : {a b : StepReport ℕ} → some a ≡ some b → a ≡ b
some_is h = cc

second_maps : (s : StepReport ℕ) → lookup "embed" second_report ≡ some s → HasMapsOnce s
unfolding lookup
second_maps s h = subst HasMapsOnce (some_is h) (record { by_class = tt; spend = tt; meters = tt })

step_of-merge_example :
    Folds cents
      (step_of "embed" first_report)
      (lookup "embed" second_report)
      (step_of "embed" (merge cents first_report second_report))
step_of-merge_example =
    step_of-merge cents "embed" first_report second_report second_once second_maps
