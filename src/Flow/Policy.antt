-- ===== src/Flow/Policy.antt =====
-- flow/policy.go, and from flow/run.go the check of a policy and the retry delays.
pub mod Delays
use flowkit.Base.{
  ℕ, ◌+◌, ◌*◌, ◌/◌, String, Bool, true, false, ◌||◌, Option, none, some, List, [], ◌∷◌, ◌==◌,
  if◌then◌else◌,
}
use flowkit.Base.Int.{ℤ, pos, negsuc, ◌+ℤ◌, ◌-ℤ◌, ltb_ℤ, leb_ℤ, wrap64}
use flowkit.Base.Text.{trim_space, has_codes}
use flowkit.Errors.{Error, message, Result, ok, err}
use flowkit.Flow.Classify.{ErrorClass}

-- Also execution.ResourcePlan, of the same fields. No unit price means that it is unknown.
pub record Resource (F : Type 0) : Type 0 where
  pub name : String
  pub ceiling : ℤ
  pub budget : ℤ
  pub unit_usd : Option F

-- `other_mode` stands for the ints that name no failure mode.
pub data FailureMode : Type 0 where
  fail_fast quarantine skip : FailureMode
  other_mode : ℤ → FailureMode

pub mode_name : FailureMode → String
mode_name fail_fast = "fail-fast"
mode_name quarantine = "quarantine"
mode_name skip = "skip"
mode_name (other_mode n) = "unknown"

-- Durations are int64 nanoseconds.
pub record Backoff : Type 0 where
  pub base : ℤ
  pub ceiling : ℤ

pub record RetrySpec : Type 0 where
  pub attempts : ℤ
  pub backoff : Backoff
  pub class : Option (Error → ErrorClass)

pub record Policy (F : Type 0) : Type 0 where
  pub workers : ℤ
  pub admission : List (Resource F)
  pub retry : RetrySpec
  pub on_error : FailureMode

-- The message of a failure is kept as the error that it renders.
pub record ItemError : Type 0 where
  pub step : String
  pub index : ℕ
  pub class : ErrorClass
  pub attempts : ℕ
  pub cause : Error

abbrev pub second : ℕ
second = 1000000000

unfoldable pub with_defaults : Backoff → Backoff
with_defaults b = record {
  base = if leb_ℤ b.base (pos 0) then pos (2 * second) else b.base;
  ceiling = if leb_ℤ b.ceiling (pos 0) then pos (60 * second) else b.ceiling;
}

abbrev pub is_known : FailureMode → Bool
is_known (other_mode n) = false
is_known _ = true

-- Attempts and Workers below one select one.
abbrev pub at_least_one : ℤ → ℕ
at_least_one (pos n) = if n == 0 then 1 else n
at_least_one (negsuc n) = 1

module _ {F : Type 0} where
  -- The loop over the admission resources; `seen` are the trimmed names so far.
  unfoldable pub check_names : List (List ℕ) → List (Resource F) → Result (Unit {0})
  check_names seen [] = ok tt
  check_names seen (r ∷ rs) =
      if has_codes (trim_space r.name) seen
      then err (message "step %q declares admission resource %q more than once")
      else check_names (trim_space r.name ∷ seen) rs

  unfoldable pub validate_policy : Policy F → Result (Unit {0})
  unfolding check_names
  validate_policy p =
      if ltb_ℤ p.retry.attempts (pos 0)
      then err (message "step %q retry attempts must not be negative")
      else if ltb_ℤ p.retry.backoff.base (pos 0) || ltb_ℤ p.retry.backoff.ceiling (pos 0)
      then err (message "step %q retry backoff durations must not be negative")
      else if is_known p.on_error
      then check_names [] p.admission
      else err (message "step %q has unknown failure mode %d")

-- Half of a duration that is not negative.
abbrev pub half : ℤ → ℕ
half (pos n) = n / 2
half (negsuc n) = 0

-- A negative delay counts as 0, one past the maximum as the maximum.
unfoldable pub clamp : ℤ → ℤ → ℤ
clamp delay maximum =
    let d = if ltb_ℤ delay (pos 0) then pos 0 else delay in if ltb_ℤ maximum d then maximum else d

-- The delay and the jitter, up to the maximum.
unfoldable pub add_jitter : ℤ → ℤ → ℤ → ℤ
unfolding wrap64
add_jitter delay jitter maximum =
    if leb_ℤ (wrap64 (maximum -ℤ jitter)) delay then maximum else wrap64 (delay +ℤ jitter)

-- `draw n` is rand.Int63n(n).
unfoldable pub retry_delay : (ℕ → ℕ) → ℤ → ℤ → ℤ
retry_delay draw delay maximum =
    if leb_ℤ maximum (pos 0)
    then pos 0
    else add_jitter (clamp delay maximum) (pos (draw (half (clamp delay maximum) + 1))) maximum

unfoldable pub next_retry_delay : ℤ → ℤ → ℤ
unfolding wrap64
next_retry_delay delay maximum =
    if leb_ℤ maximum (pos 0)
    then pos 0
    else if leb_ℤ maximum delay
    then maximum
    else if leb_ℤ delay (pos 0)
    then pos 0
    else if ltb_ℤ (wrap64 (maximum -ℤ delay)) delay
    then maximum
    else wrap64 (delay +ℤ delay)
