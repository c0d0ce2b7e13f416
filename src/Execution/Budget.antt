-- ===== src/Execution/Budget.antt =====
-- execution/budget.go. `limit` and `remaining` are numbers, since NewBudget refuses a negative
-- total; the theorems of Trace show that they stay within the total, so no sum of them wraps.
pub mod Trace
pub mod Cases
use flowkit.Base.{ℕ, ◌+◌, ◌-◌, ◌≡◌, refl, Option, none, some, arith, ltb, if◌then◌else◌}
use flowkit.Base.Int.{ℤ, pos, negsuc}
use flowkit.Errors.{Error, sentinel, message, wrapped, budget_exceeded, Result, ok, err}
use flowkit.Execution.Reservation.{Reservation, new_reservation, commit, wait_by}

pub record Budget : Type 0 where
  pub limit : ℕ
  pub remaining : ℕ

unfoldable pub new_budget : ℤ → Result Budget
new_budget (pos total) = ok (record { limit = total; remaining = total })
new_budget (negsuc n) = err (message "budget total must not be negative")

-- The rollback of a reservation.
unfoldable pub refund : ℕ → Budget → Budget
refund units b = record b { remaining = b.remaining + units }

unfoldable pub charge : ℕ → Budget → Result (Reservation Budget) × Budget
unfolding refund
charge units b =
    if ltb units 1
    then (err (message "resource units must be positive"), b)
    else if ltb b.remaining units
    then (err (wrapped "requested %d, remaining %d, limit %d" (sentinel budget_exceeded)), b)
    else (ok (new_reservation (refund units)), record b { remaining = b.remaining - units })

-- Reserve on a budget that is not nil, given ctx.Err().
unfoldable pub reserve : Option Error → ℤ → Budget → Result (Reservation Budget) × Budget
unfolding charge
reserve (some e) units b = (err e, b)
reserve none (negsuc n) b = (err (message "resource units must be positive"), b)
reserve none (pos units) b = charge units b

-- Reserve on a budget that may be nil; a nil budget keeps none.
abbrev kept : Result (Reservation Budget) × Budget → Result (Reservation Budget) × Option Budget
kept (r, b) = (r, some b)

unfoldable pub reserve_on :
    Option Error → ℤ → Option Budget → Result (Reservation Budget) × Option Budget
unfolding reserve
reserve_on ctx units none = (err (message "budget is nil"), none)
reserve_on ctx units (some b) = kept (reserve ctx units b)

unfoldable pub wait : Option Error → ℤ → Budget → Option Error × Budget
unfolding reserve
wait ctx = wait_by (reserve ctx)

-- Limit, Remaining, Spent and Snapshot; each is 0 on a nil budget.
pub record BudgetSnapshot : Type 0 where
  pub limit : ℕ
  pub spent : ℕ
  pub remaining : ℕ

unfoldable pub snapshot : Option Budget → BudgetSnapshot
snapshot none = record { limit = 0; spent = 0; remaining = 0 }
snapshot (some b) = record {
  limit = b.limit;
  spent = b.limit - b.remaining;
  remaining = b.remaining;
}

unfoldable pub limit_of : Option Budget → ℕ
limit_of none = 0
limit_of (some b) = b.limit

unfoldable pub remaining_of : Option Budget → ℕ
remaining_of none = 0
remaining_of (some b) = b.remaining

unfoldable pub spent_of : Option Budget → ℕ
spent_of none = 0
spent_of (some b) = b.limit - b.remaining
