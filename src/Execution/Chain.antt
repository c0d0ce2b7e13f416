-- ===== src/Execution/Chain.antt =====
-- execution/chain.go: limiters applied in order as one transaction.
pub mod Atomic
use flowkit.Base.{Option, none, some, List, [], ◌∷◌, reverse}
use flowkit.Base.Int.{ℤ}
use flowkit.Errors.{Error, wrapped, Result, ok, err}
use flowkit.Execution.Reservation.{
  Reservation, Limiter, reservable, waiting, commit, rollback, new_reservation_with_commit, wait_by,
}

module _ {S : Type 0} where
  -- The nil limiters are left out.
  unfoldable pub present : List (Option (Limiter S)) → List (Limiter S)
  present [] = []
  present (none ∷ ls) = present ls
  present (some l ∷ ls) = l ∷ present ls

  -- The reservations are held newest first, so this is the loop from the last index down.
  unfoldable pub rollback_all : List (Reservation S) → S → S
  rollback_all [] s = s
  rollback_all (r ∷ rs) s = rollback_all rs (rollback r s).1

  unfoldable pub commit_all : List (Reservation S) → S → S
  commit_all [] s = s
  commit_all (r ∷ rs) s = commit_all rs (commit r s).1

  abbrev pub reserved : Result (Reservation S) × S → Result (Option (Reservation S)) × S
  reserved (ok r, t) = (ok (some r), t)
  reserved (err e, t) = (err e, t)

  abbrev pub waited : Option Error × S → Result (Option (Reservation S)) × S
  waited (none, t) = (ok none, t)
  waited (some e, t) = (err e, t)

  -- One limiter: its reservation, or no reservation for a limiter that has only Wait.
  unfoldable pub admit_by : Limiter S → ℤ → S → Result (Option (Reservation S)) × S
  admit_by (reservable f) units s = reserved (f units s)
  admit_by (waiting g) units s = waited (g units s)

  abbrev pub hold : Option (Reservation S) → List (Reservation S) → List (Reservation S)
  hold none held = held
  hold (some r) held = r ∷ held

  -- The loop of Reserve. A refusal rolls back what is held; else the loop goes on with `rest`.
  abbrev pub go_on :
      (List (Reservation S) → S → Result (Reservation S) × S)
      → List (Reservation S)
      → Result (Option (Reservation S)) × S
      → Result (Reservation S) × S
  go_on rest held (err e, t) = (err (wrapped "limiter %d" e), rollback_all held t)
  go_on rest held (ok r, t) = rest (hold r held) t

  unfoldable pub reserve_all :
      ℤ → List (Limiter S) → List (Reservation S) → S → Result (Reservation S) × S
  unfolding admit_by
  reserve_all units [] held s = (
    ok (new_reservation_with_commit (some (commit_all (reverse held))) (some (rollback_all held))),
    s,
  )
  reserve_all units (l ∷ ls) held s = go_on (reserve_all units ls) held (admit_by l units s)

  -- limiterChain.Reserve and limiterChain.Wait
  unfoldable pub reserve : List (Limiter S) → ℤ → S → Result (Reservation S) × S
  reserve ls units s = reserve_all units ls [] s

  unfoldable pub wait : List (Limiter S) → ℤ → S → Option Error × S
  wait ls = wait_by (reserve ls)

  -- A chain is itself reservable.
  unfoldable pub chain : List (Option (Limiter S)) → Limiter S
  chain ls = reservable (reserve (present ls))
