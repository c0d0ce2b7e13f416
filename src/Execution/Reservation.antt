-- ===== src/Execution/Reservation.antt =====
-- execution/reservation.go and the interfaces of execution/map.go. A reservation is the object with
-- its `finished` flag; its closures act on the state `S` that holds the budgets and buckets.
use flowkit.Base.{◌≡◌, Bool, true, false, Option, none, some, arith}
use flowkit.Base.Int.{ℤ}
use flowkit.Errors.{Error, Result, ok, err}

pub record Reservation (S : Type 0) : Type 0 where
  pub finished : Bool
  pub on_commit : Option (S → S)
  pub on_rollback : Option (S → S)

-- The two ways to finish a reservation.
pub data Finish : Type 0 where
  commits rollbacks : Finish

module _ {S : Type 0} where
  -- A nil closure does nothing.
  abbrev pub run_closure : Option (S → S) → S → S
  run_closure none s = s
  run_closure (some f) s = f s

  abbrev pub new_reservation_with_commit : Option (S → S) → Option (S → S) → Reservation S
  new_reservation_with_commit c r = record { finished = false; on_commit = c; on_rollback = r }

  abbrev pub new_reservation : (S → S) → Reservation S
  new_reservation r = new_reservation_with_commit none (some r)

  finish : Bool → Option (S → S) → Reservation S → S → Reservation S × S
  finish true f r s = (r, s)
  finish false f r s = (record r { finished = true }, run_closure f s)

  unfoldable pub commit : Reservation S → S → Reservation S × S
  unfolding finish
  commit r s = finish r.finished r.on_commit r s

  unfoldable pub rollback : Reservation S → S → Reservation S × S
  unfolding finish
  rollback r s = finish r.finished r.on_rollback r s

  unfoldable pub finish_by : Finish → Reservation S → S → Reservation S × S
  unfolding commit rollback
  finish_by commits r s = commit r s
  finish_by rollbacks r s = rollback r s

  -- Only the first Commit or Rollback of a reservation acts: whichever is called afterwards, and
  -- in whatever state, changes neither the reservation nor the state.
  pub finish_once :
      (a b : Finish) (r : Reservation S) (s t : S)
      → finish_by b (finish_by a r s).0 t ≡ ((finish_by a r s).0, t)
  unfolding finish_by
  finish_once commits commits r s t = ground arith
  finish_once commits rollbacks r s t = ground arith
  finish_once rollbacks commits r s t = ground arith
  finish_once rollbacks rollbacks r s t = ground arith

-- execution.Limiter: a ReservableLimiter, or one that has Wait only. The context is part of `S`.
pub data Limiter (S : Type 0) : Type 0 where
  reservable : (ℤ → S → Result (Reservation S) × S) → Limiter S
  waiting : (ℤ → S → Option Error × S) → Limiter S

module _ {S : Type 0} where
  abbrev pub settle : Result (Reservation S) × S → Option Error × S
  settle (err e, s) = (some e, s)
  settle (ok r, s) = (none, (commit r s).1)

  -- What the reservable limiters do for Wait: reserve, then commit.
  abbrev pub wait_by : (ℤ → S → Result (Reservation S) × S) → ℤ → S → Option Error × S
  wait_by reserve units s = settle (reserve units s)
