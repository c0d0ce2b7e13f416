-- ===== src/Execution/Budget/Trace.antt =====
-- A budget shared by any number of goroutines: each call of Reserve, and each Commit and Rollback of
-- a reservation, holds the mutex, so a run is a sequence of such calls in any order.
use flowkit.Base.{
  ℕ, zero, suc, ◌+◌, ◌≤◌, ◌≡◌, refl, ◌∙◌, Bool, true, false, Option, none, some, List, [], ◌∷◌,
  arith, if◌then◌else◌, All,
}
use flowkit.Base.Int.{ℤ, pos, negsuc}
use flowkit.Errors.{Error, Result, ok, err, ok-injective}
use flowkit.Execution.Reservation.{Reservation, Finish, commits, rollbacks, finish_by}
use flowkit.Execution.Budget.{Budget, new_budget, refund, charge, reserve, snapshot}

-- A reservation that was handed out, its units, and whether they are charged at present.
pub record Handle : Type 0 where
  pub units : ℕ
  pub charged : Bool
  pub reservation : Reservation Budget

pub record Shared : Type 0 where
  pub budget : Budget
  pub handles : List Handle

-- A call: Reserve of units under a context, or Commit or Rollback of the i-th reservation.
pub data Call : Type 0 where
  reserves : Option Error → ℤ → Call
  finishes : Finish → ℕ → Call

abbrev units_of : ℤ → ℕ
units_of (pos n) = n
units_of (negsuc n) = 0

abbrev granted : ℤ → List Handle → Result (Reservation Budget) × Budget → Shared
granted units hs (err e, b) = record { budget = b; handles = hs }
granted units hs (ok r, b) = record {
  budget = b;
  handles = record { units = units_of units; charged = true; reservation = r } ∷ hs;
}

-- Rollback takes the charge off, unless the reservation was finished before.
abbrev charged_after : Finish → Bool → Bool → Bool
charged_after commits finished charged = charged
charged_after rollbacks true charged = charged
charged_after rollbacks false charged = false

finish_at : Finish → ℕ → Budget → List Handle → Budget × List Handle
finish_at f i b [] = (b, [])
finish_at f zero b (h ∷ hs) =
    let (r, b') = finish_by f h.reservation b in
    (
      b',
      record h { charged = charged_after f h.reservation.finished h.charged; reservation = r } ∷ hs,
    )
finish_at f (suc i) b (h ∷ hs) = let (b', hs') = finish_at f i b hs in (b', h ∷ hs')

pub call : Shared → Call → Shared
unfolding finish_at
call s (reserves ctx units) = granted units s.handles (reserve ctx units s.budget)
call s (finishes f i) =
    let (b, hs) = finish_at f i s.budget s.handles in record { budget = b; handles = hs }

pub calls : Shared → List Call → Shared
unfolding call
calls s [] = s
calls s (c ∷ cs) = calls (call s c) cs

-- The units of the reservations that were not rolled back.
unfoldable pub charged_units : List Handle → ℕ
charged_units [] = 0
charged_units (h ∷ hs) = (if h.charged then h.units else 0) + charged_units hs

-- The reservation is one of Reserve's, and holds its charge while it is open.
abbrev IsReserved : Handle → Type 0
IsReserved h =
    (h.reservation.on_commit ≡ none)
    × (h.reservation.on_rollback ≡ some (refund h.units))
    × (h.reservation.finished ≡ false → h.charged ≡ true)

pub record Balanced (total : ℕ) (s : Shared) : Type 0 where
  pub limit_kept : s.budget.limit ≡ total
  pub balance : s.budget.remaining + charged_units s.handles ≡ total
  pub reserved : All IsReserved s.handles

charge-Balanced :
    {total : ℕ} (u : ℕ) (s : Shared)
    → Balanced total s
    → Balanced total (granted (pos u) s.handles (charge u s.budget))
unfolding charge charged_units
charge-Balanced u s v = ground arith

reserve-Balanced :
    {total : ℕ} (s : Shared) (ctx : Option Error) (units : ℤ)
    → Balanced total s
    → Balanced total (call s (reserves ctx units))
unfolding call reserve
reserve-Balanced s (some e) units v = v
reserve-Balanced s none (negsuc n) v = v
reserve-Balanced s none (pos u) v = charge-Balanced u s v

-- What finishing the i-th handle keeps.
record Kept (b b' : Budget) (hs hs' : List Handle) : Type 0 where
  limit_kept : b'.limit ≡ b.limit
  balance : b'.remaining + charged_units hs' ≡ b.remaining + charged_units hs
  reserved : All IsReserved hs'

head-Kept :
    (f : Finish) (b : Budget) (h : Handle) (hs : List Handle)
    → IsReserved h
    → All IsReserved hs
    → Kept b (finish_at f zero b (h ∷ hs)).0 (h ∷ hs) (finish_at f zero b (h ∷ hs)).1
unfolding finish_at finish_by charged_units refund
head-Kept commits b h hs r a = ground (arith, r.2)
head-Kept rollbacks b h hs r a = ground (arith, r.2)

finish_at-Kept :
    (f : Finish) (i : ℕ) (b : Budget) (hs : List Handle)
    → All IsReserved hs
    → Kept b (finish_at f i b hs).0 hs (finish_at f i b hs).1
unfolding finish_at charged_units
finish_at-Kept f zero b [] a = record { limit_kept = refl; balance = refl; reserved = a }
finish_at-Kept f (suc i) b [] a = record { limit_kept = refl; balance = refl; reserved = a }
finish_at-Kept f zero b (h ∷ hs) a = head-Kept f b h hs a.0 a.1
finish_at-Kept f (suc i) b (h ∷ hs) a =
    let k = finish_at-Kept f i b hs a.1 in
    record {
      limit_kept = k.limit_kept;
      balance = omega (arith, k.balance);
      reserved = (a.0, k.reserved);
    }

call-Balanced : {total : ℕ} (s : Shared) (c : Call) → Balanced total s → Balanced total (call s c)
unfolding call
call-Balanced s (reserves ctx units) v = reserve-Balanced s ctx units v
call-Balanced s (finishes f i) v =
    let k = finish_at-Kept f i s.budget s.handles v.reserved in
    record {
      limit_kept = k.limit_kept ∙ v.limit_kept;
      balance = k.balance ∙ v.balance;
      reserved = k.reserved;
    }

-- From a balanced state, whatever calls of Reserve, Commit and Rollback are made, in whatever order
-- and however often, the limit stays, and what remains and what the reservations that were not
-- rolled back charge add up to it: no unit is lost, charged twice or refunded twice.
pub calls-Balanced :
    {total : ℕ} (s : Shared) (cs : List Call) → Balanced total s → Balanced total (calls s cs)
unfolding calls
calls-Balanced s [] v = v
calls-Balanced s (c ∷ cs) v = calls-Balanced (call s c) cs (call-Balanced s c v)

abbrev pub start : Budget → Shared
start b = record { budget = b; handles = [] }

start-Balanced : (total : ℕ) (b : Budget) → new_budget (pos total) ≡ ok b → Balanced total (start b)
unfolding new_budget charged_units
start-Balanced total b h =
    let e = ok-injective h in
    rw (← e) (record { limit_kept = refl; balance = omega arith; reserved = tt })

-- After any calls on a new budget of `total` units, the units charged never pass the total, Spent
-- is exactly what the reservations not rolled back charge, and Limit is still the total.
pub spent_exact :
    (total : ℕ) (b : Budget) (cs : List Call)
    → new_budget (pos total) ≡ ok b
    → let s = calls (start b) cs in
      (charged_units s.handles ≤ total)
      × ((snapshot (some s.budget)).spent ≡ charged_units s.handles)
      × ((snapshot (some s.budget)).limit ≡ total)
unfolding snapshot
spent_exact total b cs h =
    let v = calls-Balanced (start b) cs (start-Balanced total b h) in
    (omega (arith, v.balance), omega (arith, v.balance, v.limit_kept), v.limit_kept)
