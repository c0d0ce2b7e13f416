-- ===== src/Execution/Rate.antt =====
-- execution/rate.go: the token bucket. A send to, or a receive from, the channel of tokens is one
-- step; the goroutines that share the bucket, the replenisher and Close act between any two steps
-- of a Reserve.
pub mod Trace
use flowkit.Base.{
  ℕ, zero, suc, ◌+◌, ◌-◌, ◌/◌, Bool, true, false, Option, none, some, List, [], ◌∷◌, ltb, ◌==◌,
  if◌then◌else◌,
}
use flowkit.Base.Int.{ℤ, pos, negsuc}
use flowkit.Errors.{Error, message, Result, ok, err}

pub record Rate : Type 0 where
  pub units : ℤ
  pub per : ℤ
  pub burst : ℤ

-- `tokens` is the length of the channel, `burst` its capacity; `done` is the channel that Close
-- closes after it has set `closed`.
pub record TokenBucket : Type 0 where
  pub burst : ℕ
  pub tokens : ℕ
  pub closed : Bool
  pub done : Bool

too_fast : ℕ → ℕ → Result (ℕ × TokenBucket)
too_fast interval burst =
    if interval == 0
    then err (message "rate interval is below timer resolution")
    else ok (interval, record { burst = burst; tokens = burst; closed = false; done = false })

check_burst : ℕ → ℤ → Result (ℕ × TokenBucket)
unfolding too_fast
check_burst interval (pos (suc burst)) = too_fast interval (suc burst)
check_burst interval _ = err (message "rate burst must be positive")

check_period : ℕ → ℤ → ℤ → Result (ℕ × TokenBucket)
unfolding check_burst
check_period units (pos (suc per)) burst = check_burst (suc per / units) burst
check_period units _ burst = err (message "rate period must be positive")

-- The interval of the ticker, and the full bucket.
pub new_token_bucket : Rate → Result (ℕ × TokenBucket)
unfolding check_period
new_token_bucket rate = elim rate.units [
  | pos units ↦
      if units == 0
      then err (message "rate units must be positive")
      else check_period units rate.per rate.burst
  | negsuc n ↦ err (message "rate units must be positive")
]

-- A send that does not block: the replenisher's, and one round of `refund`.
unfoldable pub replenish : TokenBucket → TokenBucket
replenish b = if ltb b.tokens b.burst then record b { tokens = b.tokens + 1 } else b

unfoldable pub refund : ℕ → TokenBucket → TokenBucket
unfolding replenish
refund zero b = b
refund (suc n) b = let rest = refund n (replenish b) in if ltb b.tokens b.burst then rest else b

-- Where a Reserve stands: at the loop's head with so many units acquired, at the select, at the test
-- after a receive, giving units back before it fails, or returned.
pub data Phase : Type 0 where
  checking selecting rechecking : ℕ → Phase
  refunding : ℕ → Error → Phase
  granted : Phase
  refused : Error → Phase

-- A Reserve of `units` among other goroutines, which hold `others` units; `minted` counts the ticks.
pub record Race : Type 0 where
  pub bucket : TokenBucket
  pub ctx : Option Error
  pub units : ℕ
  pub phase : Phase
  pub others : ℕ
  pub minted : ℕ

pub data Turn : Type 0 where
  -- the environment: a tick, another's receive, another's refund of a unit, the context's end, the
  -- two writes of Close
  ticks takes returns closes signals : Turn
  cancels : Error → Turn
  -- the Reserve: its next test or refund, or a ready case of its select
  moves sees_ctx sees_done receives : Turn

abbrev bucket_closed : Error
bucket_closed = message "token bucket is closed"

-- The tests before the loop.
unfoldable pub begin : TokenBucket → Option Error → ℤ → Phase
begin b ctx (negsuc n) = refused (message "resource units must be positive")
begin b ctx (pos units) =
    if units == 0
    then refused (message "resource units must be positive")
    else if ltb b.burst units
    then refused (message "resource units %d exceed burst %d")
    else if b.closed
    then refused (message "token bucket is closed")
    else checking 0

unfoldable pub move : Race → Phase → Race
move r (checking n) =
    if ltb n r.units
    then (if r.bucket.closed
        then record r { phase = refunding n bucket_closed }
        else record r { phase = selecting n })
    else record r { phase = granted }
move r (rechecking n) =
    if r.bucket.closed
    then record r { phase = refunding n bucket_closed }
    else record r { phase = checking n }
move r (refunding zero e) = record r { phase = refused e }
move r (refunding (suc n) e) =
    if ltb r.bucket.tokens r.bucket.burst
    then record r {
      bucket = record r.bucket { tokens = r.bucket.tokens + 1 };
      phase = refunding n e;
    }
    else record r { phase = refused e }
move r (selecting n) = r
move r granted = r
move r (refused e) = r

-- The select: a case that is not ready is not taken.
unfoldable pub select : Race → Phase → Turn → Race
select r (selecting n) sees_ctx = elim r.ctx [
  | some e ↦ record r { phase = refunding n e }
  | none ↦ r
]
select r (selecting n) sees_done =
    if r.bucket.done then record r { phase = refunding n bucket_closed } else r
select r (selecting n) receives =
    if ltb 0 r.bucket.tokens
    then record r {
      bucket = record r.bucket { tokens = r.bucket.tokens - 1 };
      phase = rechecking (suc n);
    }
    else r
select r _ _ = r

unfoldable pub turn : Race → Turn → Race
unfolding replenish move select
turn r ticks = record r { bucket = replenish r.bucket; minted = r.minted + 1 }
turn r takes =
    if ltb 0 r.bucket.tokens
    then record r {
      bucket = record r.bucket { tokens = r.bucket.tokens - 1 };
      others = r.others + 1;
    }
    else r
turn r returns =
    if ltb 0 r.others then record r { bucket = replenish r.bucket; others = r.others - 1 } else r
turn r closes = record r { bucket = record r.bucket { closed = true } }
turn r signals =
    if r.bucket.closed then record r { bucket = record r.bucket { done = true } } else r
turn r (cancels e) = record r { ctx = some e }
turn r moves = move r r.phase
turn r t = select r r.phase t

unfoldable pub turns : Race → List Turn → Race
turns r [] = r
turns r (t ∷ ts) = turns (turn r t) ts
