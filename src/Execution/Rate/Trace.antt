-- ===== src/Execution/Rate/Trace.antt =====
-- What a Reserve of the token bucket can do among other goroutines, whatever the schedule.
use flowkit.Base.{ℕ, ◌+◌, ◌≤◌, ◌<◌, ◌≡◌, ◌≢◌, refl, true, List, [], ◌∷◌, arith, subst}
use flowkit.Execution.Rate.{
  Race, Phase, checking, selecting, rechecking, refunding, granted, refused, Turn, ticks, takes,
  returns, closes, signals, cancels, moves, sees_ctx, sees_done, receives, replenish, move, select,
  turn, turns,
}

-- The units that a Reserve of `units` holds in a phase.
abbrev pub held : ℕ → Phase → ℕ
held units (checking n) = n
held units (selecting n) = n
held units (rechecking n) = n
held units (refunding n e) = n
held units granted = units
held units (refused e) = 0

-- How far a Reserve has come: never past its units, and a select or a test follows an unmet need.
abbrev pub InStep : ℕ → Phase → Type 0
InStep units (checking n) = n ≤ units
InStep units (selecting n) = n < units
InStep units (rechecking n) = n ≤ units
InStep units _ = Unit {0}

pub record Inv (r : Race) : Type 0 where
  pub full : r.bucket.tokens ≤ r.bucket.burst
  pub in_step : InStep r.units r.phase
  pub paced : r.bucket.tokens + held r.units r.phase + r.others ≤ r.bucket.burst + r.minted

move-Inv : (r : Race) (p : Phase) → r.phase ≡ p → Inv r → Inv (move r p)
unfolding move
move-Inv r (checking n) e v = ground arith
move-Inv r _ e v = ground arith

select-Inv : (r : Race) (p : Phase) (t : Turn) → r.phase ≡ p → Inv r → Inv (select r p t)
unfolding select
select-Inv r (selecting n) sees_ctx e v = ground arith
select-Inv r (selecting n) sees_done e v = ground arith
select-Inv r (selecting n) receives e v = ground arith
select-Inv r _ _ e v = v

turn-Inv : (r : Race) (t : Turn) → Inv r → Inv (turn r t)
unfolding turn replenish
turn-Inv r moves v = move-Inv r r.phase refl v
turn-Inv r sees_ctx v = select-Inv r r.phase sees_ctx refl v
turn-Inv r sees_done v = select-Inv r r.phase sees_done refl v
turn-Inv r receives v = select-Inv r r.phase receives refl v
turn-Inv r ticks v = ground arith
turn-Inv r takes v = ground arith
turn-Inv r returns v = ground arith
turn-Inv r closes v = ground arith
turn-Inv r signals v = ground arith
turn-Inv r (cancels e) v = ground arith

-- Under every schedule the bucket never holds more than the burst, a Reserve never acquires more
-- than its units, and the tokens, what this Reserve holds and what the others hold are together at
-- most the burst and a unit for each tick: the rate is kept, refunds and races included.
pub turns-Inv : (r : Race) (ts : List Turn) → Inv r → Inv (turns r ts)
unfolding turns
turns-Inv r [] v = v
turns-Inv r (t ∷ ts) v = turns-Inv (turn r t) ts (turn-Inv r t v)

abbrev InLoop : ℕ → Phase → Type 0
InLoop units (checking n) = n < units
InLoop units granted = ⊥
InLoop units _ = Unit {0}

-- The bucket is closed, and the Reserve has a test of `closed` ahead, is on its way back, or failed.
pub record IsShut (r : Race) : Type 0 where
  pub is_closed : r.bucket.closed ≡ true
  pub in_loop : InLoop r.units r.phase

move-IsShut : (r : Race) (p : Phase) → r.phase ≡ p → IsShut r → IsShut (move r p)
unfolding move
move-IsShut r (checking n) e v = ground arith
move-IsShut r _ e v = ground arith

select-IsShut : (r : Race) (p : Phase) (t : Turn) → r.phase ≡ p → IsShut r → IsShut (select r p t)
unfolding select
select-IsShut r (selecting n) sees_ctx e v = ground arith
select-IsShut r (selecting n) sees_done e v = ground arith
select-IsShut r (selecting n) receives e v = ground arith
select-IsShut r _ _ e v = v

turn-IsShut : (r : Race) (t : Turn) → IsShut r → IsShut (turn r t)
unfolding turn replenish
turn-IsShut r moves v = move-IsShut r r.phase refl v
turn-IsShut r sees_ctx v = select-IsShut r r.phase sees_ctx refl v
turn-IsShut r sees_done v = select-IsShut r r.phase sees_done refl v
turn-IsShut r receives v = select-IsShut r r.phase receives refl v
turn-IsShut r ticks v = ground arith
turn-IsShut r takes v = ground arith
turn-IsShut r returns v = ground arith
turn-IsShut r closes v = ground arith
turn-IsShut r signals v = ground arith
turn-IsShut r (cancels e) v = ground arith

turns-IsShut : (r : Race) (ts : List Turn) → IsShut r → IsShut (turns r ts)
unfolding turns
turns-IsShut r [] v = v
turns-IsShut r (t ∷ ts) v = turns-IsShut (turn r t) ts (turn-IsShut r t v)

not_granted : (r : Race) → IsShut r → r.phase ≢ granted
not_granted r v e = subst (InLoop r.units) e v.in_loop

-- Once the bucket is closed, a Reserve that still needs a unit or has not tested `closed` after its
-- last one is never granted, whatever is scheduled. (One that has made its last test may be.)
pub closed_never_grants : (r : Race) (ts : List Turn) → IsShut r → (turns r ts).phase ≢ granted
closed_never_grants r ts v = not_granted (turns r ts) (turns-IsShut r ts v)
