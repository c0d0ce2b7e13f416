-- ===== src/Examples/Limits.antt =====
-- Budgets, chains and token buckets at concrete inputs.
use flowkit.Base.{
  ◌≡◌, refl, sym, ◌∙◌, ◌≢◌, ℕ, ◌≤◌, true, false, Option, none, some, List, [], ◌∷◌, arith, All,
}
use flowkit.Base.Int.{pos}
use flowkit.Errors.{Error, wrapped, sentinel, canceled, Sentinel, is_error, ok, err}
use flowkit.Execution.Reservation.{
  Reservation, commits, rollbacks, finish_by, finish_once, Limiter, waiting,
}
use flowkit.Execution.Budget.{Budget, new_budget, snapshot, refund}
use flowkit.Execution.Budget.Trace.{
  Call, reserves, finishes, calls, start, charged_units, Balanced, calls-Balanced, spent_exact,
}
use flowkit.Execution.Chain.{chain, present}
use flowkit.Execution.Chain as Chain
use flowkit.Execution.Chain.Atomic.{
  Observer, IsTransactional, Refused, chain-IsTransactional, chain-Refused,
}
use flowkit.Execution.Rate.{
  TokenBucket, Race, checking, selecting, granted, ticks, moves, receives, closes, takes, turns,
}
use flowkit.Execution.Rate.Trace.{Inv, turns-Inv, closed_never_grants}

abbrev five : Budget
five = record { limit = 5; remaining = 5 }

abbrev traffic : List Call
traffic =
    reserves none (pos 2)
    ∷ reserves none (pos 3)
    ∷ reserves none (pos 1)
    ∷ finishes rollbacks 0
    ∷ finishes commits 1
    ∷ finishes rollbacks 1
    ∷ []

five_made : new_budget (pos 5) ≡ ok five
unfolding new_budget
five_made = refl

five-Balanced : Balanced 5 (start five)
unfolding charged_units
five-Balanced = record { limit_kept = refl; balance = refl; reserved = tt }

calls-Balanced_example : Balanced 5 (calls (start five) traffic)
calls-Balanced_example = calls-Balanced (start five) traffic five-Balanced

spent_exact_example :
    (charged_units (calls (start five) traffic).handles ≤ 5)
    × ((snapshot (some (calls (start five) traffic).budget)).spent
        ≡ charged_units (calls (start five) traffic).handles)
    × ((snapshot (some (calls (start five) traffic).budget)).limit ≡ 5)
spent_exact_example = spent_exact 5 five traffic five_made

abbrev taken_two : Reservation Budget
taken_two = record { finished = false; on_commit = none; on_rollback = some (refund 2) }

finish_once_example :
    finish_by rollbacks (finish_by commits taken_two five).0 five
    ≡ ((finish_by commits taken_two five).0, five)
finish_once_example = finish_once commits rollbacks taken_two five five

-- Two limiters on one number of free units, of which the second refuses.
abbrev units_seen : Observer ℕ
units_seen = record {
  ◌≈◌ = ◌≡◌;
  same = λ s. refl;
  back = λ s t e. sym e;
  also = λ s t u e f. e ∙ f;
}

abbrev passes : Limiter ℕ
passes = waiting (λ u s. (none, s))

abbrev stops : Limiter ℕ
stops = waiting (λ u s. (some (sentinel canceled), s))

waits-IsTransactional : (o : Option Error) → IsTransactional units_seen (waiting (λ u s. (o, s)))
unfolding Chain.admit_by
waits-IsTransactional none = record { undo = λ u s. refl }
waits-IsTransactional (some e) = record { undo = λ u s. refl }

both-IsTransactional :
    All (IsTransactional units_seen) (present (some passes ∷ none ∷ some stops ∷ []))
unfolding present
both-IsTransactional =
    (waits-IsTransactional none, (waits-IsTransactional (some (sentinel canceled)), tt))

chain-IsTransactional_example :
    IsTransactional units_seen (chain (some passes ∷ none ∷ some stops ∷ []))
chain-IsTransactional_example =
    chain-IsTransactional units_seen (some passes ∷ none ∷ some stops ∷ []) both-IsTransactional

abbrev stopped : Error
stopped = wrapped "limiter %d" (sentinel canceled)

chain_stops : Chain.reserve (passes ∷ stops ∷ []) (pos 1) 9 ≡ (err stopped, 9)
unfolding Chain.reserve Chain.reserve_all Chain.rollback_all
chain_stops = refl

chain-Refused_example :
    (c : Error) × Refused (pos 1) (passes ∷ stops ∷ []) c
    × ((x : Sentinel) → is_error x stopped ≡ is_error x c)
chain-Refused_example = chain-Refused (passes ∷ stops ∷ []) (pos 1) 9 9 stopped chain_stops

abbrev bucket : TokenBucket
bucket = record { burst = 3; tokens = 3; closed = false; done = false }

abbrev race : Race
race = record { bucket = bucket; ctx = none; units = 2; phase = checking 0; others = 0; minted = 0 }

race-Inv : Inv race
race-Inv = record { full = omega arith; in_step = omega arith; paced = omega arith }

turns-Inv_example :
    Inv (turns race (moves ∷ takes ∷ receives ∷ ticks ∷ moves ∷ closes ∷ moves ∷ []))
turns-Inv_example =
    turns-Inv race (moves ∷ takes ∷ receives ∷ ticks ∷ moves ∷ closes ∷ moves ∷ []) race-Inv

abbrev shut : Race
shut = record race {
  bucket = record { burst = 3; tokens = 1; closed = true; done = false };
  phase = selecting 1;
}

closed_never_grants_example : (turns shut (receives ∷ moves ∷ moves ∷ moves ∷ [])).phase ≢ granted
closed_never_grants_example =
    closed_never_grants shut (receives ∷ moves ∷ moves ∷ moves ∷ [])
      (record { is_closed = refl; in_loop = tt })
