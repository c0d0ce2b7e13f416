-- ===== src/Execution/Budget/Cases.antt =====
-- The two outcomes of Budget.Reserve.
use flowkit.Base.{
  ℕ, ◌-◌, ◌≤◌, ◌<◌, ◌≡◌, refl, ◌⊎◌, inl, inr, Option, none, some, arith, Bool-cases, ltb,
}
use flowkit.Base.Int.{ℤ, pos, negsuc}
use flowkit.Errors.{Error, sentinel, message, wrapped, budget_exceeded, ok, err}
use flowkit.Execution.Reservation.{new_reservation}
use flowkit.Execution.Budget.{Budget, refund, charge, reserve}

-- The budget with so many units fewer.
abbrev pub less : ℕ → Budget → Budget
less u b = record b { remaining = b.remaining - u }

abbrev pub Refuses : Option Error → ℤ → Budget → Type 0
Refuses ctx units b = (e : Error) × (reserve ctx units b ≡ (err e, b))

abbrev pub Grants : Option Error → ℤ → Budget → Type 0
Grants ctx units b =
    (u : ℕ) × (units ≡ pos u)
    × (0 < u)
    × (u ≤ b.remaining)
    × (reserve ctx units b ≡ (ok (new_reservation (refund u)), less u b))

charge_cases : (u : ℕ) (b : Budget) → Refuses none (pos u) b ⊎ Grants none (pos u) b
unfolding reserve charge
charge_cases u b = elim (Bool-cases (ltb u 1)) [
  | inl small ↦ inl (message "resource units must be positive", rw small)
  | inr large ↦ elim (Bool-cases (ltb b.remaining u)) [
    | inl low ↦
        inl (
          wrapped "requested %d, remaining %d, limit %d" (sentinel budget_exceeded),
          rw (large, low),
        )
    | inr enough ↦ inr (u, refl, ground arith, ground arith, rw (large, enough))
  ]
]

pub reserve_cases :
    (ctx : Option Error) (units : ℤ) (b : Budget) → Refuses ctx units b ⊎ Grants ctx units b
unfolding reserve
reserve_cases (some e) units b = inl (e, refl)
reserve_cases none (negsuc n) b = inl (message "resource units must be positive", refl)
reserve_cases none (pos u) b = charge_cases u b
