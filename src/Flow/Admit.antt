-- ===== src/Flow/Admit.antt =====
-- Admission of work: runEnv.admit of flow/run.go over the budgets and the rate limiters of a run.
-- A step acts on the environment and on the world, in which the limiters that the caller supplies,
-- the context, the store and the provider live.
pub mod Atomic
use flowkit.Base.{String, Option, none, some, List, [], ◌∷◌, ◌≡◌, map, reverse}
use flowkit.Base.Int.{ℤ}
use flowkit.Base.Assoc.{Assoc, lookup, insert}
use flowkit.Errors.{Error, message, Result, ok, err}
use flowkit.Execution.Budget.{Budget}
use flowkit.Execution.Budget
use flowkit.Execution.Reservation.{Reservation, Limiter, reservable, waiting}
use flowkit.Execution.Chain.{admit_by, hold, commit_all, rollback_all}
use flowkit.Execution.Chain
use flowkit.Flow.Env.{RunEnv, LimiterRef, budget_ref, rate_ref}

pub record Pool (F W : Type 0) : Type 0 where
  pub env : RunEnv F
  pub world : W

module _ {F W : Type 0} where
  -- A write through the pointer to a budget.
  abbrev pub write_budget : String → Budget → Pool F W → Pool F W
  write_budget name b p = record p {
    env = record (p.env) { budgets = insert name b p.env.budgets };
  }

  abbrev pub on_budget : String → (Budget → Budget) → Pool F W → Pool F W
  on_budget name f p = elim (lookup name p.env.budgets) [
    | none ↦ p
    | some b ↦ write_budget name (f b) p
  ]

  abbrev pub on_pool : String → Option (Budget → Budget) → Option (Pool F W → Pool F W)
  on_pool name none = none
  on_pool name (some f) = some (on_budget name f)

  abbrev pub pooled :
      String
      → Pool F W
      → Result (Reservation Budget) × Budget
      → Result (Reservation (Pool F W)) × Pool F W
  pooled name p (err e, b) = (err e, write_budget name b p)
  pooled name p (ok r, b) = (
    ok (record {
      finished = r.finished;
      on_commit = on_pool name r.on_commit;
      on_rollback = on_pool name r.on_rollback;
    }),
    write_budget name b p,
  )

  abbrev pub reserve_found :
      (W → Option Error)
      → String
      → ℤ
      → Pool F W
      → Option Budget
      → Result (Reservation (Pool F W)) × Pool F W
  reserve_found ctx_err name units p none = (err (message "budget is nil"), p)
  reserve_found ctx_err name units p (some b) =
      pooled name p (Budget.reserve (ctx_err p.world) units b)

  -- Budget.Reserve through its pointer; a nil budget is an error.
  unfoldable pub reserve_budget :
      (W → Option Error) → String → ℤ → Pool F W → Result (Reservation (Pool F W)) × Pool F W
  reserve_budget ctx_err name units p =
      reserve_found ctx_err name units p (lookup name p.env.budgets)

-- What the run has from outside: ctx.Err(), and the limiters of Options.Rates.
pub record Gatekeeper (F W : Type 0) : Type 0 where
  pub ctx_err : W → Option Error
  pub rates : String → Limiter (Pool F W)

module _ {F W : Type 0} (k : Gatekeeper F W) where
  unfoldable pub resolve : LimiterRef → Limiter (Pool F W)
  resolve (budget_ref name) = reservable (reserve_budget k.ctx_err name)
  resolve (rate_ref name) = k.rates name

  abbrev pub chained : List LimiterRef → Limiter (Pool F W)
  chained refs = reservable (Chain.reserve (map resolve refs))

  abbrev pub next_name :
      (List (Reservation (Pool F W)) → Pool F W → Option (String × Error) × Pool F W)
      → String
      → List (Reservation (Pool F W))
      → Result (Option (Reservation (Pool F W))) × Pool F W
      → Option (String × Error) × Pool F W
  next_name rest name held (err e, p) = (some (name, e), rollback_all held p)
  next_name rest name held (ok r, p) = rest (hold r held) p

  abbrev pub with_limiter :
      (List (Reservation (Pool F W)) → Pool F W → Option (String × Error) × Pool F W)
      → String
      → ℤ
      → List (Reservation (Pool F W))
      → Pool F W
      → Option (List LimiterRef)
      → Option (String × Error) × Pool F W
  with_limiter rest name units held p none =
      (some (name, message "resource has no admitted limiter"), rollback_all held p)
  with_limiter rest name units held p (some refs) =
      next_name rest name held (admit_by (chained refs) units p)

  -- The loop of `admit`; `held` are the reservations so far, newest first.
  unfoldable pub admit_names :
      ℤ
      → List String
      → List (Reservation (Pool F W))
      → Pool F W
      → Option (String × Error) × Pool F W
  admit_names units [] held p = (none, commit_all (reverse held) p)
  admit_names units (name ∷ names) held p =
      with_limiter (admit_names units names) name units held p (lookup name p.env.limiters)

  unfoldable pub admit : List String → ℤ → Pool F W → Option (String × Error) × Pool F W
  unfolding admit_names
  admit names units p = admit_names units names [] p
