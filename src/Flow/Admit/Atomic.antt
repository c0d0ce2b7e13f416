-- ===== src/Flow/Admit/Atomic.antt =====
-- Admission is all or nothing for the budgets: flow/run.go, admit.
use flowkit.Base.{
  ℕ, ◌+◌, ◌-◌, ◌≤◌, ◌<◌, ◌≡◌, refl, sym, subst, ◌∙◌, ◌⊎◌, inl, inr, String, Option, none, some,
  List, [], ◌∷◌, map, arith, if◌then◌else◌, str_eq, str_eq_iff, All,
}
use flowkit.Base.Int.{ℤ, pos}
use flowkit.Base.Assoc.{lookup, lookup-insert}
use flowkit.Errors.{Error, Result, ok, err}
use flowkit.Execution.Reservation.{Reservation, reservable, rollback, new_reservation}
use flowkit.Execution.Budget.{Budget, refund}
use flowkit.Execution.Budget.Cases.{reserve_cases, less}
use flowkit.Execution.Chain.{admit_by, reserved, rollback_all}
use flowkit.Execution.Chain.Atomic.{
  Observer, IsTransactional, Undoable, HeldRestores, reserve-IsTransactional,
}
use flowkit.Flow.Env.{LimiterRef, budget_ref, rate_ref}
use flowkit.Flow.Admit.{
  Pool, Gatekeeper, write_budget, on_budget, pooled, reserve_budget, reserve_found, with_limiter,
  resolve, chained, next_name, admit_names, admit,
}

module _ {F W : Type 0} where
  -- Two states in which every name has the same budget.
  abbrev pub SameBudgets : Pool F W → Pool F W → Type 0
  SameBudgets p q = (n : String) → lookup n p.env.budgets ≡ lookup n q.env.budgets

  abbrev pub budgets_seen : Observer (Pool F W)
  budgets_seen = record {
    ◌≈◌ = SameBudgets;
    same = λ p n. refl;
    back = λ p q h n. sym (h n);
    also = λ p q r h k n. h n ∙ k n;
  }

  lookup-write_budget :
      (name n : String) (b : Budget) (p : Pool F W)
      → lookup n (write_budget name b p).env.budgets
        ≡ (if str_eq name n then some b else lookup n p.env.budgets)
  lookup-write_budget name n b p = lookup-insert name n b p.env.budgets

  rewrite_same :
      (name : String) (b : Budget) (p : Pool F W)
      → lookup name p.env.budgets ≡ some b
      → SameBudgets (write_budget name b p) p
  rewrite_same name b p e n = ground (arith, lookup-write_budget name n b p, str_eq_iff name n)

  undo_grant :
      (name : String) (u : ℕ) (b : Budget) (p t : Pool F W)
      → lookup name p.env.budgets ≡ some b
      → u ≤ b.remaining
      → SameBudgets t (write_budget name (less u b) p)
      → SameBudgets (on_budget name (refund u) t) p
  unfolding refund
  undo_grant name u b p t e h same n = ground (
    arith,
    same n,
    same name,
    str_eq_iff name n,
    str_eq_iff name name,
    lookup-write_budget name n (less u b) p,
    lookup-write_budget name name (less u b) p,
    lookup-write_budget name n (record b { remaining = b.remaining - u + u }) t,
  )

  grant-Undoable :
      (name : String) (units : ℤ) (p : Pool F W) (b : Budget)
      (r : Result (Reservation Budget) × Budget)
      → lookup name p.env.budgets ≡ some b
      → ((e : Error) × (r ≡ (err e, b)))
        ⊎ ((u : ℕ) × (units ≡ pos u)
            × (0 < u)
            × (u ≤ b.remaining)
            × (r ≡ (ok (new_reservation (refund u)), less u b)))
      → Undoable budgets_seen p (reserved (pooled name p r))
  unfolding rollback
  grant-Undoable name units p b r l (inl (e, h)) = rw h (rewrite_same name b p l)
  grant-Undoable name units p b r l (inr (u, s, least, enough, h)) =
      rw h (λ t same. undo_grant name u b p t l enough same)

  found-Undoable :
      (ctx_err : W → Option Error) (name : String) (units : ℤ) (p : Pool F W) (o : Option Budget)
      → lookup name p.env.budgets ≡ o
      → Undoable budgets_seen p (reserved (reserve_found ctx_err name units p o))
  found-Undoable ctx_err name units p none l = λ n. refl
  found-Undoable ctx_err name units p (some b) l =
      grant-Undoable name units p b _ l (reserve_cases (ctx_err p.world) units b)

  reserve_budget-Undoable :
      (ctx_err : W → Option Error) (name : String) (units : ℤ) (p : Pool F W)
      → Undoable budgets_seen p (admit_by (reservable (reserve_budget ctx_err name)) units p)
  unfolding reserve_budget admit_by
  reserve_budget-Undoable ctx_err name units p = found-Undoable ctx_err name units p _ refl

module _ {F W : Type 0} (k : Gatekeeper F W) where
  -- The limiters of Options.Rates leave no trace on the budgets.
  abbrev pub RatesSpareBudgets : Type 0
  RatesSpareBudgets = (name : String) → IsTransactional budgets_seen (k.rates name)

  resolve-IsTransactional :
      RatesSpareBudgets → (r : LimiterRef) → IsTransactional budgets_seen (resolve k r)
  unfolding resolve
  resolve-IsTransactional h (budget_ref name) = record {
    undo = reserve_budget-Undoable k.ctx_err name;
  }
  resolve-IsTransactional h (rate_ref name) = h name

  all_resolved :
      RatesSpareBudgets
      → (rs : List LimiterRef) → All (IsTransactional budgets_seen) (map (resolve k) rs)
  all_resolved h [] = tt
  all_resolved h (r ∷ rs) = (resolve-IsTransactional h r, all_resolved h rs)

  chained-IsTransactional :
      RatesSpareBudgets → (rs : List LimiterRef) → IsTransactional budgets_seen (chained k rs)
  chained-IsTransactional h rs = reserve-IsTransactional budgets_seen _ (all_resolved h rs)

  abbrev Atomic : Pool F W → Option (String × Error) × Pool F W → Type 0
  Atomic before (some r, p) = SameBudgets p before
  Atomic before (none, p) = Unit {0}

  next_name-Atomic :
      (rest : List (Reservation (Pool F W)) → Pool F W → Option (String × Error) × Pool F W)
      (before p : Pool F W) (name : String) (held : List (Reservation (Pool F W)))
      (r : Result (Option (Reservation (Pool F W))) × Pool F W)
      → HeldRestores budgets_seen before p held
      → Undoable budgets_seen p r
      → ((held' : List (Reservation (Pool F W))) (t : Pool F W)
          → HeldRestores budgets_seen before t held'
          → Atomic before (rest held' t))
      → Atomic before (next_name k rest name held r)
  unfolding rollback_all
  next_name-Atomic rest before p name held (err e, t) h u g = h t u
  next_name-Atomic rest before p name held (ok none, t) h u g =
      g held t (λ v e. h v (λ n. e n ∙ u n))
  next_name-Atomic rest before p name held (ok (some r), t) h u g =
      g (r ∷ held) t (λ v e. h _ (u v e))

  limiter-Atomic :
      RatesSpareBudgets
      → (rest : List (Reservation (Pool F W)) → Pool F W → Option (String × Error) × Pool F W)
        (units : ℤ) (before p : Pool F W) (name : String) (held : List (Reservation (Pool F W)))
        (o : Option (List LimiterRef))
      → HeldRestores budgets_seen before p held
      → ((held' : List (Reservation (Pool F W))) (t : Pool F W)
          → HeldRestores budgets_seen before t held'
          → Atomic before (rest held' t))
      → Atomic before (with_limiter k rest name units held p o)
  limiter-Atomic rates rest units before p name held none h g = h p (λ n. refl)
  limiter-Atomic rates rest units before p name held (some refs) h g =
      next_name-Atomic rest before p name held _ h
        ((chained-IsTransactional rates refs).undo units p) g

  admit_names-Atomic :
      RatesSpareBudgets
      → (units : ℤ) (before : Pool F W) (names : List String) (held : List (Reservation (Pool F W)))
        (p : Pool F W)
      → HeldRestores budgets_seen before p held
      → Atomic before (admit_names k units names held p)
  unfolding admit_names
  admit_names-Atomic rates units before [] held p h = tt
  admit_names-Atomic rates units before (name ∷ names) held p h =
      limiter-Atomic rates (admit_names k units names) units before p name held _ h
        (λ held' t g. admit_names-Atomic rates units before names held' t g)

  -- If the admission of a work call is refused by any of its resources, every budget is what it was
  -- before, those of the resources that had granted it included: provided that the rate limiters,
  -- which the caller supplies, leave no trace on the budgets.
  pub admit-Atomic :
      RatesSpareBudgets
      → (names : List String) (units : ℤ) (p q : Pool F W) (name : String) (e : Error)
      → admit k names units p ≡ (some (name, e), q)
      → SameBudgets q p
  unfolding admit rollback_all
  admit-Atomic rates names units p q name e h =
      subst (Atomic p) h (admit_names-Atomic rates units p names [] p (λ t g. g))
