-- ===== src/Execution/Chain/Atomic.antt =====
-- A chain is a transaction: if a limiter refuses, or the reservation is rolled back, the state is
-- as before, up to what the observer `◌≈◌` of the state does not see.
use flowkit.Base.{◌≡◌, refl, ap, Option, none, some, List, [], ◌∷◌, arith, All, inl, inr, ◌⊎◌}
use flowkit.Base.Int.{ℤ}
use flowkit.Errors.{Error, wrapped, Result, ok, err, is_error, Sentinel}
use flowkit.Execution.Reservation.{reservable, Reservation, Limiter, rollback}
use flowkit.Execution.Chain.{
  present, rollback_all, reserved, admit_by, hold, go_on, reserve_all, reserve, chain,
}

-- An equivalence of states: what stands outside it is not observed.
pub record Observer (S : Type 0) : Type 1 where
  pub ◌≈◌ : S → S → Type 0
  pub same : (s : S) → ◌≈◌ s s
  pub back : (s t : S) → ◌≈◌ s t → ◌≈◌ t s
  pub also : (s t u : S) → ◌≈◌ s t → ◌≈◌ t u → ◌≈◌ s u

module _ {S : Type 0} (o : Observer S) where
  -- Rolled back in any state that looks like `after`, the reservation gives one that looks like
  -- `before`.
  abbrev pub Restores : S → S → Reservation S → Type 0
  Restores before after r = (t : S) → o.◌≈◌ t after → o.◌≈◌ (rollback r t).1 before

  abbrev pub Undoable : S → Result (Option (Reservation S)) × S → Type 0
  Undoable s (err e, t) = o.◌≈◌ t s
  Undoable s (ok none, t) = o.◌≈◌ t s
  Undoable s (ok (some r), t) = Restores s t r

  -- What a chain asks of a limiter: a refusal leaves no trace, a reservation can be rolled back,
  -- and a Wait, which cannot, is not observed.
  pub record IsTransactional (l : Limiter S) : Type 0 where
    pub undo : (units : ℤ) (s : S) → Undoable s (admit_by l units s)

  abbrev pub HeldRestores : S → S → List (Reservation S) → Type 0
  HeldRestores before after held = (t : S) → o.◌≈◌ t after → o.◌≈◌ (rollback_all held t) before

  go_on-undo :
      (rest : List (Reservation S) → S → Result (Reservation S) × S) (before s : S)
      (held : List (Reservation S)) (r : Result (Option (Reservation S)) × S)
      → HeldRestores before s held
      → Undoable s r
      → ((held' : List (Reservation S)) (t : S)
          → HeldRestores before t held'
          → Undoable before (reserved (rest held' t)))
      → Undoable before (reserved (go_on rest held r))
  unfolding rollback_all
  go_on-undo rest before s held (err e, t) h u k = h t u
  go_on-undo rest before s held (ok none, t) h u k = k held t (λ v e. h v (o.also v t s e u))
  go_on-undo rest before s held (ok (some r), t) h u k = k (r ∷ held) t (λ v e. h _ (u v e))

  reserve_all-undo :
      (units : ℤ) (before : S) (ls : List (Limiter S)) (held : List (Reservation S)) (s : S)
      → All IsTransactional ls
      → HeldRestores before s held
      → Undoable before (reserved (reserve_all units ls held s))
  unfolding reserve_all rollback
  reserve_all-undo units before [] held s a h = λ t e. h t e
  reserve_all-undo units before (l ∷ ls) held s a h =
      go_on-undo (reserve_all units ls) before s held (admit_by l units s) h (a.0.undo units s)
        (λ held' t k. reserve_all-undo units before ls held' t a.1 k)

  -- So is the Reserve of a list of transactional limiters.
  pub reserve-IsTransactional :
      (ls : List (Limiter S)) → All IsTransactional ls → IsTransactional (reservable (reserve ls))
  unfolding admit_by reserve rollback_all
  reserve-IsTransactional ls a = record {
    undo = λ units s. reserve_all-undo units s ls [] s a (λ t e. e);
  }

  -- A chain of transactional limiters, nil ones left out, is transactional: if one of them refuses,
  -- the state looks as it did before the first, and so it does after a rollback of the whole.
  pub chain-IsTransactional :
      (ls : List (Option (Limiter S)))
      → All IsTransactional (present ls)
      → IsTransactional (chain ls)
  unfolding chain admit_by reserve rollback_all
  chain-IsTransactional ls a = record {
    undo = λ units s. reserve_all-undo units s (present ls) [] s a (λ t e. e);
  }

module _ {S : Type 0} where
  -- Some limiter of the list refused, in some state, with this error.
  abbrev pub Refused : ℤ → List (Limiter S) → Error → Type 0
  Refused units [] e = ⊥
  Refused units (l ∷ ls) e = ((s t : S) × (admit_by l units s ≡ (err e, t))) ⊎ Refused units ls e

  go_on-Refused :
      (units : ℤ) (l : Limiter S) (ls : List (Limiter S)) (held : List (Reservation S)) (s t : S)
      (e : Error) (r : Result (Option (Reservation S)) × S)
      → admit_by l units s ≡ r
      → ((held' : List (Reservation S)) (s' : S)
          → reserve_all units ls held' s' ≡ (err e, t)
          → (c : Error) × (e ≡ wrapped "limiter %d" c) × Refused units ls c)
      → go_on (reserve_all units ls) held r ≡ (err e, t)
      → (c : Error) × (e ≡ wrapped "limiter %d" c) × Refused units (l ∷ ls) c
  go_on-Refused units l ls held s t e (err c, u) a k h = (c, ground arith, inl (s, u, a))
  go_on-Refused units l ls held s t e (ok r, u) a k h =
      let (c, w, n) = k (hold r held) u h in (c, w, inr n)

  reserve_all-Refused :
      (units : ℤ) (ls : List (Limiter S)) (held : List (Reservation S)) (s t : S) (e : Error)
      → reserve_all units ls held s ≡ (err e, t)
      → (c : Error) × (e ≡ wrapped "limiter %d" c) × Refused units ls c
  unfolding reserve_all
  reserve_all-Refused units [] held s t e h = absurd (ground arith)
  reserve_all-Refused units (l ∷ ls) held s t e h =
      go_on-Refused units l ls held s t e (admit_by l units s) refl
        (λ held' s' g. reserve_all-Refused units ls held' s' t e g) h

  -- A chain refuses only if one of its limiters does, and its error wraps that limiter's: so
  -- errors.Is finds in it the sentinels of that refusal and no others.
  pub chain-Refused :
      (ls : List (Limiter S)) (units : ℤ) (s t : S) (e : Error)
      → reserve ls units s ≡ (err e, t)
      → (c : Error) × Refused units ls c × ((x : Sentinel) → is_error x e ≡ is_error x c)
  unfolding reserve is_error
  chain-Refused ls units s t e h =
      let (c, w, n) = reserve_all-Refused units ls [] s t e h in (c, n, λ x. ap (is_error x) w)
