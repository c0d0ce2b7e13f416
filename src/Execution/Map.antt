-- ===== src/Execution/Map.antt =====
-- Map of execution/map.go. Its workers run the jobs in any order: a schedule says in which one they
-- start, and a job runs from its start to its result. The first error ends the run.
pub mod Ordered
use flowkit.Base.{
  ℕ, Bool, true, false, Option, none, some, List, [], ◌∷◌, if◌then◌else◌, length, set, replicate,
}
use flowkit.Base.Int.{ℤ, pos, ltb_ℤ}
use flowkit.Base.Placed.{numbered}
use flowkit.Errors.{Error, message, wrapped, Result, ok, err}
use flowkit.Exec.{Exec, then_do, ◌>>=◌, ◌>>◌, pure, raise}

abbrev pub Job : Type 0 → Type 0
Job T = ℕ × T

-- The limiter and the cost of MapOptions; nil is none.
pub record MapOptions (T S : Type 0) : Type 0 where
  pub limiter : Option (ℤ → Exec S (Unit {0}))
  pub cost : Option (T → ℤ)

abbrev pub cost_of : {T : Type 0} → Option (T → ℤ) → T → ℤ
cost_of none x = pos 1
cost_of (some f) x = f x

module _ {S : Type 0} where
  abbrev pub annotated : {A : Type 0} → (Error → Error) → Result A × S → Result A × S
  annotated f (ok a, s) = (ok a, s)
  annotated f (err e, s) = (err (f e), s)

  abbrev pub admitted : Option (ℤ → Exec S (Unit {0})) → ℤ → Exec S (Unit {0})
  admitted none n s = pure tt s
  admitted (some wait) n s = annotated (wrapped "item %d: wait for resources: %w") (wait n s)

module _ {T R S : Type 0} where
  abbrev pub worked : (T → Exec S R) → T → Exec S R
  worked work x s = annotated (wrapped "item %d: %w") (work x s)

  abbrev pub run_admitted : MapOptions T S → (T → Exec S R) → T → Exec S R
  run_admitted o work x = admitted o.limiter (cost_of o.cost x) >> worked work x

  -- One round of a worker.
  unfoldable pub run_job : MapOptions T S → (T → Exec S R) → T → Exec S R
  run_job o work x =
      if ltb_ℤ (cost_of o.cost x) (pos 1)
      then raise (message "item %d: resource cost must be positive")
      else run_admitted o work x

  -- The jobs in the order of the schedule; a result is written at its item's index.
  unfoldable pub run_jobs :
      MapOptions T S → (T → Exec S R) → List (Job T) → List (Option R) → Exec S (List (Option R))
  unfolding run_job
  run_jobs o work [] results = pure results
  run_jobs o work ((i, x) ∷ jobs) results =
      run_job o work x >>= λ r. run_jobs o work jobs (set results i (some r))

  abbrev pub map_work :
      (List (Job T) → List (Job T))
      → MapOptions T S
      → List T
      → (T → Exec S R)
      → Exec S (List (Option R))
  map_work schedule o [] work = pure []
  map_work schedule o (x ∷ items) work =
      run_jobs o work (schedule (numbered 0 (x ∷ items))) (replicate (length (x ∷ items)) none)

  -- Map, whose work is nil or a function
  unfoldable pub map_items :
      (List (Job T) → List (Job T))
      → MapOptions T S
      → List T
      → Option (T → Exec S R)
      → Exec S (List (Option R))
  unfolding run_jobs
  map_items schedule o items none = raise (message "work function is required")
  map_items schedule o items (some work) = map_work schedule o items work
