-- ===== src/Flow/Bulk/Batches.antt =====
-- The jobs of a bulk step's batches: flow/bulk.go.
use flowkit.Base.{
  ◌≡◌, refl, sym, ap, subst, ◌∙◌, ℕ, suc, ◌≤◌, Option, none, some, List, [], ◌∷◌, ◌++◌, length,
  Bool, true, false, if◌then◌else◌, set, All, arith, inl, inr,
}
use mathlib.Core.List.{Memᴰ, Permᴰ, append_assoc}
use flowkit.Base.Float.{FloatOps}
use flowkit.Base.Placed.{
  numbered, All-Permᴰ, Memᴰ-Permᴰ, Memᴰ-append_left, Memᴰ-append_right, Memᴰ-append_cases,
}
use flowkit.Errors.{Error, message, wrapped, Result, ok, err}
use flowkit.Exec.{lift}
use flowkit.Execution.Group.{batches_of, make_batches, room_fits}
use flowkit.Execution.Group.Positions.{flat, batches_of-Batched}
use flowkit.Execution.Map.{Job, MapOptions, annotated, run_job, run_jobs, map_items}
use flowkit.Flow.Admit.{Gatekeeper}
use flowkit.Flow.Batched.{OnResult}
use flowkit.Flow.Runner.{StoreOps, Step}
use flowkit.Flow.Bulk.{BulkState, KeyGroup, Ledger, BulkAct}
use flowkit.Flow.Bulk.Engine.{batch_indexes, work_batch, work_batches}
use flowkit.Flow.Bulk.Writes.{Reached, Leads, bind-Leads, pure-Leads, raise-Leads, Due, Due-fewer}
use flowkit.Flow.Bulk.Kept.{Answers, On}
use flowkit.Flow.Bulk.Filled.{Fine, work_batch-Leads}

All-split : {A : Type 0} (P : A → Type 0) (xs ys : List A) → All P (xs ++ ys) → All P xs × All P ys
All-split P [] ys h = (tt, h)
All-split P (x ∷ xs) ys h = let (a, b) = All-split P xs ys h.1 in ((h.0, a), b)

module _ {V : Type 0} where
  -- The indexes of the batches of some jobs.
  abbrev jobs_indexes : List (Job (List (KeyGroup V))) → List ℕ
  jobs_indexes [] = []
  jobs_indexes ((i, groups) ∷ jobs) = batch_indexes groups ++ jobs_indexes jobs

  pub batch_indexes-append :
      (gs hs : List (KeyGroup V)) → batch_indexes (gs ++ hs) ≡ batch_indexes gs ++ batch_indexes hs
  unfolding batch_indexes
  batch_indexes-append [] hs = refl
  batch_indexes-append (g ∷ gs) hs =
      ap (λ t. g.indexes ++ t) (batch_indexes-append gs hs)
      ∙ sym (append_assoc g.indexes (batch_indexes gs) (batch_indexes hs))

  numbered_indexes :
      (k : ℕ) (bs : List (List (KeyGroup V)))
      → jobs_indexes (numbered k bs) ≡ batch_indexes (flat bs)
  unfolding flat batch_indexes
  numbered_indexes k [] = refl
  numbered_indexes k (b ∷ bs) =
      ap (λ t. batch_indexes b ++ t) (numbered_indexes (suc k) bs)
      ∙ sym (batch_indexes-append b (flat bs))

  in_job :
      (n : ℕ) (jobs : List (Job (List (KeyGroup V))))
      → Memᴰ n (jobs_indexes jobs)
      → (j : Job (List (KeyGroup V))) × Memᴰ j jobs × Memᴰ n (batch_indexes j.1)
  in_job n [] h = elim h [ ]
  in_job n ((i, groups) ∷ jobs) h =
      elim (Memᴰ-append_cases (batch_indexes groups) (jobs_indexes jobs) h) [
        | inl m ↦ ((i, groups), Memᴰ.head refl, m)
        | inr m ↦ let (j, there, at) = in_job n jobs m in (j, Memᴰ.tail there, at)
      ]

  of_job :
      (n : ℕ) (j : Job (List (KeyGroup V))) (jobs : List (Job (List (KeyGroup V))))
      → Memᴰ j jobs
      → Memᴰ n (batch_indexes j.1)
      → Memᴰ n (jobs_indexes jobs)
  of_job n j [] m h = elim m [ ]
  of_job n j ((i, groups) ∷ jobs) (Memᴰ.head e) h =
      Memᴰ-append_left (batch_indexes groups) (jobs_indexes jobs)
        (subst (λ (x : Job (List (KeyGroup V))). Memᴰ n (batch_indexes x.1)) e h)
  of_job n j ((i, groups) ∷ jobs) (Memᴰ.tail m) h =
      Memᴰ-append_right (batch_indexes groups) (jobs_indexes jobs) (of_job n j jobs m h)

  -- The jobs have the same indexes in any order.
  permuted :
      (n : ℕ) (js ks : List (Job (List (KeyGroup V))))
      → Permᴰ js ks
      → Memᴰ n (jobs_indexes ks)
      → Memᴰ n (jobs_indexes js)
  permuted n js ks p h = let (j, there, at) = in_job n ks h in of_job n j js (Memᴰ-Permᴰ p there) at

module _ {F V W : Type 0} (fl : FloatOps F) (gk : Gatekeeper F W) (st : Step F V V W)
    (do_bulk : List V → W → (List V × Option Error) × W) (ledger : Ledger W)
    (on_result : OnResult V W) (R : V → V → Type 0) (law : Answers R do_bulk)
    (Right : ℕ → V → Type 0) (total : ℕ) where
  abbrev pub IsFine : KeyGroup V → Type 0
  IsFine = Fine fl gk st do_bulk ledger on_result R law Right total

  abbrev no_limit : MapOptions (List (KeyGroup V)) (BulkState F V W)
  no_limit = record { limiter = none; cost = none }

  run_job-Leads :
      (P : BulkState F V W → Type 0) (Q : BulkState F V W → Type 0)
      (work : List (KeyGroup V) → BulkAct F V W (Unit {0})) (groups : List (KeyGroup V))
      → Leads P (λ u. Q) (work groups)
      → Leads P (λ u. Q) (run_job no_limit work groups)
  unfolding run_job
  run_job-Leads P Q work groups h = record { at = λ s p. kept (work groups s) (h.at s p) }
    where
      kept :
          (r : Result (Unit {0}) × BulkState F V W)
          → Reached (λ u. Q) r
          → Reached (λ u. Q) (annotated (wrapped "item %d: %w") r)
      kept (ok u, s) q = q
      kept (err e, s) q = tt

  run_jobs-Leads :
      (cache : Option (StoreOps V W)) (jobs : List (Job (List (KeyGroup V))))
      (results : List (Option (Unit {0})))
      → All (λ j. All IsFine j.1) jobs
      → Leads
          (On (Due Right total (λ n. Memᴰ n (jobs_indexes jobs))))
          (λ out. On (Due Right total (λ n. Memᴰ n [])))
          (run_jobs no_limit (work_batch fl gk st do_bulk ledger on_result cache) jobs results)
  unfolding run_jobs
  run_jobs-Leads cache [] results fine = pure-Leads _ _ results (λ s h. h)
  run_jobs-Leads cache ((i, groups) ∷ jobs) results fine =
      bind-Leads _ (λ u. On (Due Right total (λ n. Memᴰ n (jobs_indexes jobs)))) _ _ _
        (run_job-Leads _ (On (Due Right total (λ n. Memᴰ n (jobs_indexes jobs))))
          (work_batch fl gk st do_bulk ledger on_result cache) groups
          (record {
            at = λ s h.
                (work_batch-Leads fl gk st do_bulk ledger on_result R law Right total
                    (λ n. Memᴰ n (jobs_indexes jobs)) cache groups fine.0).at
                  s
                  (Due-fewer Right total _ _ s.results
                    (λ n m. Memᴰ-append_cases (batch_indexes groups) (jobs_indexes jobs) m) h);
          }))
        (λ u. run_jobs-Leads cache jobs (set results i (some u)) fine.1)

  numbered-Fine :
      (k : ℕ) (bs : List (List (KeyGroup V)))
      → All IsFine (flat bs)
      → All (λ (j : Job (List (KeyGroup V))). All IsFine j.1) (numbered k bs)
  unfolding flat
  numbered-Fine k [] h = tt
  numbered-Fine k (b ∷ bs) h =
      let (first, rest) = All-split IsFine b (flat bs) h in (first, numbered-Fine (suc k) bs rest)

  -- The indexes of some groups are owed.
  abbrev Lacks : List (KeyGroup V) → BulkState F V W → Type 0
  Lacks groups s = Due Right total (λ n. Memᴰ n (batch_indexes groups)) s.results

  made_batches :
      (size : ℕ) (misses : List (KeyGroup V)) (b : Bool)
      → 1 ≤ size
      → Leads
          (Lacks misses)
          (λ bs s. (flat bs ≡ misses) × Lacks misses s)
          (lift (
            if b
            then ok (batches_of (length misses) size misses)
            else err (message "makeslice: cap out of range")))
  made_batches size misses true positive =
      pure-Leads _ _ (batches_of (length misses) size misses)
        (λ s h. ((batches_of-Batched (length misses) size misses positive (omega arith)).whole, h))
  made_batches size misses false positive = raise-Leads _ _ (message "makeslice: cap out of range")

  -- Whatever the order in which the batches are taken, they leave no index of the misses without its
  -- result.
  pub work_batches-Leads :
      (schedule : List (Job (List (KeyGroup V))) → List (Job (List (KeyGroup V))))
      (cache : Option (StoreOps V W)) (size : ℕ) (misses : List (KeyGroup V))
      → ((jobs : List (Job (List (KeyGroup V)))) → Permᴰ (schedule jobs) jobs)
      → 1 ≤ size
      → All IsFine misses
      → Leads
          (Lacks misses)
          (λ u. On (Due Right total (λ n. Memᴰ n [])))
          (work_batches fl gk st do_bulk ledger on_result schedule cache size misses)
  unfolding work_batches map_items flat make_batches
  work_batches-Leads schedule cache size misses perm positive fine =
      bind-Leads _ (λ bs s. (flat bs ≡ misses) × Lacks misses s) _ _ _
        (made_batches size misses (room_fits (length misses) size) positive)
        (λ bs. record {
          at = λ s h.
              (bind-Leads _ (λ out. On (Due Right total (λ n. Memᴰ n []))) _ _ _ (by_batches bs h.0)
                  (λ out. pure-Leads _ _ tt (λ s h. h))).at
                s h.1;
        })
    where
      by_batches :
          (bs : List (List (KeyGroup V)))
          → flat bs ≡ misses
          → Leads
              (Lacks misses)
              (λ out. On (Due Right total (λ n. Memᴰ n [])))
              (map_items schedule
                (no_limit)
                bs
                (some (work_batch fl gk st do_bulk ledger on_result cache)))
      by_batches [] e = pure-Leads _ _ [] (λ s h.
          subst (λ gs. Due Right total (λ n. Memᴰ n (batch_indexes gs)) s.results) (sym e) h)
      by_batches (b ∷ bs) e = record {
        at = λ s h.
            (run_jobs-Leads cache (schedule (numbered 0 (b ∷ bs))) _ (
                All-Permᴰ (λ (j : Job (List (KeyGroup V))). All IsFine j.1)
                  (perm (numbered 0 (b ∷ bs)))
                  (numbered-Fine 0 (b ∷ bs) (subst (All IsFine) (sym e) fine)))).at
              s
              (Due-fewer Right total _ _ s.results
                (λ n m.
                  permuted n (schedule (numbered 0 (b ∷ bs))) (numbered 0 (b ∷ bs))
                    (perm (numbered 0 (b ∷ bs)))
                    (subst (λ t. Memᴰ n t)
                      (ap batch_indexes (sym e) ∙ sym (numbered_indexes 0 (b ∷ bs))) m))
                h);
      }
