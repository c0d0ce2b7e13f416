-- ===== src/Flow/Bulk/Filled.antt =====
-- A batch of a bulk step settles the results of all its indexes: flow/bulk.go.
use flowkit.Base.{
  ◌≡◌, refl, subst, ℕ, ◌+◌, Bool, true, false, ◌||◌, Option, none, some, List, [], ◌∷◌, ◌++◌, map,
  ◌⊎◌, if◌then◌else◌, All, All-map,
}
use mathlib.Core.List.{Memᴰ}
use flowkit.Base.Float.{FloatOps}
use flowkit.Errors.{Error, wrapped}
use flowkit.Exec.{raise}
use flowkit.Execution.Outcome.{CacheOutcome, no_outcome, stored_state}
use flowkit.Flow.Admit.{Gatekeeper}
use flowkit.Flow.Batched.{OnResult}
use flowkit.Flow.Classify.{ErrorClass}
use flowkit.Flow.Report.{ItemResult, EventType, done_event, stored_event}
use flowkit.Flow.Runner.{StoreOps, Step}
use flowkit.Flow.Bulk.{
  BulkState, KeyGroup, Ledger, Ending, worked, gave_up, put_result, valued, result_meters,
}
use flowkit.Flow.Bulk.Engine.{
  batch_indexes, set_aside, count_aside, file_failed, is_fatal, is_fail_fast, is_skip, fail_batch,
  put_all, tell_all, commit, commit_groups, end_batch, work_batch,
}
use flowkit.Flow.Bulk.Writes.{
  Leads, bind-Leads, seq-Leads, pure-Leads, raise-Leads, fail_with-Leads, Due, Due-put, Due-none,
  Due-split, Good, blank-Good,
}
use flowkit.Flow.Bulk.Kept.{
  On, Steady, Pairs, Answers, count-Steady, call-Steady, emit-Steady, notify-Steady, Fits, Ends,
  meter_all-Steady, bulk_attempts-Leads,
}

module _ {V : Type 0} (Right : ℕ → V → Type 0) (total : ℕ) where
  -- The indexes of a list are owed, and what else is.
  abbrev pub Owes : List ℕ → (ℕ → Type 0) → List (ItemResult V) → Type 0
  Owes is owed = Due Right total (λ n. Memᴰ n is ⊎ owed n)

module _ {F V W : Type 0} (Right : ℕ → V → Type 0) (total : ℕ) where
  pub put_result-Leads :
      (owed : ℕ → Type 0) (i : ℕ) (is : List ℕ) (r : ItemResult V)
      → Good Right i r
      → Leads {S = BulkState F V W}
          (On (Owes Right total (i ∷ is) owed))
          (λ u. On (Owes Right total is owed))
          (put_result i r)
  put_result-Leads owed i is r good = record {
    at = λ s h. Due-put Right total owed i is r s.results good h;
  }

module _ {F V W : Type 0} (fl : FloatOps F) (gk : Gatekeeper F W) (st : Step F V V W)
    (do_bulk : List V → W → (List V × Option Error) × W) (ledger : Ledger W)
    (on_result : OnResult V W) (R : V → V → Type 0) (law : Answers R do_bulk)
    (Right : ℕ → V → Type 0) (total : ℕ) where
  put_all-Leads :
      (owed : ℕ → Type 0) (r : ItemResult V) (is : List ℕ)
      → All (λ i. Good Right i r) is
      → Leads
          (On (Owes Right total is owed))
          (λ u. On (Due Right total owed))
          (put_all fl gk st do_bulk ledger on_result r is)
  unfolding put_all
  put_all-Leads owed r [] good = pure-Leads _ _ tt (λ s h. Due-none Right total owed s.results h)
  put_all-Leads owed r (i ∷ is) good =
      seq-Leads _ (On (Owes Right total is owed)) _ _ _
        (put_result-Leads Right total owed i is r good.0) (put_all-Leads owed r is good.1)

  aside-Good :
      (skips : Bool) (i : ℕ) (e : Error) (class : ErrorClass) (attempts : ℕ)
      → Good Right i (set_aside fl gk st do_bulk ledger on_result skips i e class attempts)
  aside-Good true i e class attempts = blank-Good Right i _ tt refl
  aside-Good false i e class attempts = blank-Good Right i _ refl refl

  file_failed-Leads :
      (owed : ℕ → Type 0) (skips : Bool) (e : Error) (class : ErrorClass) (attempts : ℕ)
      (is : List ℕ)
      → Leads
          (On (Owes Right total is owed))
          (λ u. On (Due Right total owed))
          (file_failed fl gk st do_bulk ledger on_result skips e class attempts is)
  unfolding file_failed
  file_failed-Leads owed skips e class attempts [] =
      pure-Leads _ _ tt (λ s h. Due-none Right total owed s.results h)
  file_failed-Leads owed skips e class attempts (i ∷ is) =
      seq-Leads _ (On (Owes Right total (i ∷ is) owed)) _ _ _
        (count-Steady _ (count_aside fl gk st do_bulk ledger on_result skips))
        (seq-Leads _ (On (Owes Right total is owed)) _ _ _
          (put_result-Leads Right total owed i is _ (aside-Good skips i e class attempts))
          (seq-Leads _ (On (Owes Right total is owed)) _ _ _ (emit-Steady _ ledger _)
            (file_failed-Leads owed skips e class attempts is)))

  fail_batch-Leads :
      (owed : ℕ → Type 0) (e : Error) (class : ErrorClass) (attempts : ℕ) (is : List ℕ)
      → Leads
          (On (Owes Right total is owed))
          (λ u. On (Due Right total owed))
          (fail_batch fl gk st do_bulk ledger on_result e class attempts is)
  unfolding fail_batch
  fail_batch-Leads owed e class attempts is = by_mode (
      is_fatal fl gk st do_bulk ledger on_result class
      || is_fail_fast fl gk st do_bulk ledger on_result st.policy.on_error)
    where
      skips : Bool
      skips = is_skip fl gk st do_bulk ledger on_result st.policy.on_error

      by_mode :
          (b : Bool)
          → Leads
              (On (Owes Right total is owed))
              (λ u. On (Due Right total owed))
              (if b
                then raise (wrapped "step %q batch [%s]" e)
                else file_failed fl gk st do_bulk ledger on_result skips e class attempts is)
      by_mode true = raise-Leads _ _ _
      by_mode false = file_failed-Leads owed skips e class attempts is

  tell_all-Steady :
      (H : List (ItemResult V) → Type 0) (type : EventType) (v : V) (outcome : CacheOutcome)
      (is : List ℕ)
      → Steady H (tell_all fl gk st do_bulk ledger on_result type v outcome is)
  unfolding tell_all
  tell_all-Steady H type v outcome [] = pure-Leads (On H) _ tt (λ s h. h)
  tell_all-Steady H type v outcome (i ∷ is) = seq-Leads _ (On H) _ _ _ (emit-Steady H ledger _) (
      seq-Leads _ (On H) _ _ _ (notify-Steady H on_result i v outcome)
        (tell_all-Steady H type v outcome is))

  commit-Steady :
      (H : List (ItemResult V) → Type 0) (cache : Option (StoreOps V W)) (g : KeyGroup V) (v : V)
      → Steady H (commit fl gk st do_bulk ledger on_result cache g v)
  unfolding commit
  commit-Steady H none g v = pure-Leads (On H) _ (done_event, no_outcome) (λ s h. h)
  commit-Steady H (some ops) g v =
      bind-Leads _ (λ e. On H) _ _ _ (call-Steady H (ops.store g.digest v))
        (λ e.
          seq-Leads _ (On H) _ _ _
            (fail_with-Leads (On H) (wrapped "step %q item %d: store cache entry") e)
            (seq-Leads _ (On H) _ _ _ (count-Steady H (λ c. record c { stored = c.stored + 1 })) (
              pure-Leads (On H) _
                (stored_event, record { key_digest = g.digest; state = stored_state }) (λ s h. h))))

  valued-Good :
      (v : V) (outcome : CacheOutcome) (is : List ℕ)
      → All (λ i. Right i v) is
      → All (λ i. Good Right i (valued v outcome)) is
  valued-Good v outcome is h =
      All-map (λ i. Right i v) (λ i. Good Right i (valued v outcome))
        (λ i r. record { shape = tt; right = λ o e. subst (Right i) (some_is e) r }) is h
    where
      some_is : {a b : V} → some a ≡ some b → a ≡ b
      some_is e = cc

  -- Each group has a value that is right at its indexes.
  abbrev Answered : List (KeyGroup V) → List V → Type 0
  Answered [] values = Unit {0}
  Answered (g ∷ groups) [] = ⊥
  Answered (g ∷ groups) (v ∷ values) = All (λ i. Right i v) g.indexes × Answered groups values

  abbrev Ended : List (KeyGroup V) → Ending V → Type 0
  Ended groups (worked values) = Answered groups values
  Ended groups (gave_up e class attempts) = Unit {0}

  -- What is right for a group's item is right at its indexes.
  abbrev pub Fine : KeyGroup V → Type 0
  Fine g = All (λ i. (o : V) → R g.item o → Right i o) g.indexes

  paired-Answered :
      (groups : List (KeyGroup V)) (values : List V)
      → All Fine groups
      → Pairs R (map (λ g. g.item) groups) values
      → Answered groups values
  paired-Answered [] values h p = tt
  paired-Answered (g ∷ groups) [] h p = absurd p
  paired-Answered (g ∷ groups) (v ∷ values) h p = (
    All-map (λ i. (o : V) → R g.item o → Right i o) (λ i. Right i v) (λ i f. f v p.0) g.indexes h.0,
    paired-Answered groups values h.1 p.1,
  )

  Fits-Ended :
      (groups : List (KeyGroup V)) (e : Ending V)
      → All Fine groups
      → Fits R (map (λ g. g.item) groups) e
      → Ended groups e
  Fits-Ended groups (worked values) h p = paired-Answered groups values h p
  Fits-Ended groups (gave_up e class attempts) h p = tt

  commit_groups-Leads :
      (owed : ℕ → Type 0) (cache : Option (StoreOps V W)) (groups : List (KeyGroup V))
      (values : List V)
      → Answered groups values
      → Leads
          (On (Owes Right total (batch_indexes groups) owed))
          (λ u. On (Due Right total owed))
          (commit_groups fl gk st do_bulk ledger on_result cache groups values)
  unfolding commit_groups batch_indexes
  commit_groups-Leads owed cache [] values e =
      pure-Leads _ _ tt (λ s h. Due-none Right total owed s.results h)
  commit_groups-Leads owed cache (g ∷ groups) [] e = absurd e
  commit_groups-Leads owed cache (g ∷ groups) (v ∷ values) e =
      bind-Leads _ (λ done. On (Owes Right total (g.indexes ++ batch_indexes groups) owed)) _ _ _
        (commit-Steady _ cache g v)
        (λ done.
          seq-Leads _ (On (Owes Right total (batch_indexes groups) owed)) _ _ _
            (record {
              at = λ s h.
                  (put_all-Leads (λ n. Memᴰ n (batch_indexes groups) ⊎ owed n) (valued v done.1)
                      g.indexes (valued-Good v done.1 g.indexes e.0)).at
                    s (Due-split Right total owed g.indexes (batch_indexes groups) s.results h);
            })
            (seq-Leads _ (On (Owes Right total (batch_indexes groups) owed)) _ _ _
              (tell_all-Steady _ done.0 v done.1 g.indexes)
              (commit_groups-Leads owed cache groups values e.1)))

  end_batch-Leads :
      (owed : ℕ → Type 0) (cache : Option (StoreOps V W)) (groups : List (KeyGroup V))
      (e : Ending V)
      → Ended groups e
      → Leads
          (On (Owes Right total (batch_indexes groups) owed))
          (λ u. On (Due Right total owed))
          (end_batch fl gk st do_bulk ledger on_result cache groups e)
  unfolding end_batch
  end_batch-Leads owed cache groups (gave_up e class attempts) h =
      fail_batch-Leads owed e class attempts (batch_indexes groups)
  end_batch-Leads owed cache groups (worked values) h =
      seq-Leads _ (On (Owes Right total (batch_indexes groups) owed)) _ _ _
        (meter_all-Steady fl gk st do_bulk ledger on_result R law _
          (result_meters fl gk st do_bulk ledger on_result values))
        (commit_groups-Leads owed cache groups values h)

  -- A batch leaves a result at each of its indexes, whether its call has worked or has failed.
  pub work_batch-Leads :
      (owed : ℕ → Type 0) (cache : Option (StoreOps V W)) (groups : List (KeyGroup V))
      → All Fine groups
      → Leads
          (On (Owes Right total (batch_indexes groups) owed))
          (λ u. On (Due Right total owed))
          (work_batch fl gk st do_bulk ledger on_result cache groups)
  unfolding work_batch
  work_batch-Leads owed cache groups fine =
      bind-Leads _
        (Ends fl gk st do_bulk ledger on_result R law (Owes Right total (batch_indexes groups) owed)
          (map (λ g. g.item) groups))
        _ _ _
        (bulk_attempts-Leads fl gk st do_bulk ledger on_result R law
          (Owes Right total (batch_indexes groups) owed) _ 1 (map (λ g. g.item) groups)
          (batch_indexes groups) _)
        (λ e. record {
          at = λ s h. (end_batch-Leads owed cache groups e (Fits-Ended groups e fine h.1)).at s h.0;
        })
