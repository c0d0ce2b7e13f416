-- ===== src/Flow/Bulk/Loads.antt =====
-- The loads of a bulk step: flow/bulk.go.
use flowkit.Base.{
  ◌≡◌, sym, subst, ℕ, ◌+◌, Option, none, some, List, [], ◌∷◌, ◌++◌, All, All-append, ◌⊎◌, inl, inr,
}
use mathlib.Core.List.{Memᴰ, append-nil}
use flowkit.Base.Float.{FloatOps}
use flowkit.Base.Placed.{Memᴰ-append_left, Memᴰ-append_right}
use flowkit.Errors.{Error, Result, ok, err}
use flowkit.Execution.Outcome.{CacheOutcome}
use flowkit.Flow.Admit.{Gatekeeper}
use flowkit.Flow.Batched.{OnResult}
use flowkit.Flow.Report.{ItemResult}
use flowkit.Flow.Runner.{StoreOps, Step}
use flowkit.Flow.Bulk.{
  BulkState, KeyGroup, Ledger, valued, hit_indexes, read, load_groups, call, called,
}
use flowkit.Flow.Bulk.Engine.{batch_indexes}
use flowkit.Flow.Bulk.Writes.{
  Reached, Leads, bind-Leads, seq-Leads, pure-Leads, raise-Leads, Due, Due-fewer, Due-none,
  Due-split, Good,
}
use flowkit.Flow.Bulk.Kept.{Answers, On, count-Steady, emit-Steady, notify-Steady}
use flowkit.Flow.Bulk.Filled.{Owes, put_result-Leads}
use flowkit.Flow.Bulk.Batches.{IsFine, batch_indexes-append}

module _ {F V W : Type 0} (fl : FloatOps F) (gk : Gatekeeper F W) (st : Step F V V W)
    (do_bulk : List V → W → (List V × Option Error) × W) (ledger : Ledger W)
    (on_result : OnResult V W) (R : V → V → Type 0) (law : Answers R do_bulk)
    (Right : ℕ → V → Type 0) (total : ℕ) where
  abbrev Sound : KeyGroup V → Type 0
  Sound = IsFine fl gk st do_bulk ledger on_result R law Right total

  valued-Good :
      {i : ℕ} (v : V) (outcome : CacheOutcome) → Right i v → Good Right i (valued v outcome)
  valued-Good {i} v outcome h = record { shape = tt; right = λ o e. subst (Right i) (some_is e) h }
    where
      some_is : {a b : V} → some a ≡ some b → a ≡ b
      some_is e = cc

  hit_indexes-Leads :
      (owed : ℕ → Type 0) (v : V) (outcome : CacheOutcome) (is : List ℕ)
      → All (λ i. Right i v) is
      → Leads
          (On (Owes Right total is owed))
          (λ u. On (Due Right total owed))
          (hit_indexes fl gk st do_bulk ledger on_result v outcome is)
  unfolding hit_indexes
  hit_indexes-Leads owed v outcome [] right =
      pure-Leads _ _ tt (λ s h. Due-none Right total owed s.results h)
  hit_indexes-Leads owed v outcome (i ∷ is) right =
      seq-Leads _ (On (Owes Right total (i ∷ is) owed)) _ _ _
        (count-Steady _ (λ c. record c { hits = c.hits + 1 }))
        (seq-Leads _ (On (Owes Right total is owed)) _ _ _
          (put_result-Leads Right total owed i is (valued v outcome)
            (valued-Good v outcome right.0))
          (seq-Leads _ (On (Owes Right total is owed)) _ _ _ (emit-Steady _ ledger _) (
            seq-Leads _ (On (Owes Right total is owed)) _ _ _
              (notify-Steady _ on_result i v outcome)
              (hit_indexes-Leads owed v outcome is right.1))))

  -- What is loaded is right at a group's indexes.
  abbrev pub Loaded : KeyGroup V → Result (Option V) → Type 0
  Loaded g (err e) = Unit {0}
  Loaded g (ok none) = Unit {0}
  Loaded g (ok (some v)) = All (λ i. Right i v) g.indexes

  -- What any load of a group's digest finds.
  abbrev pub IsKept : StoreOps V W → KeyGroup V → Type 0
  IsKept ops g = (w : W) → Loaded g (ops.load g.digest w).0

  read-Leads :
      (owed : ℕ → Type 0) (g : KeyGroup V) (r : Result (Option V))
      → Sound g
      → Loaded g r
      → Leads
          (On (Owes Right total g.indexes owed))
          (λ missed s. On (Owes Right total (batch_indexes missed) owed) s × All Sound missed)
          (read fl gk st do_bulk ledger on_result g r)
  unfolding batch_indexes
  read-Leads owed g (err e) fine right = raise-Leads _ _ _
  read-Leads owed g (ok none) fine right =
      seq-Leads _ (On (Owes Right total g.indexes owed)) _ _ _ (count-Steady _ _) (
        pure-Leads _ _ (g ∷ []) (λ s h. (
          subst (λ is. Owes Right total is owed s.results) (sym (append-nil g.indexes)) h,
          (fine, tt),
        )))
  read-Leads owed g (ok (some v)) fine right =
      seq-Leads _ (On (Due Right total owed)) _ _ _ (hit_indexes-Leads owed v _ g.indexes right)
        (pure-Leads _ _ [] (λ s h. (Due-fewer Right total owed _ s.results (λ n o. inr o) h, tt)))

  -- A load, with what it has found.
  load-Loaded :
      (H : List (ItemResult V) → Type 0) (ops : StoreOps V W) (g : KeyGroup V)
      → IsKept ops g
      → Leads {S = BulkState F V W}
          (On H)
          (λ found s. On H s × Loaded g found)
          (call (ops.load g.digest))
  load-Loaded H ops g kept = record {
    at = λ s h. found_by s (ops.load g.digest s.pool.world) (kept s.pool.world) h;
  }
    where
      found_by :
          (s : BulkState F V W) (x : Result (Option V) × W)
          → Loaded g x.0
          → H s.results
          → Reached (λ found s. On H s × Loaded g found) (called s x)
      found_by s (found, w) l h = (h, l)

  -- What the loads have not settled, the misses have.
  pub load_groups-Leads :
      (ops : StoreOps V W) (groups : List (KeyGroup V)) (owed : ℕ → Type 0)
      → All Sound groups
      → All (IsKept ops) groups
      → Leads
          (On (Owes Right total (batch_indexes groups) owed))
          (λ misses s. On (Owes Right total (batch_indexes misses) owed) s × All Sound misses)
          (load_groups fl gk st do_bulk ledger on_result ops groups)
  unfolding load_groups batch_indexes
  load_groups-Leads ops [] owed fine kept = pure-Leads _ _ [] (λ s h. (h, tt))
  load_groups-Leads ops (g ∷ groups) owed fine kept =
      bind-Leads _
        (λ found s.
          On (Owes Right total (g.indexes ++ batch_indexes groups) owed) s × Loaded g found)
        _ _ _ (load-Loaded _ ops g kept.0)
        (λ found.
          bind-Leads _
            (λ missed s. On (Owes Right total (batch_indexes missed) later) s × All Sound missed) _
            _ _
            (record {
              at = λ s h.
                  (read-Leads later g found fine.0 h.1).at s
                    (Due-split Right total owed g.indexes (batch_indexes groups) s.results h.0);
            })
            (λ missed. record {
              at = λ s h.
                  (bind-Leads _
                      (λ rest s.
                        On (Owes Right total (batch_indexes rest) (still missed)) s
                        × All Sound rest)
                      (λ x t. On (Owes Right total (batch_indexes x) owed) t × All Sound x) _ _
                      (load_groups-Leads ops groups (still missed) fine.1 kept.1)
                      (λ rest. pure-Leads _ _ (missed ++ rest) (λ s k. (
                        Due-fewer Right total _ _ s.results (λ n m. gathered missed rest n m) k.0,
                        All-append Sound missed rest h.1 k.1,
                      )))).at
                    s (Due-fewer Right total _ _ s.results (λ n m. turned missed n m) h.0);
            }))
    where
      later : ℕ → Type 0
      later n = Memᴰ n (batch_indexes groups) ⊎ owed n

      still : List (KeyGroup V) → ℕ → Type 0
      still missed n = Memᴰ n (batch_indexes missed) ⊎ owed n

      turned :
          (missed : List (KeyGroup V)) (n : ℕ)
          → Memᴰ n (batch_indexes missed) ⊎ later n
          → Memᴰ n (batch_indexes groups) ⊎ still missed n
      turned missed n (inl m) = inr (inl m)
      turned missed n (inr (inl m)) = inl m
      turned missed n (inr (inr o)) = inr (inr o)

      gathered :
          (missed rest : List (KeyGroup V)) (n : ℕ)
          → Memᴰ n (batch_indexes rest) ⊎ still missed n
          → Memᴰ n (batch_indexes (missed ++ rest)) ⊎ owed n
      gathered missed rest n (inr (inr o)) = inr o
      gathered missed rest n (inl m) = inl (
          subst (λ t. Memᴰ n t) (sym (batch_indexes-append missed rest))
            (Memᴰ-append_right (batch_indexes missed) (batch_indexes rest) m))
      gathered missed rest n (inr (inl m)) = inl (
          subst (λ t. Memᴰ n t) (sym (batch_indexes-append missed rest))
            (Memᴰ-append_left (batch_indexes missed) (batch_indexes rest) m))
