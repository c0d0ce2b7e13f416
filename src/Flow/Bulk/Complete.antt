-- ===== src/Flow/Bulk/Complete.antt =====
-- A bulk step has a result for each of its items: flow/bulk.go.
use flowkit.Base.{
  ◌≡◌, refl, sym, ap, subst, ◌∙◌, get_elem?, All, All-map, ℕ, suc, ◌+◌, ◌<◌, ◌≤◌, String, true,
  false, Option, none, some, List, [], ◌∷◌, length, length-replicate, Bool-cases, arith, ◌⊎◌, inl,
  inr, if◌then◌else◌, str_eq,
}
use mathlib.Core.List.{Memᴰ, Permᴰ}
use flowkit.Base.Int.{ℤ, pos, negsuc, pos_part, ltb_ℤ}
use flowkit.Base.Float.{FloatOps}
use flowkit.Errors.{Error, message, Result, ok, err, >>=-eq-ok, ◌>>=◌ as ◌≫◌}
use flowkit.Exec.{◌>>=◌, ◌>>◌, lift}
use flowkit.Exec.Yields.{After}
use flowkit.Execution.CachedMap.Groups.{all_indexes, IsAt, IsGroup}
use flowkit.Execution.Group.{group_items}
use flowkit.Execution.Map.{Job}
use flowkit.Flow.Admit.{Gatekeeper}
use flowkit.Base.Placed.{inside}
use flowkit.Flow.Batched.{OnResult, empty_result}
use flowkit.Flow.Observe.{Scene}
use flowkit.Flow.Report.{ItemResult}
use flowkit.Flow.Run.Aligned.{Aligned, Gives}
use flowkit.Flow.Runner.{StoreOps, Step}
use flowkit.Flow.Bulk.{BulkState, KeyGroup, Ledger, count}
use flowkit.Flow.Bulk.Engine.{
  batch_indexes, single_groups, bulk_items, BulkSpec, check_bulk, bulk_state, bulk_ended, cache_of,
  both_meters, run_bulk,
}
use flowkit.Flow.Bulk.Writes.{
  Good, Reached, Leads, bind-Leads, seq-Leads, pure-Leads, raise-Leads, Due, Due-fewer,
}
use flowkit.Flow.Bulk.Kept.{Answers, On, count-Steady}
use flowkit.Flow.Bulk.Filled.{Owes}
use flowkit.Flow.Bulk.Batches.{IsFine, work_batches-Leads}
use flowkit.Flow.Bulk.Loads.{IsKept, Loaded, load_groups-Leads}
use flowkit.Flow.Bulk.Keyed.{same_indexes, grouped_new, single_cover, grouped-IsGroup}

module _ {V : Type 0} where
  -- Nothing has its result yet.
  abbrev Blank : ℕ → List (ItemResult V) → Type 0
  Blank total results = length results ≡ total

-- What the caller's parts promise of a relation of the items with their values: a bulk call answers
-- each item at its place, a load of an item's digest is right for it, and what is right for an item is
-- right for any other of the same digest.
pub record Promises {F V W : Type 0} (R : V → V → Type 0) (fl : FloatOps F) (spec : BulkSpec V W)
    (s : Step F V V W) : Type 0 where
  pub works : (f : List V → W → (List V × Option Error) × W) → spec.do_bulk ≡ some f → Answers R f
  pub loads :
      (ops : StoreOps V W) (d : String) (w : W) (x v : V)
      → cache_of fl s ≡ some ops
      → s.key_digest x ≡ ok d
      → (ops.load d w).0 ≡ ok (some v)
      → R x v
  pub same :
      (x y v : V) (d : String) → s.key_digest x ≡ ok d → s.key_digest y ≡ ok d → R x v → R y v

-- Each item has its result at its place, and its value, where it has one, is right for it.
pub record Answered {V : Type 0} (R : V → V → Type 0) (items : List V) (rs : List (ItemResult V))
    : Type 0 where
  pub aligned : Aligned (length items) rs
  pub right :
      (k : ℕ) (x : V) (r : ItemResult V) (v : V)
      → get_elem? items k ≡ some x
      → get_elem? rs k ≡ some r
      → r.value ≡ some v
      → R x v

module _ {V : Type 0} (R : V → V → Type 0) (items : List V) where
  -- A value is right at an index where it is right for the item of the index.
  abbrev RightAt : ℕ → V → Type 0
  RightAt n v = (x : V) → get_elem? items n ≡ some x → R x v

  owed_first :
      (groups : List (KeyGroup V)) (results : List (ItemResult V))
      → ((n : ℕ) → n < length items → Memᴰ n (batch_indexes groups))
      → Blank (length items) results
      → Due RightAt (length items) (λ n. Memᴰ n (batch_indexes groups)) results
  owed_first groups results cover h = record { long = h; due = λ n b. inr (cover n b) }

  Due-Answered :
      (results : List (ItemResult V))
      → Due RightAt (length items) (λ n. Memᴰ n []) results
      → Answered R items results
  Due-Answered results h = record {
    aligned = record {
      long = h.long;
      at = λ k b. let (r, at, good) = settled k b in (r, at, good.shape);
    };
    right = λ k x r v at there is.
        let (r', at', good) = settled k (subst (λ n. k < n) h.long (inside results k r there)) in
        good.right v (ap (λ (y : ItemResult V). y.value) (some_is (sym at' ∙ there)) ∙ is) x at;
  }
    where
      some_is : {a b : ItemResult V} → some a ≡ some b → a ≡ b
      some_is e = cc

      settled :
          (k : ℕ)
          → k < length items
          → (r : ItemResult V) × (get_elem? results k ≡ some r) × Good RightAt k r
      settled k b = elim (h.due k b) [ inl s ↦ s | inr m ↦ elim m [ ] ]

module _ {F V W : Type 0} (fl : FloatOps F) (gk : Gatekeeper F W) (st : Step F V V W)
    (do_bulk : List V → W → (List V × Option Error) × W) (ledger : Ledger W)
    (on_result : OnResult V W) (R : V → V → Type 0) (law : Answers R do_bulk)
    (same : (x y v : V) (d : String)
      → st.key_digest x ≡ ok d
      → st.key_digest y ≡ ok d
      → R x v
      → R y v)
    (schedule : List (Job (List (KeyGroup V))) → List (Job (List (KeyGroup V))))
    (perm : (jobs : List (Job (List (KeyGroup V)))) → Permᴰ (schedule jobs) jobs)
    (items : List V) where
  abbrev IsFineAt : KeyGroup V → Type 0
  IsFineAt = IsFine fl gk st do_bulk ledger on_result R law (RightAt R items) (length items)

  single-Fine :
      (n : ℕ) (rest : List V)
      → ((k : ℕ) (x : V) → get_elem? rest k ≡ some x → get_elem? items (n + k) ≡ some x)
      → All IsFineAt (single_groups n rest)
  unfolding single_groups
  single-Fine n [] at = tt
  single-Fine n (v ∷ rest) at = (
    ((λ o r x e. subst (λ y. R y o) (some_is (sym (at' v refl) ∙ e)) r), tt),
    single-Fine (suc n) rest
        (λ j y g. subst (λ m. get_elem? items m ≡ some y) (omega arith) (at (suc j) y g)),
  )
    where
      some_is : {a b : V} → some a ≡ some b → a ≡ b
      some_is e = cc

      at' : (x : V) → v ≡ x → get_elem? items n ≡ some x
      at' x e = subst (λ m. get_elem? items m ≡ some x) (omega arith) (at 0 x (ap some e))

  from_first : (k : ℕ) (x : V) → get_elem? items k ≡ some x → get_elem? items (0 + k) ≡ some x
  from_first k x e = subst (λ n. get_elem? items n ≡ some x) (omega arith) e

  -- The item of an index of a group has the group's digest.
  at_index :
      (g : KeyGroup V)
      → IsGroup st.key_digest (λ d. ok d) items g
      → (P : V → Type 0) → ((y : V) → st.key_digest y ≡ ok g.digest → P y)
      → All (λ i. (x : V) → get_elem? items i ≡ some x → P x) g.indexes
  at_index g h P f =
      All-map (IsAt st.key_digest (λ d. ok d) items g.digest) _
        (λ i at x e. f x (
          subst (λ y. st.key_digest y ≡ ok g.digest) (some_is (sym at.there ∙ e))
            (keyed at.item at.digest_is)))
        g.indexes h.indexes_are
    where
      some_is : {a b : V} → some a ≡ some b → a ≡ b
      some_is e = cc

      keyed : (x : V) {d : String} → (st.key_digest x ≫ λ d. ok d) ≡ ok d → st.key_digest x ≡ ok d
      keyed x {d} e = let (k, kd, more) = >>=-eq-ok (st.key_digest x) _ e in kd ∙ more

  group_key :
      (g : KeyGroup V)
      → IsGroup st.key_digest (λ d. ok d) items g
      → st.key_digest g.item ≡ ok g.digest
  group_key g h = h.key_is ∙ h.digest_is

  group-Fine : (g : KeyGroup V) → IsGroup st.key_digest (λ d. ok d) items g → IsFineAt g
  group-Fine g h =
      All-map (λ i. (x : V) → get_elem? items i ≡ some x → st.key_digest x ≡ ok g.digest) _
        (λ i f o r x e. same g.item x o g.digest (group_key g h) (f x e) r) g.indexes
        (at_index g h (λ x. st.key_digest x ≡ ok g.digest) (λ y k. k))

  bulk_items-Leads :
      (cache : Option (StoreOps V W)) (size : ℕ)
      → 1 ≤ size
      → ((ops : StoreOps V W) (d : String) (w : W) (x v : V)
          → cache ≡ some ops
          → st.key_digest x ≡ ok d
          → (ops.load d w).0 ≡ ok (some v)
          → R x v)
      → Leads
          (On (Blank (length items)))
          (λ rs s. Answered R items rs)
          (bulk_items fl gk st do_bulk ledger on_result schedule cache size items)
  unfolding bulk_items
  bulk_items-Leads none size positive loads =
      seq-Leads _ (On (Due (RightAt R items) (length items) (λ n. Memᴰ n []))) _ _ _
        (record {
          at = λ s h.
              (work_batches-Leads fl gk st do_bulk ledger on_result R law (RightAt R items)
                  (length items) schedule none size (single_groups 0 items) perm positive
                  (single-Fine 0 items from_first)).at
                s
                (owed_first R items (single_groups 0 items) s.results
                  (λ n b.
                    subst (λ k. Memᴰ k (batch_indexes (single_groups 0 items))) (omega arith)
                      (single_cover 0 n items b))
                  h);
        })
        (record { at = λ s h. Due-Answered R items s.results h })
  bulk_items-Leads (some ops) size positive loads =
      seq-Leads _ (On (Due (RightAt R items) (length items) (λ n. Memᴰ n []))) _ _ _
        (bind-Leads _
          (λ groups s.
            (group_items st.key_digest (λ d. ok d) 0 items [] ≡ ok groups)
            × On (Blank (length items)) s)
          _ _ _ (lifted (group_items st.key_digest (λ d. ok d) 0 items []))
          (λ groups.
            bind-Leads _
              (λ misses s.
                On (Owes (RightAt R items) (length items) (batch_indexes misses) (λ n. ⊥)) s
                × All IsFineAt misses)
              _ _ _
              (record {
                at = λ s h.
                    (load_groups-Leads fl gk st do_bulk ledger on_result R law (RightAt R items)
                        (length items) ops groups (λ n. ⊥) (all_fine groups h.0)
                        (all_kept groups h.0)).at
                      s
                      (Due-fewer (RightAt R items) (length items) _ _ s.results (λ n m. inl m)
                        (owed_first R items groups s.results (covered groups h.0) h.1));
              })
              (λ misses. record {
                at = λ s h.
                    (work_batches-Leads fl gk st do_bulk ledger on_result R law (RightAt R items)
                        (length items) schedule (some ops) size misses perm positive h.1).at
                      s
                      (Due-fewer (RightAt R items) (length items) _ _ s.results
                        (λ n m. only n misses m) h.0);
              })))
        (record { at = λ s h. Due-Answered R items s.results h })
    where
      lifted :
          (r : Result (List (KeyGroup V)))
          → Leads {S = BulkState F V W}
              (On (Blank (length items)))
              (λ groups s. (r ≡ ok groups) × On (Blank (length items)) s)
              (lift r)
      lifted (ok groups) = pure-Leads _ _ groups (λ s h. (refl, h))
      lifted (err e) = raise-Leads _ _ e

      grouped :
          (groups : List (KeyGroup V))
          → group_items st.key_digest (λ d. ok d) 0 items [] ≡ ok groups
          → All (IsGroup st.key_digest (λ d. ok d) items) groups
      grouped groups e = grouped-IsGroup st.key_digest items 0 items [] groups e from_first tt

      all_fine :
          (groups : List (KeyGroup V))
          → group_items st.key_digest (λ d. ok d) 0 items [] ≡ ok groups
          → All IsFineAt groups
      all_fine groups e =
          All-map (IsGroup st.key_digest (λ d. ok d) items) IsFineAt group-Fine groups
            (grouped groups e)

      kept :
          (g : KeyGroup V)
          → IsGroup st.key_digest (λ d. ok d) items g
          → IsKept fl gk st do_bulk ledger on_result R law (RightAt R items) (length items) ops g
      kept g h w = found (ops.load g.digest w).0 refl
        where
          found :
              (r : Result (Option V))
              → (ops.load g.digest w).0 ≡ r
              → Loaded fl gk st do_bulk ledger on_result R law (RightAt R items) (length items) g r
          found (err e) l = tt
          found (ok none) l = tt
          found (ok (some v)) l =
              at_index g h (λ x. R x v) (λ y k. loads ops g.digest w y v refl k l)

      all_kept :
          (groups : List (KeyGroup V))
          → group_items st.key_digest (λ d. ok d) 0 items [] ≡ ok groups
          → All
              (IsKept fl gk st do_bulk ledger on_result R law (RightAt R items) (length items) ops)
              groups
      all_kept groups e =
          All-map (IsGroup st.key_digest (λ d. ok d) items) _ kept groups (grouped groups e)

      covered :
          (groups : List (KeyGroup V))
          → group_items st.key_digest (λ d. ok d) 0 items [] ≡ ok groups
          → (n : ℕ) → n < length items
          → Memᴰ n (batch_indexes groups)
      covered groups e n b =
          subst (λ t. Memᴰ n t) (same_indexes groups)
            (subst (λ k. Memᴰ k (all_indexes groups)) (omega arith)
              (grouped_new st.key_digest 0 n items [] groups e b))

      only :
          (n : ℕ) (misses : List (KeyGroup V))
          → Memᴰ n (batch_indexes misses) ⊎ ⊥
          → Memᴰ n (batch_indexes misses)
      only n misses (inl m) = m
      only n misses (inr x) = absurd x

check_bulk-positive :
    {F V W : Type 0} (fl : FloatOps F) (spec : BulkSpec V W) (s : Step F V V W)
    (f : List V → W → (List V × Option Error) × W)
    → check_bulk fl spec s ≡ ok f
    → (1 ≤ pos_part spec.batch_size) × (spec.do_bulk ≡ some f)
unfolding check_bulk
check_bulk-positive {F} {V} {W} fl spec s f e =
    by_call spec.do_bulk (Bool-cases (ltb_ℤ spec.batch_size (pos 1))) e
  where
    by_size : (i : ℤ) → ltb_ℤ i (pos 1) ≡ false → 1 ≤ pos_part i
    by_size (pos n) h = ground (arith, h)
    by_size (negsuc n) h = absurd (ground (arith, h))

    by_call :
        (o : Option (List V → W → (List V × Option Error) × W))
        → (ltb_ℤ spec.batch_size (pos 1) ≡ true) ⊎ (ltb_ℤ spec.batch_size (pos 1) ≡ false)
        → (elim o [
          | none ↦ err (message "bulk step %q needs a bulk function")
          | some do_bulk ↦
              if ltb_ℤ spec.batch_size (pos 1)
              then err (message "bulk step %q batch size must be positive")
              else if str_eq s.name ""
              then err (message "every step needs a name")
              else if both_meters fl s
              then err (message "step %q cannot set both Meter and AttemptMeter")
              else ok do_bulk
        ])
          ≡ ok f
        → (1 ≤ pos_part spec.batch_size) × (o ≡ some f)
    by_call none c e = absurd (cc)
    by_call (some g) (inl c) e = absurd (ground (arith, c, e))
    by_call (some g) (inr c) e = (by_size spec.batch_size c, ground (arith, c, e))

-- A bulk step returns an error or, for each item at its place, a value, a quarantine record with the
-- item's index, or a skipped item; and each value is right for its item: for any relation of items and
-- values that bulk calls keep at each place, that loads keep by digest and that items of one digest
-- share, whatever the cache holds and whatever the order of the batches is.
pub run_bulk-Answered :
    {F V W : Type 0} (fl : FloatOps F) (gk : Gatekeeper F W)
    (schedule : List (Job (List (KeyGroup V))) → List (Job (List (KeyGroup V))))
    (spec : BulkSpec V W) (s : Step F V V W) (items : List V) (R : V → V → Type 0)
    → Promises R fl spec s
    → ((jobs : List (Job (List (KeyGroup V)))) → Permᴰ (schedule jobs) jobs)
    → Gives (Answered R items) (run_bulk fl gk schedule spec s items)
unfolding run_bulk
run_bulk-Answered {F} {V} {W} fl gk schedule spec s items R law perm = record {
  at = λ scene u. ended scene _ (
      worked_all.at (bulk_state fl (length items) scene)
        (length-replicate (length items) empty_result));
}
  where
    Ready : (List V → W → (List V × Option Error) × W) → BulkState F V W → Type 0
    Ready do_bulk t =
        ((1 ≤ pos_part spec.batch_size) × (spec.do_bulk ≡ some do_bulk))
        × On (Blank (length items)) t

    worked_all :
        Leads {S = BulkState F V W}
          (On (Blank (length items)))
          (λ rs t. Answered R items rs)
          (do
            do_bulk ← lift (check_bulk fl spec s)
            count (λ c. record c { items = length items })
            bulk_items fl gk s do_bulk s.ledger s.on_result schedule
                (cache_of fl s)
                (pos_part spec.batch_size)
                items)
    worked_all =
        bind-Leads (On (Blank (length items))) Ready (λ rs t. Answered R items rs)
          (lift (check_bulk fl spec s)) _
          (checked (check_bulk fl spec s) (check_bulk-positive fl spec s))
          (λ do_bulk. record {
            at = λ t h.
                (seq-Leads (On (Blank (length items))) (On (Blank (length items)))
                    (λ rs t. Answered R items rs) (count (λ c. record c { items = length items }))
                    (bulk_items fl gk s do_bulk s.ledger s.on_result schedule (cache_of fl s)
                      (pos_part spec.batch_size) items)
                    (count-Steady (Blank (length items)) (λ c. record c { items = length items }))
                    (bulk_items-Leads fl gk s do_bulk s.ledger s.on_result R
                      (law.works do_bulk h.0.1) law.same schedule perm items (cache_of fl s)
                      (pos_part spec.batch_size) h.0.0 law.loads)).at
                  t h.1;
          })
      where
        checked :
            (r : Result (List V → W → (List V × Option Error) × W))
            → ((f : List V → W → (List V × Option Error) × W)
                → r ≡ ok f
                → (1 ≤ pos_part spec.batch_size) × (spec.do_bulk ≡ some f))
            → Leads {S = BulkState F V W} (On (Blank (length items))) Ready (lift r)
        checked (ok f) h = pure-Leads _ _ f (λ t k. (h f refl, k))
        checked (err e) h = raise-Leads _ _ e

    ended :
        (scene : Scene F W) (x : Result (List (ItemResult V)) × BulkState F V W)
        → Reached (λ rs t. Answered R items rs) x
        → After Unit (λ t. Unit) (Answered R items) (bulk_ended fl s scene x)
    ended scene (ok rs, t) a = (a, tt)
    ended scene (err e, t) a = (tt, tt)
