-- ===== src/Flow/Report/Merge.antt =====
-- Merging reports: every counter of every step is a sum.
use flowkit.Base.{
  ◌≡◌, refl, sym, ap, subst, ℕ, ◌+◌, String, Option, none, some, [], ◌∷◌, arith, if◌then◌else◌,
  str_eq, str_eq_iff, Bool-cases, inl, inr,
}
use flowkit.Base.Assoc.{Assoc, lookup, insert, lookup-insert}
use flowkit.Base.Float.{FloatOps}
use flowkit.Flow.Report.{
  Meters, meter_at, add_meters, count_at, add_counts, put_all, StepReport, merge_step, step_of,
  merge,
}

-- A Go map has each key once.
abbrev pub HasKeysOnce : {V : Type 0} → Assoc V → Type 0
HasKeysOnce [] = Unit {0}
HasKeysOnce ((k, v) ∷ m) = (lookup k m ≡ none) × HasKeysOnce m

-- A counter of the second map is added to the first map's.
count_at-add_counts :
    (k : String) (m n : Assoc ℕ)
    → HasKeysOnce n
    → count_at k (add_counts m n) ≡ count_at k m + count_at k n
unfolding add_counts lookup
count_at-add_counts k m [] h = omega arith
count_at-add_counts k m ((j, c) ∷ n) h = elim (Bool-cases (str_eq j k)) [
  | inl y ↦
      let e : j ≡ k = (str_eq_iff j k).0 y in
      let gone : lookup k n ≡ none = subst (λ i. lookup i n ≡ none) e h.0 in
      ground (
        arith,
        count_at-add_counts k (insert j (count_at j m + c) m) n h.1,
        lookup-insert j k (count_at j m + c) m,
        ap (λ i. lookup i m) e,
      )
  | inr apart ↦ ground (
    arith,
    count_at-add_counts k (insert j (count_at j m + c) m) n h.1,
    lookup-insert j k (count_at j m + c) m,
  )
]

-- What stands under a key when the second map is written over the first.
abbrev pub later {ℓ} : {V : Type ℓ} → Option V → Option V → Option V
later old none = old
later old (some v) = some v

lookup-put_all :
    {V : Type 0} (k : String) (m n : Assoc V)
    → HasKeysOnce n
    → lookup k (put_all m n) ≡ later (lookup k m) (lookup k n)
unfolding put_all lookup
lookup-put_all k m [] h = refl
lookup-put_all k m ((j, c) ∷ n) h =
    let ih = lookup-put_all k (insert j c m) n h.1 in
    elim (Bool-cases (str_eq j k)) [
      | inl y ↦
          let e : j ≡ k = (str_eq_iff j k).0 y in
          let gone : lookup k n ≡ none = subst (λ i. lookup i n ≡ none) e h.0 in
          rw (ih, gone, lookup-insert j k c m, y)
      | inr apart ↦ rw (ih, lookup-insert j k c m, apart)
    ]

-- The maps of a report have each key once.
pub record HasMapsOnce {F : Type 0} (b : StepReport F) : Type 0 where
  pub by_class : HasKeysOnce b.retries_by_class
  pub spend : HasKeysOnce b.spend
  pub meters : HasKeysOnce b.meters

module _ {F : Type 0} (fl : FloatOps F) where
  folded : StepReport F → Option (StepReport F) → StepReport F
  folded a none = a
  folded a (some b) = merge_step fl a b

  -- A meter of the second map is added to the first map's, or to zero.
  abbrev pub metered : Option F → Option F → Option F
  metered old none = old
  metered none (some v) = some (fl.add_f fl.zero_f v)
  metered (some x) (some v) = some (fl.add_f x v)

  metered-some :
      (o : Option F) (v : F)
      → metered o (some v) ≡ some (fl.add_f (elim o [ none ↦ fl.zero_f | some x ↦ x ]) v)
  metered-some none v = refl
  metered-some (some x) v = refl

  lookup-add_meters :
      (k : String) (m n : Meters F)
      → HasKeysOnce n
      → lookup k (add_meters fl m n) ≡ metered (lookup k m) (lookup k n)
  unfolding add_meters lookup
  lookup-add_meters k m [] h = refl
  lookup-add_meters k m ((j, c) ∷ n) h =
      let new : F = fl.add_f (meter_at fl j m) c in
      let ih = lookup-add_meters k (insert j new m) n h.1 in
      elim (Bool-cases (str_eq j k)) [
        | inl y ↦
            let e : j ≡ k = (str_eq_iff j k).0 y in
            let gone : lookup k n ≡ none = subst (λ i. lookup i n ≡ none) e h.0 in
            rw (ih, gone, lookup-insert j k new m, y, e, metered-some (lookup k m) c)
        | inr apart ↦ rw (ih, lookup-insert j k new m, apart)
      ]

  -- The report `c` is the sum of `a` and `b`: each counter, each class of retries and each meter is
  -- added, and a resource's later snapshot stands for the earlier.
  pub record Summed (a b c : StepReport F) : Type 0 where
    pub items : c.items ≡ a.items + b.items
    pub hits : c.hits ≡ a.hits + b.hits
    pub misses : c.misses ≡ a.misses + b.misses
    pub stored : c.stored ≡ a.stored + b.stored
    pub work_calls : c.work_calls ≡ a.work_calls + b.work_calls
    pub started_sequences : c.started_sequences ≡ a.started_sequences + b.started_sequences
    pub retries : c.retries ≡ a.retries + b.retries
    pub quarantined : c.quarantined ≡ a.quarantined + b.quarantined
    pub skipped : c.skipped ≡ a.skipped + b.skipped
    pub by_class :
        (k : String)
        → count_at k c.retries_by_class
          ≡ count_at k a.retries_by_class + count_at k b.retries_by_class
    pub spend : (k : String) → lookup k c.spend ≡ later (lookup k a.spend) (lookup k b.spend)
    pub meters : (k : String) → lookup k c.meters ≡ metered (lookup k a.meters) (lookup k b.meters)

  abbrev pub Folds : StepReport F → Option (StepReport F) → StepReport F → Type 0
  Folds a none c = c ≡ a
  Folds a (some b) c = Summed a b c

  folded-Folds :
      (a : StepReport F) (o : Option (StepReport F))
      → ((b : StepReport F) → o ≡ some b → HasMapsOnce b)
      → Folds a o (folded a o)
  unfolding merge_step folded
  folded-Folds a none h = refl
  folded-Folds a (some b) h = record {
    items = refl;
    hits = refl;
    misses = refl;
    stored = refl;
    work_calls = refl;
    started_sequences = refl;
    retries = refl;
    quarantined = refl;
    skipped = refl;
    by_class = λ k. count_at-add_counts k a.retries_by_class b.retries_by_class (h b refl).by_class;
    spend = λ k. lookup-put_all k a.spend b.spend (h b refl).spend;
    meters = λ k. lookup-add_meters k a.meters b.meters (h b refl).meters;
  }

  step_of-insert :
      (k n : String) (s : StepReport F) (r : Assoc (StepReport F))
      → step_of n (insert k s r) ≡ (if str_eq k n then s else step_of n r)
  unfolding step_of
  step_of-insert k n s r = ground (arith, lookup-insert k n s r)

  merge_folds :
      (n : String) (a b : Assoc (StepReport F))
      → HasKeysOnce b
      → step_of n (merge fl a b) ≡ folded (step_of n a) (lookup n b)
  unfolding merge lookup folded
  merge_folds n a [] h = refl
  merge_folds n a ((k, s) ∷ rest) h =
      let ih = merge_folds n (insert k (merge_step fl (step_of k a) s) a) rest h.1 in
      elim (Bool-cases (str_eq k n)) [
        | inl y ↦
            let e : k ≡ n = (str_eq_iff k n).0 y in
            let gone : lookup n rest ≡ none = subst (λ m. lookup m rest ≡ none) e h.0 in
            rw (ih, gone, step_of-insert k n (merge_step fl (step_of k a) s) a, y, e)
        | inr m ↦ rw (ih, step_of-insert k n (merge_step fl (step_of k a) s) a, m)
      ]

  -- Merging a report leaves the entry of a name alone that it does not have, and otherwise adds its
  -- entry to that name's: every counter, the retries of every class and every meter are the sums of
  -- the two, and a later snapshot of a resource stands for the earlier one. (The report and the maps
  -- of its entry of that name have each key once.)
  pub step_of-merge :
      (n : String) (a b : Assoc (StepReport F))
      → HasKeysOnce b
      → ((s : StepReport F) → lookup n b ≡ some s → HasMapsOnce s)
      → Folds (step_of n a) (lookup n b) (step_of n (merge fl a b))
  step_of-merge n a b h once =
      subst (λ c. Folds (step_of n a) (lookup n b) c) (sym (merge_folds n a b h))
        (folded-Folds (step_of n a) (lookup n b) once)
