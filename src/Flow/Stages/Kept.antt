-- ===== src/Flow/Stages/Kept.antt =====
-- The stages of a pipeline keep their items whole, each at its index: flow/run.go.
use flowkit.Base.{
  ◌≡◌, refl, sym, ap, subst, ◌∙◌, ℕ, zero, suc, Bool, true, false, Option, none, some, List, [],
  ◌∷◌, ◌++◌, length, leb, set, All, arith, ◌⊎◌, inl, inr, Bool-cases,
}
use mathlib.Core.List.{Permᴰ}
use mathlib.Core.List.Permᴰ
use flowkit.Base.Assoc.{lookup}
use flowkit.Errors.{message, Result, ok, err, ok-injective}
use flowkit.Exec.{Exec}
use flowkit.Exec.Yields.{After, Yields}
use flowkit.Flow.Observe.{Scene, Act}
use flowkit.Flow.Pipeline.Ordered.Moves.{indexes}
use flowkit.Flow.Policy.{ItemError}
use flowkit.Flow.Report.{ItemResult}
use flowkit.Flow.Runner.{Item, St}
use flowkit.Flow.Runner.Whole.{Shape, IsWhole, Remembers}
use flowkit.Flow.Stages.{
  Own, Stages, is_flagged, assert, own_at, seen_by, put_own, focused, focus, staged, on_scene,
  insert_item, sort_items, clean_items, flagged_items, values_of, at_item, kept_value,
  place_results,
}

-- A result is a value, a quarantined item whose record has the index, or a skipped item.
abbrev pub ResultAt : {V : Type 0} → ℕ → ItemResult V → Type 0
ResultAt k r = Shape k r.value r.quarantined r.skipped

-- So it is for some index.
abbrev pub IsResult : {V : Type 0} → ItemResult V → Type 0
IsResult r = (k : ℕ) × ResultAt k r

module _ {F V : Type 0} where
  own_at-set :
      (owns : List (Own F V)) (k j : ℕ) (x : Own F V)
      → (own_at j (set owns k x) ≡ x) ⊎ (own_at j (set owns k x) ≡ own_at j owns)
  own_at-set [] k j x = inr refl
  own_at-set (y ∷ owns) zero zero x = inl refl
  own_at-set (y ∷ owns) zero (suc j) x = inr refl
  own_at-set (y ∷ owns) (suc k) zero x = inr refl
  own_at-set (y ∷ owns) (suc k) (suc j) x = own_at-set owns k j x

module _ {F V W : Type 0} where
  -- Every runner remembers whole items.
  abbrev pub AllRemember : Stages F V W → Type 0
  AllRemember s = (k : ℕ) → Remembers (seen_by k s)

  -- The runner at an index writes only its own state.
  pub focus-Yields :
      {A : Type 0} (Q : A → Type 0) (k : ℕ) (m : Exec (St F V W) A)
      → Yields Unit Remembers Q m
      → Yields Unit AllRemember Q (focus k m)
  unfolding focus
  focus-Yields {A} Q k m h = record { at = λ s i. kept s i (m (seen_by k s)) (h.at _ (i k)) }
    where
      written :
          (s : Stages F V W) (t : St F V W)
          → AllRemember s
          → Remembers t
          → AllRemember (put_own k s t)
      written s t i r j d o e = elim (own_at-set s.owns k j _) [
        | inl same ↦ r d o (subst (λ (x : Own F V). lookup d x.inflight ≡ some (ok o)) same e)
        | inr old ↦ i j d o (subst (λ (x : Own F V). lookup d x.inflight ≡ some (ok o)) old e)
      ]

      kept :
          (s : Stages F V W)
          → AllRemember s
          → (x : Result A × St F V W) → After Unit Remembers Q x
          → After Unit AllRemember Q (focused k s x)
      kept s i (ok a, t) (q, r) = (q, written s t i r)
      kept s i (err e, t) (u, r) = (u, written s t i r)

  -- An action of the scene touches no runner.
  pub on_scene-Yields :
      {A : Type 0} (Q : A → Type 0) (m : Act F W A)
      → Yields Unit (λ s. Unit) Q m
      → Yields Unit AllRemember Q (on_scene m)
  unfolding on_scene
  on_scene-Yields {A} Q m h = record { at = λ s i. kept s i (m s.scene) (h.at s.scene tt) }
    where
      kept :
          (s : Stages F V W)
          → AllRemember s
          → (x : Result A × Scene F W) → After Unit (λ s. Unit) Q x
          → After Unit AllRemember Q (staged s x)
      kept s i (ok a, t) (q, u) = (q, i)
      kept s i (err e, t) (u, v) = (u, i)

module _ {V : Type 0} where
  insert_item-perm : (i : Item V) (items : List (Item V)) → Permᴰ (insert_item i items) (i ∷ items)
  unfolding insert_item
  insert_item-perm i [] = Permᴰ.refl (i ∷ [])
  insert_item-perm i (j ∷ items) = elim (Bool-cases (leb i.index j.index)) [
    | inl e ↦ rw (e) (Permᴰ.refl (i ∷ j ∷ items))
    | inr e ↦
        rw (e) (Permᴰ.trans (Permᴰ.cons refl (insert_item-perm i items)) (Permᴰ.swap refl refl))
  ]

  pub sort_items-perm : (items : List (Item V)) → Permᴰ (sort_items items) items
  unfolding sort_items
  sort_items-perm [] = Permᴰ.nil
  sort_items-perm (i ∷ items) =
      Permᴰ.trans (insert_item-perm i (sort_items items)) (Permᴰ.cons refl (sort_items-perm items))

  -- The items that are clean and those that are flagged are the items.
  pub split-perm : (items : List (Item V)) → Permᴰ (clean_items items ++ flagged_items items) items
  unfolding clean_items flagged_items
  split-perm [] = Permᴰ.nil
  split-perm (i ∷ items) = elim (Bool-cases (is_flagged i)) [
    | inl e ↦ rw (e) (Permᴰ.trans (moved (clean_items items)) (Permᴰ.cons refl (split-perm items)))
    | inr e ↦ rw (e) (Permᴰ.cons refl (split-perm items))
  ]
    where
      moved :
          (xs : List (Item V))
          → Permᴰ (xs ++ i ∷ flagged_items items) (i ∷ xs ++ flagged_items items)
      moved [] = Permᴰ.refl _
      moved (x ∷ xs) = Permᴰ.trans (Permᴰ.cons refl (moved xs)) (Permᴰ.swap refl refl)

  pub indexes-place_results :
      (items : List (Item V)) (rs : List (ItemResult V))
      → length rs ≡ length items
      → indexes (place_results items rs) ≡ indexes items
  unfolding place_results
  indexes-place_results [] rs h = refl
  indexes-place_results (i ∷ items) [] h = absurd (omega arith)
  indexes-place_results (i ∷ items) (r ∷ rs) h =
      ap (λ t. i.index ∷ t) (indexes-place_results items rs (omega arith))

  placed-Shape :
      (n k : ℕ) (v : Option V) (q : Option ItemError) (skipped : Bool)
      → Shape n v q skipped
      → Shape k (kept_value q skipped v) (at_item k q) skipped
  placed-Shape n k (some v) none false h = tt
  placed-Shape n k none (some e) false h = refl
  placed-Shape n k none none true h = tt
  placed-Shape n k none none false h = h
  placed-Shape n k none (some e) true h = h
  placed-Shape n k (some v) none true h = absurd h
  placed-Shape n k (some v) (some e) true h = absurd h
  placed-Shape n k (some v) (some e) false h = absurd h

  pub kept_value-Shape :
      (k : ℕ) (v : Option V) (q : Option ItemError) (skipped : Bool)
      → Shape k v q skipped
      → Shape k (kept_value q skipped v) q skipped
  kept_value-Shape k (some v) none false h = tt
  kept_value-Shape k none (some e) false h = h
  kept_value-Shape k none none true h = tt
  kept_value-Shape k none none false h = h
  kept_value-Shape k none (some e) true h = h
  kept_value-Shape k (some v) none true h = absurd h
  kept_value-Shape k (some v) (some e) true h = absurd h
  kept_value-Shape k (some v) (some e) false h = absurd h

  abbrev pub WholeItem : Item V → Type 0
  WholeItem i = IsWhole i.index i

  pub place_results-Whole :
      (items : List (Item V)) (rs : List (ItemResult V))
      → All IsResult rs
      → All WholeItem (place_results items rs)
  unfolding place_results
  place_results-Whole [] rs h = tt
  place_results-Whole (i ∷ items) [] h = tt
  place_results-Whole (i ∷ items) (r ∷ rs) ((n, h), hs) = (
    record { at = refl; shape = placed-Shape n i.index r.value r.quarantined r.skipped h },
    place_results-Whole items rs hs,
  )

  pub flagged-Whole :
      (items : List (Item V)) → All WholeItem items → All WholeItem (flagged_items items)
  unfolding flagged_items
  flagged-Whole [] h = tt
  flagged-Whole (i ∷ items) (h, hs) = elim (Bool-cases (is_flagged i)) [
    | inl e ↦ rw (e) (h, flagged-Whole items hs)
    | inr e ↦ rw (e) (flagged-Whole items hs)
  ]

  pub length-values_of :
      (accepts : V → Bool) (items : List (Item V)) (vs : List V)
      → values_of accepts items ≡ ok vs
      → length vs ≡ length items
  unfolding values_of
  length-values_of accepts [] vs h = sym (ap length (ok-injective h))
  length-values_of accepts (i ∷ items) vs h =
      joined (assert accepts i.value) (values_of accepts items) (length-values_of accepts items) h
    where
      joined :
          (o : Option V) (rest : Result (List V))
          → ((ws : List V) → rest ≡ ok ws → length ws ≡ length items)
          → (elim o [
            | none ↦ err (message "item %d has type %T, stage expects %T")
            | some v ↦ elim rest [ ok ws ↦ ok (v ∷ ws) | err e ↦ err e ]
          ])
            ≡ ok vs
          → length vs ≡ suc (length items)
      joined none rest k e = cc
      joined (some v) (err x) k e = cc
      joined (some v) (ok ws) k e = sym (ap length (ok-injective e)) ∙ ap suc (k ws refl)
