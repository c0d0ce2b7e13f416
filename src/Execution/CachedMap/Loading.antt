-- ===== src/Execution/CachedMap/Loading.antt =====
-- The loads and the work of MapCached, group by group: execution/cached_map.go.
use flowkit.Base.{
  ◌≡◌, refl, sym, ap, subst, ◌∙◌, ℕ, Option, none, some, List, [], ◌∷◌, ◌++◌, length, set,
  get_elem?, All, All-append, All-map,
}
use mathlib.Core.List.{append_assoc}
use flowkit.Base.Placed.{Upto, set-Upto}
use flowkit.Exec.{Exec}
use flowkit.Exec.Yields.{Yields, bind-Yields, seq-Yields, pure-Yields, wrapping-Yields}
use flowkit.Execution.Group.{Group}
use flowkit.Execution.Map.Ordered.{results_of, get_elem?-results_of}
use flowkit.Execution.CachedMap.{
  CachedMapOptions, Callback, in_world, count_hit, count_misses, count_call, count_write,
  set_stored, notify, outcome_at, hit_all, store_all, Loaded, after_load, load_all, work_group,
}
use flowkit.Execution.CachedMap.Groups.{all_indexes, IsAt, IsGroup, more-Upto, missed_left}
use flowkit.Execution.CachedMap.Contract.{
  Contract, GoodTally, Ensures, in_world-Yields, counts-Yields,
}

module _ {K T R W : Type 0} (Fails : Type 0) (Good : W → Type 0) (o : CachedMapOptions K T R W)
    (work : T → Exec W R) (call : Option (Callback R W)) (f : T → R)
    (law : Contract Fails Good o work call f) where
  notify-Ensures : (i : ℕ) (v : R) → Ensures Fails Good (λ u. Unit) (notify call i v)
  notify-Ensures i v = notified call refl
    where
      notified :
          (c : Option (Callback R W))
          → call ≡ c
          → Yields Fails (GoodTally Fails Good) (λ u. Unit) (notify c i v)
      notified none e = record { at = λ t g. (tt, g) }
      notified (some n) e = record {
        at = λ t g.
            (in_world-Yields Fails Good (λ u. Unit) (n i v (outcome_at t.outcomes i))
                (law.notifies n i v (outcome_at t.outcomes i) e)).at
              t g;
      }

  hit_all-Ensures :
      (v : R) (is rest : List ℕ) (results want : List (Option R))
      → All (λ i. get_elem? want i ≡ some (some v)) is
      → Upto (is ++ rest) results want
      → Ensures Fails Good (λ out. Upto rest out want) (hit_all call v is results)
  unfolding hit_all
  hit_all-Ensures v [] rest results want h u = pure-Yields Fails (GoodTally Fails Good) _ results u
  hit_all-Ensures v (i ∷ is) rest results want (e, h) u =
      seq-Yields Fails (GoodTally Fails Good) _ (count_hit i) _
        (counts-Yields Fails Good (count_hit i) (λ t. refl) (λ t. refl))
        (seq-Yields Fails (GoodTally Fails Good) _ _ _
          (wrapping-Yields Fails (GoodTally Fails Good) _ _ _ (notify-Ensures i v))
          (hit_all-Ensures v is rest (set results i (some v)) want h
            (set-Upto i (is ++ rest) (some v) results want u e)))

  store_all-Ensures : (v : R) (is : List ℕ) → Ensures Fails Good (λ u. Unit) (store_all call v is)
  unfolding store_all
  store_all-Ensures v [] = pure-Yields Fails (GoodTally Fails Good) _ tt tt
  store_all-Ensures v (i ∷ is) =
      seq-Yields Fails (GoodTally Fails Good) _ (set_stored i) _
        (counts-Yields Fails Good (set_stored i) (λ t. refl) (λ t. refl))
        (seq-Yields Fails (GoodTally Fails Good) _ _ _
          (wrapping-Yields Fails (GoodTally Fails Good) _ _ _ (notify-Ensures i v))
          (store_all-Ensures v is))

  pub work_group-Ensures :
      (items : List T) (g : Group K T)
      → IsGroup o.key o.digest items g
      → Ensures Fails Good (λ r. r ≡ (f g.item, g.indexes)) (work_group o call work g)
  unfolding work_group
  work_group-Ensures items g h =
      seq-Yields Fails (GoodTally Fails Good) _ count_call _
        (counts-Yields Fails Good count_call (λ t. refl) (λ t. refl))
        (bind-Yields Fails (GoodTally Fails Good) (λ v. v ≡ f g.item) _ (in_world (work g.item)) _
          (in_world-Yields Fails Good _ (work g.item) (law.works g.item))
          (λ v e.
            seq-Yields Fails (GoodTally Fails Good) _ _ _
              (wrapping-Yields Fails (GoodTally Fails Good) _ _ _ (
                in_world-Yields Fails Good _ (o.cache.store g.key v) (
                  subst (λ v. Yields Fails Good (λ u. Unit) (o.cache.store g.key v)) (sym e)
                    (law.stores g.item g.key h.key_is))))
              (seq-Yields Fails (GoodTally Fails Good) _ count_write _
                (counts-Yields Fails Good count_write (λ t. refl) (λ t. refl))
                (seq-Yields Fails (GoodTally Fails Good) _ (store_all call v g.indexes) _
                  (store_all-Ensures v g.indexes)
                  (pure-Yields Fails (GoodTally Fails Good) _ (v, g.indexes)
                    (ap (λ v. (v, g.indexes)) e))))))

  -- What is wanted at the indexes of a group.
  pub wanted :
      (items : List T) (g : Group K T)
      → IsGroup o.key o.digest items g
      → All (λ i. get_elem? (results_of f items) i ≡ some (some (f g.item))) g.indexes
  wanted items g h =
      All-map (IsAt o.key o.digest items g.digest) _
        (λ i at.
          get_elem?-results_of f items i at.item at.there
          ∙ ap (λ v. some (some v))
              (law.same at.item g.item g.digest at.digest_is (rw (h.key_is) h.digest_is)))
        g.indexes h.indexes_are

  -- The results and the misses after the groups `gs` are left to load.
  abbrev pub LoadedOk : List T → List (Group K T) → Loaded o call → Type 0
  LoadedOk items gs (results, misses) =
      Upto (all_indexes gs ++ all_indexes misses) results (results_of f items)
      × All (IsGroup o.key o.digest items) misses

  after_load-Ensures :
      (items : List T) (gs misses : List (Group K T)) (g : Group K T) (results : List (Option R))
      (r : Option R)
      → IsGroup o.key o.digest items g
      → LoadedOk items (g ∷ gs) (results, misses)
      → ((v : R) → r ≡ some v → v ≡ f g.item)
      → Ensures Fails Good (LoadedOk items gs) (after_load o call g results misses r)
  unfolding all_indexes
  after_load-Ensures items gs misses g results none h (u, ms) e =
      seq-Yields Fails (GoodTally Fails Good) _ (count_misses (length g.indexes)) _
        (counts-Yields Fails Good (count_misses (length g.indexes)) (λ t. refl) (λ t. refl))
        (pure-Yields Fails (GoodTally Fails Good) _ (results, misses ++ (g ∷ []))
          (
            more-Upto _ _ results _ (missed_left gs misses g) u,
            All-append (IsGroup o.key o.digest items) misses (g ∷ []) ms (h, tt),
          ))
  after_load-Ensures items gs misses g results (some v) h (u, ms) e =
      bind-Yields Fails (GoodTally Fails Good) _ _ (hit_all call v g.indexes results) _
        (hit_all-Ensures v g.indexes (all_indexes gs ++ all_indexes misses) results
          (results_of f items)
          (subst (λ v. All (λ i. get_elem? (results_of f items) i ≡ some (some v)) g.indexes)
            (sym (e v refl)) (wanted items g h))
          (subst (λ is. Upto is results (results_of f items))
            (append_assoc g.indexes (all_indexes gs) (all_indexes misses)) u))
        (λ out u'. pure-Yields Fails (GoodTally Fails Good) _ (out, misses) (u', ms))

  pub load_all-Ensures :
      (items : List T) (gs misses : List (Group K T)) (results : List (Option R))
      → All (IsGroup o.key o.digest items) gs
      → LoadedOk items gs (results, misses)
      → Ensures Fails Good (LoadedOk items []) (load_all o call gs results misses)
  unfolding load_all
  load_all-Ensures items [] misses results hs l =
      pure-Yields Fails (GoodTally Fails Good) _ (results, misses) l
  load_all-Ensures items (g ∷ gs) misses results (h, hs) l =
      bind-Yields Fails (GoodTally Fails Good) (LoadedOk items gs) _ _ _
        (bind-Yields Fails (GoodTally Fails Good) _ _ _ _
          (wrapping-Yields Fails (GoodTally Fails Good) _ _ _
            (in_world-Yields Fails Good _ (o.cache.load g.key) (law.loads g.item g.key h.key_is)))
          (λ r e. after_load-Ensures items gs misses g results r h l e))
        (λ p l'. load_all-Ensures items gs p.1 p.0 hs l')
