-- ===== src/Execution/CachedMap.antt =====
-- MapCached of execution/cached_map.go: the grouping of the items by key, the loads, the work on what is
-- missing, by Map, and the results by index. A report is kept in the state with the world `W` that the
-- cache, the limiter, the work and the callback act on. A key type has its digest.
pub mod Groups
pub mod Contract
pub mod Grouping
pub mod Loading
pub mod Transparent
use flowkit.Base.{
  ℕ, zero, suc, ◌+◌, String, Bool, true, false, Option, none, some, List, [], ◌∷◌, ◌++◌, length,
  set, replicate,
}
use flowkit.Base.Int.{ℤ, pos}
use flowkit.Errors.{Error, message, wrapped, Result, ok, err}
use flowkit.Exec.{Exec, then_do, ◌>>=◌, ◌>>◌, pure, raise, lift, wrapping}
use flowkit.Execution.Outcome.{
  CacheState, uncached, hit, stored_state, pending, CacheOutcome, no_outcome,
}
use flowkit.Execution.Group.{Group, add_item}
use flowkit.Execution.Map.{Job, MapOptions, cost_of, map_items}

-- CacheReport, and the world
pub record Tally (W : Type 0) : Type 0 where
  pub hits : ℕ
  pub misses : ℕ
  pub writes : ℕ
  pub work_calls : ℕ
  pub outcomes : List CacheOutcome
  pub world : W

-- Cache, by key and value
pub record CacheOps (K R W : Type 0) : Type 0 where
  pub load : K → Exec W (Option R)
  pub store : K → R → Exec W (Unit {0})

-- The options, with the functions for a key and the digest of one
pub record CachedMapOptions (K T R W : Type 0) : Type 0 where
  pub cache : CacheOps K R W
  pub key : T → Result K
  pub digest : K → Result String
  pub limiter : Option (ℤ → Exec W (Unit {0}))
  pub cost : Option (T → ℤ)

abbrev pub Callback : Type 0 → Type 0 → Type 0
Callback R W = ℕ → R → CacheOutcome → Exec W (Unit {0})

abbrev outcome_at : List CacheOutcome → ℕ → CacheOutcome
outcome_at [] i = no_outcome
outcome_at (o ∷ os) zero = o
outcome_at (o ∷ os) (suc i) = outcome_at os i

abbrev with_state : CacheState → List CacheOutcome → ℕ → List CacheOutcome
with_state s os i = set os i (record (outcome_at os i) { state = s })

module _ {W : Type 0} where
  abbrev back : {A : Type 0} → Tally W → Result A × W → Result A × Tally W
  back t (r, w) = (r, record t { world = w })

  abbrev in_world : {A : Type 0} → Exec W A → Exec (Tally W) A
  in_world m t = back t (m t.world)

  abbrev mark : ℕ → String → Exec (Tally W) (Unit {0})
  mark i d t =
      (ok tt, record t { outcomes = set t.outcomes i (record { key_digest = d; state = pending }) })

  abbrev count_hit : ℕ → Exec (Tally W) (Unit {0})
  count_hit i t = (ok tt, record t { outcomes = with_state hit t.outcomes i; hits = suc t.hits })

  abbrev count_misses : ℕ → Exec (Tally W) (Unit {0})
  count_misses n t = (ok tt, record t { misses = t.misses + n })

  abbrev count_call : Exec (Tally W) (Unit {0})
  count_call t = (ok tt, record t { work_calls = suc t.work_calls })

  abbrev count_write : Exec (Tally W) (Unit {0})
  count_write t = (ok tt, record t { writes = suc t.writes })

  abbrev set_stored : ℕ → Exec (Tally W) (Unit {0})
  set_stored i t = (ok tt, record t { outcomes = with_state stored_state t.outcomes i })

module _ {K T R W : Type 0} where
  -- The loop over the items from index `i`.
  unfoldable pub group_all :
      CachedMapOptions K T R W → ℕ → List T → List (Group K T) → Exec (Tally W) (List (Group K T))
  unfolding add_item
  group_all o i [] gs = pure gs
  group_all o i (item ∷ items) gs =
      wrapping (wrapped "item %d: build cache key: %w") (lift (o.key item)) >>= λ k.
      wrapping (wrapped "item %d: validate cache key: %w") (lift (o.digest k)) >>= λ d.
      mark i d >> group_all o (suc i) items (add_item d k item i gs)

module _ {R W : Type 0} where
  abbrev notify : Option (Callback R W) → ℕ → R → Exec (Tally W) (Unit {0})
  notify none i v t = pure tt t
  notify (some f) i v t = in_world (f i v (outcome_at t.outcomes i)) t

  -- The loop over the indexes of a loaded group.
  unfoldable pub hit_all :
      Option (Callback R W) → R → List ℕ → List (Option R) → Exec (Tally W) (List (Option R))
  hit_all f v [] results = pure results
  hit_all f v (i ∷ is) results =
      count_hit i
      >> (wrapping (wrapped "notify cached result %d: %w") (notify f i v)
          >> hit_all f v is (set results i (some v)))

  -- The loop over the indexes of a stored group.
  unfoldable pub store_all : Option (Callback R W) → R → List ℕ → Exec (Tally W) (Unit {0})
  store_all f v [] = pure tt
  store_all f v (i ∷ is) =
      set_stored i
      >> (wrapping (wrapped "notify stored result %d: %w") (notify f i v) >> store_all f v is)

module _ {R : Type 0} where
  unfoldable pub place : R → List ℕ → List (Option R) → List (Option R)
  place v [] results = results
  place v (i ∷ is) results = place v is (set results i (some v))

  -- The results of the completed misses, at every index of their group.
  unfoldable pub place_all : List (Option (R × List ℕ)) → List (Option R) → List (Option R)
  unfolding place
  place_all [] results = results
  place_all (none ∷ rest) results = place_all rest results
  place_all (some (v, is) ∷ rest) results = place_all rest (place v is results)

module _ {K T R W : Type 0} (o : CachedMapOptions K T R W) (f : Option (Callback R W)) where
  abbrev Loaded : Type 0
  Loaded = List (Option R) × List (Group K T)

  abbrev after_load :
      Group K T → List (Option R) → List (Group K T) → Option R → Exec (Tally W) Loaded
  after_load g results misses none =
      count_misses (length g.indexes) >> pure (results, misses ++ (g ∷ []))
  after_load g results misses (some v) = hit_all f v g.indexes results >>= λ out. pure (out, misses)

  -- The loop over the groups.
  unfoldable pub load_all :
      List (Group K T) → List (Option R) → List (Group K T) → Exec (Tally W) Loaded
  unfolding hit_all
  load_all [] results misses = pure (results, misses)
  load_all (g ∷ gs) results misses =
      (wrapping (wrapped "load cache item %d: %w") (in_world (o.cache.load g.key))
        >>= after_load g results misses)
      >>= λ p. load_all gs p.0 p.1

  -- The work on a group, in its job.
  unfoldable pub work_group : (T → Exec W R) → Group K T → Exec (Tally W) (R × List ℕ)
  unfolding store_all
  work_group work g =
      count_call
      >> (in_world (work g.item) >>= λ v.
          wrapping (wrapped "store cache result: %w") (in_world (o.cache.store g.key v))
          >> (count_write >> (store_all f v g.indexes >> pure (v, g.indexes))))

  abbrev in_tally : Option (ℤ → Exec W (Unit {0})) → Option (ℤ → Exec (Tally W) (Unit {0}))
  in_tally none = none
  in_tally (some wait) = some (λ n. in_world (wait n))

  abbrev map_options : MapOptions (Group K T) (Tally W)
  map_options = record { limiter = in_tally o.limiter; cost = some (λ g. cost_of o.cost g.item) }

  module _ (schedule : List (Job (Group K T)) → List (Job (Group K T))) where
    abbrev finish : (T → Exec W R) → Loaded → Exec (Tally W) (List (Option R))
    finish work (results, []) = pure results
    finish work (results, g ∷ gs) =
        map_items schedule map_options (g ∷ gs) (some (work_group work)) >>= λ done.
        pure (place_all done results)

    abbrev map_groups : (T → Exec W R) → ℕ → List (Group K T) → Exec (Tally W) (List (Option R))
    map_groups work n gs = load_all gs (replicate n none) [] >>= finish work

    -- The body, for items that are there.
    unfoldable pub map_loaded : (T → Exec W R) → List T → Exec (Tally W) (List (Option R))
    unfolding group_all load_all work_group place_all map_items
    map_loaded work [] = pure []
    map_loaded work (x ∷ items) =
        group_all o 0 (x ∷ items) [] >>= map_groups work (length (x ∷ items))

-- A report before the first item.
abbrev pub new_tally : {W : Type 0} → ℕ → W → Tally W
new_tally n w = record {
  hits = 0;
  misses = 0;
  writes = 0;
  work_calls = 0;
  outcomes = replicate n no_outcome;
  world = w;
}

-- What MapCached is given, each part nil or there.
pub record Given (K T R W : Type 0) : Type 0 where
  pub cache : Option (CacheOps K R W)
  pub key : Option (T → Result K)
  pub digest : K → Result String
  pub limiter : Option (ℤ → Exec W (Unit {0}))
  pub cost : Option (T → ℤ)
  pub work : Option (T → Exec W R)
  pub callbacks : List (Option (Callback R W))

module _ {K T R W : Type 0} (schedule : List (Job (Group K T)) → List (Job (Group K T)))
    (g : Given K T R W) where
  abbrev options_of : CacheOps K R W → (T → Result K) → CachedMapOptions K T R W
  options_of cache key = record {
    cache = cache;
    key = key;
    digest = g.digest;
    limiter = g.limiter;
    cost = g.cost;
  }

  abbrev with_callbacks :
      CachedMapOptions K T R W
      → (T → Exec W R)
      → List (Option (Callback R W))
      → List T
      → Exec (Tally W) (List (Option R))
  with_callbacks o work [] items = map_loaded o none schedule work items
  with_callbacks o work (none ∷ []) items =
      raise (message "at most one non-nil result callback is allowed")
  with_callbacks o work (some f ∷ []) items = map_loaded o (some f) schedule work items
  with_callbacks o work (a ∷ b ∷ fs) items =
      raise (message "at most one non-nil result callback is allowed")

  abbrev checked :
      Option (CacheOps K R W)
      → Option (T → Result K)
      → Option (T → Exec W R)
      → List T
      → Exec (Tally W) (List (Option R))
  checked none key work items = raise (message "cache is required")
  checked (some cache) none work items = raise (message "cache key function is required")
  checked (some cache) (some key) none items = raise (message "work function is required")
  checked (some cache) (some key) (some work) items =
      with_callbacks (options_of cache key) work g.callbacks items

  -- MapCached: the results or an error, and the report with the world.
  unfoldable pub map_cached : List T → W → Result (List (Option R)) × Tally W
  unfolding map_loaded
  map_cached items w = checked g.cache g.key g.work items (new_tally (length items) w)
