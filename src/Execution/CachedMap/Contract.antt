-- ===== src/Execution/CachedMap/Contract.antt =====
-- What MapCached in execution/cached_map.go relies on of its cache, work, limiter and callback.
use flowkit.Base.{◌≡◌, sym, subst, ℕ, String, true, Option, some}
use flowkit.Base.Int.{ℤ, pos, ltb_ℤ}
use flowkit.Errors.{Error, Result, ok, err, ◌>>=◌ as bind_result}
use flowkit.Exec.{Exec}
use flowkit.Exec.Yields.{After, Yields}
use flowkit.Execution.Outcome.{CacheOutcome}
use flowkit.Execution.Map.{cost_of, admitted}
use flowkit.Execution.CachedMap.{Tally, CachedMapOptions, Callback, back, in_world}

-- What MapCached relies on of the functions that it is given. `f` is what the work makes of an item: it
-- is the same for items of one digest, and what the cache may have for their key. An error of one of
-- the functions, an item without a key and a cost that is not positive are `Fails`.
pub record Contract {K T R W : Type 0} (Fails : Type 0) (Good : W → Type 0)
    (o : CachedMapOptions K T R W) (work : T → Exec W R) (call : Option (Callback R W)) (f : T → R)
    : Type 0 where
  pub keys : (x : T) (e : Error) → o.key x ≡ err e → Fails
  pub digests : (k : K) (e : Error) → o.digest k ≡ err e → Fails
  pub same :
      (x y : T) (d : String)
      → bind_result (o.key x) o.digest ≡ ok d
      → bind_result (o.key y) o.digest ≡ ok d
      → f x ≡ f y
  pub loads :
      (x : T) (k : K)
      → o.key x ≡ ok k
      → Yields Fails Good (λ r. (v : R) → r ≡ some v → v ≡ f x) (o.cache.load k)
  pub stores :
      (x : T) (k : K) → o.key x ≡ ok k → Yields Fails Good (λ u. Unit) (o.cache.store k (f x))
  pub works : (x : T) → Yields Fails Good (λ v. v ≡ f x) (work x)
  pub admits : (n : ℤ) → Yields Fails Good (λ u. Unit) (admitted o.limiter n)
  pub costs : (x : T) → ltb_ℤ (cost_of o.cost x) (pos 1) ≡ true → Fails
  pub notifies :
      (g : Callback R W) (i : ℕ) (v : R) (c : CacheOutcome)
      → call ≡ some g
      → Yields Fails Good (λ u. Unit) (g i v c)

module _ {W : Type 0} (Fails : Type 0) (Good : W → Type 0) where
  abbrev pub GoodTally : Tally W → Type 0
  GoodTally t = Good t.world

  pub in_world-Yields :
      {A : Type 0} (P : A → Type 0) (m : Exec W A)
      → Yields Fails Good P m
      → Yields Fails GoodTally P (in_world m)
  in_world-Yields P m h = record { at = λ t i. carried t (m t.world) (h.at t.world i) }
    where
      carried :
          (t : Tally W) (r : Result _ × W)
          → After Fails Good P r
          → After Fails GoodTally P (back t r)
      carried t (ok a, w) h = h
      carried t (err e, w) h = h

  -- A write to the report alone.
  pub counts-Yields :
      (m : Exec (Tally W) (Unit {0}))
      → ((t : Tally W) → (m t).0 ≡ ok tt)
      → ((t : Tally W) → (m t).1.world ≡ t.world)
      → Yields Fails GoodTally (λ u. Unit) m
  counts-Yields m h same = record { at = λ t i. kept (m t) (h t) (subst Good (sym (same t)) i) }
    where
      kept :
          (r : Result (Unit {0}) × Tally W)
          → r.0 ≡ ok tt
          → Good r.1.world
          → After Fails GoodTally (λ u. Unit) r
      kept (ok u, t) e i = (tt, i)
      kept (err x, t) e i = cc

  abbrev pub Ensures : {A : Type 0} → (A → Type 0) → Exec (Tally W) A → Type 0
  Ensures P m = Yields Fails GoodTally P m
