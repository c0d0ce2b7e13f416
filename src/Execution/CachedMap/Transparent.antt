-- ===== src/Execution/CachedMap/Transparent.antt =====
-- MapCached gives what its work gives: execution/cached_map.go.
use flowkit.Base.{Option, none, some, List, [], ◌∷◌}
use flowkit.Exec.{Exec}
use flowkit.Exec.Yields.{Yields}
use flowkit.Execution.Group.{Group}
use flowkit.Execution.CachedMap.{CachedMapOptions, Callback, Given}
use flowkit.Execution.CachedMap.Contract.{Contract}

abbrev pub listed : {A : Type 0} → Option A → List (Option A)
listed none = []
listed (some a) = some a ∷ []

-- A call of MapCached with nothing nil.
abbrev pub given :
    {K T R W : Type 0}
    → CachedMapOptions K T R W
    → (T → Exec W R)
    → Option (Callback R W)
    → Given K T R W
given o work call = record {
  cache = some o.cache;
  key = some o.key;
  digest = o.digest;
  limiter = o.limiter;
  cost = o.cost;
  work = some work;
  callbacks = listed call;
}
