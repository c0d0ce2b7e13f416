-- ===== src/Examples/Mapped.antt =====
-- MapCached and Map at concrete inputs: texts that are their own keys and values.
use flowkit.Base.{◌≡◌, ℕ, String, Option, none, some, List, [], ◌∷◌}
use flowkit.Base.Assoc.{Assoc, lookup, insert}
use flowkit.Errors.{ok}
use flowkit.Exec.{Exec, pure}
use flowkit.Exec.Yields.{Yields}
use flowkit.Execution.Map.{Job, MapOptions}
use flowkit.Execution.CachedMap.{CachedMapOptions}
use flowkit.Execution.CachedMap.Contract.{Contract}

abbrev look : String → Exec (Assoc String) (Option String)
look k w = (ok (lookup k w), w)

abbrev keep : String → String → Exec (Assoc String) (Unit {0})
keep k v w = (ok tt, insert k v w)

abbrev options : CachedMapOptions String String String (Assoc String)
options = record {
  cache = record { load = look; store = keep };
  key = λ s. ok s;
  digest = λ k. ok k;
  limiter = none;
  cost = none;
}

abbrev echo : String → Exec (Assoc String) String
echo s = pure s

-- What is kept is its own key.
abbrev OwnValues : Assoc String → Type 0
OwnValues w = (k v : String) → lookup k w ≡ some v → v ≡ k

-- The first two jobs of a list, the other way round.
abbrev turned : {T : Type 0} → List (Job T) → List (Job T)
turned [] = []
turned (a ∷ []) = a ∷ []
turned (a ∷ b ∷ js) = b ∷ a ∷ js

abbrev asked : List String
asked = "b" ∷ "a" ∷ "c" ∷ "a" ∷ []

abbrev filled : Assoc String
filled = ("c", "c") ∷ []

abbrev unlimited : MapOptions String ℕ
unlimited = record { limiter = none; cost = none }

abbrev same_text : String → Exec ℕ String
same_text s = pure s
