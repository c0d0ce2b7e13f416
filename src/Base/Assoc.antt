-- ===== src/Base/Assoc.antt =====
-- Go maps with string keys as association lists: a key occurs once, and a write keeps the place of
-- a key that is there. The program never depends on the order in which it ranges over a map.
use mathlib.Core.Path.{◌≡◌, refl}
use mathlib.Core.Bool.{Bool, true, false}
use mathlib.Core.Option.{Option, none, some}
use mathlib.Core.List.{List, [], ◌∷◌}
use native.Mathlib.Omega.{arith}
use Prim.Native.String.{String}
use text.Mathlib.Text.{◌==◌}
use text.Mathlib.TextEquality.{eq_iff}
use text.Mathlib.TextPositions.{eq_refl}
use flowkit.Base.Tests.{if◌then◌else◌}

abbrev pub Assoc {ℓ} : Type ℓ → Type ℓ
Assoc V = List (String × V)

module _ {ℓ} {V : Type ℓ} where
  unfoldable pub lookup : String → Assoc V → Option V
  lookup key [] = none
  lookup key ((name, value) ∷ rest) = if name == key then some value else lookup key rest

  unfoldable pub insert : String → V → Assoc V → Assoc V
  insert key new [] = (key, new) ∷ []
  insert key new ((name, value) ∷ rest) =
      if name == key then (key, new) ∷ rest else (name, value) ∷ insert key new rest

  -- One law for a key and for the others.
  pub lookup-insert :
      (key other : String) (new : V) (entries : Assoc V)
      → lookup other (insert key new entries)
        ≡ (if key == other then some new else lookup other entries)
  unfolding lookup insert
  lookup-insert key other new [] = refl
  lookup-insert key other new ((name, value) ∷ rest) = ground (
    arith,
    lookup-insert key other new rest,
    eq_iff name key,
    eq_iff name other,
    eq_iff key other,
  )

  pub lookup-insert_ne :
      (key other : String) (new : V) (entries : Assoc V)
      → (key == other) ≡ false
      → lookup other (insert key new entries) ≡ lookup other entries
  lookup-insert_ne key other new entries apart = rw (lookup-insert, apart)

  pub lookup-insert_self :
      (key : String) (new : V) (entries : Assoc V) → lookup key (insert key new entries) ≡ some new
  lookup-insert_self key new entries = simp (lookup-insert, eq_refl)

  -- delete(m, key), and every entry of the name
  unfoldable pub erase : String → Assoc V → Assoc V
  erase key [] = []
  erase key ((name, value) ∷ rest) =
      let others = erase key rest in if name == key then others else (name, value) ∷ others

  pub lookup-erase :
      (key other : String) (entries : Assoc V)
      → lookup other (erase key entries) ≡ (if key == other then none else lookup other entries)
  unfolding lookup erase
  lookup-erase key other [] = ground arith
  lookup-erase key other ((name, value) ∷ rest) =
      ground
        (arith, eq_iff key other, eq_iff name other, eq_iff name key, lookup-erase key other rest)

  unfoldable pub contains : String → Assoc V → Bool
  contains key entries = elim (lookup key entries) [ none ↦ false | some value ↦ true ]
