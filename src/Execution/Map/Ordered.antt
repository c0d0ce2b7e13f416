-- ===== src/Execution/Map/Ordered.antt =====
-- Map's results stand in the order of its items: execution/map.go.
use flowkit.Base.{
  ◌≡◌, refl, ap, ℕ, zero, suc, true, Option, some, List, [], ◌∷◌, map, length, get_elem?,
}
use flowkit.Base.Int.{ℤ, pos, ltb_ℤ}
use flowkit.Exec.{Exec}
use flowkit.Exec.Yields.{Yields}
use flowkit.Execution.Map.{Job, MapOptions, cost_of, admitted}

abbrev pub results_of : {T R : Type 0} → (T → R) → List T → List (Option R)
results_of f items = map (λ x. some (f x)) items

pub get_elem?-results_of :
    {T R : Type 0} (f : T → R) (items : List T) (k : ℕ) (x : T)
    → get_elem? items k ≡ some x
    → get_elem? (results_of f items) k ≡ some (some (f x))
get_elem?-results_of f [] k x h = cc
get_elem?-results_of f (y ∷ items) zero x h = heads h
  where
    heads : some y ≡ some x → some (some (f y)) ≡ some (some (f x))
    heads e = cc
get_elem?-results_of f (y ∷ items) (suc k) x h = get_elem?-results_of f items k x h

pub length-results_of :
    {T R : Type 0} (f : T → R) (items : List T) → length (results_of f items) ≡ length items
length-results_of f [] = refl
length-results_of f (x ∷ items) = ap suc (length-results_of f items)

-- What Map relies on of the functions that it calls: admission and work keep an invariant of the state,
-- work returns the item's value, and costs are positive, or else `Fails`.
pub record Sound {T R S : Type 0} (Fails : Type 0) (Inv : S → Type 0) (o : MapOptions T S)
    (work : T → Exec S R) (f : T → R) (P : T → Type 0) : Type 0 where
  pub admits : (n : ℤ) → Yields Fails Inv (λ a. Unit) (admitted o.limiter n)
  pub works : (x : T) → P x → Yields Fails Inv (λ r. r ≡ f x) (work x)
  pub costs : (x : T) → P x → ltb_ℤ (cost_of o.cost x) (pos 1) ≡ true → Fails

module _ {T R S : Type 0} (Fails : Type 0) (Inv : S → Type 0) (o : MapOptions T S)
    (work : T → Exec S R) (f : T → R) (P : T → Type 0) (law : Sound Fails Inv o work f P) where
  -- A job is an item at its index.
  abbrev IsJob : List T → Job T → Type 0
  IsJob items (i, x) = (get_elem? items i ≡ some x) × P x
