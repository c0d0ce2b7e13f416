-- ===== src/Execution/Group.antt =====
-- The grouping of duplicate keys in MapCached and MapCachedBatches (execution/cached_map.go,
-- execution/cached_batch_map.go), and the bounded batches of the second.
pub mod Positions
use flowkit.Base.{
  ◌-◌, ◌^◌, ◌||◌, ℕ, zero, suc, ◌+◌, String, Bool, true, false, Option, none, some, List, [], ◌∷◌,
  ◌++◌, ltb, leb, if◌then◌else◌, str_eq, length, take, drop,
}
use flowkit.Base.Int.{ℤ, pos, ◌+ℤ◌, ltb_ℤ, wrap64}
use flowkit.Errors.{Error, message, Result, ok, err, ◌>>=◌}

-- keyGroup, with the digest that groupByDigest has for it
pub record Group (K T : Type 0) : Type 0 where
  pub digest : String
  pub key : K
  pub item : T
  pub indexes : List ℕ

module _ {K T : Type 0} where
  -- An index joins the group of its digest, or starts one at the end.
  unfoldable pub add_item : String → K → T → ℕ → List (Group K T) → List (Group K T)
  add_item d k item i [] = record { digest = d; key = k; item = item; indexes = i ∷ [] } ∷ []
  add_item d k item i (g ∷ gs) =
      let rest = add_item d k item i gs in
      if str_eq g.digest d then record g { indexes = g.indexes ++ (i ∷ []) } ∷ gs else g ∷ rest

  -- The loop over the items from index `i`; the key of an item may fail, and its digest too.
  unfoldable pub group_items :
      (T → Result K)
      → (K → Result String)
      → ℕ
      → List T
      → List (Group K T)
      → Result (List (Group K T))
  unfolding add_item
  group_items key digest i [] gs = ok gs
  group_items key digest i (item ∷ items) gs = key item >>= λ k.
      digest k >>= λ d. group_items key digest (suc i) items (add_item d k item i gs)

-- make of the batches with room for (n + size - 1) / size of them: the sum of the ints wraps past
-- 2 ^ 63 - 1, and make panics where the wrapped sum divides to a negative room. (A division of ints
-- goes towards 0, so a negative sum above -size gives room 0.)
unfoldable pub room_fits : ℕ → ℕ → Bool
room_fits n size = ltb (n + size - 1) (2 ^ 63) || ltb (2 ^ 64 - (n + size - 1)) size

module _ {T : Type 0} where
  -- The loop over the misses in steps of the batch size; each round takes at least one, so their
  -- number is fuel enough.
  unfoldable pub batches_of : ℕ → ℕ → List T → List (List T)
  batches_of zero size items = []
  batches_of (suc fuel) size [] = []
  batches_of (suc fuel) size (x ∷ items) =
      take size (x ∷ items) ∷ batches_of fuel size (drop size (x ∷ items))

  -- The batches, or the panic as an error.
  unfoldable pub make_batches : ℕ → List T → Result (List (List T))
  unfolding batches_of room_fits
  make_batches size items =
      if room_fits (length items) size
      then ok (batches_of (length items) size items)
      else err (message "makeslice: cap out of range")

  -- The cost of a batch: every item costs at least one unit, and the sum is an int that wraps.
  unfoldable pub batch_cost : (T → ℤ) → ℤ → List T → Result ℤ
  unfolding wrap64
  batch_cost cost total [] = ok total
  batch_cost cost total (x ∷ xs) =
      let rest = batch_cost cost (wrap64 (total +ℤ cost x)) xs in
      if ltb_ℤ (cost x) (pos 1)
      then err (message "item %d: resource cost must be positive")
      else rest
