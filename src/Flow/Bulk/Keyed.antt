-- ===== src/Flow/Bulk/Keyed.antt =====
-- The groups of a bulk step have every index, and each group one digest: flow/bulk.go.
use flowkit.Base.{
  ◌≡◌, refl, ap, subst, get_elem?, All, ℕ, zero, suc, ◌+◌, ◌<◌, String, some, List, [], ◌∷◌, ◌++◌,
  length, arith,
}
use mathlib.Core.List.{Memᴰ}
use flowkit.Errors.{Result, ok, ok-injective, >>=-eq-ok}
use flowkit.Execution.CachedMap.Groups.{
  all_indexes, add_item-old, add_item-new, IsGroup, add_item-IsGroup,
}
use flowkit.Execution.Group.{add_item, group_items}
use flowkit.Flow.Bulk.{KeyGroup}
use flowkit.Flow.Bulk.Engine.{batch_indexes, single_groups}

module _ {V : Type 0} where
  pub same_indexes : (gs : List (KeyGroup V)) → all_indexes gs ≡ batch_indexes gs
  unfolding all_indexes batch_indexes
  same_indexes [] = refl
  same_indexes (g ∷ gs) = ap (λ t. g.indexes ++ t) (same_indexes gs)

  grouped_old :
      (key : V → Result String) (i n : ℕ) (items : List V) (gs out : List (KeyGroup V))
      → group_items key (λ d. ok d) i items gs ≡ ok out
      → Memᴰ n (all_indexes gs)
      → Memᴰ n (all_indexes out)
  unfolding group_items
  grouped_old key i n [] gs out e h = subst (λ t. Memᴰ n (all_indexes t)) (ok-injective e) h
  grouped_old key i n (v ∷ items) gs out e h =
      let (k, kd, rest) = >>=-eq-ok (key v) _ e in
      grouped_old key (suc i) n items (add_item k k v i gs) out rest (add_item-old k k v i n gs h)

  pub grouped_new :
      (key : V → Result String) (i k : ℕ) (items : List V) (gs out : List (KeyGroup V))
      → group_items key (λ d. ok d) i items gs ≡ ok out
      → k < length items
      → Memᴰ (i + k) (all_indexes out)
  unfolding group_items
  grouped_new key i k [] gs out e h = absurd (omega arith)
  grouped_new key i zero (v ∷ items) gs out e h =
      let (d, kd, rest) = >>=-eq-ok (key v) _ e in
      grouped_old key (suc i) (i + 0) items (add_item d d v i gs) out rest (
        subst (λ n. Memᴰ n (all_indexes (add_item d d v i gs))) (omega arith)
          (add_item-new d d v i gs))
  grouped_new key i (suc k) (v ∷ items) gs out e h =
      let (d, kd, rest) = >>=-eq-ok (key v) _ e in
      subst (λ n. Memᴰ n (all_indexes out)) (omega arith)
        (grouped_new key (suc i) k items (add_item d d v i gs) out rest (omega arith))

  pub single_cover :
      (i k : ℕ) (items : List V)
      → k < length items
      → Memᴰ (i + k) (batch_indexes (single_groups i items))
  unfolding single_groups batch_indexes
  single_cover i k [] h = absurd (omega arith)
  single_cover i zero (v ∷ items) h = Memᴰ.head (omega arith)
  single_cover i (suc k) (v ∷ items) h = Memᴰ.tail (
      subst (λ n. Memᴰ n (batch_indexes (single_groups (suc i) items))) (omega arith)
        (single_cover (suc i) k items (omega arith)))

  pub grouped-IsGroup :
      (key : V → Result String) (items : List V) (n : ℕ) (rest : List V)
      (gs out : List (KeyGroup V))
      → group_items key (λ d. ok d) n rest gs ≡ ok out
      → ((k : ℕ) (x : V) → get_elem? rest k ≡ some x → get_elem? items (n + k) ≡ some x)
      → All (IsGroup key (λ d. ok d) items) gs
      → All (IsGroup key (λ d. ok d) items) out
  unfolding group_items
  grouped-IsGroup key items n [] gs out e at h =
      subst (All (IsGroup key (λ d. ok d) items)) (ok-injective e) h
  grouped-IsGroup key items n (v ∷ rest) gs out e at h =
      let (k, kd, more) = >>=-eq-ok (key v) _ e in
      grouped-IsGroup key items (suc n) rest (add_item k k v n gs) out more
        (λ j y g. subst (λ m. get_elem? items m ≡ some y) (omega arith) (at (suc j) y g))
        (add_item-IsGroup key (λ d. ok d) items k k v n gs kd refl
          (subst (λ m. get_elem? items m ≡ some v) (omega arith) (at 0 v refl)) h)
