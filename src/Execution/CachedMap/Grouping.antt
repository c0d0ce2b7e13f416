-- ===== src/Execution/CachedMap/Grouping.antt =====
-- The groups that MapCached builds have every index: execution/cached_map.go.
use flowkit.Base.{
  ◌≡◌, refl, sym, subst, ℕ, suc, ◌+◌, ◌<◌, String, true, false, Option, some, List, [], ◌∷◌, length,
  get_elem?, ◌==◌, ==_iff, Bool-cases, ◌⊎◌, inl, inr, All, arith,
}
use mathlib.Core.List.{Memᴰ}
use flowkit.Errors.{Error, Result, ok, err}
use flowkit.Exec.{Exec, lift}
use flowkit.Exec.Yields.{bind-Yields, seq-Yields, pure-Yields, raise-Yields, wrapping-Yields}
use flowkit.Execution.Group.{Group, add_item}
use flowkit.Execution.CachedMap.{CachedMapOptions, Callback, mark, group_all}
use flowkit.Execution.CachedMap.Groups.{
  all_indexes, IsGroup, add_item-IsGroup, add_item-old, add_item-new,
}
use flowkit.Execution.CachedMap.Contract.{Contract, GoodTally, Ensures, counts-Yields}

module _ {K T R W : Type 0} (Fails : Type 0) (Good : W → Type 0) (o : CachedMapOptions K T R W)
    (work : T → Exec W R) (call : Option (Callback R W)) (f : T → R)
    (law : Contract Fails Good o work call f) where
  lift-Ensures :
      {A : Type 0} (r : Result A)
      → ((e : Error) → r ≡ err e → Fails)
      → Ensures Fails Good (λ a. r ≡ ok a) (lift r)
  lift-Ensures (ok a) h = pure-Yields Fails (GoodTally Fails Good) _ a refl
  lift-Ensures (err e) h = raise-Yields Fails (GoodTally Fails Good) _ e (h e refl)

  -- The groups of the items so far.
  pub record Grouped (items : List T) (n : ℕ) (gs : List (Group K T)) : Type 0 where
    pub groups : All (IsGroup o.key o.digest items) gs
    pub covers : (j : ℕ) → j < n → Memᴰ j (all_indexes gs)

  grow :
      (items : List T) (n : ℕ) (gs : List (Group K T)) (x : T) (k : K) (d : String)
      → get_elem? items n ≡ some x
      → o.key x ≡ ok k
      → o.digest k ≡ ok d
      → Grouped items n gs
      → Grouped items (suc n) (add_item d k x n gs)
  grow items n gs x k d e kd hd h = record {
    groups = add_item-IsGroup o.key o.digest items d k x n gs kd hd e h.groups;
    covers = λ j b. covered j b (Bool-cases (j == n));
  }
    where
      covered :
          (j : ℕ)
          → j < suc n
          → ((j == n) ≡ true) ⊎ ((j == n) ≡ false)
          → Memᴰ j (all_indexes (add_item d k x n gs))
      covered j b (inl same) =
          subst (λ i. Memᴰ i (all_indexes (add_item d k x n gs))) (sym ((==_iff j n).0 same))
            (add_item-new d k x n gs)
      covered j b (inr other) = add_item-old d k x n j gs (h.covers j (ground (arith, ==_iff j n)))

  pub group_all-Ensures :
      (items : List T) (n : ℕ) (rest : List T) (gs : List (Group K T))
      → n + length rest ≡ length items
      → ((k : ℕ) (x : T) → get_elem? rest k ≡ some x → get_elem? items (n + k) ≡ some x)
      → Grouped items n gs
      → Ensures Fails Good (Grouped items (length items)) (group_all o n rest gs)
  unfolding group_all
  group_all-Ensures items n [] gs e at h =
      pure-Yields Fails (GoodTally Fails Good) _ gs
        (subst (λ m. Grouped items m gs) (omega arith) h)
  group_all-Ensures items n (x ∷ rest) gs e at h =
      bind-Yields Fails (GoodTally Fails Good) _ _ _ _
        (wrapping-Yields Fails (GoodTally Fails Good) _ _ _ (lift-Ensures (o.key x) (law.keys x)))
        (λ k kd.
          bind-Yields Fails (GoodTally Fails Good) _ _ _ _
            (wrapping-Yields Fails (GoodTally Fails Good) _ _ _
              (lift-Ensures (o.digest k) (law.digests k)))
            (λ d hd.
              seq-Yields Fails (GoodTally Fails Good) _ (mark n d) _
                (counts-Yields Fails Good (mark n d) (λ t. refl) (λ t. refl))
                (group_all-Ensures items (suc n) rest (add_item d k x n gs) (omega arith)
                  (λ j y g. subst (λ m. get_elem? items m ≡ some y) (omega arith) (at (suc j) y g))
                  (grow items n gs x k d
                    (subst (λ m. get_elem? items m ≡ some x) (omega arith) (at 0 x refl)) kd hd
                    h))))
