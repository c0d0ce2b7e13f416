-- ===== src/Flow/Env/Counted.antt =====
-- What the loop of `ensure` adds up: flow/run.go. The sums are written here a second time, over the
-- resources that the call declares.
use flowkit.Base.{
  ◌≡◌, refl, sym, ap, subst, ◌∙◌, ℕ, zero, suc, ◌+◌, ltb, true, false, arith, inl, inr, String,
  Bool, Option, none, some, List, [], ◌∷◌, ◌++◌,
}
use mathlib.Core.List.{append_assoc, append-nil}
use flowkit.Base.Int.{ℤ, pos, negsuc}
use flowkit.Base.Assoc.{Assoc, lookup, insert}
use flowkit.Base.Float.{FloatOps}
use flowkit.Errors.{ok, ok-injective, >>=-eq-ok}
use flowkit.Flow.Policy.{Resource}
use flowkit.Flow.Env.{
  Preflight, StagePlan, Prospect, check_plan, check_plans, add_usd, add_unpriced,
}
use flowkit.Flow.Env.Ensure.{check_plan_cases}

positive : (n : ℕ) → ltb 0 (suc n + 0) ≡ true
positive n = ground arith

negative : (n : ℕ) → ltb (0 + suc n) 0 ≡ false
negative n = ground arith

module _ {F : Type 0} where
  -- The plans `q` are the plans `p` with the resources written to them in their order, each under a
  -- name that has none when its turn comes.
  abbrev pub Written : Assoc (Resource F) → List (Resource F) → Assoc (Resource F) → Type 0
  Written p [] q = (n : String) → lookup n q ≡ lookup n p
  Written p (r ∷ rs) q = (lookup r.name p ≡ none) × Written (insert r.name r p) rs q

  pub Written-same :
      (p q q' : Assoc (Resource F)) (rs : List (Resource F))
      → ((n : String) → lookup n q' ≡ lookup n q)
      → Written p rs q
      → Written p rs q'
  Written-same p q q' [] h w = λ n. h n ∙ w n
  Written-same p q q' (r ∷ rs) h w = (w.0, Written-same (insert r.name r p) q q' rs h w.1)

  abbrev name_before : ℤ → Option F → String → List String → List String
  name_before (pos (suc n)) none name names = name ∷ names
  name_before _ _ name names = names

  -- The names of the resources that may be used and have no price.
  abbrev pub without_price : List (Resource F) → List String
  without_price [] = []
  without_price (r ∷ rs) = name_before r.ceiling r.unit_usd r.name (without_price rs)

  added_name :
      (r : Resource F) (c : ℤ) (o : Option F) (names rest : List String)
      → add_unpriced (record r { ceiling = c; unit_usd = o }) names ++ rest
        ≡ names ++ name_before c o r.name rest
  added_name r (pos (suc n)) none names rest =
      rw (positive n) (append_assoc names (r.name ∷ []) rest)
  added_name r (pos (suc n)) (some x) names rest = rw (positive n)
  added_name r (pos zero) o names rest = refl
  added_name r (negsuc n) o names rest = rw (negative n)

module _ {F : Type 0} (fl : FloatOps F) where
  abbrev usd_after : ℤ → Option F → F → F
  usd_after (pos (suc n)) (some x) usd = fl.add_f usd (fl.mul_f (fl.of_int (pos (suc n))) x)
  usd_after _ _ usd = usd

  -- A cost, and then the ceiling of each resource times its price.
  abbrev pub total_usd : F → List (Resource F) → F
  total_usd usd [] = usd
  total_usd usd (r ∷ rs) = total_usd (usd_after r.ceiling r.unit_usd usd) rs

  added_usd :
      (r : Resource F) (c : ℤ) (o : Option F) (usd : F)
      → add_usd fl (record r { ceiling = c; unit_usd = o }) usd ≡ usd_after c o usd
  added_usd r (pos (suc n)) none usd = rw (positive n)
  added_usd r (pos (suc n)) (some x) usd = rw (positive n)
  added_usd r (pos zero) o usd = refl
  added_usd r (negsuc n) o usd = rw (negative n)

  -- What a list of resources adds to a cost and to the names without a price.
  pub record Counts (p q : Prospect F) (news : List (Resource F)) : Type 0 where
    pub written : Written p.plans news q.plans
    pub usd : q.usd ≡ total_usd p.usd news
    pub names : q.unpriced ≡ p.unpriced ++ without_price news

  Counts-one :
      (rates : String → Bool) (s : StagePlan F) (p m q : Prospect F) (rs : List (Resource F))
      → lookup s.resource.name p.plans ≡ none
      → m.plans ≡ insert s.resource.name s.resource p.plans
      → m.usd ≡ add_usd fl s.resource p.usd
      → m.unpriced ≡ add_unpriced s.resource p.unpriced
      → Counts m q rs
      → Counts p q (s.resource ∷ rs)
  Counts-one rates s p m q rs l e u n c = record {
    written = (l, subst (λ x. Written x rs q.plans) e c.written);
    usd =
        c.usd
        ∙ ap (λ x. total_usd x rs)
            (u ∙ added_usd s.resource s.resource.ceiling s.resource.unit_usd p.usd);
    names =
        c.names
        ∙ ap (λ x. x ++ without_price rs) n
        ∙ added_name s.resource s.resource.ceiling s.resource.unit_usd p.unpriced
            (without_price rs);
  }

  -- The loop counts the resources that it declares, each once.
  pub loop-Counts :
      (rates : String → Bool) (gate : Option (Preflight F)) (ss : List (StagePlan F))
      (p q : Prospect F)
      → check_plans fl rates gate ss p ≡ ok q
      → (news : List (Resource F)) × Counts p q news
  unfolding check_plans
  loop-Counts rates gate [] p q h = (
    [],
    subst (λ x. Counts p x []) (ok-injective h)
        (record { written = λ n. refl; usd = refl; names = sym (append-nil p.unpriced) }),
  )
  loop-Counts rates gate (s ∷ ss) p q h =
      let (m, k, r) = >>=-eq-ok (check_plan fl rates gate s p) _ h in
      let (news, c) = loop-Counts rates gate ss m q r in
      elim ((check_plan_cases fl rates gate s p m k).1) [
        | inl (j, e) ↦ (news, subst (λ x. Counts x q news) e c)
        | inr (b, l, a, n, e) ↦ (
          s.resource ∷ news,
          Counts-one rates s p m q news l (ap (λ (x : Prospect F). x.plans) e)
              (ap (λ (x : Prospect F). x.usd) e) (ap (λ (x : Prospect F). x.unpriced) e) c,
        )
      ]
