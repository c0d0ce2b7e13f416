-- ===== src/Flow/Env/Settled.antt =====
-- What a successful `ensure` has checked, and that declaring the same plans again changes nothing:
-- flow/run.go, ensure.
use flowkit.Base.{
  ◌≡◌, refl, sym, subst, ◌∙◌, inl, inr, String, Bool, true, false, ◌||◌, Option, none, some, List,
  [], ◌∷◌, ◌++◌, arith, if◌then◌else◌, Option-cases, ap, str_eq, str_eq_iff, All, All-map,
}
use flowkit.Base.Int.{pos, ◌≤ℤ◌}
use flowkit.Base.Assoc.{Assoc, lookup, insert, lookup-insert, lookup-insert_self}
use flowkit.Base.Float.{FloatOps, is_amount}
use flowkit.Base.Text.{is_blank}
use flowkit.Errors.{ok, ok-injective, >>=-eq-ok}
use flowkit.Flow.Policy.{Resource}
use flowkit.Flow.Env.{
  Preflight, StagePlan, RunEnv, PendingPlan, Prospect, is_reference, resource_plans_equal,
  check_amounts, check_plan, check_plans, check_limit, check_gate, admit_plans, prospect, settle,
  ensure,
}
use flowkit.Flow.Env.Counted.{Written, Written-same, total_usd, without_price, loop-Counts}
use flowkit.Flow.Env.Ensure.{
  Joins, check_plan_cases, plans-admit_plans, prospect-Tracks, check_plans-Tracks, ensure-parts,
}

module _ {F : Type 0} (fl : FloatOps F) where
  -- A documented law of float64: a finite value equals itself.
  abbrev pub SelfEqual : Type 0
  SelfEqual = (x : F) → fl.is_finite x ≡ true → fl.eq_f x x ≡ true

  plans_equal_self :
      (gate : Option (Preflight F)) (r : Resource F) (o : Option F)
      → SelfEqual
      → r.unit_usd ≡ o
      → check_amounts fl gate r ≡ ok tt
      → resource_plans_equal fl r r ≡ true
  unfolding resource_plans_equal check_amounts
  plans_equal_self gate r none se e h = ground (arith, str_eq_iff r.name r.name)
  plans_equal_self gate r (some x) se e h = ground (arith, str_eq_iff r.name r.name, se x)

  -- The plan has a name, and joins one that is there.
  abbrev pub IsSettled : Assoc (Resource F) → StagePlan F → Type 0
  IsSettled plans s = (is_blank s.resource.name ≡ false) × Joins fl s plans

  -- Nothing that is declared is changed.
  abbrev Grows : Assoc (Resource F) → Assoc (Resource F) → Type 0
  Grows p q = (n : String) (r : Resource F) → lookup n p ≡ some r → lookup n q ≡ some r

  IsSettled-Grows :
      (p q : Assoc (Resource F)) (s : StagePlan F) → Grows p q → IsSettled p s → IsSettled q s
  IsSettled-Grows p q s g (b, (e, l, j)) = (b, (e, g _ e l, j))

  insert-Grows :
      (n : String) (r : Resource F) (p : Assoc (Resource F))
      → lookup n p ≡ none
      → Grows p (insert n r p)
  insert-Grows n r p h m v e = ground (arith, lookup-insert n m r p, str_eq_iff n m)

  loop-Grows :
      (rates : String → Bool) (gate : Option (Preflight F)) (ss : List (StagePlan F))
      (p q : Prospect F)
      → check_plans fl rates gate ss p ≡ ok q
      → Grows p.plans q.plans
  unfolding check_plans
  loop-Grows rates gate [] p q h = rw (ok-injective h) (λ n r l. l)
  loop-Grows rates gate (s ∷ ss) p q h =
      let (m, k, r) = >>=-eq-ok (check_plan fl rates gate s p) _ h in
      let g = loop-Grows rates gate ss m q r in
      elim ((check_plan_cases fl rates gate s p m k).1) [
        | inl (j, e) ↦ λ n v l. g n v (rw e l)
        | inr (d, l, a, b, e) ↦ λ n v o. g n v (rw e (insert-Grows _ _ _ l n v o))
      ]

  round_settles :
      SelfEqual
      → (rates : String → Bool) (gate : Option (Preflight F)) (s : StagePlan F) (p q : Prospect F)
      → check_plan fl rates gate s p ≡ ok q
      → IsSettled q.plans s
  round_settles se rates gate s p q h =
      let (b, c) = check_plan_cases fl rates gate s p q h in
      elim c [
        | inl (j, e) ↦ rw e (b, j)
        | inr (d, l, a, n, e) ↦ rw e (
          b,
          (
            s.resource,
            lookup-insert_self _ _ _,
            or_right (is_reference s.resource) _ (plans_equal_self gate s.resource _ se refl a),
          ),
        )
      ]
    where
      or_right : (a b : Bool) → b ≡ true → (a || b) ≡ true
      or_right a b e = ground arith

  loop_settles :
      SelfEqual
      → (rates : String → Bool) (gate : Option (Preflight F)) (ss : List (StagePlan F))
        (p q : Prospect F)
      → check_plans fl rates gate ss p ≡ ok q
      → All (IsSettled q.plans) ss
  unfolding check_plans
  loop_settles se rates gate [] p q h = tt
  loop_settles se rates gate (s ∷ ss) p q h =
      let (m, k, r) = >>=-eq-ok (check_plan fl rates gate s p) _ h in
      (
        IsSettled-Grows m.plans q.plans s (loop-Grows rates gate ss m q r)
            (round_settles se rates gate s p m k),
        loop_settles se rates gate ss m q r,
      )

  settled_round :
      (rates : String → Bool) (gate : Option (Preflight F)) (s : StagePlan F) (p : Prospect F)
      → IsSettled p.plans s
      → check_plan fl rates gate s p ≡ ok p
  unfolding check_plan
  settled_round rates gate s p (b, (e, l, j)) = ground arith

  settled_loop :
      (rates : String → Bool) (gate : Option (Preflight F)) (ss : List (StagePlan F))
      (p : Prospect F)
      → All (IsSettled p.plans) ss
      → check_plans fl rates gate ss p ≡ ok p
  unfolding check_plans
  settled_loop rates gate [] p a = refl
  settled_loop rates gate (s ∷ ss) p a =
      rw (settled_round rates gate s p a.0) (settled_loop rates gate ss p a.1)

  gate-admit_plans :
      (l : List (PendingPlan F)) (env : RunEnv F) → (admit_plans l env).gate ≡ env.gate
  unfolding admit_plans
  gate-admit_plans [] env = refl
  gate-admit_plans (a ∷ l) env = gate-admit_plans l _

  -- After a successful `ensure` every plan of the call has a name, and a plan of that name is there
  -- which it refers to or equals.
  ensure-settles :
      SelfEqual
      → (ss : List (StagePlan F)) (env env' : RunEnv F) → ensure fl ss env ≡ ok env'
      → All (IsSettled env'.plans) ss
  ensure-settles se ss env env' h =
      let (q, c, g, e, k) = ensure-parts fl ss env env' h in
      let t = check_plans-Tracks fl env ss (prospect env) q c (prospect-Tracks fl env) in
      rw e (
        All-map (IsSettled q.plans) (IsSettled (settle env q).plans)
          (λ s.
            IsSettled-Grows q.plans (settle env q).plans s
              (λ n r l. plans-admit_plans n q.pending env ∙ sym (t.plans_seen n) ∙ l))
          ss (loop_settles se env.has_rate env.gate ss (prospect env) q c))

  ensure_same :
      (ss : List (StagePlan F)) (env : RunEnv F)
      → check_limit fl env.gate ≡ ok tt
      → All (IsSettled env.plans) ss
      → check_gate fl env.gate env.estimated_usd env.unpriced ≡ ok tt
      → ensure fl ss env ≡ ok env
  unfolding ensure admit_plans
  ensure_same ss env l a g = rw (l, settled_loop env.has_rate env.gate ss (prospect env) a, g) refl

  -- Declaring the same plans again succeeds and leaves the environment as it is: no second budget,
  -- no cost counted twice. (A finite float64 is taken to equal itself.)
  pub ensure_again :
      SelfEqual
      → (ss : List (StagePlan F)) (env env' : RunEnv F) → ensure fl ss env ≡ ok env'
      → ensure fl ss env' ≡ ok env'
  ensure_again se ss env env' h =
      let (q, c, g, e, l) = ensure-parts fl ss env env' h in
      let gates : env'.gate ≡ env.gate = rw e (gate-admit_plans q.pending env) in
      ensure_same ss env' (rw gates l) (ensure-settles se ss env env' h) (rw gates (rw e g))

  round_amounts :
      (rates : String → Bool) (gate : Option (Preflight F)) (s : StagePlan F) (p q : Prospect F)
      (n : String) (r : Resource F)
      → check_plan fl rates gate s p ≡ ok q
      → lookup n p.plans ≡ none
      → lookup n q.plans ≡ some r
      → check_amounts fl gate r ≡ ok tt
  round_amounts rates gate s p q n r h old new = elim ((check_plan_cases fl rates gate s p q h).1) [
    | inl (j, e) ↦ absurd (ground (arith, ap (λ (v : Prospect F). lookup n v.plans) e))
    | inr (b, l, a, m, e) ↦
        let w : some r ≡ (if str_eq s.resource.name n then some s.resource else none) = ground (
          arith,
          ap (λ (v : Prospect F). lookup n v.plans) e,
          lookup-insert s.resource.name n s.resource p.plans,
        ) in
        ground arith
  ]

  loop_amounts :
      (rates : String → Bool) (gate : Option (Preflight F)) (ss : List (StagePlan F))
      (p q : Prospect F) (n : String) (r : Resource F)
      → check_plans fl rates gate ss p ≡ ok q
      → lookup n p.plans ≡ none
      → lookup n q.plans ≡ some r
      → check_amounts fl gate r ≡ ok tt
  unfolding check_plans
  loop_amounts rates gate [] p q n r h old new =
      absurd (ground (arith, ap (λ (v : Prospect F). lookup n v.plans) (ok-injective h)))
  loop_amounts rates gate (s ∷ ss) p q n r h old new =
      let (m, k, t) = >>=-eq-ok (check_plan fl rates gate s p) _ h in
      elim (Option-cases (lookup n m.plans)) [
        | inl still ↦ loop_amounts rates gate ss m q n r t still new
        | inr (v, here) ↦
            let kept = loop-Grows rates gate ss m q t n v here in
            rw (some_eq (sym new ∙ kept)) (round_amounts rates gate s p m n v k old here)
      ]
    where
      some_eq : {a b : Resource F} → some a ≡ some b → a ≡ b
      some_eq e = cc

  -- The gate that let the plans through: its limit is a finite amount, the estimate is not above it,
  -- and no resource lacks a price unless that is allowed.
  abbrev pub GateHolds : Preflight F → RunEnv F → Type 0
  GateHolds g env =
      (is_amount fl g.max_estimated_usd ≡ true)
      × (fl.lt_f g.max_estimated_usd env.estimated_usd ≡ false)
      × (g.allow_unpriced ≡ false → env.unpriced ≡ [])

  gate_holds :
      (g : Preflight F) (usd : F) (names : List String)
      → check_limit fl (some g) ≡ ok tt
      → check_gate fl (some g) usd names ≡ ok tt
      → (is_amount fl g.max_estimated_usd ≡ true)
        × (fl.lt_f g.max_estimated_usd usd ≡ false)
        × (g.allow_unpriced ≡ false → names ≡ [])
  unfolding check_limit check_gate
  gate_holds g usd [] l h = (ground arith, ground arith, λ a. refl)
  gate_holds g usd (n ∷ names) l h = (ground arith, ground arith, λ a. absurd (ground arith))

  amounts_hold :
      (gate : Option (Preflight F)) (r : Resource F)
      → check_amounts fl gate r ≡ ok tt
      → (pos 0 ≤ℤ r.ceiling)
        × (pos 0 ≤ℤ r.budget)
        × ((g : Preflight F) → gate ≡ some g → g.allow_partial ≡ false → r.ceiling ≤ℤ r.budget)
  unfolding check_amounts
  amounts_hold none r h = (ground arith, ground arith, λ g e a. cc)
  amounts_hold (some g) r h = (ground arith, ground arith, λ f e a. ground arith)

  -- What the call has declared: plans under names that had none, each once, with the estimated cost
  -- and the names without a price that they add.
  pub record Declared (env env' : RunEnv F) (news : List (Resource F)) : Type 0 where
    pub written : Written env.plans news env'.plans
    pub usd : env'.estimated_usd ≡ total_usd fl env.estimated_usd news
    pub names : env'.unpriced ≡ env.unpriced ++ without_price news

  ensure-Declared :
      (ss : List (StagePlan F)) (env env' : RunEnv F)
      → ensure fl ss env ≡ ok env'
      → (news : List (Resource F)) × Declared env env' news
  ensure-Declared ss env env' h =
      let (q, c, k, e, l) = ensure-parts fl ss env env' h in
      let t = check_plans-Tracks fl env ss (prospect env) q c (prospect-Tracks fl env) in
      let (news, counted) = loop-Counts fl env.has_rate env.gate ss (prospect env) q c in
      (
        news,
        subst (λ x. Declared env x news) (sym e)
            (record {
              written =
                  Written-same env.plans q.plans (settle env q).plans news
                    (λ n. plans-admit_plans n q.pending env ∙ sym (t.plans_seen n)) counted.written;
              usd = counted.usd;
              names = counted.names;
            }),
      )

  -- A successful `ensure` has written some resources to the plans, each under a name that had none.
  -- The estimated cost is the earlier one and, for each of them with a price, its ceiling times the
  -- price; the unpriced names are the earlier ones and, for each of them with a positive ceiling and
  -- no price, its name. Under a gate the limit is finite, that cost is not above it, and no name is
  -- unpriced unless that is allowed. With or without a gate, each plan that is new has a ceiling and
  -- a budget that are not negative, and under a gate that does not allow partial budgets its budget
  -- covers its ceiling.
  pub ensure_gate :
      (ss : List (StagePlan F)) (env env' : RunEnv F)
      → ensure fl ss env ≡ ok env'
      → ((news : List (Resource F)) × Declared env env' news)
        × ((g : Preflight F) → env.gate ≡ some g → GateHolds g env')
        × ((n : String) (r : Resource F)
            → lookup n env.plans ≡ none
            → lookup n env'.plans ≡ some r
            → (pos 0 ≤ℤ r.ceiling)
              × (pos 0 ≤ℤ r.budget)
              × ((g : Preflight F)
                  → env.gate ≡ some g
                  → g.allow_partial ≡ false
                  → r.ceiling ≤ℤ r.budget))
  ensure_gate ss env env' h =
      let (q, c, k, e, l) = ensure-parts fl ss env env' h in
      let t = check_plans-Tracks fl env ss (prospect env) q c (prospect-Tracks fl env) in
      (
        ensure-Declared ss env env' h,
        λ g o. rw e (
            gate_holds g q.usd q.unpriced (subst (λ v. check_limit fl v ≡ ok tt) o l)
              (subst (λ v. check_gate fl v q.usd q.unpriced ≡ ok tt) o k)),
        λ n r old new. amounts_hold env.gate r (
            loop_amounts env.has_rate env.gate ss (prospect env) q n r c old (
              t.plans_seen n
              ∙ sym (plans-admit_plans n q.pending env)
              ∙ sym (ap (λ (v : RunEnv F). lookup n v.plans) e)
              ∙ new)),
      )
