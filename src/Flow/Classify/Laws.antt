-- ===== src/Flow/Classify/Laws.antt =====
-- What flow/classify.go decides, against membership in the chain of an error.
use mathlib.Core.Bool.{false≢true}
use flowkit.Base.{
  ◌≡◌, ◌↔◌, inl, inr, refl, sym, ◌∙◌, String, Bool, true, false, ◌&&◌, ◌||◌, some, arith,
  str_eq_iff, Bool-cases, Option-cases,
}
use flowkit.Base.Int.{ℤ, pos, leb_ℤ, ltb_ℤ, eqb_ℤ}
use flowkit.Errors.{
  Error, Sentinel, sentinel, message, wrapped, data_error, status_error, joined, canceled,
  deadline_exceeded, budget_exceeded, corrupt_cache, same_sentinel, is_error, http_status, ok,
  ok-injective,
}
use flowkit.Flow.Classify.{
  ErrorClass, transient, data_class, fatal, other, marshal_text, unmarshal_text, class_name,
  is_data_error, classify_error,
}

-- The first error stands in the chain of the second.
pub data InChain (x : Error) : Error → Type 0 where
  here : (e : Error) → x ≡ e → InChain x e
  in_wrapped : (m : String) {e : Error} → InChain x e → InChain x (wrapped m e)
  in_data : {e : Error} → InChain x e → InChain x (data_error e)
  in_status : (c : ℤ) {e : Error} → InChain x e → InChain x (status_error c e)
  in_left : {a : Error} (b : Error) → InChain x a → InChain x (joined a b)
  in_right : (a : Error) {b : Error} → InChain x b → InChain x (joined a b)

-- The statuses that may be retried.
abbrev pub is_retryable : ℤ → Bool
is_retryable code =
    eqb_ℤ code (pos 429) || (eqb_ℤ code (pos 408) || (leb_ℤ (pos 500) code && ltb_ℤ code (pos 600)))

same_sentinel_self : (s : Sentinel) → same_sentinel s s ≡ true
same_sentinel_self budget_exceeded = refl
same_sentinel_self corrupt_cache = refl
same_sentinel_self canceled = refl
same_sentinel_self deadline_exceeded = refl

or_true : (a b : Bool) → a ≡ true → (a || b) ≡ true
or_true a b h = ground arith

or_true_right : (a b : Bool) → b ≡ true → (a || b) ≡ true
or_true_right a b h = ground arith

is_error_of_InChain : {s : Sentinel} {e : Error} → InChain (sentinel s) e → is_error s e ≡ true
unfolding is_error
is_error_of_InChain {s} (here e p) = rw (← p) (same_sentinel_self s)
is_error_of_InChain (in_wrapped m h) = is_error_of_InChain h
is_error_of_InChain (in_data h) = is_error_of_InChain h
is_error_of_InChain (in_status c h) = is_error_of_InChain h
is_error_of_InChain (in_left b h) = or_true _ _ (is_error_of_InChain h)
is_error_of_InChain (in_right a h) = or_true_right _ _ (is_error_of_InChain h)

same_sentinel_eq : (s t : Sentinel) → same_sentinel s t ≡ true → sentinel s ≡ sentinel t
same_sentinel_eq s t h = ground arith

InChain-of_is_error : (s : Sentinel) (e : Error) → is_error s e ≡ true → InChain (sentinel s) e
unfolding is_error
InChain-of_is_error s (sentinel t) h = here _ (same_sentinel_eq s t h)
InChain-of_is_error s (message m) h = absurd (false≢true h)
InChain-of_is_error s (wrapped m e) h = in_wrapped m (InChain-of_is_error s e h)
InChain-of_is_error s (data_error e) h = in_data (InChain-of_is_error s e h)
InChain-of_is_error s (status_error c e) h = in_status c (InChain-of_is_error s e h)
InChain-of_is_error s (joined a b) h = elim (Bool-cases (is_error s a)) [
  | inl l ↦ in_left b (InChain-of_is_error s a l)
  | inr n ↦ in_right a (InChain-of_is_error s b (rw (n) at h))
]

-- errors.Is finds a sentinel exactly when it stands in the chain.
pub is_error_iff : (s : Sentinel) (e : Error) → (is_error s e ≡ true) ↔ InChain (sentinel s) e
is_error_iff s e = (InChain-of_is_error s e, is_error_of_InChain)

is_data_of_InChain : (d : Error) {e : Error} → InChain (data_error d) e → is_data_error e ≡ true
unfolding is_data_error
is_data_of_InChain d (here e p) = rw (← p) refl
is_data_of_InChain d (in_wrapped m h) = is_data_of_InChain d h
is_data_of_InChain d (in_data h) = refl
is_data_of_InChain d (in_status c h) = is_data_of_InChain d h
is_data_of_InChain d (in_left b h) = or_true _ _ (is_data_of_InChain d h)
is_data_of_InChain d (in_right a h) = or_true_right _ _ (is_data_of_InChain d h)

InChain-of_status :
    (c : ℤ) (e : Error) → http_status e ≡ some c → (x : Error) × InChain (status_error c x) e
unfolding http_status
InChain-of_status c (sentinel t) h = absurd (ground arith)
InChain-of_status c (message m) h = absurd (ground arith)
InChain-of_status c (wrapped m e) h = let (x, k) = InChain-of_status c e h in (x, in_wrapped m k)
InChain-of_status c (data_error e) h = let (x, k) = InChain-of_status c e h in (x, in_data k)
InChain-of_status c (status_error d e) h = (e, here _ (cc))
InChain-of_status c (joined a b) h = elim (Option-cases (http_status a)) [
  | inl n ↦ let (x, k) = InChain-of_status c b (rw n at h) in (x, in_right a k)
  | inr (d, l) ↦ let (x, k) = InChain-of_status c a (ground arith) in (x, in_left b k)
]

transient_parts :
    (e : Error)
    → classify_error e ≡ transient
    → (is_data_error e ≡ false)
      × (is_error canceled e ≡ false)
      × (is_error deadline_exceeded e ≡ false)
      × (is_error budget_exceeded e ≡ false)
      × ((c : ℤ) × (http_status e ≡ some c) × (is_retryable c ≡ true))
unfolding classify_error
transient_parts e h = elim (Option-cases (http_status e)) [
  | inl n ↦ absurd (ground arith)
  | inr (c, s) ↦ (ground arith, ground arith, ground arith, ground arith, (c, s, ground arith))
]

-- The default classifier retries an error only if a retryable HTTP status (408, 429 or 5xx) stands
-- in its chain, and no data marker, cancellation, deadline or budget refusal does.
pub transient_only_if :
    (e : Error)
    → classify_error e ≡ transient
    → ((d : Error) → ¬ InChain (data_error d) e)
      × ¬ InChain (sentinel canceled) e
      × ¬ InChain (sentinel deadline_exceeded) e
      × ¬ InChain (sentinel budget_exceeded) e
      × ((c : ℤ) × (x : Error) × InChain (status_error c x) e × (is_retryable c ≡ true))
transient_only_if e h =
    let (d, k, l, b, s) = transient_parts e h in
    let (c, at, r) = s in
    let (x, i) = InChain-of_status c e at in
    (
      λ m n. false≢true (sym d ∙ is_data_of_InChain m n),
      λ n. false≢true (sym k ∙ is_error_of_InChain n),
      λ n. false≢true (sym l ∙ is_error_of_InChain n),
      λ n. false≢true (sym b ∙ is_error_of_InChain n),
      (c, x, i, r),
    )

-- A data marker anywhere in the chain makes the class data, whatever else stands in it; without
-- one, a budget refusal or a cancellation anywhere makes it fatal, whatever status stands in it.
pub classify_priority :
    (e : Error)
    → ((d : Error) → InChain (data_error d) e → classify_error e ≡ data_class)
      × (is_data_error e ≡ false → InChain (sentinel budget_exceeded) e → classify_error e ≡ fatal)
      × (is_data_error e ≡ false → InChain (sentinel canceled) e → classify_error e ≡ fatal)
unfolding classify_error
classify_priority e = (
  λ d h. rw (is_data_of_InChain d h),
  λ n h. let b = is_error_of_InChain h in ground arith,
  λ n h. let b = is_error_of_InChain h in ground arith,
)

marshal_named : (c : ErrorClass) (t : String) → marshal_text c ≡ ok t → unmarshal_text t ≡ ok c
unfolding marshal_text unmarshal_text class_name
marshal_named transient t h = rw (← ok-injective h)
marshal_named data_class t h = rw (← ok-injective h)
marshal_named fatal t h = rw (← ok-injective h)
marshal_named (other n) t h = absurd (ground arith)

unmarshal_named : (c : ErrorClass) (t : String) → unmarshal_text t ≡ ok c → marshal_text c ≡ ok t
unfolding marshal_text unmarshal_text
unmarshal_named c t h =
    ground (arith, str_eq_iff t "transient", str_eq_iff t "data", str_eq_iff t "fatal")

-- MarshalText and UnmarshalText are inverse to each other: a class has the text `t` exactly when
-- `t` is read as that class. (So a class out of range has no text, and any other text no class.)
pub marshal_text_iff :
    (c : ErrorClass) (t : String) → (marshal_text c ≡ ok t) ↔ (unmarshal_text t ≡ ok c)
marshal_text_iff c t = (marshal_named c t, unmarshal_named c t)
