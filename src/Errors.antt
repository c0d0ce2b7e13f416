-- ===== src/Errors.antt =====
-- Go errors and the results that carry them: the chains that fmt.Errorf's `%w` and errors.Join build
-- over the sentinels and typed errors of execution and flow. The text of a message is its format
-- string; formatted arguments are left out.
use flowkit.Base.{◌≡◌, refl, String, Bool, true, false, ◌||◌, Option, none, some}
use flowkit.Base.Int.{ℤ}

-- The errors that are compared by identity: execution.ErrBudgetExceeded,
-- execution.ErrCorruptCache, context.Canceled and context.DeadlineExceeded.
pub data Sentinel : Type 0 where
  budget_exceeded corrupt_cache canceled deadline_exceeded : Sentinel

pub data Error : Type 0 where
  sentinel : Sentinel → Error
  -- errors.New, and fmt.Errorf with no `%w`
  message : String → Error
  -- fmt.Errorf with `%w`
  wrapped : String → Error → Error
  -- dataError and StatusError of flow/classify.go
  data_error : Error → Error
  status_error : ℤ → Error → Error
  -- errors.Join of two errors
  joined : Error → Error → Error

abbrev pub same_sentinel : Sentinel → Sentinel → Bool
same_sentinel budget_exceeded budget_exceeded = true
same_sentinel corrupt_cache corrupt_cache = true
same_sentinel canceled canceled = true
same_sentinel deadline_exceeded deadline_exceeded = true
same_sentinel _ _ = false

-- errors.Is(err, sentinel)
unfoldable pub is_error : Sentinel → Error → Bool
is_error s (sentinel t) = same_sentinel s t
is_error s (message m) = false
is_error s (wrapped m e) = is_error s e
is_error s (data_error e) = is_error s e
is_error s (status_error c e) = is_error s e
is_error s (joined a b) = is_error s a || is_error s b

abbrev or_else : Option ℤ → Option ℤ → Option ℤ
or_else none o = o
or_else (some c) o = some c

-- errors.As into `interface{ HTTPStatus() int }`: the first status of the chain, outermost first.
unfoldable pub http_status : Error → Option ℤ
http_status (sentinel t) = none
http_status (message m) = none
http_status (wrapped m e) = http_status e
http_status (data_error e) = http_status e
http_status (status_error c e) = some c
http_status (joined a b) = or_else (http_status a) (http_status b)

-- A call's value, or the error that it returns instead.
pub data Result {ℓ} (T : Type ℓ) : Type ℓ where
  ok : T → Result T
  err : Error → Result T

-- A call whose error is wrapped in a word of the caller's.
abbrev pub labelled {ℓ} : {T : Type ℓ} → String → Result T → Result T
labelled word (ok a) = ok a
labelled word (err e) = err (wrapped word e)

pub labelled-eq-ok {ℓ} :
    {T : Type ℓ} (word : String) (r : Result T) (a : T) → labelled word r ≡ ok a → r ≡ ok a
labelled-eq-ok word (ok b) a h = h
labelled-eq-ok word (err e) a h = cc

pub ok-injective {ℓ} : {T : Type ℓ} {x y : T} → ok x ≡ ok y → x ≡ y
ok-injective same = cc

-- `if err != nil { return err }`
infixl 5 ◌>>=◌ ◌>>◌
abbrev pub ◌>>=◌ {ℓ κ} : {T : Type ℓ} {U : Type κ} → Result T → (T → Result U) → Result U
ok value >>= next = next value
err cause >>= next = err cause

abbrev pub ◌>>◌ {κ} : {U : Type κ} → Result (Unit {0}) → Result U → Result U
check >> next = check >>= λ done. next

-- A chain of fallible steps succeeded, so each did.
pub >>=-eq-ok {ℓ κ} :
    {T : Type ℓ} {U : Type κ} (first : Result T) (next : T → Result U) {out : U}
    → (first >>= next) ≡ ok out
    → (value : T) × (first ≡ ok value) × (next value ≡ ok out)
>>=-eq-ok (ok value) next done = (value, refl, done)
>>=-eq-ok (err cause) next done = cc
