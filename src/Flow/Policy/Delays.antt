-- ===== src/Flow/Policy/Delays.antt =====
-- The retry delays double from the base, never pass the cap, and never overflow int64.
use Prim.Native.Nat.{min}
use native.Mathlib.Nat.{pow-suc}
use flowkit.Base.{
  ℕ, zero, suc, ◌+◌, ◌*◌, ◌/◌, ◌^◌, ◌≤◌, ◌<◌, ◌≡◌, refl, ap, ◌∙◌, false, arith, ltb, if◌then◌else◌,
}
use flowkit.Base.Int.{ℤ, pos, negsuc, ◌≤ℤ◌, pos_part, IsInt64, leb_ℤ}
use flowkit.Flow.Policy.{retry_delay, next_retry_delay, clamp, add_jitter}

-- For int64 values, the next delay is the double, or the maximum if the double passes it: also where
-- the double is out of range, since the code compares before it adds.
next_double :
    (d m : ℕ)
    → 0 < m
    → 0 < d
    → m < 2 ^ 63
    → next_retry_delay (pos d) (pos m) ≡ (if ltb m (d + d) then pos m else pos (d + d))
unfolding next_retry_delay
next_double d m hm hd h = ground arith

-- Whatever the delay and the maximum, the next delay is not negative and not past the maximum, which
-- counts as 0 if it is negative.
pub next_retry_delay_bounds :
    (d m : ℤ)
    → IsInt64 d
    → IsInt64 m
    → (pos 0 ≤ℤ next_retry_delay d m) × (next_retry_delay d m ≤ℤ pos (pos_part m))
unfolding next_retry_delay
next_retry_delay_bounds (negsuc d) m hd hm = ground arith
next_retry_delay_bounds (pos d) (negsuc m) hd hm = ground arith
next_retry_delay_bounds (pos d) (pos m) hd hm = ground arith

-- The delay before the k-th retry, as the loop of `work` carries it.
pub nth_delay : ℤ → ℤ → ℕ → ℤ
nth_delay base maximum zero = base
nth_delay base maximum (suc k) = next_retry_delay (nth_delay base maximum k) maximum

pos_if :
    (m n : ℕ)
    → (if ltb m (n + n) then pos m else pos (n + n)) ≡ pos (if ltb m (n + n) then m else n + n)
pos_if m n = ground arith

twice_pow : (base k : ℕ) → base * 2 ^ suc k ≡ base * 2 ^ k + base * 2 ^ k
twice_pow base k = omega (arith, ap (λ (t : ℕ). base * t) (pow-suc 2 k))

doubled_min :
    (m n p q : ℕ)
    → min m n ≡ min m p
    → q ≡ p + p
    → min m (if ltb m (n + n) then m else n + n) ≡ min m q
doubled_min m n p q h e = ground arith

clamp_pos : (d m : ℕ) → clamp (pos d) (pos m) ≡ pos (min m d)
unfolding clamp
clamp_pos d m = ground arith

clamp_neg : (d m : ℕ) → clamp (negsuc d) (pos m) ≡ pos 0
unfolding clamp
clamp_neg d m = ground arith

add_jitter_lem :
    (d j m : ℕ)
    → d ≤ m
    → j ≤ d
    → m < 2 ^ 63
    → add_jitter (pos d) (pos j) (pos m) ≡ pos (min m (d + j))
unfolding add_jitter
add_jitter_lem d j m h k l = ground arith

nth_delay_pos :
    (base m k : ℕ)
    → 0 < base
    → 0 < m
    → m < 2 ^ 63
    → (n : ℕ) × (nth_delay (pos base) (pos m) k ≡ pos n)
      × (0 < n)
      × (min m n ≡ min m (base * 2 ^ k))
unfolding nth_delay
nth_delay_pos base m zero hb hm h = (base, refl, hb, omega arith)
nth_delay_pos base m (suc k) hb hm h =
    let (n, e, p, q) = nth_delay_pos base m k hb hm h in
    (
      if ltb m (n + n) then m else n + n,
      rw e (next_double n m hm p h ∙ pos_if m n),
      ground arith,
      doubled_min m n (base * 2 ^ k) (base * 2 ^ suc k) q (twice_pow base k),
    )

-- The delays are exponential under the cap: the k-th, cut at the cap, is base * 2 ^ k cut at the cap,
-- for every k, also where the power is far out of the range of int64.
pub nth_delay_exponential :
    (base m k : ℕ)
    → 0 < base
    → 0 < m
    → m < 2 ^ 63
    → clamp (nth_delay (pos base) (pos m) k) (pos m) ≡ pos (min m (base * 2 ^ k))
nth_delay_exponential base m k hb hm h =
    let (n, e, p, q) = nth_delay_pos base m k hb hm h in rw (e, clamp_pos n m) (ap pos q)

retry_delay_pos :
    (draw : ℕ → ℕ) (d : ℤ) (c m : ℕ)
    → ((n : ℕ) → 0 < n → draw n < n)
    → clamp d (pos m) ≡ pos c
    → c ≤ m
    → 0 < m
    → m < 2 ^ 63
    → (j : ℕ) × (j ≤ c / 2) × (retry_delay draw d (pos m) ≡ pos (min m (c + j)))
unfolding retry_delay
retry_delay_pos draw d c m hj e hc hm h = (
  draw (c / 2 + 1),
  omega (arith, hj (c / 2 + 1) (omega arith)),
  rw (positive, e)
      (add_jitter_lem c (draw (c / 2 + 1)) m hc (omega (arith, hj (c / 2 + 1) (omega arith))) h),
)
  where
    positive : leb_ℤ (pos m) (pos 0) ≡ false
    positive = ground arith

-- The delay that is slept is the delay, cut to 0 and the maximum, and a jitter of at most half of it,
-- cut to the maximum again: for every delay and every positive maximum that int64 holds, if draw(n)
-- is below n.
pub retry_delay_jitter :
    (draw : ℕ → ℕ) (d : ℤ) (m : ℕ)
    → ((n : ℕ) → 0 < n → draw n < n)
    → 0 < m
    → m < 2 ^ 63
    → (c j : ℕ) × (clamp d (pos m) ≡ pos c)
      × (j ≤ c / 2)
      × (retry_delay draw d (pos m) ≡ pos (min m (c + j)))
retry_delay_jitter draw (negsuc d) m hj hm h =
    let e = clamp_neg d m in
    let (j, k, r) = retry_delay_pos draw (negsuc d) 0 m hj e (omega arith) hm h in (0, j, e, k, r)
retry_delay_jitter draw (pos d) m hj hm h =
    let e = clamp_pos d m in
    let (j, k, r) = retry_delay_pos draw (pos d) (min m d) m hj e (omega arith) hm h in
    (min m d, j, e, k, r)
