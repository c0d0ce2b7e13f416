-- ===== src/Base/Float.antt =====
-- Go's float64, as a parameter: the operations that the program uses, and no law of them.
use flowkit.Base.Int.{ℤ}
use mathlib.Core.Bool.{Bool, not, ◌&&◌}

pub record FloatOps (F : Type 0) : Type 0 where
  pub zero_f : F
  pub of_int : ℤ → F
  pub add_f : F → F → F
  pub mul_f : F → F → F
  pub lt_f : F → F → Bool
  pub eq_f : F → F → Bool
  -- neither NaN nor infinite
  pub is_finite : F → Bool

-- Finite and not negative.
abbrev pub is_amount : {F : Type 0} → FloatOps F → F → Bool
is_amount fl x = fl.is_finite x && not (fl.lt_f x fl.zero_f)
