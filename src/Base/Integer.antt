-- ===== src/Base/Integer.antt =====
-- Go's `int` where it may be negative: what is compared and printed of it.
use Prim.Native.Nat.{ℕ, zero, suc}
use Prim.Native.String.{String, ◌++◌}
use mathlib.Core.Bool.{Bool, true, false}
use rhobs.Base.Text.Decimal.{show}

pub data ℤ : Type 0 where
  pos : ℕ → ℤ
  -- One less than the negative of the number.
  negsuc : ℕ → ℤ

-- `n > 0`
abbrev pub is_positive : ℤ → Bool
is_positive (pos zero) = false
is_positive (pos (suc n)) = true
is_positive (negsuc n) = false

-- `%d`
unfoldable pub show_int : ℤ → String
unfolding show
show_int (pos n) = show n
show_int (negsuc n) = "-" ++ show (suc n)
