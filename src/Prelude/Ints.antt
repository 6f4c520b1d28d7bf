-- ===== src/Prelude/Ints.antt =====
-- The signed values that the code compares: C's `int`, with -1 as `negsuc 0`.
use Prim.Native.Nat.{ℕ}
use mathlib.Core.Bool.{Bool, false}
use robotic_car_p3e.Prelude.Tests.{◌==◌}

-- `negsuc n` is -(n + 1).
pub data ℤ : Type 0 where
  pos : ℕ → ℤ
  negsuc : ℕ → ℤ

-- Is the signed value this number?
abbrev pub is_pos : ℤ → ℕ → Bool
is_pos (pos m) n = m == n
is_pos (negsuc m) n = false

abbrev pub is_zero : ℤ → Bool
is_zero v = is_pos v 0
