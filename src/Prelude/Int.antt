-- ===== src/Prelude/Int.antt =====
-- Signed integers, as far as the program compares them.
use Prim.Native.Nat.{ℕ, suc, ◌+◌}
use mathlib.Core.Bool.{Bool}
use mininet_ai.Prelude.Tests.{ltb}

-- `negsuc n` is -(n + 1)
pub data ℤ : Type 0 where
  pos : ℕ → ℤ
  negsuc : ℕ → ℤ

abbrev pub pos_part : ℤ → ℕ
pos_part (pos n) = n
pos_part (negsuc n) = 0

abbrev pub neg_part : ℤ → ℕ
neg_part (pos n) = 0
neg_part (negsuc n) = suc n

-- a < b
abbrev pub int_ltb : ℤ → ℤ → Bool
int_ltb a b = ltb (pos_part a + neg_part b) (pos_part b + neg_part a)
