-- ===== src/Prelude/Integers.antt =====
-- Integers over native numbers: `pos n` is n and `negsuc n` is -(n + 1).
use Prim.Native.Nat.{ℕ}

pub data ℤ : Type 0 where
  pos negsuc : ℕ → ℤ

-- The number that an integer is, or 0 below it.
abbrev pub or_zero : ℤ → ℕ
or_zero (pos n) = n
or_zero (negsuc n) = 0
