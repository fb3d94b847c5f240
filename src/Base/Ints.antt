-- ===== src/Base/Ints.antt =====
-- Integers over the native numbers, under the library's names: the signed differences of times.
use Prim.Native.Nat.{ℕ, zero, suc}

pub data ℤ : Type 0 where
  pos : ℕ → ℤ
  negsuc : ℕ → ℤ

-- The negative of a natural number.
abbrev pub negate : ℕ → ℤ
negate zero = pos zero
negate (suc n) = negsuc n
