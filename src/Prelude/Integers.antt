-- ===== src/Prelude/Integers.antt =====
-- Go's signed integers, in range, over the native numbers.
use Prim.Native.Nat.{ℕ}

pub data ℤ : Type 0 where
  pos : ℕ → ℤ
  negsuc : ℕ → ℤ
