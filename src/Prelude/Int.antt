-- ===== src/Prelude/Int.antt =====
-- An int of Go, over the native numbers: `pos n` is n, and `negsuc n` is -(n + 1).
use Prim.Native.Nat.{ℕ}

pub data ℤ : Type 0 where
  pos negsuc : ℕ → ℤ
