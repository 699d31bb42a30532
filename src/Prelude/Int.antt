-- ===== src/Prelude/Int.antt =====
-- Signed integers over the native numbers: the library's ℤ stands on the unary ℕ.
use plain.Prelude.{ℕ}

-- `negsuc n` is -(n + 1).
pub data ℤ : Type 0 where
  pos : ℕ → ℤ
  negsuc : ℕ → ℤ
