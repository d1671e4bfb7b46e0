-- ===== src/Base/Int.antt =====
-- The integers over the native numbers, for results of type `int`.
use raiezau.Base.{ℕ}

-- `negsuc n` is -(n + 1).
pub data ℤ : Type 0 where
  pos : ℕ → ℤ
  negsuc : ℕ → ℤ
