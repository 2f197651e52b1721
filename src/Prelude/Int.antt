-- ===== src/Prelude/Int.antt =====
-- Signed return codes, over the native numbers.
use project_sensor.Prelude.{ℕ}

-- `negsuc n` is -(n + 1).
pub data ℤ : Type 0 where
  pos : ℕ → ℤ
  negsuc : ℕ → ℤ
