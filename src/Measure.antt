-- ===== src/Measure.antt =====
-- The measurement and the calibration of the sensor itself: the converter of
-- bsp/driver/ad/drv_ad.cpp, the filters of app/ad.cpp, the formulas of app/algorithm.cpp, and
-- `event_handle_ad` and `self_calib_handle` of app/main.cpp.
pub mod Filter
pub mod Formula
pub mod Adc
pub mod Run
use project_sensor.Prelude.{ℕ, Bool}
use project_sensor.Prelude.Int.{ℤ}

-- The floating point arithmetic of the compiler, float and double as one type. `lit n k` is the
-- literal n / 10^k, `to_char`, `to_short` and `to_ushort` are the conversions to the integer types,
-- the first for values below 2^7, the others by their 16 bits.
pub record Float {ℓ} (F : Type ℓ) : Type ℓ where
  pub lit : ℕ → ℕ → F
  pub of_int : ℤ → F
  pub add : F → F → F
  pub sub : F → F → F
  pub mul : F → F → F
  pub div : F → F → F
  pub sqrt : F → F
  pub lt : F → F → Bool
  pub to_char : F → ℕ
  pub to_short : F → ℕ
  pub to_ushort : F → ℕ
