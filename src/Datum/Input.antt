-- ===== src/Datum/Input.antt =====
-- What the input registers show of the measurements.
use project_sensor.Prelude.{ℕ, ◌+◌, ◌-◌, ◌*◌, ◌/◌, ◌<◌, ◌^◌, ◌≡◌, ap, arith, ltb, ◌==◌, get_or}
use project_sensor.Datum.{
  ModelDatum, reg_operate, word_operate, float_operate, input_reg_operate, input_reg_get,
}

-- The two registers of a float, the even one high, put together are its bit pattern.
pub input_reg_get-float :
    (m : ModelDatum) (k junk : ℕ)
    → k < 3
    → input_reg_get m junk (12 + 2 * k) * 2 ^ 16 + input_reg_get m junk (13 + 2 * k)
      ≡ get_or m.sensor.floats k 0
unfolding input_reg_get input_reg_operate float_operate reg_operate
input_reg_get-float m k junk small =
    let high : (12 + 2 * k - 12) / 2 ≡ k = omega arith in
    let low : (13 + 2 * k - 12) / 2 ≡ k = omega arith in
    ground (
      arith,
      ap (λ (n : ℕ). get_or m.sensor.floats n 0) high,
      ap (λ (n : ℕ). get_or m.sensor.floats n 0) low,
    )

-- An input register below 12 shows its word if and only if the word fits one byte: the register is
-- accessed as a byte.
pub input_reg_get-word :
    (m : ModelDatum) (reg junk : ℕ)
    → reg < 12
    → (input_reg_get m junk reg == get_or m.sensor.words reg 0)
      ≡ ltb (get_or m.sensor.words reg 0) (2 ^ 8)
unfolding input_reg_get input_reg_operate word_operate reg_operate
input_reg_get-word m reg junk small = ground arith
