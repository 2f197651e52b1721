-- ===== src/Measure/Formula.antt =====
-- The formulas of app/algorithm.cpp, in the configuration with `CALC_RTD_TEMP_FORMULA`.
pub mod Segment
use project_sensor.Prelude.{ℕ, zero, suc, ◌+◌, ◌-◌, Bool, List, if◌then◌else◌, get_or, ltb, leb}
use project_sensor.Measure.{Float}

module _ {ℓ} {F : Type ℓ} (fl : Float F) where
  open fl use {lit, add, sub, mul, div, lt}

  unfoldable pub calculate_rtd_temp : F → F
  calculate_rtd_temp r =
      if lt (lit 1000 0) r
      then sub (mul r (add (mul (lit 102718 10) r) (lit 23516512 8))) (lit 245431 3)
      else sub (mul r (add (mul (lit 101006 10) r) (lit 23569455 8))) (lit 245795 3)

  -- The loop of `CalculatePRSVal` from `i` on: the segment of the table, the last one for all that
  -- lies beyond it.
  unfoldable pub segment : ℕ → ℕ → F → List ℕ → ℕ
  segment zero i adc adcs = i
  segment (suc left) i adc adcs =
      let later = segment left (i + 1) adc adcs in
      if lt adc (lit (get_or adcs i 0) 0) then i else later

  abbrev pub int_sub : ℕ → ℕ → F
  int_sub a b = sub (lit a 0) (lit b 0)

  unfoldable pub linear_map : ℕ → F → List ℕ → List ℕ → F
  linear_map i adc adcs prss = add (lit (get_or prss (i - 1) 0) 0) (
      div
        (mul (sub adc (lit (get_or adcs (i - 1) 0) 0))
          (int_sub (get_or prss i 0) (get_or prss (i - 1) 0)))
        (int_sub (get_or adcs i 0) (get_or adcs (i - 1) 0)))

  unfoldable pub calculate_prs_val : F → List ℕ → List ℕ → F
  unfolding segment linear_map
  calculate_prs_val adc adcs prss = linear_map (segment 2 1 adc adcs) adc adcs prss

  -- The density, and the pressure at 20 degrees.
  unfoldable pub calculate_density : F → F → F × F
  calculate_density pressure temprature =
      let a = sub (mul (lit 12655 7) temprature) (lit 33733 5) in
      let b = add (mul (lit 56676 5) temprature) (lit 15264 2) in
      let c = sub (mul (sub (lit 0 0) (lit 36515 6)) temprature) (sub pressure (lit 66876 4)) in
      let root = fl.sqrt (sub (mul b b) (mul (mul (lit 4 0) a) c)) in
      let d = div (sub root b) (mul (lit 2 0) a) in
      (d, add (mul d (sub (lit 16398 2) (mul (lit 312 3) d))) (lit 6457 3))
