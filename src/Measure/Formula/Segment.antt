-- ===== src/Measure/Formula/Segment.antt =====
-- Which segment of the table a pressure is read from.
use project_sensor.Prelude.{
  ℕ, zero, suc, ◌+◌, ◌≤◌, ◌<◌, ◌≡◌, arith, Bool, true, false, List, get_or, ◌==◌, refl, Bool-cases,
  inl, inr,
}
use project_sensor.Measure.{Float}
use project_sensor.Measure.Formula.{segment, linear_map, calculate_prs_val}

module _ {ℓ} {F : Type ℓ} (fl : Float F) (adc : F) (adcs : List ℕ) where
  abbrev pub IsBelow : ℕ → Bool → Type 0
  IsBelow i b = fl.lt adc (fl.lit (get_or adcs i 0) 0) ≡ b

  pub record IsSegment (low high i : ℕ) : Type 0 where
    pub bounds : (low ≤ i) × (i ≤ high)
    pub above : (j : ℕ) → low ≤ j → j < i → IsBelow j false
    pub below : i < high → IsBelow i true

  segment-IsSegment : (left i : ℕ) → IsSegment i (i + left) (segment fl left i adc adcs)
  unfolding segment
  segment-IsSegment zero i = record {
    bounds = (omega arith, omega arith);
    above = λ j l h. absurd (omega (arith, l, h));
    below = λ h. absurd (omega (arith, h));
  }
  segment-IsSegment (suc left) i =
      let later = segment-IsSegment left (i + 1) in
      elim (Bool-cases (fl.lt adc (fl.lit (get_or adcs i 0) 0))) [
        | inl here ↦ rw here (record {
          bounds = (omega arith, omega arith);
          above = λ j l h. absurd (omega (arith, l, h));
          below = λ h. here;
        })
        | inr on ↦ rw on (record {
          bounds = (omega (arith, later.bounds), omega (arith, later.bounds));
          above = λ j l h. elim (Bool-cases (j == i)) [
            | inl e ↦ let same : j ≡ i = ground (arith, e) in rw same on
            | inr n ↦ later.above j (ground (arith, n, l)) h
          ];
          below = λ h. later.below (omega (arith, h));
        })
      ]

  -- A pressure is interpolated on the first segment of the table whose end lies above it, and on the
  -- third if there is none.
  pub calculate_prs_val-IsSegment :
      (prss : List ℕ)
      → let i = segment fl 2 1 adc adcs in
        IsSegment 1 3 i × (calculate_prs_val fl adc adcs prss ≡ linear_map fl i adc adcs prss)
  unfolding calculate_prs_val
  calculate_prs_val-IsSegment prss = (segment-IsSegment 2 1, refl)
