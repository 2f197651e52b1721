-- ===== src/Measure/Run/Calib.antt =====
-- A calibration: how long it takes, and what it records.
use project_sensor.Prelude.{
  ℕ, zero, suc, ◌+◌, ◌*◌, ◌%◌, ◌^◌, ◌≤◌, ◌<◌, ◌≡◌, refl, ap, arith, false, List, set, ltb,
}
use project_sensor.Measure.{Float}
use project_sensor.Measure.Run.{
  measure_para, sensor_wash, calib_humi, Station, second, self_calib_time, self_calib,
  self_calib_handle,
}

-- The gaps, which double and stay small.
pow_small : (n : ℕ) → n < 8 → (2 ^ suc n ≡ 2 ^ n * 2) × (2 ^ n ≤ 128)
pow_small zero h = (refl, omega arith)
pow_small (suc zero) h = (refl, omega arith)
pow_small (suc (suc zero)) h = (refl, omega arith)
pow_small (suc (suc (suc zero))) h = (refl, omega arith)
pow_small (suc (suc (suc (suc zero)))) h = (refl, omega arith)
pow_small (suc (suc (suc (suc (suc zero))))) h = (refl, omega arith)
pow_small (suc (suc (suc (suc (suc (suc zero)))))) h = (refl, omega arith)
pow_small (suc (suc (suc (suc (suc (suc (suc zero))))))) h = (refl, omega arith)
pow_small (suc (suc (suc (suc (suc (suc (suc (suc n)))))))) h = absurd (omega (arith, h))

module _ {ℓ} {F : Type ℓ} (fl : Float F) (values : ℕ → ℕ × ℕ) where
  -- The first `n` timeouts of the period timer, with the values of the single conversions in each.
  abbrev pub timeouts : ℕ → Station F → Station F
  timeouts zero st = st
  timeouts (suc n) st = let (rtd, rhs) = values n in self_calib_handle fl rtd rhs (timeouts n st)

  -- The milliseconds that the timer is given in them.
  abbrev pub waited : ℕ → Station F → ℕ
  waited zero st = 0
  waited (suc n) st = waited n st + (timeouts (suc n) st).period

  -- The calibration after `n` of its timeouts.
  record Calibrating (n : ℕ) (words : List ℕ) (st : Station F) : Type 0 where
    mode : st.mode ≡ calib_humi
    times : st.calib_record_times ≡ n
    gap : st.calib_rec_time_gap ≡ 2 ^ n
    period : st.period ≡ 2 ^ n * second
    records : st.records ≡ words

  self_calib-Calibrating :
      (n rtd rhs : ℕ) (words : List ℕ) (st : Station F)
      → n < 8
      → Calibrating n words st
      → Calibrating (suc n) words (self_calib fl calib_humi rtd rhs st)
  unfolding self_calib
  self_calib-Calibrating n rtd rhs words st h c =
      let e : ltb 8 ((st.calib_record_times + 1) % 2 ^ 8) ≡ false = ground (arith, c.times) in
      let g : st.calib_rec_time_gap * 2 % 2 ^ 32 ≡ 2 ^ suc n =
        omega (arith, c.gap, pow_small n h) in
      rw e (record {
        mode = c.mode;
        times = omega (arith, c.times);
        gap = g;
        period = rw g (omega (arith, pow_small n h));
        records = c.records;
      })

  -- The last timeout of a calibration.
  record Finished (words : List ℕ) (rtd rhs : ℕ) (st : Station F) : Type 0 where
    mode : st.mode ≡ measure_para
    period : st.period ≡ self_calib_time
    records : st.records ≡ set (set words 9 rtd) 18 rhs

  self_calib-Finished :
      (rtd rhs : ℕ) (words : List ℕ) (st : Station F)
      → Calibrating 8 words st
      → Finished words rtd rhs (self_calib fl calib_humi rtd rhs st)
  unfolding self_calib
  self_calib-Finished rtd rhs words st c =
      let nine : (st.calib_record_times + 1) % 2 ^ 8 ≡ 9 = omega (arith, c.times) in
      rw nine (record {
        mode = refl;
        period = refl;
        records = ap (λ (w : List ℕ). set (set w 9 rtd) 18 rhs) c.records;
      })

  module _ (st : Station F) (wash : st.mode ≡ sensor_wash) where
    -- The two arrays after the first single conversions.
    abbrev pub first_words : List ℕ
    first_words = let (rtd, rhs) = values 0 in set (set st.records 0 rtd) 9 rhs

    timeouts-Calibrating : (n : ℕ) → n ≤ 8 → Calibrating n first_words (timeouts (suc n) st)
    unfolding self_calib_handle self_calib
    timeouts-Calibrating zero h =
        rw wash (record { mode = refl; times = refl; gap = refl; period = refl; records = refl })
    timeouts-Calibrating (suc n) h =
        let (rtd, rhs) = values (suc n) in
        let c = timeouts-Calibrating n (omega (arith, h)) in
        rw c.mode
          (self_calib-Calibrating n rtd rhs first_words (timeouts (suc n) st) (omega (arith, h)) c)

    waited_lem : (n : ℕ) → n ≤ 8 → waited (suc n) st + second ≡ 2 ^ n * 2 * second
    waited_lem zero h = omega (arith, (timeouts-Calibrating zero h).period)
    waited_lem (suc n) h = omega (
      arith,
      waited_lem n (omega (arith, h)),
      (timeouts-Calibrating (suc n) h).period,
      pow_small n (omega (arith, h)),
    )

    timeouts-Finished : let (rtd, rhs) = values 9 in Finished first_words rtd rhs (timeouts 10 st)
    timeouts-Finished =
        let c = timeouts-Calibrating 8 (omega arith) in
        let (rtd, rhs) = values 9 in
        unfold self_calib_handle in
        rw c.mode (self_calib-Finished rtd rhs first_words (timeouts 9 st) c)

    -- From the washing on, ten timeouts bring the station back to measuring: the last nine of them
    -- come after 1, 2, 4 and so on up to 256 seconds, which are 511 together, and the next calibration
    -- is eight hours away.
    pub calibration_lem :
        ((timeouts 10 st).mode ≡ measure_para)
        × ((timeouts 10 st).period ≡ self_calib_time)
        × (waited 9 st ≡ 511 * second)
    calibration_lem = (
      timeouts-Finished.mode,
      timeouts-Finished.period,
      omega (arith, waited_lem 8 (omega arith)),
    )

    -- From the washing on, ten timeouts record two pairs of conversions, that of the first timeout at
    -- the start of the two arrays of nine words, and that of the last behind their ends: its temperature
    -- replaces the first humidity, and its humidity stands in the word behind the structure.
    pub calibration-records :
        let (rtd, rhs) = values 0 in
        let (rtd', rhs') = values 9 in
        (timeouts 10 st).records ≡ set (set (set (set st.records 0 rtd) 9 rhs) 9 rtd') 18 rhs'
    calibration-records = timeouts-Finished.records
