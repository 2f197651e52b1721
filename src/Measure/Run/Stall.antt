-- ===== src/Measure/Run/Stall.antt =====
-- What can happen to a station, and what no longer happens after a calibration.
use project_sensor.Prelude.{
  ℕ, ◌≡◌, refl, sym, ap, ◌∙◌, ◌+◌, ◌%◌, ◌^◌, ltb, Bool-cases, inl, inr, true, List, arith,
}
use project_sensor.Prelude.Int.{ℤ}
use project_sensor.Measure.{Float}
use project_sensor.Measure.Adc.{stat_none, stat_in_processing, is_readable, is_free, converted}
use project_sensor.Measure.Run.{
  RunMode, measure_para, sensor_wash, calib_humi, SensorData, Station, on_readable, self_calib,
  self_calib_handle,
}

module _ {ℓ} {F : Type ℓ} (fl : Float F) where
  -- The samples are complete, the event loop finds the converter readable, or the period is over.
  pub data Step (st : Station F) : Station F → Type ℓ where
    sampled :
        (samples : List ℤ)
        → st.adc.adc_stat ≡ stat_in_processing
        → Step st (record st { adc = converted fl samples st.adc })
    readable : (junk : F) → is_readable st.adc.adc_stat ≡ true → Step st (on_readable fl junk st)
    timeout : (rtd rhs : ℕ) → Step st (self_calib_handle fl rtd rhs st)

  pub data Reach (st : Station F) : Station F → Type ℓ where
    here : Reach st st
    next : {t u : Station F} → Reach st t → Step t u → Reach st u

  record IsStalled (d : SensorData F) (st : Station F) : Type ℓ where
    idle : st.adc.adc_stat ≡ stat_none
    same : st.sensor_data ≡ d

  self_calib-IsStalled :
      (m : RunMode) (rtd rhs : ℕ) (d : SensorData F) (st : Station F)
      → IsStalled d st
      → IsStalled d (self_calib fl m rtd rhs st)
  unfolding self_calib
  self_calib-IsStalled measure_para rtd rhs d st s = record { idle = s.idle; same = s.same }
  self_calib-IsStalled sensor_wash rtd rhs d st s = record { idle = refl; same = s.same }
  self_calib-IsStalled calib_humi rtd rhs d st s =
      elim (Bool-cases (ltb 8 ((st.calib_record_times + 1) % 2 ^ 8))) [
        | inl over ↦ rw over (record { idle = refl; same = s.same })
        | inr more ↦ rw more (record { idle = s.idle; same = s.same })
      ]

  Step-IsStalled :
      {st u : Station F} (d : SensorData F) → Step st u → IsStalled d st → IsStalled d u
  Step-IsStalled {st} d (sampled samples h) s = absurd (ground (arith, ap is_free (sym s.idle ∙ h)))
  Step-IsStalled {st} d (readable junk h) s =
      absurd (ground (arith, ap is_readable (sym s.idle), h))
  Step-IsStalled {st} d (timeout rtd rhs) s =
      unfold self_calib_handle in self_calib-IsStalled st.mode rtd rhs d st s

  Reach-IsStalled :
      {st u : Station F} (d : SensorData F) → Reach st u → IsStalled d st → IsStalled d u
  Reach-IsStalled d here s = s
  Reach-IsStalled d (next r step) s = Step-IsStalled d step (Reach-IsStalled d r s)

  -- After the timeout that ends the washing, the converter is idle for good and the measured data
  -- never change again, whatever steps follow: none starts a conversion, also not after the calibration,
  -- when the station is in the mode for measuring.
  pub sensor_wash-stalled :
      (rtd rhs : ℕ) (st u : Station F)
      → st.mode ≡ sensor_wash
      → Reach (self_calib_handle fl rtd rhs st) u
      → (u.adc.adc_stat ≡ stat_none) × (u.sensor_data ≡ st.sensor_data)
  sensor_wash-stalled rtd rhs st u wash r =
      let first : IsStalled st.sensor_data (self_calib_handle fl rtd rhs st) =
        unfold self_calib_handle self_calib in rw wash (record { idle = refl; same = refl }) in
      let s = Reach-IsStalled st.sensor_data r first in (s.idle, s.same)
