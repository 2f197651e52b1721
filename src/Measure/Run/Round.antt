-- ===== src/Measure/Run/Round.antt =====
-- The measurement between two timeouts: which conversion the station waits for.
use project_sensor.Prelude.{◌≡◌, refl, arith, true, false, List, ap}
use project_sensor.Prelude.Int.{ℤ}
use project_sensor.Measure.{Float}
use project_sensor.Measure.Adc.{
  AdcStat, stat_none, stat_readable, stat_readable_fake, stat_in_processing, AdIoc, start_rtd_adc,
  start_rhs_adc, start_prs_adc, fake_readable, is_readable, converted, ad_read, drv_read, scale,
}
use project_sensor.Measure.Run.{
  measure_para, RunStatus, adc_t, calc_t, adc_rhs, calc_rh, adc_prs, calc_p, calc_d, calc_ppm,
  calc_dew, Station, on_readable, event_handle_ad, calculate, start,
}

-- The command that brings what the handler takes in this status.
abbrev pub expected : RunStatus → AdIoc
expected adc_t = fake_readable
expected calc_t = start_rtd_adc
expected adc_rhs = start_rhs_adc
expected calc_rh = start_rhs_adc
expected adc_prs = start_prs_adc
expected calc_p = start_prs_adc
expected calc_d = fake_readable
expected calc_ppm = fake_readable
expected calc_dew = fake_readable

-- The converter is at work or done where the status takes a value, and asks for an event where not.
pub data Fits : RunStatus → AdcStat → Type 0 where
  t_runs : Fits calc_t stat_in_processing
  rh_runs : Fits calc_rh stat_in_processing
  p_runs : Fits calc_p stat_in_processing
  t_done : Fits calc_t stat_readable
  rh_done : Fits calc_rh stat_readable
  p_done : Fits calc_p stat_readable
  first_due : Fits adc_t stat_readable_fake
  d_due : Fits calc_d stat_readable_fake
  ppm_due : Fits calc_ppm stat_readable_fake
  dew_due : Fits calc_dew stat_readable_fake

module _ {ℓ} {F : Type ℓ} (fl : Float F) where
  -- The samples are complete, or the event loop finds the converter readable.
  pub data Turn (st : Station F) : Station F → Type ℓ where
    sampled :
        (samples : List ℤ)
        → st.adc.adc_stat ≡ stat_in_processing
        → Turn st (record st { adc = converted fl samples st.adc })
    readable : (junk : F) → is_readable st.adc.adc_stat ≡ true → Turn st (on_readable fl junk st)

  pub data Turns (st : Station F) : Station F → Type ℓ where
    none_yet : Turns st st
    and_then : {t u : Station F} → Turns st t → Turn t u → Turns st u

  -- A station in the mode for measuring, in this status and with the converter in that one.
  abbrev waiting : RunStatus → AdcStat → Station F → Station F
  waiting s x st = record st {
    mode = measure_para;
    status = s;
    adc = record st.adc { m_ioc = expected s; adc_stat = x };
  }

  data InStep : Station F → Type ℓ where
    in_step : (s : RunStatus) (x : AdcStat) (st : Station F) → Fits s x → InStep (waiting s x st)

  readable-InStep :
      (junk : F) (s : RunStatus) (x : AdcStat) (st : Station F)
      → Fits s x
      → is_readable x ≡ true
      → InStep (on_readable fl junk (waiting s x st))
  unfolding on_readable event_handle_ad calculate ad_read drv_read scale
  readable-InStep junk s x st t_runs h = absurd (ground (arith, h))
  readable-InStep junk s x st rh_runs h = absurd (ground (arith, h))
  readable-InStep junk s x st p_runs h = absurd (ground (arith, h))
  readable-InStep junk s x st t_done h =
      in_step calc_rh stat_in_processing (on_readable fl junk (waiting calc_t stat_readable st))
        rh_runs
  readable-InStep junk s x st rh_done h =
      in_step calc_p stat_in_processing (on_readable fl junk (waiting calc_rh stat_readable st))
        p_runs
  readable-InStep junk s x st p_done h =
      in_step calc_d stat_readable_fake (on_readable fl junk (waiting calc_p stat_readable st))
        d_due
  readable-InStep junk s x st first_due h =
      in_step calc_t stat_in_processing (on_readable fl junk (waiting adc_t stat_readable_fake st))
        t_runs
  readable-InStep junk s x st d_due h =
      in_step calc_ppm stat_readable_fake
        (on_readable fl junk (waiting calc_d stat_readable_fake st)) ppm_due
  readable-InStep junk s x st ppm_due h =
      in_step calc_dew stat_readable_fake
        (on_readable fl junk (waiting calc_ppm stat_readable_fake st)) dew_due
  readable-InStep junk s x st dew_due h =
      in_step calc_t stat_in_processing
        (on_readable fl junk (waiting calc_dew stat_readable_fake st)) t_runs

  sampled-Fits :
      (s : RunStatus) (x : AdcStat) → Fits s x → is_readable x ≡ false → Fits s stat_readable
  sampled-Fits s x t_runs h = t_done
  sampled-Fits s x rh_runs h = rh_done
  sampled-Fits s x p_runs h = p_done
  sampled-Fits s x t_done h = t_done
  sampled-Fits s x rh_done h = rh_done
  sampled-Fits s x p_done h = p_done
  sampled-Fits s x first_due h = absurd (ground (arith, h))
  sampled-Fits s x d_due h = absurd (ground (arith, h))
  sampled-Fits s x ppm_due h = absurd (ground (arith, h))
  sampled-Fits s x dew_due h = absurd (ground (arith, h))

  Turn-InStep : {t u : Station F} → Turn t u → InStep t → InStep u
  Turn-InStep (sampled samples h) (in_step s x st f) =
      in_step s stat_readable (record st { adc = converted fl samples st.adc })
        (sampled-Fits s x f (ap is_readable h))
  Turn-InStep (readable junk h) (in_step s x st f) = readable-InStep junk s x st f h

  Turns-InStep : {t u : Station F} → Turns t u → InStep t → InStep u
  Turns-InStep none_yet i = i
  Turns-InStep (and_then ts t) i = Turn-InStep t (Turns-InStep ts i)

  InStep-Fits :
      {u : Station F}
      → InStep u
      → (u.mode ≡ measure_para) × (u.adc.m_ioc ≡ expected u.status) × Fits u.status u.adc.adc_stat
  InStep-Fits (in_step s x st f) = (refl, refl, f)

  -- From the start of the application with the converter idle, over any conversions and readings
  -- before the period is over, the last command to the converter is the one whose value the handler
  -- takes next, and the converter works on it, is done with it or asks for an event: the measurement
  -- neither mixes up its values nor comes to a stop.
  pub start-Fits :
      (st u : Station F)
      → st.adc.adc_stat ≡ stat_none
      → Turns (start fl st) u
      → (u.mode ≡ measure_para) × (u.adc.m_ioc ≡ expected u.status) × Fits u.status u.adc.adc_stat
  unfolding start
  start-Fits st u idle ts =
      let first : InStep (start fl st) =
        rw idle (in_step adc_t stat_readable_fake (start fl st) first_due) in
      InStep-Fits (Turns-InStep ts first)
