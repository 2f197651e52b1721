-- ===== src/Measure/Run.antt =====
-- The handlers of app/main.cpp: `event_handle_ad`, which goes from one conversion to the next, and
-- `self_calib_handle`, which the period timer calls.
pub mod Round
pub mod Calib
pub mod Stall
mod Tests
use project_sensor.Prelude.{
  ℕ, ◌+◌, ◌-◌, ◌*◌, ◌%◌, ◌^◌, Bool, true, false, not, ◌||◌, ◌&&◌, Option, none, some, List, [], ◌∷◌,
  if◌then◌else◌, ltb, set,
}
use project_sensor.Prelude.Int.{ℤ, pos, negsuc}
use project_sensor.Measure.{Float}
use project_sensor.Measure.Filter.{record_len}
use project_sensor.Measure.Formula.{calculate_rtd_temp, calculate_prs_val, calculate_density}
use project_sensor.Pwm.{PwmIoc, heat_force_h, measure_on, measure_off, heat_freq, heat_duty_cycle}
use project_sensor.Measure.Adc.{
  Adc, AdIoc, start_rtd_adc, start_rhs_adc, start_prs_adc, get_sgl_rtd_adc, get_sgl_rhs_adc,
  fake_readable, ad_ioctl, ad_read,
}

pub data RunMode : Type 0 where
  measure_para sensor_wash calib_humi : RunMode

pub data RunStatus : Type 0 where
  adc_t calc_t adc_rhs calc_rh adc_prs calc_p calc_d calc_ppm calc_dew : RunStatus

-- `SENSOR_DATA`; a short is its 16 bits.
pub record SensorData {ℓ} (F : Type ℓ) : Type ℓ where
  pub status : ℕ
  pub adc_temprature : F
  pub temprature : ℕ
  pub adc_humi_sgl : F
  pub adc_capcitance : F
  pub adc_prs : ℕ
  pub pressure : ℕ
  pub pressure20 : ℕ
  pub density : ℕ
  pub ppm : ℕ
  pub rh : ℕ
  pub rh20 : ℕ
  pub dew : ℕ
  pub dew_under_press : ℕ
  pub adc_prs_vs : ℕ

-- `app_runinfo_t` with the devices behind it. `records` are the words of memory from `iADCTemp` on:
-- that array, `iADCRHS`, and the first word behind the structure. `period` is the time last given to
-- the period timer, `temperature` the static fTemperature, `padc` and `pvalue` the table of the
-- pressure from the parameters, and `pwm` the commands to the pwm device, the latest first.
pub record Station {ℓ} (F : Type ℓ) : Type ℓ where
  pub mode : RunMode
  pub status : RunStatus
  pub calib_record_times : ℕ
  pub calib_rec_time_gap : ℕ
  pub records : List ℕ
  pub period : ℕ
  pub temperature : F
  pub sensor_data : SensorData F
  pub padc : List ℕ
  pub pvalue : List ℕ
  pub adc : Adc F
  pub pwm : List PwmIoc

abbrev pub second : ℕ
second = 1000

abbrev pub minute : ℕ
minute = 60 * second

-- Eight hours.
abbrev pub self_calib_time : ℕ
self_calib_time = 8 * 60 * minute

abbrev pub is_adc_t : RunStatus → Bool
is_adc_t adc_t = true
is_adc_t _ = false

abbrev pub is_measuring : RunMode → Bool
is_measuring measure_para = true
is_measuring _ = false

abbrev pub is_none {ℓ} : {F : Type ℓ} → Option F → Bool
is_none none = true
is_none (some v) = false

abbrev pub or_else {ℓ} : {F : Type ℓ} → Option F → F → F
or_else none d = d
or_else (some v) d = v

abbrev pub short_value : ℕ → ℤ
short_value n = if ltb n (2 ^ 15) then pos n else negsuc (2 ^ 16 - 1 - n)

module _ {ℓ} {F : Type ℓ} (fl : Float F) where
  open fl use {lit, of_int, mul, div, to_short, to_ushort}

  abbrev pub ad : AdIoc → Station F → Station F
  ad ioc st = record st { adc = ad_ioctl fl ioc st.adc }

  abbrev pub pwm_ioctl : PwmIoc → Station F → Station F
  pwm_ioctl ioc st = record st { pwm = ioc ∷ st.pwm }

  -- The switch of `event_handle_ad` on the status.
  unfoldable pub calculate : F → Station F → Station F
  unfolding calculate_rtd_temp calculate_prs_val calculate_density
  calculate value st = elim st.status as (λ s. Station F) [
    | calc_t ↦
        let t = calculate_rtd_temp fl value in
        ad start_rhs_adc (record st {
          status = calc_rh;
          temperature = t;
          sensor_data = record st.sensor_data {
            adc_temprature = value;
            temprature = to_short (mul t (lit 100 0));
          };
        })
    | calc_rh ↦ ad start_prs_adc (record st {
      status = calc_p;
      sensor_data = record st.sensor_data {
        adc_humi_sgl = value;
        adc_capcitance = div value (lit 3063808 9);
      };
    })
    | calc_p ↦ ad fake_readable (record st {
      status = calc_d;
      sensor_data = record st.sensor_data {
        adc_prs = to_ushort value;
        pressure = to_short (calculate_prs_val fl value st.padc st.pvalue);
      };
    })
    | calc_d ↦
        let (d, p20) =
          calculate_density fl (of_int (short_value st.sensor_data.pressure)) st.temperature in
        ad fake_readable (record st {
          status = calc_ppm;
          sensor_data = record st.sensor_data {
            pressure20 = to_short p20;
            density = to_ushort (mul d (lit 100 0));
          };
        })
    | calc_ppm ↦ ad fake_readable (record st { status = calc_dew })
    | calc_dew ↦ ad start_rtd_adc (record st { status = calc_t })
    | adc_t ↦ ad start_rtd_adc (record st { status = calc_t })
    | adc_rhs ↦ ad start_rtd_adc (record st { status = calc_t })
    | adc_prs ↦ ad start_rtd_adc (record st { status = calc_t })
  ]

  -- `event_handle_ad`, with whether the event is POLLIN and the value in the buffer, if there is one.
  unfoldable pub event_handle_ad : Bool → Option F → Station F → Station F
  unfolding calculate
  event_handle_ad pollin value st =
      let first =
        ad start_rtd_adc
          (pwm_ioctl heat_force_h (pwm_ioctl measure_on (record st { status = calc_t }))) in
      let next = calculate (or_else value (lit 0 0)) st in
      if not pollin || not (is_measuring st.mode)
      then st
      else if is_none value && is_adc_t st.status
      then first
      else next

  -- The converter is readable: the event loop reads it and calls the handler.
  unfoldable pub on_readable : F → Station F → Station F
  unfolding ad_read event_handle_ad
  on_readable junk st =
      let (value, adc) = ad_read fl junk st.adc in
      event_handle_ad true value (record st { adc = adc })

  -- Two single conversions, stored at the index `m_ucCalibRecordTimes` of the two arrays.
  abbrev pub record_both : ℕ → ℕ → Station F → Station F
  record_both rtd rhs st =
      let i = st.calib_record_times in
      ad get_sgl_rhs_adc (
        ad get_sgl_rtd_adc
          (record st { records = set (set st.records i rtd) (record_len + i) rhs }))

  abbrev pub set_timer : ℕ → Station F → Station F
  set_timer ms st = record st { period = ms }

  -- The switch of `self_calib_handle` on the mode, with the values of the single conversions.
  unfoldable pub self_calib : RunMode → ℕ → ℕ → Station F → Station F
  self_calib measure_para rtd rhs st =
      let heated =
        pwm_ioctl (heat_duty_cycle 25) (pwm_ioctl (heat_freq 100) (pwm_ioctl measure_off st)) in
      record (set_timer (10 * second) heated) { mode = sensor_wash }
  self_calib sensor_wash rtd rhs st =
      let washed = pwm_ioctl measure_on (pwm_ioctl heat_force_h st) in
      let fresh = record washed { calib_rec_time_gap = 1; calib_record_times = 0 } in
      record (set_timer (1 * second) (record_both rtd rhs fresh)) { mode = calib_humi }
  self_calib calib_humi rtd rhs st =
      let gap = st.calib_rec_time_gap * 2 % 2 ^ 32 in
      let times = (st.calib_record_times + 1) % 2 ^ 8 in
      let counted = record st { calib_rec_time_gap = gap; calib_record_times = times } in
      let over = record (set_timer self_calib_time (record_both rtd rhs counted)) {
        mode = measure_para;
      } in
      if ltb 8 times then over else set_timer (gap * second % 2 ^ 32) counted

  unfoldable pub self_calib_handle : ℕ → ℕ → Station F → Station F
  unfolding self_calib
  self_calib_handle rtd rhs st = self_calib st.mode rtd rhs st

  -- `application::run` up to the loop.
  unfoldable pub start : Station F → Station F
  start st = ad fake_readable (record (set_timer minute st) { mode = measure_para; status = adc_t })
