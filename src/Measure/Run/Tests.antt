-- ===== src/Measure/Run/Tests.antt =====
-- A station whose numbers are natural, for the runs.
use project_sensor.Prelude.{
  ℕ, ◌+◌, ◌-◌, ◌*◌, ◌/◌, ◌%◌, ◌^◌, ◌≡◌, refl, List, [], ◌∷◌, ◌++◌, ltb, replicate,
}
use project_sensor.Prelude.Int.{ℤ, pos, negsuc}
use project_sensor.Measure.{Float}
use project_sensor.Measure.Filter.{combi_filter, fold}
use project_sensor.Measure.Adc.{stat_none, fake_readable, converted, ad_read, drv_read, scale}
use project_sensor.Measure.Run.{
  measure_para, sensor_wash, calc_t, Station, second, self_calib_time, self_calib_handle, start,
  on_readable, event_handle_ad, calculate,
}
use project_sensor.Measure.Run.Round.{
  none_yet, and_then, sampled, readable, expected, Fits, start-Fits,
}
use project_sensor.Measure.Run.Calib.{timeouts, waited, calibration_lem, calibration-records}
use project_sensor.Measure.Run.Stall.{here, next, timeout, sensor_wash-stalled}

abbrev natural : ℤ → ℕ
natural (pos n) = n
natural (negsuc n) = 0

abbrev whole : Float ℕ
whole = record {
  lit = λ n k. n / 10 ^ k;
  of_int = natural;
  add = λ a b. a + b;
  sub = λ a b. a - b;
  mul = λ a b. a * b;
  div = λ a b. a / b;
  sqrt = λ a. a;
  lt = ltb;
  to_char = λ a. a % 128;
  to_short = λ a. a % 2 ^ 16;
  to_ushort = λ a. a % 2 ^ 16;
}

abbrev at_rest : Station ℕ
at_rest = record {
  mode = sensor_wash;
  status = calc_t;
  calib_record_times = 0;
  calib_rec_time_gap = 0;
  records = replicate 19 0;
  period = 0;
  temperature = 0;
  sensor_data = record {
    status = 0;
    adc_temprature = 0;
    temprature = 0;
    adc_humi_sgl = 0;
    adc_capcitance = 0;
    adc_prs = 0;
    pressure = 0;
    pressure20 = 0;
    density = 0;
    ppm = 0;
    rh = 0;
    rh20 = 0;
    dew = 0;
    dew_under_press = 0;
    adc_prs_vs = 0;
  };
  padc = 0 ∷ 10 ∷ 20 ∷ 30 ∷ [];
  pvalue = 0 ∷ 100 ∷ 200 ∷ 400 ∷ [];
  adc = record {
    adc_stat = stat_none;
    adc_data = [];
    m_ioc = fake_readable;
    adc_temp = replicate 9 1;
    adc_pres = replicate 9 1;
    adc_rhs = replicate 9 1;
    changes = pos 0;
  };
  pwm = [];
}

abbrev sixteen : ℤ → List ℤ
sixteen x = replicate 16 x

-- The first event, a conversion, and the reading of its value.
abbrev begun : Station ℕ
begun = on_readable whole 0 (start whole at_rest)

abbrev sampled_once : Station ℕ
sampled_once = record begun { adc = converted whole (sixteen (pos 5)) begun.adc }

start-Fits_example :
    let u = on_readable whole 0 sampled_once in
    (u.mode ≡ measure_para) × (u.adc.m_ioc ≡ expected u.status) × Fits u.status u.adc.adc_stat
unfolding on_readable event_handle_ad calculate ad_read drv_read scale start
start-Fits_example = start-Fits whole at_rest (on_readable whole 0 sampled_once) refl (
    and_then (and_then (and_then none_yet (readable 0 refl)) (sampled (sixteen (pos 5)) refl))
      (readable 0 refl))

abbrev counting : ℕ → ℕ × ℕ
counting n = (n + 1, n + 51)

calibration_lem_example :
    ((timeouts whole counting 10 at_rest).mode ≡ measure_para)
    × ((timeouts whole counting 10 at_rest).period ≡ self_calib_time)
    × (waited whole counting 9 at_rest ≡ 511 * second)
calibration_lem_example = calibration_lem whole counting at_rest refl

-- Two pairs of conversions in arrays of nine words.
calibration-records_example :
    (timeouts whole counting 10 at_rest).records
    ≡ 1 ∷ (replicate 8 0 ++ (10 ∷ replicate 8 0)) ++ (60 ∷ [])
calibration-records_example = calibration-records whole counting at_rest refl

abbrev after_wash : Station ℕ
after_wash = self_calib_handle whole 1 2 at_rest

sensor_wash-stalled_example :
    let u = self_calib_handle whole 3 4 after_wash in
    (u.adc.adc_stat ≡ stat_none) × (u.sensor_data ≡ at_rest.sensor_data)
sensor_wash-stalled_example =
    sensor_wash-stalled whole 1 2 at_rest (self_calib_handle whole 3 4 after_wash) refl
      (next here (timeout 3 4))

-- The mean of 2 to 8 and half of their number, without the least and the greatest of nine samples.
combi_filter_test : (combi_filter whole 9 (8 ∷ 8 ∷ 7 ∷ 6 ∷ 5 ∷ 4 ∷ 3 ∷ 2 ∷ 1 ∷ [])).0 ≡ 5
unfolding combi_filter fold
combi_filter_test = refl

start_test : (start whole at_rest).period ≡ 60000
unfolding start
start_test = refl
