-- ===== src/Measure/Adc.antt =====
-- The converter: the state of bsp/driver/ad/drv_ad.cpp, and the device `device_ad` of app/ad.cpp over
-- it. The registers of the chip appear as the samples that the DMA interrupt brings.
use project_sensor.Prelude.{Bool, true, false, Option, none, some, List, [], ◌∷◌, if◌then◌else◌}
use project_sensor.Prelude.Int.{ℤ}
use project_sensor.Measure.{Float}
use project_sensor.Measure.Filter.{combi_filter, rapid_lp_filter}

pub data AdcStat : Type 0 where
  stat_none stat_readable stat_readable_fake stat_in_processing : AdcStat

pub data AdIoc : Type 0 where
  start_rtd_adc start_rhs_adc start_prs_adc get_sgl_rtd_adc get_sgl_rhs_adc fake_readable : AdIoc

-- `adc_data` is uxADC1Data, `m_ioc` the last command, the next three the histories of the filters,
-- and `changes` is cRLPFRatioChangeNum.
pub record Adc {ℓ} (F : Type ℓ) : Type ℓ where
  pub adc_stat : AdcStat
  pub adc_data : List ℤ
  pub m_ioc : AdIoc
  pub adc_temp : List F
  pub adc_pres : List F
  pub adc_rhs : List F
  pub changes : ℤ

abbrev pub is_readable : AdcStat → Bool
is_readable stat_none = false
is_readable stat_readable = true
is_readable stat_readable_fake = true
is_readable stat_in_processing = false

abbrev pub is_free : AdcStat → Bool
is_free stat_none = true
is_free _ = false

-- What the command makes of the driver's state. `AD_IOC_GET_SGL_*` waits for a conversion that runs.
abbrev pub commanded : AdIoc → AdcStat → AdcStat
commanded start_rtd_adc s = stat_in_processing
commanded start_rhs_adc s = stat_in_processing
commanded start_prs_adc s = stat_in_processing
commanded get_sgl_rtd_adc s = stat_none
commanded get_sgl_rhs_adc s = stat_none
commanded fake_readable s = if is_free s then stat_readable_fake else s

module _ {ℓ} {F : Type ℓ} (fl : Float F) where
  open fl use {lit, of_int, add, mul, div}

  -- `device_ad::ioctl`: the device keeps the command, then the driver gets it.
  abbrev pub ad_ioctl : AdIoc → Adc F → Adc F
  ad_ioctl ioc a = record a { m_ioc = ioc; adc_stat = commanded ioc a.adc_stat }

  -- `DMA_ADC1_Int_Handler`, after the last of the samples.
  abbrev pub converted : List ℤ → Adc F → Adc F
  converted samples a = record a { adc_stat = stat_readable; adc_data = samples }

  unfoldable pub total : F → List ℤ → F
  total sum [] = sum
  total sum (x ∷ xs) = total (add sum (of_int x)) xs

  -- `GetAvarageValue` of the 16 samples; its sum starts with an uninitialised local.
  unfoldable pub get_avarage_value : F → List ℤ → F
  unfolding total
  get_avarage_value junk samples = div (total junk samples) (lit 16 0)

  -- `_drv_devread`: no bytes, or the average.
  unfoldable pub drv_read : F → Adc F → Option F × Adc F
  unfolding get_avarage_value
  drv_read junk a =
      let empty = record a { adc_stat = stat_none } in
      elim a.adc_stat as (λ s. Option F × Adc F) [
        | stat_none ↦ (none, a)
        | stat_readable_fake ↦ (none, empty)
        | stat_readable ↦ (some (get_avarage_value junk a.adc_data), empty)
        | stat_in_processing ↦ (some (get_avarage_value junk a.adc_data), empty)
      ]

  abbrev pub adc_max_value : F
  adc_max_value = lit 268435456 0

  -- `ADC1_GetADC_RHS`: the previous value is an uninitialised local.
  unfoldable pub get_adc_rhs : F → F → Adc F → F × Adc F
  unfolding combi_filter rapid_lp_filter
  get_adc_rhs junk v a =
      let (mean, rhs) = combi_filter fl v a.adc_rhs in
      let (value, changes) = rapid_lp_filter fl mean junk a.changes in
      (value, record a { adc_rhs = rhs; changes = changes })

  -- `process_command` after the read: `v` is the average that stands in the buffer. After a command
  -- for a single conversion the value is an uninitialised local.
  unfoldable pub scale : F → F → AdIoc → Option F → Adc F → Option F × Adc F
  unfolding combi_filter get_adc_rhs
  scale junk v start_rtd_adc got a =
      let (mean, temp) = combi_filter fl v a.adc_temp in
      (some (div (mul mean (lit 37400 0)) adc_max_value), record a { adc_temp = temp })
  scale junk v start_rhs_adc got a =
      let (value, a') = get_adc_rhs junk v a in
      (some (div (mul value (lit 1200 0)) adc_max_value), a')
  scale junk v start_prs_adc got a =
      let (mean, pres) = combi_filter fl v a.adc_pres in
      (some (div mean (lit 256 0)), record a { adc_pres = pres })
  scale junk v get_sgl_rtd_adc got a = (some junk, a)
  scale junk v get_sgl_rhs_adc got a = (some junk, a)
  scale junk v fake_readable got a = (got, a)

  abbrev in_buffer : F → Option F → F
  in_buffer junk none = junk
  in_buffer junk (some v) = v

  -- `device_ad::read`: the value for the handler, where there is one.
  unfoldable pub ad_read : F → Adc F → Option F × Adc F
  unfolding drv_read scale
  ad_read junk a = let (got, a') = drv_read junk a in scale junk (in_buffer junk got) a.m_ioc got a'
