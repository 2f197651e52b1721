-- ===== src/Calendar/RoundTrip.antt =====
-- `gmtime_r` breaks a time down, and `mktime` puts it together again.
use project_sensor.Prelude.{
  ℕ, zero, suc, ◌+◌, ◌-◌, ◌*◌, ◌/◌, ◌%◌, ◌^◌, ◌≤◌, ◌<◌, ◌≡◌, refl, arith, false, some,
}
use project_sensor.Calendar.{
  spd, word, sub64, Tm, tm_year_base, year_length, find_year, find_month, skip_leap_day, break_down,
  gmtime_r, normalise, is_late, carry_months, days_before, day_of_year, mktime,
}
use project_sensor.Calendar.Years.{days_before-days, days-le, IsYearOf, find_year_lem}
use project_sensor.Calendar.Months.{
  IsMonthOf, find_month_lem, month_table, IsFit, IsSplit, skip_leap_day-IsSplit,
}

-- The fields of a date from 1970 on.
pub record IsTm (t : Tm) : Type 0 where
  pub sec : t.sec < 60
  pub min : t.min < 60
  pub hour : t.hour < 24
  pub wday : t.wday < 7
  pub mon : t.mon < 12
  pub mday : (1 ≤ t.mday) × (t.mday ≤ 31)
  pub year : 70 ≤ t.year
  pub yday : t.yday < year_length (t.year + tm_year_base)

module _ (time year yday : ℕ) (late : 1970 ≤ year) (within : yday < year_length year) where
  split : IsSplit year yday (skip_leap_day year yday)
  split = skip_leap_day-IsSplit year yday within

  month : IsMonthOf (skip_leap_day year yday).0 (find_month 11 (skip_leap_day year yday).0)
  month = find_month_lem _ split.small

  fits :
      let (work, first) = skip_leap_day year yday in IsFit year yday work first (find_month 11 work)
  fits = split.month _ month (month_table _ month.small)

  break_down-IsTm : IsTm (break_down time year yday)
  unfolding break_down
  break_down-IsTm = record {
    sec = omega arith;
    min = omega arith;
    hour = omega arith;
    wday = omega arith;
    mon = omega (arith, month.small);
    mday = (omega (arith, split.first), omega (arith, fits.in_month));
    year = omega (arith, late);
    yday = let e : year - 1900 + 1900 ≡ year = omega (arith, late) in rw e within;
  }

  break_down-is_late : is_late (break_down time year yday) ≡ false
  unfolding break_down is_late
  break_down-is_late = ground (arith, fits.in_table)

  break_down-day_of_year : day_of_year (break_down time year yday) ≡ yday
  unfolding break_down day_of_year
  break_down-day_of_year =
      let e : year - 1900 + 1900 ≡ year = omega (arith, late) in rw e fits.total

-- Below 2^48 seconds the broken down time has every field in its range, and the year that the loop
-- counts fits the 32 bits of an int.
pub gmtime_r-IsTm :
    (time : ℕ)
    → time < 2 ^ 48
    → IsTm (gmtime_r time) × ((gmtime_r time).year + tm_year_base < 2 ^ 31)
unfolding gmtime_r break_down
gmtime_r-IsTm time small =
    let y = find_year_lem (time / spd) in
    (
      break_down-IsTm time _ _ (omega (arith, y.year_eq)) y.within,
      omega (arith, y.year_eq, days-le y.after, y.counted, small),
    )

-- A date with its fields in their ranges is left alone by the carries of `mktime`.
normalise-IsTm : (t : Tm) → IsTm t → normalise t ≡ t
unfolding normalise
normalise-IsTm t v = ground arith

carry_months_done : (fuel : ℕ) (t : Tm) → is_late t ≡ false → carry_months fuel t ≡ t
unfolding carry_months
carry_months_done zero t h = refl
carry_months_done (suc fuel) t h = rw h refl

-- The seconds of a date that needs no carry.
mktime-IsTm :
    (t : Tm)
    → IsTm t
    → is_late t ≡ false
    → let yday = day_of_year t in
      let day = (days_before (sub64 t.year 70) + yday) % word in
      mktime t
      ≡ some (
        record t { yday = yday; wday = (day + 4) % 7 },
        (((day * 24 + t.hour) * 60 + t.min) * 60 + t.sec) % word,
      )
unfolding mktime
mktime-IsTm t v h =
    rw (normalise-IsTm t v)
      (rw (carry_months_done (2 * t.mday + 2) t h) (ground (arith, v.mon, v.year)))

module _ (time : ℕ) (small : time < 2 ^ 48) where
  -- The year, and the day within it.
  year_day : IsYearOf (time / spd) (find_year (time / spd + 1) 1970 (time / spd))
  year_day = find_year_lem (time / spd)

  gmtime_r-day :
      (days_before (sub64 (gmtime_r time).year 70) + (gmtime_r time).yday) % word ≡ time / spd
  unfolding gmtime_r break_down
  gmtime_r-day =
      let y = year_day.after in
      let far : y < 2 ^ 40 = omega (arith, days-le y, year_day.counted, small) in
      let e : sub64 ((find_year (time / spd + 1) 1970 (time / spd)).0 - tm_year_base) 70 ≡ y =
        omega (arith, year_day.year_eq) in
      rw e (rw (days_before-days y far) (omega (arith, year_day.counted, small)))

  gmtime_r-kept :
      (is_late (gmtime_r time) ≡ false) × (day_of_year (gmtime_r time) ≡ (gmtime_r time).yday)
  unfolding gmtime_r
  gmtime_r-kept = (
    break_down-is_late time _ _ (omega (arith, year_day.year_eq)) year_day.within,
    break_down-day_of_year time _ _ (omega (arith, year_day.year_eq)) year_day.within,
  )

  gmtime_r-clock :
      let t = gmtime_r time in
      ((time / spd + 4) % 7 ≡ t.wday)
      × ((((time / spd * 24 + t.hour) * 60 + t.min) * 60 + t.sec) % word ≡ time)
  unfolding gmtime_r break_down
  gmtime_r-clock = (omega arith, omega (arith, small))

  -- Every time is what `mktime` makes of its broken down form, for the next 8 million years; the
  -- broken down form is left as it was.
  pub mktime-gmtime_r : mktime (gmtime_r time) ≡ some (gmtime_r time, time)
  mktime-gmtime_r =
      let t = gmtime_r time in
      rw (mktime-IsTm t (gmtime_r-IsTm time small).0 gmtime_r-kept.0)
        (rw gmtime_r-kept.1 (rw gmtime_r-day (rw (gmtime_r-clock.0, gmtime_r-clock.1) refl)))
