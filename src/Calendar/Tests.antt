-- ===== src/Calendar/Tests.antt =====
-- The calendar at concrete times.
use project_sensor.Prelude.{ℕ, ◌+◌, ◌<◌, ◌^◌, ◌≡◌, refl, arith, some}
use project_sensor.Calendar.{
  Tm, tm_year_base, is_leap, year_length, find_year, find_month, skip_leap_day, break_down,
  gmtime_r, carry_months, mktime, carry_month, is_late,
}
use project_sensor.Calendar.RoundTrip.{IsTm, gmtime_r-IsTm, mktime-gmtime_r}

-- Noon on 29 February 2016.
abbrev noon : ℕ
noon = 1456747200

abbrev leap_day : Tm
leap_day = record {
  sec = 0;
  min = 0;
  hour = 12;
  mday = 29;
  mon = 1;
  year = 116;
  wday = 1;
  yday = 59;
}

gmtime_r_test : gmtime_r noon ≡ leap_day
unfolding gmtime_r find_year year_length is_leap break_down find_month skip_leap_day
gmtime_r_test = refl

-- The 400th day of 1970 becomes 100 June: each round takes off the days before the month, not those
-- of the month.
abbrev day_400 : Tm
day_400 = record { sec = 0; min = 0; hour = 0; mday = 400; mon = 0; year = 70; wday = 0; yday = 0 }

carry_months_test : carry_months 802 day_400 ≡ record day_400 { mday = 100; mon = 5 }
unfolding carry_months carry_month is_late is_leap
carry_months_test = refl

gmtime_r-IsTm_example : IsTm (gmtime_r noon) × ((gmtime_r noon).year + tm_year_base < 2 ^ 31)
gmtime_r-IsTm_example = gmtime_r-IsTm noon (omega arith)

mktime-gmtime_r_example : mktime (gmtime_r noon) ≡ some (gmtime_r noon, noon)
mktime-gmtime_r_example = mktime-gmtime_r noon (omega arith)
