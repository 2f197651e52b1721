-- ===== src/Calendar.antt =====
-- The calendar of api/timestamp.cpp: `__isleap`, `gmtime_r` and `mktime`. A `time_t` is an unsigned
-- word of 64 bits; the fields of `struct tm` are kept as numbers that are not negative. The year of
-- `gmtime_r` is an int of 32 bits, which it fits below 2^48 seconds; the theorems on `gmtime_r` ask for
-- such a time.
pub mod Years
pub mod Months
pub mod RoundTrip
mod Tests
use project_sensor.Prelude.{
  ℕ, zero, suc, ◌+◌, ◌-◌, ◌*◌, ◌/◌, ◌%◌, ◌^◌, Bool, true, false, not, ◌&&◌, ◌||◌, List, [], ◌∷◌,
  Option, none, some, ltb, leb, ◌==◌, if◌then◌else◌, get_or,
}

-- Days before each month, in a year that is not a leap year.
abbrev pub spm : List ℕ
spm = 0 ∷ 31 ∷ 59 ∷ 90 ∷ 120 ∷ 151 ∷ 181 ∷ 212 ∷ 243 ∷ 273 ∷ 304 ∷ 334 ∷ 365 ∷ []

-- Seconds per day.
abbrev pub spd : ℕ
spd = 86400

abbrev pub tm_year_base : ℕ
tm_year_base = 1900

pub record Tm : Type 0 where
  pub sec : ℕ
  pub min : ℕ
  pub hour : ℕ
  pub mday : ℕ
  pub mon : ℕ
  pub year : ℕ
  pub wday : ℕ
  pub yday : ℕ

pub is_leap : ℕ → Bool
is_leap year = year % 4 == 0 && (not (year % 100 == 0) || year % 400 == 0)

pub year_length : ℕ → ℕ
year_length year = if is_leap year then 366 else 365

-- The loop over the years from `i`, with `work` days left.
pub find_year : ℕ → ℕ → ℕ → ℕ × ℕ
find_year zero i work = (i, work)
find_year (suc fuel) i work =
    let later = find_year fuel (i + 1) (work - year_length i) in
    if leb (year_length i) work then later else (i, work)

-- The loop over the months from `i` downwards.
pub find_month : ℕ → ℕ → ℕ
find_month zero work = zero
find_month (suc i) work =
    let earlier = find_month i work in if ltb work (get_or spm (suc i) 0) then earlier else suc i

-- The day number within the table, and the 2 that stands for 29 February.
pub skip_leap_day : ℕ → ℕ → ℕ × ℕ
skip_leap_day year work =
    if is_leap year && ltb 58 work
    then (if work == 59 then (58, 2) else (work - 1, 1))
    else (work, 1)

pub break_down : ℕ → ℕ → ℕ → Tm
unfolding skip_leap_day find_month
break_down time year yday =
    let (work, first) = skip_leap_day year yday in
    let mon = find_month 11 work in
    record {
      sec = time % spd % 60;
      min = time % spd / 60 % 60;
      hour = time % spd / 60 / 60;
      mday = first + (work - get_or spm mon 0);
      mon = mon;
      year = year - tm_year_base;
      wday = (4 + time / spd) % 7;
      yday = yday;
    }

-- A year has at least 365 days, so the number of days is fuel enough.
pub gmtime_r : ℕ → Tm
unfolding find_year break_down
gmtime_r time =
    let (year, yday) = find_year (time / spd + 1) 1970 (time / spd) in break_down time year yday

-- The four tests that carry a field into the next.
pub normalise : Tm → Tm
normalise t0 =
    let t1 =
      if ltb 60 t0.sec then record t0 { min = t0.min + t0.sec / 60; sec = t0.sec % 60 } else t0 in
    let t2 =
      if ltb 60 t1.min then record t1 { hour = t1.hour + t1.min / 60; min = t1.min % 60 } else t1 in
    let t3 =
      if ltb 24 t2.hour
      then record t2 { mday = t2.mday + t2.hour / 24; hour = t2.hour % 24 }
      else t2 in
    if ltb 12 t3.mon then record t3 { year = t3.year + t3.mon / 12; mon = t3.mon % 12 } else t3

-- One round of the loop over the days of the month.
pub carry_month : Tm → Tm
carry_month t =
    let mday = if t.mon == 1 && is_leap (t.year + tm_year_base) then t.mday - 1 else t.mday in
    let left = mday - get_or spm t.mon 0 in
    if ltb 11 (t.mon + 1)
    then record t { mday = left; mon = 0; year = t.year + 1 }
    else record t { mday = left; mon = t.mon + 1 }

pub is_late : Tm → Bool
is_late t = ltb (get_or spm (1 + t.mon) 0) t.mday

pub carry_months : ℕ → Tm → Tm
carry_months zero t = t
carry_months (suc fuel) t =
    let later = carry_months fuel (carry_month t) in if is_late t then later else t

-- Unsigned words of 64 bits.
abbrev pub word : ℕ
word = 2 ^ 64

abbrev pub sub64 : ℕ → ℕ → ℕ
sub64 a b = (a + word - b) % word

-- What is taken off for the century years that are not leap years, `years` after 1970.
pub centuries : ℕ → ℕ
centuries years =
    let hundreds = (years - 131) / 100 in
    let taken = hundreds / 4 * 3 + 1 + (if hundreds % 4 == 3 then 2 else hundreds % 4) in
    if leb 131 years then taken else 0

-- Days before the year that is `years` after 1970.
pub days_before : ℕ → ℕ
unfolding centuries
days_before years = sub64 ((years * 365 + (years + 1) % word / 4) % word) (centuries years)

pub day_of_year : Tm → ℕ
day_of_year t =
    get_or spm t.mon 0
    + t.mday
    - 1
    + (if is_leap (t.year + tm_year_base) && ltb 1 t.mon then 1 else 0)

-- The struct is updated, and `years` is read before it is. In a month 12 the loop reads past the
-- table, which is `none`.
pub mktime : Tm → Option (Tm × ℕ)
unfolding normalise carry_month is_late carry_months days_before day_of_year
mktime t0 =
    let years = sub64 t0.year 70 in
    let t1 = normalise t0 in
    let t = carry_months (2 * t1.mday + 2) t1 in
    let yday = day_of_year t in
    let day = (days_before years + yday) % word in
    if ltb 11 t1.mon
    then none
    else if ltb t.year 70
    then some (t, word - 1)
    else some (
      record t { yday = yday; wday = (day + 4) % 7 },
      (((day * 24 + t.hour) * 60 + t.min) * 60 + t.sec) % word,
    )
