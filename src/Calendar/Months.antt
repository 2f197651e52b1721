-- ===== src/Calendar/Months.antt =====
-- The months of the calendar: the table of `__spm`, and the two loops that read it.
use project_sensor.Prelude.{
  ℕ, zero, suc, ◌+◌, ◌-◌, ◌*◌, ◌≤◌, ◌<◌, ◌≡◌, refl, arith, true, false, ltb, ◌==◌, ◌&&◌,
  if◌then◌else◌, get_or, Bool-cases, inl, inr, ◌⊎◌,
}
use project_sensor.Calendar.{
  spm, Tm, is_leap, year_length, find_month, skip_leap_day, is_late, carry_month, carry_months,
}

abbrev pub start : ℕ → ℕ
start m = get_or spm m 0

-- The month that holds day `work` of the table.
pub record IsMonthOf (work m : ℕ) : Type 0 where
  pub small : m ≤ 11
  pub begins : start m ≤ work
  pub ends : work < start (suc m)

find_month-IsMonthOf :
    (i work : ℕ) → i ≤ 11 → work < start (suc i) → IsMonthOf work (find_month i work)
unfolding find_month
find_month-IsMonthOf zero work hi h = record { small = omega arith; begins = omega arith; ends = h }
find_month-IsMonthOf (suc i) work hi h = elim (Bool-cases (ltb work (start (suc i)))) [
  | inl early ↦ rw early (find_month-IsMonthOf i work (omega arith) (ground arith))
  | inr here ↦ rw here (record { small = hi; begins = ground arith; ends = h })
]

pub find_month_lem : (work : ℕ) → work < 365 → IsMonthOf work (find_month 11 work)
find_month_lem work h = find_month-IsMonthOf 11 work (omega arith) h

-- What the table says of month `m`: how long it is, and on which side of 1 March it lies.
pub record IsRow (m : ℕ) : Type 0 where
  pub least : start m + 28 ≤ start (suc m)
  pub most : start (suc m) ≤ start m + 31
  pub later : ((m ≡ 0) × (start m ≡ 0)) ⊎ (31 ≤ start m)
  pub side : ((m ≤ 1) × (start (suc m) ≤ 59)) ⊎ ((2 ≤ m) × (59 ≤ start m))

pub month_table : (m : ℕ) → m ≤ 11 → IsRow m
month_table zero h = record {
  least = omega arith;
  most = omega arith;
  later = inl (refl, refl);
  side = inl (omega arith, omega arith);
}
month_table (suc zero) h = record {
  least = omega arith;
  most = omega arith;
  later = inr (omega arith);
  side = inl (omega arith, omega arith);
}
month_table (suc (suc zero)) h = record {
  least = omega arith;
  most = omega arith;
  later = inr (omega arith);
  side = inr (omega arith, omega arith);
}
month_table (suc (suc (suc zero))) h = record {
  least = omega arith;
  most = omega arith;
  later = inr (omega arith);
  side = inr (omega arith, omega arith);
}
month_table (suc (suc (suc (suc zero)))) h = record {
  least = omega arith;
  most = omega arith;
  later = inr (omega arith);
  side = inr (omega arith, omega arith);
}
month_table (suc (suc (suc (suc (suc zero))))) h = record {
  least = omega arith;
  most = omega arith;
  later = inr (omega arith);
  side = inr (omega arith, omega arith);
}
month_table (suc (suc (suc (suc (suc (suc zero)))))) h = record {
  least = omega arith;
  most = omega arith;
  later = inr (omega arith);
  side = inr (omega arith, omega arith);
}
month_table (suc (suc (suc (suc (suc (suc (suc zero))))))) h = record {
  least = omega arith;
  most = omega arith;
  later = inr (omega arith);
  side = inr (omega arith, omega arith);
}
month_table (suc (suc (suc (suc (suc (suc (suc (suc zero)))))))) h = record {
  least = omega arith;
  most = omega arith;
  later = inr (omega arith);
  side = inr (omega arith, omega arith);
}
month_table (suc (suc (suc (suc (suc (suc (suc (suc (suc zero))))))))) h = record {
  least = omega arith;
  most = omega arith;
  later = inr (omega arith);
  side = inr (omega arith, omega arith);
}
month_table (suc (suc (suc (suc (suc (suc (suc (suc (suc (suc zero)))))))))) h = record {
  least = omega arith;
  most = omega arith;
  later = inr (omega arith);
  side = inr (omega arith, omega arith);
}
month_table (suc (suc (suc (suc (suc (suc (suc (suc (suc (suc (suc zero))))))))))) h = record {
  least = omega arith;
  most = omega arith;
  later = inr (omega arith);
  side = inr (omega arith, omega arith);
}
month_table (suc (suc (suc (suc (suc (suc (suc (suc (suc (suc (suc (suc m)))))))))))) h =
    absurd (omega arith)

-- The row of the table, the day in it and the leap day, put together, are the day of the year.
pub record IsFit (year yday work first m : ℕ) : Type 0 where
  pub total :
      start m + (first + (work - start m)) - 1 + (if is_leap year && ltb 1 m then 1 else 0) ≡ yday
  pub in_table : first + (work - start m) ≤ start (suc m)
  pub in_month : first + (work - start m) ≤ 31

pub record IsSplit (year yday : ℕ) (r : ℕ × ℕ) : Type 0 where
  pub small : r.0 < 365
  pub first : 1 ≤ r.1
  pub month : (m : ℕ) → IsMonthOf r.0 m → IsRow m → IsFit year yday r.0 r.1 m

pub skip_leap_day-IsSplit :
    (year yday : ℕ) → yday < year_length year → IsSplit year yday (skip_leap_day year yday)
unfolding skip_leap_day year_length
skip_leap_day-IsSplit year yday h = record {
  small = ground arith;
  first = ground arith;
  month =
      λ m f r. record { total = ground arith; in_table = ground arith; in_month = ground arith };
}

-- Falls with each round of the loop over the months.
abbrev weight : Tm → ℕ
weight t = 2 * t.mday + (if t.mon == 0 then 1 else 0)

pub carry_month_lem :
    (t : Tm)
    → t.mon < 12
    → is_late t ≡ true
    → ((carry_month t).mon < 12) × (weight (carry_month t) < weight t)
unfolding carry_month is_late
carry_month_lem t h late =
    let row = month_table t.mon (omega arith) in
    (ground arith, ground (arith, row.later, row.least))

carry_months_end :
    (fuel : ℕ) (t : Tm)
    → t.mon < 12
    → weight t < fuel
    → let r = carry_months fuel t in (is_late r ≡ false) × (r.mon < 12)
unfolding carry_months
carry_months_end zero t h w = absurd (omega arith)
carry_months_end (suc fuel) t h w = elim (Bool-cases (is_late t)) [
  | inl late ↦
      let next = carry_month_lem t h late in
      rw late (carry_months_end fuel (carry_month t) next.0 (omega (arith, next.1)))
  | inr done ↦ rw done (done, h)
]

-- The loop over the months in `mktime` ends, from any date whose month is below 12: after it the
-- day is within the table's entry for the following month, and the month is below 12.
pub carry_months_lem :
    (t : Tm)
    → t.mon < 12
    → let r = carry_months (2 * t.mday + 2) t in (r.mday ≤ get_or spm (1 + r.mon) 0) × (r.mon < 12)
unfolding is_late
carry_months_lem t h =
    let r = carry_months_end (2 * t.mday + 2) t h (ground arith) in (ground (arith, r.0), r.1)
