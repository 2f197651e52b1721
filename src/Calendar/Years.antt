-- ===== src/Calendar/Years.antt =====
-- The years of the calendar: the closed formula of `mktime` counts what the loop of `gmtime_r` takes
-- away year by year.
use native.Mathlib.Nat.{add_assoc, zero-add}
use project_sensor.Prelude.{
  ℕ, zero, suc, ◌+◌, ◌-◌, ◌*◌, ◌/◌, ◌^◌, ◌≤◌, ◌<◌, ◌≡◌, refl, arith, leb, Bool-cases, inl, inr,
}
use project_sensor.Calendar.{is_leap, year_length, find_year, centuries, days_before}

-- `days_before` without the wrap-around.
abbrev pub days : ℕ → ℕ
days y = y * 365 + (y + 1) / 4 - centuries y

year_length_bounds : (y : ℕ) → (365 ≤ year_length y) × (year_length y ≤ 366)
unfolding year_length
year_length_bounds y = ground arith

centuries-le : (y : ℕ) → centuries y ≤ y
unfolding centuries
centuries-le y = ground arith

pub days_before-days : (y : ℕ) → y < 2 ^ 40 → days_before y ≡ days y
unfolding days_before
days_before-days y h = omega (arith, centuries-le y)

days-suc : (y : ℕ) → days (y + 1) ≡ days y + year_length (1970 + y)
unfolding centuries year_length is_leap
days-suc y = ground arith

-- The year and the day within it, after the loop.
pub record IsYearOf (total : ℕ) (r : ℕ × ℕ) : Type 0 where
  pub after : ℕ
  pub year_eq : r.0 ≡ 1970 + after
  pub within : r.1 < year_length r.0
  pub counted : days after + r.1 ≡ total

find_year-IsYearOf :
    (fuel y work : ℕ) → work < fuel → IsYearOf (days y + work) (find_year fuel (1970 + y) work)
unfolding find_year
find_year-IsYearOf zero y work h = elim h [ ]
find_year-IsYearOf (suc fuel) y work h = elim (Bool-cases (leb (year_length (1970 + y)) work)) [
  | inl more ↦
      let rest =
        find_year-IsYearOf fuel (y + 1) (work - year_length (1970 + y))
          (ground (arith, year_length_bounds (1970 + y))) in
      let shift : days (y + 1) + (work - year_length (1970 + y)) ≡ days y + work =
        ground (arith, days-suc y) in
      rw more (rw (add_assoc 1970 y 1) (rw (← shift) rest))
  | inr done ↦ rw done (record { after = y; year_eq = refl; within = ground arith; counted = refl })
]

-- The loop over the years of `gmtime_r` ends with the year that holds the day.
pub find_year_lem : (d : ℕ) → IsYearOf d (find_year (d + 1) 1970 d)
unfolding centuries
find_year_lem d =
    let found : IsYearOf (0 + d) (find_year (d + 1) 1970 d) =
      find_year-IsYearOf (d + 1) 0 d (omega arith) in
    rw zero-add at found

-- Every year counts at least 365 days.
pub days-le : (y : ℕ) → y * 365 ≤ days y
unfolding centuries
days-le y = ground arith
