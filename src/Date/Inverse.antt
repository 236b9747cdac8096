-- ===== src/Date/Inverse.antt =====
-- Every day number from 0000-01-01 on is that of a day of the calendar, the one that
-- `getYearMonthDay` of base/Date.cc computes.
use naive_net.Common.{ℕ, ◌+◌, ◌-◌, ◌*◌, ◌/◌, ◌≤◌, ◌≡◌, refl, sym, ap, ◌∙◌, arith}
use naive_net.Common.Int.{pos}
use naive_net.Date.{get_julian_day_number, of_ymd, of_julian, year_month_day}
use naive_net.Date.Calendar.{IsCivil, days_of_month}
use naive_net.Date.March.{IsMarch, month_start, day_count, julian_of_march}
use naive_net.Date.RoundTrip.{year_month_day-of_ymd}

-- The parts of the day with number `j`.
module _ (j : ℕ) where
  century_of : ℕ
  century_of = (4 * (j + 32044) + 3) / 146097

  day_of_century : ℕ
  unfolding century_of
  day_of_century = j + 32044 - 146097 * century_of / 4

  year_of : ℕ
  unfolding day_of_century
  year_of = (4 * day_of_century + 3) / 1461

  day_of_year : ℕ
  unfolding year_of
  day_of_year = day_of_century - 1461 * year_of / 4

  month_of : ℕ
  unfolding day_of_year
  month_of = (5 * day_of_year + 2) / 153

  day_of_month : ℕ
  unfolding month_of
  day_of_month = day_of_year - month_start month_of

  IsMarch-of_julian : IsMarch century_of year_of month_of day_of_month
  unfolding day_of_month
  IsMarch-of_julian = record {
    year_in = omega arith;
    month_in = omega arith;
    day_in = omega arith;
    fits_year = omega arith;
    fits_century = omega arith;
  }

  count_of_julian : day_count century_of year_of (month_start month_of + day_of_month) ≡ j + 32044
  unfolding day_of_month
  count_of_julian = omega arith

  abbrev civil_year : ℕ
  unfolding month_of
  civil_year = 100 * century_of + year_of + month_of / 10 - 4800

  abbrev civil_month : ℕ
  civil_month = month_of + 3 - 12 * (month_of / 10)

  -- From 0000-01-01 on, every day number is that of a day of the calendar.
  IsCivil-of_julian : 1721060 ≤ j → IsCivil civil_year civil_month (day_of_month + 1)
  unfolding day_of_month days_of_month
  IsCivil-of_julian h = record {
    month_from = omega arith;
    month_to = omega arith;
    day_from = omega arith;
    day_to = ground arith;
  }

  julian_of_civil :
      1721060 ≤ j
      → get_julian_day_number (pos civil_year) (pos civil_month) (pos (day_of_month + 1)) ≡ pos j
  unfolding day_of_month
  julian_of_civil h =
      julian_of_march _ _ _ _ _ _ _ IsMarch-of_julian (omega arith) (omega arith) refl
      ∙ ap pos (omega (arith, count_of_julian))

-- A day number from 1721060 on is that of a day of the calendar: the code gives the year, month and day
-- of it, and makes the day number of these.
pub of_ymd-year_month_day :
    (j : ℕ)
    → 1721060 ≤ j
    → (y : ℕ) × (m : ℕ) × (d : ℕ) × IsCivil y m d
      × (year_month_day (of_julian (pos j)) ≡ record { year = pos y; month = pos m; day = pos d })
      × (of_ymd (pos y) (pos m) (pos d) ≡ of_julian (pos j))
unfolding of_julian of_ymd
of_ymd-year_month_day j h = (
  civil_year j,
  civil_month j,
  day_of_month j + 1,
  IsCivil-of_julian j h,
  ap year_month_day (ap (λ n. record { julian_day_number = n }) (sym (julian_of_civil j h)))
      ∙ year_month_day-of_ymd _ _ _ (IsCivil-of_julian j h),
  ap of_julian (julian_of_civil j h),
)
