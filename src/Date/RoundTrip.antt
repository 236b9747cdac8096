-- ===== src/Date/RoundTrip.antt =====
-- `getJulianDayNumber` and `getYearMonthDay` of base/Date.cc undo each other.
use naive_net.Common.{ℕ, ◌+◌, ◌-◌, ◌*◌, ◌/◌, ◌%◌, ◌≡◌, ◌∙◌, arith}
use naive_net.Common.Int.{pos}
use naive_net.Date.{YearMonthDay, get_julian_day_number, of_ymd, year_month_day}
use naive_net.Date.Calendar.{IsCivil, days_of_month}
use naive_net.Date.March.{IsMarch, month_start, day_count, julian_of_march, march_of_julian}

-- The parts of a year that begins in March.
abbrev pub march_year : ℕ → ℕ → ℕ
march_year y m = y + 4800 - (14 - m) / 12

abbrev pub march_month : ℕ → ℕ
march_month m = m + 12 * ((14 - m) / 12) - 3

unfoldable pub count : ℕ → ℕ → ℕ → ℕ
count y m d =
    day_count (march_year y m / 100) (march_year y m % 100) (month_start (march_month m) + (d - 1))

pub IsMarch-of_civil :
    (y m d : ℕ)
    → IsCivil y m d
    → IsMarch (march_year y m / 100) (march_year y m % 100) (march_month m) (d - 1)
unfolding days_of_month
IsMarch-of_civil y m d v = record {
  year_in = omega arith;
  month_in = omega arith;
  day_in = ground arith;
  fits_year = ground arith;
  fits_century = ground arith;
}

pub julian-count :
    (y m d : ℕ)
    → IsCivil y m d
    → get_julian_day_number (pos y) (pos m) (pos d) ≡ pos (count y m d - 32044)
unfolding count
julian-count y m d v =
    julian_of_march y m d _ _ _ _ (IsMarch-of_civil y m d v) (omega arith) (omega arith)
      (omega arith)

ymd_eq :
    (a b c y m d : ℕ)
    → a ≡ y
    → b ≡ m
    → c ≡ d
    → record { year = pos a; month = pos b; day = pos c }
      ≡ (let t : YearMonthDay = record { year = pos y; month = pos m; day = pos d } in t)
ymd_eq a b c y m d e f g = rw (e, f, g)

-- A date made from a day of the calendar, at year 0 or later, gives back that year, month and day.
pub year_month_day-of_ymd :
    (y m d : ℕ)
    → IsCivil y m d
    → year_month_day (of_ymd (pos y) (pos m) (pos d))
      ≡ record { year = pos y; month = pos m; day = pos d }
unfolding year_month_day of_ymd count
year_month_day-of_ymd y m d v = rw (julian-count y m d v) (
    march_of_julian (count y m d - 32044) _ _ _ _ (IsMarch-of_civil y m d v) (omega arith)
      (omega arith)
    ∙ ymd_eq _ _ _ y m d (omega arith) (omega arith) (omega arith))
