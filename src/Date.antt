-- ===== src/Date.antt =====
-- base/Date.h and base/Date.cc: dates of the Gregorian calendar by their Julian day number. An `int`
-- is an integer without bounds.
pub mod Calendar
mod March
pub mod RoundTrip
pub mod Inverse
pub mod Order
pub mod Text
mod Examples
use naive_net.Common.{ℕ, List, ◌∷◌, ◌++◌, take, Bool}
use naive_net.Common.Printf.{blank_padded, zero_padded}
use naive_net.Common.Int.{ℤ, pos, ◌+ℤ◌, ◌-ℤ◌, ◌*ℤ◌, quot, rem, ltb_ℤ, ◌==ℤ◌}

-- `Date::YearMonthDay`
pub record YearMonthDay : Type 0 where
  pub year : ℤ
  pub month : ℤ
  pub day : ℤ

-- `detail::getJulianDayNumber`
unfoldable pub get_julian_day_number : ℤ → ℤ → ℤ → ℤ
get_julian_day_number year month day =
    let a = quot (pos 14 -ℤ month) 12 in
    let y = year +ℤ pos 4800 -ℤ a in
    let m = month +ℤ 12 *ℤ a -ℤ pos 3 in
    day
    +ℤ quot (153 *ℤ m +ℤ pos 2) 5
    +ℤ 365 *ℤ y
    +ℤ quot y 4
    -ℤ quot y 100
    +ℤ quot y 400
    -ℤ pos 32045

-- `detail::getYearMonthDay`
unfoldable pub get_year_month_day : ℤ → YearMonthDay
get_year_month_day julian_day_number =
    let a = julian_day_number +ℤ pos 32044 in
    let b = quot (4 *ℤ a +ℤ pos 3) 146097 in
    let c = a -ℤ quot (146097 *ℤ b) 4 in
    let d = quot (4 *ℤ c +ℤ pos 3) 1461 in
    let e = c -ℤ quot (1461 *ℤ d) 4 in
    let m = quot (5 *ℤ e +ℤ pos 2) 153 in
    record {
      year = 100 *ℤ b +ℤ d -ℤ pos 4800 +ℤ quot m 10;
      month = m +ℤ pos 3 -ℤ 12 *ℤ quot m 10;
      day = e -ℤ quot (153 *ℤ m +ℤ pos 2) 5 +ℤ pos 1;
    }

-- `Date`, with its one member.
pub record Date : Type 0 where
  pub julian_day_number : ℤ

-- `Date::kDaysPerWeek` and `Date::kJulianDayOf1970_01_01`
abbrev pub days_per_week : ℕ
days_per_week = 7

unfoldable pub julian_day_of_1970_01_01 : ℤ
unfolding get_julian_day_number
julian_day_of_1970_01_01 = get_julian_day_number (pos 1970) (pos 1) (pos 1)

-- The four constructors.
unfoldable pub invalid_date : Date
invalid_date = record { julian_day_number = pos 0 }

unfoldable pub of_ymd : ℤ → ℤ → ℤ → Date
of_ymd y m d = record { julian_day_number = get_julian_day_number y m d }

unfoldable pub of_julian : ℤ → Date
of_julian n = record { julian_day_number = n }

-- From the fields `tm_year`, `tm_mon` and `tm_mday` of a `struct tm`.
unfoldable pub of_tm : ℤ → ℤ → ℤ → Date
of_tm tm_year tm_mon tm_mday = record {
  julian_day_number = get_julian_day_number (tm_year +ℤ pos 1900) (tm_mon +ℤ pos 1) tm_mday;
}

-- `swap` leaves the two dates exchanged.
unfoldable pub swap : Date → Date → Date × Date
swap this that = (that, this)

unfoldable pub valid : Date → Bool
valid t = ltb_ℤ (pos 0) t.julian_day_number

unfoldable pub year_month_day : Date → YearMonthDay
year_month_day t = get_year_month_day t.julian_day_number

unfoldable pub year : Date → ℤ
year t = (year_month_day t).year

unfoldable pub month : Date → ℤ
month t = (year_month_day t).month

unfoldable pub day : Date → ℤ
day t = (year_month_day t).day

unfoldable pub week_day : Date → ℤ
week_day t = rem (t.julian_day_number +ℤ pos 1) days_per_week

-- `toIsoString`: "%4d-%02d-%02d" into 32 bytes.
unfoldable pub to_iso_string : Date → List ℕ
to_iso_string t =
    let ymd = year_month_day t in
    take 31 (
      blank_padded 4 ymd.year
      ++ (b'-' ∷ (zero_padded 2 ymd.month ++ (b'-' ∷ zero_padded 2 ymd.day))))

-- `operator<` and `operator==`
unfoldable pub lt : Date → Date → Bool
lt x y = ltb_ℤ x.julian_day_number y.julian_day_number

unfoldable pub eq : Date → Date → Bool
eq x y = x.julian_day_number ==ℤ y.julian_day_number
