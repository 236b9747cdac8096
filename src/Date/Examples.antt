-- ===== src/Date/Examples.antt =====
-- Dates of base/Date.h: the tests of base/tests/Date_unittest.cpp in part, and the theorems at
-- concrete dates.
use naive_net.Common.{◌≡◌, refl, arith}
use naive_net.Common.Int.{pos, ◌+ℤ◌, ◌-ℤ◌, ◌*ℤ◌, quot, rem}
use naive_net.Date.{
  get_julian_day_number, of_ymd, of_julian, year_month_day, week_day, days_per_week,
}
use naive_net.Date.Calendar.{IsCivil, Civil, next_day, days_of_month}
use naive_net.Date.RoundTrip.{year_month_day-of_ymd}
use naive_net.Date.Order.{of_civil, of_civil-next_day}

-- 29 February 2012 and 31 December 1999
abbrev leap_day : Civil
leap_day = record { year = 2012; month = 2; day = 29 }

abbrev last_day : Civil
last_day = record { year = 1999; month = 12; day = 31 }

leap_day-IsCivil : IsCivil 2012 2 29
unfolding days_of_month
leap_day-IsCivil = record {
  month_from = omega arith;
  month_to = omega arith;
  day_from = omega arith;
  day_to = omega arith;
}

last_day-IsCivil : IsCivil 1999 12 31
unfolding days_of_month
last_day-IsCivil = record {
  month_from = omega arith;
  month_to = omega arith;
  day_from = omega arith;
  day_to = omega arith;
}

-- The first day of the clock was a Thursday.
epoch : (of_ymd (pos 1970) (pos 1) (pos 1)).julian_day_number ≡ pos 2440588
unfolding of_ymd get_julian_day_number ◌-ℤ◌ ◌+ℤ◌ quot ◌*ℤ◌
epoch = refl

epoch_week_day : week_day (of_julian (pos 2440588)) ≡ pos 4
unfolding week_day of_julian rem ◌+ℤ◌
epoch_week_day = refl

year_month_day-of_ymd_example :
    year_month_day (of_ymd (pos 2012) (pos 2) (pos 29))
    ≡ record { year = pos 2012; month = pos 2; day = pos 29 }
year_month_day-of_ymd_example = year_month_day-of_ymd 2012 2 29 leap_day-IsCivil

of_civil-next_day_example :
    IsCivil (next_day last_day).year (next_day last_day).month (next_day last_day).day
    × ((of_civil (next_day last_day)).julian_day_number
        ≡ (of_civil last_day).julian_day_number +ℤ pos 1)
    × (week_day (of_civil (next_day last_day))
        ≡ rem (week_day (of_civil last_day) +ℤ pos 1) days_per_week)
of_civil-next_day_example = of_civil-next_day last_day last_day-IsCivil
