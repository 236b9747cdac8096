-- ===== src/Date/Calendar.antt =====
-- The Gregorian calendar that the code is held against, after `isLeapYear` and `daysOfMonth` of
-- base/tests/Date_unittest.cpp.
use naive_net.Common.{ℕ, ◌+◌, ◌%◌, ◌≤◌, Bool, true, false, ltb, ◌==◌, ◌||◌, if◌then◌else◌}

unfoldable pub is_leap_year : ℕ → Bool
is_leap_year year =
    if year % 400 == 0 then true else if year % 100 == 0 then false else year % 4 == 0

unfoldable pub days_of_month : ℕ → ℕ → ℕ
unfolding is_leap_year
days_of_month year month =
    if month == 2
    then (if is_leap_year year then 29 else 28)
    else if (month == 4) || (month == 6) || (month == 9) || (month == 11)
    then 30
    else 31

-- A year, a month and a day that name a day of the calendar.
pub record IsCivil (y m d : ℕ) : Type 0 where
  pub month_from : 1 ≤ m
  pub month_to : m ≤ 12
  pub day_from : 1 ≤ d
  pub day_to : d ≤ days_of_month y m

-- The day after.
pub record Civil : Type 0 where
  pub year : ℕ
  pub month : ℕ
  pub day : ℕ

unfoldable pub next_day : Civil → Civil
next_day t =
    if ltb t.day (days_of_month t.year t.month)
    then record t { day = t.day + 1 }
    else if ltb t.month 12
    then record { year = t.year; month = t.month + 1; day = 1 }
    else record { year = t.year + 1; month = 1; day = 1 }
