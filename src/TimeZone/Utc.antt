-- ===== src/TimeZone/Utc.antt =====
-- `fillHMS`, `toUtcTime` and `fromUtcTime` of base/TimeZone.cc. A `time_t` is an integer
-- without bounds, and so is an `int`, but for the cast of the count of days to `int`.
pub mod RoundTrip
pub mod Fields
use naive_net.Common.{ℕ, ◌+◌, ◌-◌, ◌*◌, ◌/◌, ◌%◌, ◌^◌, List, [], ◌∷◌, Bool, if◌then◌else◌}
use naive_net.Common.Int.{ℤ, pos, negsuc, ◌+ℤ◌, ◌-ℤ◌, ◌*ℤ◌, quot, rem, ltb_ℤ}
use naive_net.Atomic.{wrap}
use naive_net.Date.{
  Date, YearMonthDay, of_ymd, of_julian, year_month_day, week_day, julian_day_of_1970_01_01,
}

-- `struct tm`
pub record Tm : Type 0 where
  pub tm_sec : ℤ
  pub tm_min : ℤ
  pub tm_hour : ℤ
  pub tm_mday : ℤ
  pub tm_mon : ℤ
  pub tm_year : ℤ
  pub tm_wday : ℤ
  pub tm_yday : ℤ
  pub tm_isdst : ℤ
  pub tm_gmtoff : ℤ
  pub tm_zone : List ℕ

-- `bzero(&tm, sizeof tm)`
abbrev pub zero_tm : Tm
zero_tm = record {
  tm_sec = pos 0;
  tm_min = pos 0;
  tm_hour = pos 0;
  tm_mday = pos 0;
  tm_mon = pos 0;
  tm_year = pos 0;
  tm_wday = pos 0;
  tm_yday = pos 0;
  tm_isdst = pos 0;
  tm_gmtoff = pos 0;
  tm_zone = [];
}

abbrev pub seconds_per_day : ℕ
seconds_per_day = 24 * 60 * 60

-- An `int` read as an `unsigned`.
unfoldable pub to_unsigned : ℤ → ℕ
to_unsigned (pos n) = n % 2 ^ 32
to_unsigned (negsuc n) = 2 ^ 32 - 1 - n % 2 ^ 32

unfoldable pub fill_hms : ℕ → Tm → Tm
fill_hms seconds utc =
    let minutes = seconds / 60 in
    record utc {
      tm_sec = pos (seconds % 60);
      tm_min = pos (minutes % 60);
      tm_hour = pos (minutes / 60);
    }

-- What `toUtcTime` does once `seconds` and `days` are set right.
unfoldable pub utc_of : ℤ → ℤ → Bool → Tm
utc_of seconds days yday =
    let date = of_julian (days +ℤ julian_day_of_1970_01_01) in
    let ymd = year_month_day date in
    let utc =
      fill_hms (to_unsigned seconds) (record zero_tm { tm_zone = b'G' ∷ b'M' ∷ b'T' ∷ [] }) in
    let utc' = record utc {
      tm_year = ymd.year -ℤ pos 1900;
      tm_mon = ymd.month -ℤ pos 1;
      tm_mday = ymd.day;
      tm_wday = week_day date;
    } in
    if yday
    then record utc' {
      tm_yday = date.julian_day_number -ℤ (of_ymd ymd.year (pos 1) (pos 1)).julian_day_number;
    }
    else utc'

-- The seconds are set right where they are below zero.
unfoldable pub utc_at : ℤ → ℤ → Bool → Tm
utc_at seconds days yday =
    if ltb_ℤ seconds (pos 0)
    then utc_of (seconds +ℤ pos seconds_per_day) (days -ℤ pos 1) yday
    else utc_of seconds days yday

-- `TimeZone::toUtcTime`; `static_cast<int>` keeps the low 32 bits of the count of days.
unfoldable pub to_utc_time : ℤ → Bool → Tm
unfolding wrap
to_utc_time seconds_since_epoch yday =
    utc_at (rem seconds_since_epoch seconds_per_day)
      (wrap 32 (quot seconds_since_epoch seconds_per_day)) yday

-- The two overloads of `TimeZone::fromUtcTime`.
unfoldable pub from_utc_fields : ℤ → ℤ → ℤ → ℤ → ℤ → ℤ → ℤ
from_utc_fields year month day hour minute seconds =
    let date = of_ymd year month day in
    let seconds_in_day = 3600 *ℤ hour +ℤ 60 *ℤ minute +ℤ seconds in
    let days = date.julian_day_number -ℤ julian_day_of_1970_01_01 in
    seconds_per_day *ℤ days +ℤ seconds_in_day

unfoldable pub from_utc_time : Tm → ℤ
from_utc_time utc =
    from_utc_fields (utc.tm_year +ℤ pos 1900) (utc.tm_mon +ℤ pos 1) utc.tm_mday utc.tm_hour
      utc.tm_min utc.tm_sec
