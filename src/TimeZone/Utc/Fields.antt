-- ===== src/TimeZone/Utc/Fields.antt =====
-- `fromUtcTime` and then `toUtcTime`, both of base/TimeZone.cc, give back the fields of a date and a
-- time of the day.
use naive_net.Common.{ℕ, ◌+◌, ◌-◌, ◌*◌, ◌≤◌, ◌<◌, ◌≡◌, sym, ap, ◌∙◌, arith, Bool, true, false}
use naive_net.Common.Int.{
  ℤ, pos, negsuc, ◌+ℤ◌, ◌-ℤ◌, ◌*ℤ◌, ◌≤ℤ◌, pos_part, neg_part, pos_laws, +ℤ_parts, -ℤ_parts,
  *ℤ_parts,
}
use naive_net.Date.{of_ymd, of_julian, year_month_day, julian_day_of_1970_01_01}
use naive_net.Date.Calendar.{IsCivil}
use naive_net.Date.RoundTrip.{year_month_day-of_ymd, julian-count, count}
use naive_net.TimeZone.Utc.{Tm, to_unsigned, fill_hms, utc_of, to_utc_time, from_utc_fields}
use naive_net.TimeZone.Utc.RoundTrip.{
  epoch_day, back, IsSplit, to_utc_time-IsSplit, to_utc_time-utc_at,
}

-- A day and a second of it are found by their sum.
IsSplit-unique :
    {t : ℤ} {s j s' j' : ℕ}
    → IsSplit t s j
    → s' < 86400
    → 86400 *ℤ (pos j' -ℤ pos 2440588) +ℤ pos s' ≡ t
    → (s ≡ s') × (j ≡ j')
IsSplit-unique {t} {s} {j} {s'} {j'} v h e =
    let d = pos j -ℤ pos 2440588 in
    let d' = pos j' -ℤ pos 2440588 in
    let same : 86400 *ℤ d +ℤ pos s ≡ 86400 *ℤ d' +ℤ pos s' = v.is_sum ∙ sym e in
    omega (
      arith,
      v.second_in,
      +ℤ_parts (86400 *ℤ d) (pos s),
      +ℤ_parts (86400 *ℤ d') (pos s'),
      *ℤ_parts 86400 d,
      *ℤ_parts 86400 d',
      -ℤ_parts (pos j) (pos 2440588),
      -ℤ_parts (pos j') (pos 2440588),
      ap pos_part same,
      ap neg_part same,
    )

count-from_0000 : (y m d : ℕ) → IsCivil y m d → 32044 + 1721060 ≤ count y m d
unfolding count
count-from_0000 y m d v = omega arith

-- A `struct tm` that shows a date and a time of the day.
pub record Shows (utc : Tm) (y m d hour minute second : ℕ) : Type 0 where
  pub year : utc.tm_year +ℤ pos 1900 ≡ pos y
  pub month : utc.tm_mon +ℤ pos 1 ≡ pos m
  pub day : utc.tm_mday ≡ pos d
  pub hour_is : utc.tm_hour ≡ pos hour
  pub minute_is : utc.tm_min ≡ pos minute
  pub second_is : utc.tm_sec ≡ pos second

utc_of-Shows :
    (y m d hour minute second j : ℕ)
    → hour < 24
    → minute < 60
    → second < 60
    → year_month_day (of_julian (pos j)) ≡ record { year = pos y; month = pos m; day = pos d }
    → Shows
        (utc_of (pos (hour * 3600 + minute * 60 + second)) (pos j -ℤ pos 2440588) false)
        y
        m
        d
        hour
        minute
        second
unfolding utc_of fill_hms to_unsigned
utc_of-Shows y m d hour minute second j h i k e =
    let date : pos j -ℤ pos 2440588 +ℤ julian_day_of_1970_01_01 ≡ pos j =
      rw epoch_day (back (pos j) 2440588) in
    record {
      year = rw (date, e) (back (pos y) 1900);
      month = rw (date, e) (back (pos m) 1);
      day = rw (date, e);
      hour_is = ap pos (omega arith);
      minute_is = ap pos (omega arith);
      second_is = ap pos (omega arith);
    }

Shows-yday :
    (s t : ℤ) (yday : Bool) {y m d hour minute second : ℕ}
    → Shows (utc_of s t false) y m d hour minute second
    → Shows (utc_of s t yday) y m d hour minute second
unfolding utc_of fill_hms
Shows-yday s t false v = v
Shows-yday s t true v = record {
  year = v.year;
  month = v.month;
  day = v.day;
  hour_is = v.hour_is;
  minute_is = v.minute_is;
  second_is = v.second_is;
}

-- `fromUtcTime` of a date and a time is the sum that `IsSplit` wants.
from_utc_fields-sum :
    (y m d hour minute second : ℕ)
    → IsCivil y m d
    → 86400 *ℤ (pos (count y m d - 32044) -ℤ pos 2440588)
        +ℤ pos (hour * 3600 + minute * 60 + second)
      ≡ from_utc_fields (pos y) (pos m) (pos d) (pos hour) (pos minute) (pos second)
unfolding from_utc_fields of_ymd
from_utc_fields-sum y m d hour minute second v =
    rw (julian-count y m d v, epoch_day)
      (simp pos_laws
        (ap (λ n. 86400 *ℤ (pos (count y m d - 32044) -ℤ pos 2440588) +ℤ pos n) (omega arith)))

-- Up to the last second of the days that `Date` counts with no overflow, `toUtcTime` gives back the date
-- and the time of the day that `fromUtcTime` was given.
pub to_utc_time-from_utc_fields :
    (y m d hour minute second : ℕ) (yday : Bool)
    → IsCivil y m d
    → hour < 24
    → minute < 60
    → second < 60
    → from_utc_fields (pos y) (pos m) (pos d) (pos hour) (pos minute) (pos second)
      ≤ℤ pos 46172011305599
    → Shows
        (to_utc_time
          (from_utc_fields (pos y) (pos m) (pos d) (pos hour) (pos minute) (pos second))
          yday)
        y
        m
        d
        hour
        minute
        second
unfolding of_ymd of_julian
to_utc_time-from_utc_fields y m d hour minute second yday v h i k top =
    let t = from_utc_fields (pos y) (pos m) (pos d) (pos hour) (pos minute) (pos second) in
    let sum = from_utc_fields-sum y m d hour minute second v in
    let j' = count y m d - 32044 in
    let s' = hour * 3600 + minute * 60 + second in
    let late : negsuc 62167219199 ≤ℤ t = omega (
      arith,
      ap pos_part sum,
      ap neg_part sum,
      +ℤ_parts (86400 *ℤ (pos j' -ℤ pos 2440588)) (pos s'),
      *ℤ_parts 86400 (pos j' -ℤ pos 2440588),
      -ℤ_parts (pos j') (pos 2440588),
      count-from_0000 y m d v,
    ) in
    let (s, j, after, split) = to_utc_time-IsSplit t late in
    let (s_is, j_is) = IsSplit-unique split (omega arith) sum in
    rw (to_utc_time-utc_at t yday late top, split.finds yday, s_is, j_is)
      (Shows-yday _ _ yday (
        utc_of-Shows y m d hour minute second (count y m d - 32044) h i k (
          ap year_month_day (ap of_julian (sym (julian-count y m d v)))
          ∙ year_month_day-of_ymd y m d v)))
