-- ===== src/TimeZone/Examples.antt =====
-- Time zones of base/TimeZone.cc at concrete times: a zone of two transitions, and its file.
use naive_net.Common.{ℕ, ◌≡◌, refl, List, [], ◌∷◌, true, false, some, get_elem?, arith}
use naive_net.Common.Int.{rem, quot, ℤ, pos, negsuc, ◌+ℤ◌, ◌-ℤ◌, ◌*ℤ◌, ◌≤ℤ◌}
use naive_net.Date.{of_ymd, get_julian_day_number, julian_day_of_1970_01_01}
use naive_net.Date.Calendar.{IsCivil, days_of_month}
use naive_net.TimeZone.Utc.{
  Tm, utc_at, from_utc_fields, seconds_per_day, to_utc_time, from_utc_time,
}
use naive_net.TimeZone.Utc.RoundTrip.{from_utc_time-utc_at, from_utc_time-to_utc_time}
use naive_net.TimeZone.Utc.Fields.{Shows, to_utc_time-from_utc_fields}
use naive_net.TimeZone.Data.{Transition, Localtime, Data, find_localtime}
use naive_net.TimeZone.Data.Search.{InForce, key, find_localtime-InForce}
use naive_net.TimeZone.Local.{at_gmt, at_local, to_local_time, from_local_time}
use naive_net.TimeZone.Local.RoundTrip.{from_local_time-InForce}
use naive_net.TimeZone.File.{file_zone}
use naive_net.TimeZone.File.RoundTrip.{Header, IsHeader, IsZone, tz_file, file_zone-tz_file}

from_utc_time-to_utc_time_example : from_utc_time (to_utc_time (negsuc 0) true) ≡ negsuc 0
from_utc_time-to_utc_time_example =
    from_utc_time-to_utc_time (negsuc 0) true (omega arith) (omega arith)

leap_day-IsCivil : IsCivil 2012 2 29
unfolding days_of_month
leap_day-IsCivil = record {
  month_from = omega arith;
  month_to = omega arith;
  day_from = omega arith;
  day_to = omega arith;
}

february_29-early :
    from_utc_fields (pos 2012) (pos 2) (pos 29) (pos 23) (pos 59) (pos 58) ≤ℤ pos 46172011305599
unfolding from_utc_fields of_ymd get_julian_day_number julian_day_of_1970_01_01 ◌+ℤ◌ ◌-ℤ◌ ◌*ℤ◌ quot
february_29-early = omega arith

to_utc_time-from_utc_fields_example :
    Shows
      (to_utc_time (from_utc_fields (pos 2012) (pos 2) (pos 29) (pos 23) (pos 59) (pos 58)) true)
      2012
      2
      29
      23
      59
      58
to_utc_time-from_utc_fields_example =
    to_utc_time-from_utc_fields 2012 2 29 23 59 58 true leap_day-IsCivil (omega arith) (omega arith)
      (omega arith) february_29-early

-- Summer time from 1000 on, and the winter's offset from 900000 on.
abbrev summer : Transition
summer = record { gmttime = pos 1000; localtime = pos 8200; localtime_idx = 1 }

abbrev winter : Transition
winter = record { gmttime = pos 900000; localtime = pos 903600; localtime_idx = 0 }

abbrev standard_time : Localtime
standard_time = record { gmt_offset = pos 3600; is_dst = false; arrb_idx = 0 }

abbrev summer_time : Localtime
summer_time = record { gmt_offset = pos 7200; is_dst = true; arrb_idx = 4 }

abbrev zone : Data
zone = record {
  transitions = summer ∷ winter ∷ [];
  localtimes = standard_time ∷ summer_time ∷ [];
  abbreviation = b'S' ∷ b'T' ∷ b'D' ∷ 0 ∷ b'D' ∷ b'S' ∷ b'T' ∷ 0 ∷ [];
}

summer-InForce : InForce true (at_gmt (pos 500000)) [] summer (winter ∷ [])
unfolding key
summer-InForce = record { earlier = tt; begun = omega arith; later = (omega arith, tt) }

summer-InForce_local : InForce false (at_local (pos 500000 +ℤ pos 7200)) [] summer (winter ∷ [])
unfolding key ◌+ℤ◌
summer-InForce_local = record { earlier = tt; begun = omega arith; later = (omega arith, tt) }

find_localtime-InForce_example :
    find_localtime true (at_gmt (pos 500000)) zone ≡ get_elem? (standard_time ∷ summer_time ∷ []) 1
find_localtime-InForce_example =
    find_localtime-InForce true (at_gmt (pos 500000)) zone [] summer (winter ∷ []) refl
      summer-InForce

abbrev gmtime : ℤ → Tm
gmtime t = utc_at (rem t seconds_per_day) (quot t seconds_per_day) true

from_utc_time-zone :
    (t dst offset : ℤ) (name : List ℕ)
    → negsuc 62167219199 ≤ℤ t
    → from_utc_time (record (gmtime t) { tm_isdst = dst; tm_gmtoff = offset; tm_zone = name }) ≡ t
unfolding from_utc_time
from_utc_time-zone t dst offset name h = from_utc_time-utc_at t true h

not_before : negsuc 62167219199 ≤ℤ pos 500000 +ℤ pos 7200
unfolding ◌+ℤ◌
not_before = omega arith

not_before_fixed : negsuc 62167219199 ≤ℤ pos 500000 +ℤ negsuc 17999
unfolding ◌+ℤ◌
not_before_fixed = omega arith

from_local_time-InForce_example :
    (tm : Tm) × (to_local_time gmtime (record { zone = some zone }) (pos 500000) ≡ some tm)
    × (from_local_time gmtime from_utc_time (record { zone = some zone }) tm ≡ some (pos 500000))
from_local_time-InForce_example =
    from_local_time-InForce gmtime from_utc_time from_utc_time-zone zone (pos 500000) [] summer
      (winter ∷ []) summer_time refl refl summer-InForce summer-InForce_local not_before

abbrev header : Header
header = record {
  version = b'2' ∷ [];
  reserved = 0 ∷ 0 ∷ 0 ∷ 0 ∷ 0 ∷ 0 ∷ 0 ∷ 0 ∷ 0 ∷ 0 ∷ 0 ∷ 0 ∷ 0 ∷ 0 ∷ 0 ∷ [];
  isgmtcnt = pos 0;
  isstdcnt = pos 0;
  leapcnt = negsuc 0;
  trailing = 7 ∷ [];
}

header-IsHeader : IsHeader header
header-IsHeader = record {
  version_length = refl;
  reserved_length = refl;
  isgmtcnt_in = omega arith;
  isstdcnt_in = omega arith;
  leapcnt_in = omega arith;
}

zone-IsZone : IsZone zone
unfolding ◌+ℤ◌
zone-IsZone = record {
  transitions_in = omega arith;
  localtimes_in = omega arith;
  abbreviation_in = omega arith;
  offsets = (omega arith, (omega arith, tt));
  times = (omega arith, (omega arith, tt));
  shifts = (
    record { in_range = omega arith; local = summer_time; named = refl; shifted = refl },
    (record { in_range = omega arith; local = standard_time; named = refl; shifted = refl }, tt),
  );
}

file_zone-tz_file_example :
    file_zone (some (tz_file header zone)) ≡ some (record { zone = some zone })
file_zone-tz_file_example = file_zone-tz_file header zone header-IsHeader zone-IsZone
