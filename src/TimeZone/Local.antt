-- ===== src/TimeZone/Local.antt =====
-- `TimeZone` of base/TimeZone.cc: a zone made from a file or from an offset, and the conversions
-- to and from its local time. `gmtime_r` and `timegm` are those of the C library.
pub mod RoundTrip
use naive_net.Common.{
  ◌>>=◌, ℕ, List, [], ◌∷◌, Option, none, some, Bool, true, false, ◌&&◌, not, if◌then◌else◌, drop,
}
use naive_net.Common.Int.{ℤ, pos, ◌+ℤ◌, ◌-ℤ◌, ◌==ℤ◌}
use naive_net.TimeZone.Utc.{Tm}
use naive_net.TimeZone.Data.{Transition, Localtime, Data, empty_data, find_localtime}

-- `TimeZone`, with the pointer `data_`.
pub record TimeZone : Type 0 where
  pub zone : Option Data

unfoldable pub invalid_zone : TimeZone
invalid_zone = record { zone = none }

unfoldable pub valid : TimeZone → Bool
valid tz = elim tz.zone [ none ↦ false | some d ↦ true ]

-- `TimeZone(int eastOfUtc, const char* tzname)`
unfoldable pub fixed_zone : ℤ → List ℕ → TimeZone
fixed_zone east_of_utc name = record {
  zone = some (record empty_data {
    localtimes = record { gmt_offset = east_of_utc; is_dst = false; arrb_idx = 0 } ∷ [];
    abbreviation = name;
  });
}

abbrev pub bool_int : Bool → ℤ
bool_int true = pos 1
bool_int false = pos 0

abbrev pub at_gmt : ℤ → Transition
at_gmt seconds = record { gmttime = seconds; localtime = pos 0; localtime_idx = 0 }

abbrev pub at_local : ℤ → Transition
at_local seconds = record { gmttime = pos 0; localtime = seconds; localtime_idx = 0 }

-- Whether the time an hour earlier is tried: the broken-down time is not in summer time, and shows
-- the same hour and minute.
unfoldable pub is_before_switch : Tm → Tm → Bool
is_before_switch try_tm local_tm =
    (try_tm.tm_isdst ==ℤ pos 0)
    && (try_tm.tm_hour ==ℤ local_tm.tm_hour)
    && (try_tm.tm_min ==ℤ local_tm.tm_min)

module _ (gmtime_r : ℤ → Tm) where
  -- The fields of the broken-down time at `seconds` under a local time.
  unfoldable pub local_tm : ℤ → List ℕ → Localtime → Tm
  local_tm seconds abbreviation local = record (gmtime_r (seconds +ℤ local.gmt_offset)) {
    tm_isdst = bool_int local.is_dst;
    tm_gmtoff = local.gmt_offset;
    tm_zone = drop local.arrb_idx abbreviation;
  }

  -- `toLocalTime`; `none` is a failed assertion or an access out of bounds.
  unfoldable pub to_local_time : TimeZone → ℤ → Option Tm
  unfolding local_tm
  to_local_time tz seconds = do
    d ← tz.zone
    local ← find_localtime true (at_gmt seconds) d
    some (local_tm seconds d.abbreviation local)

module _ (gmtime_r : ℤ → Tm) (timegm : Tm → ℤ) where
  -- `fromLocalTime`
  unfoldable pub from_local_time : TimeZone → Tm → Option ℤ
  unfolding to_local_time is_before_switch
  from_local_time tz local_tm = do
    d ← tz.zone
    let seconds = timegm local_tm
    local ← find_localtime false (at_local seconds) d
    let tried = do
      try_tm ← to_local_time gmtime_r tz (seconds -ℤ local.gmt_offset)
      some (
          if is_before_switch try_tm local_tm
          then seconds -ℤ pos 3600 -ℤ local.gmt_offset
          else seconds -ℤ local.gmt_offset)
    if local_tm.tm_isdst ==ℤ pos 0 then some (seconds -ℤ local.gmt_offset) else tried
