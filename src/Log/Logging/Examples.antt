-- ===== src/Log/Logging/Examples.antt =====
-- Data for the logging statements of base/log/Logging.h: a clock, the kept text of the time and a line.
use naive_net.Common.{ℕ, ◌≡◌, refl, List, [], ◌∷◌, some}
use naive_net.Common.Int.{ℤ, pos, quot, rem, ◌+ℤ◌}
use naive_net.Common.Printf.{signed, blank_padded, zero_padded, decimal, decimal_onto}
use naive_net.TimeZone.Utc.{Tm}
use naive_net.TimeZone.Local.{invalid_zone, valid}
use naive_net.Timestamp.{Timestamp, micro_seconds_per_second, date_text}
use naive_net.Log.Stream.{Item}
use naive_net.Log.Logging.{TimeCache, date_17, log_date, micros_text}
use naive_net.Log.Logging.Time.{IsCurrent}

-- Every second is the start of 2000.
abbrev pub fixed_date : ℤ → Tm
fixed_date t = record {
  tm_sec = pos 0;
  tm_min = pos 0;
  tm_hour = pos 0;
  tm_mday = pos 1;
  tm_mon = pos 0;
  tm_year = pos 100;
  tm_wday = pos 6;
  tm_yday = pos 0;
  tm_isdst = pos 0;
  tm_gmtoff = pos 0;
  tm_zone = [];
}

abbrev pub cache : TimeCache
cache = record {
  last_second = pos 946684800;
  time_text =
      b'2' ∷ b'0' ∷ b'0' ∷ b'0' ∷ b'0' ∷ b'1' ∷ b'0' ∷ b'1' ∷ b' ' ∷ b'0' ∷ b'0' ∷ b':' ∷ b'0'
      ∷ b'0' ∷ b':' ∷ b'0' ∷ b'0' ∷ [];
}

pub cache-IsCurrent : IsCurrent fixed_date invalid_zone cache
unfolding date_17 log_date invalid_zone valid date_text blank_padded zero_padded signed decimal
    decimal_onto ◌+ℤ◌
cache-IsCurrent = refl

abbrev pub instant : Timestamp
instant = record { micro_seconds_since_epoch = pos 946684800000007 }

abbrev pub no_print : Unit {0} → List ℕ
no_print u = b'0' ∷ []

abbrev pub no_error : ℤ → List ℕ
no_error e = []

abbrev pub items : List (Item (Unit {0}))
items = Item.c_str (some (b'h' ∷ b'i' ∷ [])) ∷ []

pub cache-date :
    date_17 fixed_date invalid_zone (quot (pos 946684800000007) micro_seconds_per_second)
    ≡ some cache.time_text
unfolding date_17 log_date invalid_zone valid date_text blank_padded zero_padded signed decimal
    decimal_onto ◌+ℤ◌
cache-date = refl

abbrev pub seven : List ℕ
seven = b'.' ∷ b'0' ∷ b'0' ∷ b'0' ∷ b'0' ∷ b'0' ∷ b'7' ∷ b'Z' ∷ b' ' ∷ []

pub instant-micros :
    micros_text fixed_date invalid_zone (rem (pos 946684800000007) micro_seconds_per_second)
    ≡ some seven
unfolding micros_text zero_padded decimal decimal_onto rem invalid_zone valid
instant-micros = refl
