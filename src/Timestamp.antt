-- ===== src/Timestamp.antt =====
-- `Timestamp` of base/Timestamp.h and base/Timestamp.cc, in microseconds. An `int64_t` is an integer
-- without bounds.
pub mod Text
mod Examples
use naive_net.Common.{ℕ, ◌*◌, List, [], ◌∷◌, ◌++◌, Bool, true, false, not, ◌||◌, if◌then◌else◌}
use naive_net.Common.Int.{ℤ, pos, ◌+ℤ◌, ◌-ℤ◌, ◌*ℤ◌, quot, rem, ltb_ℤ, ◌==ℤ◌}
use naive_net.Common.Printf.{signed, blank_padded, zero_padded}
use naive_net.TimeZone.Utc.{Tm}

abbrev pub micro_seconds_per_second : ℕ
micro_seconds_per_second = 1000 * 1000

pub record Timestamp : Type 0 where
  pub micro_seconds_since_epoch : ℤ

unfoldable pub invalid : Timestamp
invalid = record { micro_seconds_since_epoch = pos 0 }

-- `swap` leaves the two exchanged.
unfoldable pub swap : Timestamp → Timestamp → Timestamp × Timestamp
swap this that = (that, this)

unfoldable pub valid : Timestamp → Bool
valid t = ltb_ℤ (pos 0) t.micro_seconds_since_epoch

unfoldable pub seconds_since_epoch : Timestamp → ℤ
seconds_since_epoch t = quot t.micro_seconds_since_epoch micro_seconds_per_second

-- `now`, given the fields of the `struct timeval` of `gettimeofday`.
unfoldable pub now : ℤ → ℤ → Timestamp
now tv_sec tv_usec = record {
  micro_seconds_since_epoch = micro_seconds_per_second *ℤ tv_sec +ℤ tv_usec;
}

-- `operator<`, `==`, `!=`, `>=`, `<=` and `>`
unfoldable pub lt : Timestamp → Timestamp → Bool
lt lhs rhs = ltb_ℤ lhs.micro_seconds_since_epoch rhs.micro_seconds_since_epoch

unfoldable pub eq : Timestamp → Timestamp → Bool
eq lhs rhs = lhs.micro_seconds_since_epoch ==ℤ rhs.micro_seconds_since_epoch

unfoldable pub ne : Timestamp → Timestamp → Bool
ne lhs rhs = not (eq lhs rhs)

unfoldable pub ge : Timestamp → Timestamp → Bool
ge lhs rhs = not (lt lhs rhs)

unfoldable pub le : Timestamp → Timestamp → Bool
le lhs rhs = lt lhs rhs || eq lhs rhs

unfoldable pub gt : Timestamp → Timestamp → Bool
gt lhs rhs = not (le lhs rhs)

-- `timeDifference`, and `addTime` with the text's seconds times a million: the `double` that they
-- make and take is left out.
unfoldable pub time_difference : Timestamp → Timestamp → ℤ
time_difference high low = high.micro_seconds_since_epoch -ℤ low.micro_seconds_since_epoch

unfoldable pub add_time : Timestamp → ℤ → Timestamp
add_time t delta = record { micro_seconds_since_epoch = t.micro_seconds_since_epoch +ℤ delta }

-- `toString`: `snprintf` under "%ld.%06ld". The 30 bytes of the buffer hold any 64-bit time.
unfoldable pub to_string : Timestamp → List ℕ
to_string t =
    signed (quot t.micro_seconds_since_epoch micro_seconds_per_second)
    ++ b'.' ∷ zero_padded 6 (rem t.micro_seconds_since_epoch micro_seconds_per_second)

-- "%4d%02d%02d %02d:%02d:%02d" of a date.
unfoldable pub date_text : Tm → List ℕ
date_text tm =
    blank_padded 4 (tm.tm_year +ℤ pos 1900)
    ++ (zero_padded 2 (tm.tm_mon +ℤ pos 1)
        ++ (zero_padded 2 tm.tm_mday
            ++ (b' ' ∷ zero_padded 2 tm.tm_hour
                ++ (b':' ∷ zero_padded 2 tm.tm_min ++ (b':' ∷ zero_padded 2 tm.tm_sec)))))

-- `toFormattedString`, with `gmtime_r` of the C library.
unfoldable pub to_formatted_string : (ℤ → Tm) → Timestamp → Bool → List ℕ
to_formatted_string gmtime_r t show_microseconds =
    let text = date_text (gmtime_r (quot t.micro_seconds_since_epoch micro_seconds_per_second)) in
    if show_microseconds
    then text ++ b'.' ∷ zero_padded 6 (rem t.micro_seconds_since_epoch micro_seconds_per_second)
    else text
