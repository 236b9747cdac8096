-- ===== src/Timestamp/Examples.antt =====
-- Times of base/Timestamp.h.
use naive_net.Common.{ℕ, ◌≡◌, List, ◌∷◌, ◌++◌, length}
use naive_net.Common.Int.{pos, ◌+ℤ◌, ◌*ℤ◌}
use naive_net.Common.Printf.{read_signed, read_digits}
use naive_net.Timestamp.{Timestamp, micro_seconds_per_second, to_string}
use naive_net.Timestamp.Text.{to_string-Reads}

abbrev early : Timestamp
early = record { micro_seconds_since_epoch = pos 1422366082375828 }

abbrev late : Timestamp
late = record { micro_seconds_since_epoch = pos 1422366082375900 }

to_string-Reads_example :
    (seconds micros : List ℕ) × (to_string early ≡ seconds ++ b'.' ∷ micros)
    × (length micros ≡ 6)
    × (micro_seconds_per_second *ℤ read_signed seconds +ℤ pos (read_digits 0 micros)
        ≡ pos 1422366082375828)
to_string-Reads_example = to_string-Reads 1422366082375828
