-- ===== src/Timestamp/Text.antt =====
-- The text of base/Timestamp.cc says a time to the microsecond; times and their differences.
use naive_net.Common.{
  ℕ, zero, suc, ◌-◌, ◌*◌, ◌/◌, ◌%◌, ◌^◌, ◌<◌, ◌≡◌, refl, ap, ◌∙◌, List, ◌∷◌, ◌++◌, true, length,
  length-append, length-replicate, replicate, arith, ◌↔◌, ltb→lt, lt→ltb,
}
use naive_net.Common.Int.{
  pos, ◌+ℤ◌, ◌*ℤ◌, ◌≤ℤ◌, ◌<ℤ◌, quot, rem, int_laws, -ℤ_parts, rem-pos, quot-pos, *ℤ-pos, +ℤ-pos,
}
use naive_net.Common.Printf.{
  signed, zero_padded, read_digits, read_signed, decimal, read_digits-decimal, read_signed-signed,
  length-decimal,
}
use naive_net.Timestamp.{
  Timestamp, micro_seconds_per_second, to_string, lt, eq, ge, le, gt, time_difference, add_time,
}

read_digits-zeros :
    (k : ℕ) (cs : List ℕ) → read_digits 0 (replicate k b'0' ++ cs) ≡ read_digits 0 cs
unfolding read_digits
read_digits-zeros zero cs = refl
read_digits-zeros (suc k) cs = read_digits-zeros k cs

pub read_digits-zero_padded : (w n : ℕ) → read_digits 0 (zero_padded w (pos n)) ≡ n
unfolding zero_padded
read_digits-zero_padded w n =
    read_digits-zeros (w - length (decimal n)) (decimal n) ∙ read_digits-decimal n

pub length-zero_padded : (n w : ℕ) → n < 10 ^ suc w → length (zero_padded (suc w) (pos n)) ≡ suc w
unfolding zero_padded
length-zero_padded n w h =
    length-append (replicate (suc w - length (decimal n)) b'0') (decimal n)
    ∙ omega
        (arith, length-replicate {A = ℕ} (suc w - length (decimal n)) b'0', length-decimal n w h)

-- From 1970 on, `toString` is a number of seconds, a point and six digits, and these are the time.
pub to_string-Reads :
    (n : ℕ)
    → (seconds micros : List ℕ) × (to_string (record { micro_seconds_since_epoch = pos n })
        ≡ seconds ++ b'.' ∷ micros)
      × (length micros ≡ 6)
      × (micro_seconds_per_second *ℤ read_signed seconds +ℤ pos (read_digits 0 micros) ≡ pos n)
unfolding to_string
to_string-Reads n = (
  signed (quot (pos n) 1000000),
  zero_padded 6 (rem (pos n) 1000000),
  refl,
  rw (rem-pos n 1000000) (length-zero_padded (n % 1000000) 5 (omega arith)),
  rw
      (
        read_signed-signed (quot (pos n) 1000000),
        quot-pos n 1000000,
        rem-pos n 1000000,
        read_digits-zero_padded 6 (n % 1000000),
        *ℤ-pos 1000000 (n / 1000000),
        +ℤ-pos (1000000 * (n / 1000000)) (n % 1000000),
      )
      (ap pos (omega arith)),
)

-- `addTime` by the difference of two times leads from the one to the other, and the time is the later
-- one where the difference is positive.
pub add_time-time_difference :
    (high low : Timestamp)
    → (add_time low (time_difference high low) ≡ high)
      × ((lt low high ≡ true) ↔ (pos 0 <ℤ time_difference high low))
unfolding add_time time_difference lt
add_time-time_difference high low =
    let a = high.micro_seconds_since_epoch in
    let b = low.micro_seconds_since_epoch in
    (
      ap (λ n. record { micro_seconds_since_epoch = n }) (omega int_laws),
      (
        λ h. omega (arith, -ℤ_parts a b, ltb→lt _ _ h),
        λ h. lt→ltb _ _ (omega (arith, -ℤ_parts a b)),
      ),
    )

-- The six comparisons are those of the microseconds.
pub comparisons-Order :
    (a b : Timestamp)
    → ((le a b ≡ true) ↔ (a.micro_seconds_since_epoch ≤ℤ b.micro_seconds_since_epoch))
      × ((ge a b ≡ true) ↔ (b.micro_seconds_since_epoch ≤ℤ a.micro_seconds_since_epoch))
      × ((gt a b ≡ true) ↔ (b.micro_seconds_since_epoch <ℤ a.micro_seconds_since_epoch))
unfolding le ge gt lt eq
comparisons-Order a b =
    let x = a.micro_seconds_since_epoch in
    let y = b.micro_seconds_since_epoch in
    (
      (λ h. ground arith, λ h. ground arith),
      (λ h. ground arith, λ h. ground arith),
      (λ h. ground arith, λ h. ground arith),
    )
