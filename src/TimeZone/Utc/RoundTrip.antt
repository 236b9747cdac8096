-- ===== src/TimeZone/Utc/RoundTrip.antt =====
-- `toUtcTime` and `fromUtcTime` of base/TimeZone.cc undo each other.
use naive_net.Common.{
  ℕ, ◌+◌, ◌-◌, ◌*◌, ◌/◌, ◌%◌, ◌^◌, ◌≤◌, ◌<◌, ◌≡◌, refl, ap, ◌∙◌, arith, Bool, true, false, ltb,
  subst, suc,
}
use native.Mathlib.Decide.{dec_lt}
use naive_net.Common.Int.{
  ℤ, pos, negsuc, sub_ℕ, ◌+ℤ◌, ◌-ℤ◌, ◌*ℤ◌, ◌≤ℤ◌, quot, rem, ltb_ℤ, int_laws, pos_laws, quot-pos,
  rem-pos, quot-negative, rem-negative,
}
use naive_net.Atomic.{wrap, low_bits}
use naive_net.Date.{of_ymd, of_julian, julian_day_of_1970_01_01}
use naive_net.Date.Inverse.{of_ymd-year_month_day}
use naive_net.TimeZone.Utc.{
  to_unsigned, fill_hms, utc_of, utc_at, seconds_per_day, to_utc_time, from_utc_fields,
  from_utc_time,
}

pub epoch_day : julian_day_of_1970_01_01 ≡ pos 2440588
unfolding julian_day_of_1970_01_01 ◌+ℤ◌ ◌-ℤ◌ ◌*ℤ◌ quot
epoch_day = refl

-- The seconds of a day, taken apart and put together.
pub hms_lem : (s : ℕ) → 3600 *ℤ pos (s / 60 / 60) +ℤ 60 *ℤ pos (s / 60 % 60) +ℤ pos (s % 60) ≡ pos s
hms_lem s = simp pos_laws (ap pos (omega arith))

from_utc_fields-of :
    (Y M D : ℤ) (j s : ℕ)
    → of_ymd Y M D ≡ of_julian (pos j)
    → from_utc_fields Y M D (pos (s / 60 / 60)) (pos (s / 60 % 60)) (pos (s % 60))
      ≡ 86400 *ℤ (pos j -ℤ pos 2440588) +ℤ pos s
unfolding from_utc_fields of_julian
from_utc_fields-of Y M D j s e = rw (e, epoch_day, hms_lem s)

pub back : (z : ℤ) (k : ℕ) → z -ℤ pos k +ℤ pos k ≡ z
back z k = omega int_laws

utc_of-yday : (a b : ℤ) → from_utc_time (utc_of a b true) ≡ from_utc_time (utc_of a b false)
unfolding utc_of from_utc_time fill_hms
utc_of-yday a b = refl

-- From the second `s` of the day with number `j`.
from_utc_time-utc_of-false :
    (s j : ℕ)
    → s < 86400
    → 1721060 ≤ j
    → from_utc_time (utc_of (pos s) (pos j -ℤ pos 2440588) false)
      ≡ 86400 *ℤ (pos j -ℤ pos 2440588) +ℤ pos s
unfolding utc_of from_utc_time fill_hms to_unsigned
from_utc_time-utc_of-false s j h k =
    let (y, m, d, v, e1, e2) = of_ymd-year_month_day j k in
    let small : s % 2 ^ 32 ≡ s = omega arith in
    rw (epoch_day, back (pos j) 2440588, e1, small, back (pos y) 1900, back (pos m) 1)
      (from_utc_fields-of (pos y) (pos m) (pos d) j s e2)

from_utc_time-utc_of :
    (s j : ℕ) (yday : Bool)
    → s < 86400
    → 1721060 ≤ j
    → from_utc_time (utc_of (pos s) (pos j -ℤ pos 2440588) yday)
      ≡ 86400 *ℤ (pos j -ℤ pos 2440588) +ℤ pos s
from_utc_time-utc_of s j true h k = utc_of-yday _ _ ∙ from_utc_time-utc_of-false s j h k
from_utc_time-utc_of s j false h k = from_utc_time-utc_of-false s j h k

-- The day and the second of the day that `toUtcTime` finds, for a time before or after 1970.
pub record IsSplit (t : ℤ) (s j : ℕ) : Type 0 where
  pub second_in : s < 86400
  pub is_sum : 86400 *ℤ (pos j -ℤ pos 2440588) +ℤ pos s ≡ t
  pub finds :
      (yday : Bool)
      → utc_at (rem t seconds_per_day) (quot t seconds_per_day) yday
        ≡ utc_of (pos s) (pos j -ℤ pos 2440588) yday

IsSplit-pos : (n : ℕ) → IsSplit (pos n) (n % 86400) (n / 86400 + 2440588)
unfolding utc_at
IsSplit-pos n =
    let days : pos (n / 86400 + 2440588) -ℤ pos 2440588 ≡ pos (n / 86400) = omega int_laws in
    let late : ltb (n % 86400 + 0) (0 + 0) ≡ false = ground arith in
    record {
      second_in = omega arith;
      is_sum = rw days (simp pos_laws (ap pos (omega arith)));
      finds = λ yday. rw (days, rem-pos n 86400, quot-pos n 86400, late);
    }

-- Integers below zero, with their sums.
day_offset : (q : ℕ) → q ≤ 2440588 → pos (2440588 - q) -ℤ pos 2440588 ≡ sub_ℕ 0 q
unfolding ◌-ℤ◌
day_offset q h = ground arith

day_before : (q : ℕ) → q < 2440588 → pos (2440588 - q - 1) -ℤ pos 2440588 ≡ sub_ℕ 0 q -ℤ pos 1
unfolding ◌-ℤ◌
day_before q h = ground arith

sum_midnight : (q : ℕ) → 86400 *ℤ sub_ℕ 0 q +ℤ pos 0 ≡ sub_ℕ 0 (q * 86400)
unfolding ◌+ℤ◌ ◌*ℤ◌
sum_midnight q = ground arith

sum_later :
    (q r : ℕ)
    → r < 86400
    → 86400 *ℤ (sub_ℕ 0 q -ℤ pos 1) +ℤ pos (86400 - r) ≡ sub_ℕ 0 (q * 86400 + r)
unfolding ◌+ℤ◌ ◌-ℤ◌ ◌*ℤ◌
sum_later q r h = ground arith

until_midnight : (r : ℕ) → r < 86400 → sub_ℕ 0 r +ℤ pos 86400 ≡ pos (86400 - r)
unfolding ◌+ℤ◌
until_midnight r h = ground arith

is_below_zero : (r : ℕ) → 0 < r → ltb_ℤ (sub_ℕ 0 r) (pos 0) ≡ true
is_below_zero r h = ground arith

-- A time before 1970: at midnight, and later in its day.
IsSplit-midnight : (q : ℕ) → q ≤ 719528 → IsSplit (sub_ℕ 0 (q * 86400)) 0 (2440588 - q)
unfolding utc_at
IsSplit-midnight q h =
    let none_left : q * 86400 % 86400 ≡ 0 = omega arith in
    let whole : q * 86400 / 86400 ≡ q = omega arith in
    record {
      second_in = omega arith;
      is_sum = rw (day_offset q (omega arith)) (sum_midnight q);
      finds = λ yday. rw (
        day_offset q (omega arith),
        quot-negative (q * 86400) 86400,
        rem-negative (q * 86400) 86400 (omega arith),
        none_left,
        whole,
      );
    }

IsSplit-later :
    (q r : ℕ)
    → q < 719528
    → 0 < r
    → r < 86400
    → IsSplit (sub_ℕ 0 (q * 86400 + r)) (86400 - r) (2440588 - q - 1)
unfolding utc_at
IsSplit-later q r h k l =
    let left : (q * 86400 + r) % 86400 ≡ r = omega arith in
    let whole : (q * 86400 + r) / 86400 ≡ q = omega arith in
    record {
      second_in = omega arith;
      is_sum = rw (day_before q (omega arith)) (sum_later q r l);
      finds = λ yday. rw (
        day_before q (omega arith),
        quot-negative (q * 86400 + r) 86400,
        rem-negative (q * 86400 + r) 86400 (omega arith),
        left,
        whole,
        is_below_zero r k,
        until_midnight r l,
      );
    }

-- Every time from 0000-01-01 00:00:00 on is a second of a day that the calendar has.
pub to_utc_time-IsSplit :
    (t : ℤ) → negsuc 62167219199 ≤ℤ t → (s : ℕ) × (j : ℕ) × (1721060 ≤ j) × IsSplit t s j
to_utc_time-IsSplit (pos n) h = (_, _, omega arith, IsSplit-pos n)
to_utc_time-IsSplit (negsuc n) h =
    let negative : sub_ℕ 0 (suc n) ≡ negsuc n = ground arith in
    elim (dec_lt 0 (suc n % 86400)) [
      | yes later ↦
          let parts : suc n / 86400 * 86400 + suc n % 86400 ≡ suc n = omega arith in
          (
            _,
            _,
            omega arith,
            subst (λ t. IsSplit t (86400 - suc n % 86400) (2440588 - suc n / 86400 - 1))
                (ap (sub_ℕ 0) parts ∙ negative)
                (IsSplit-later (suc n / 86400) (suc n % 86400) (omega arith) later (omega arith)),
          )
      | no midnight ↦
          let parts : suc n / 86400 * 86400 ≡ suc n = omega arith in
          (
            _,
            _,
            omega arith,
            subst (λ t. IsSplit t 0 (2440588 - suc n / 86400)) (ap (sub_ℕ 0) parts ∙ negative)
                (IsSplit-midnight (suc n / 86400) (omega arith)),
          )
    ]

wrap-days :
    (t : ℤ)
    → negsuc 62167219199 ≤ℤ t
    → t ≤ℤ pos 46172011305599
    → wrap 32 (quot t seconds_per_day) ≡ quot t seconds_per_day
unfolding wrap low_bits quot
wrap-days (pos n) h k = ground (arith, h, k)
wrap-days (negsuc n) h k = ground (arith, h, k)

-- Within the range of times whose days `Date` counts with no overflow, the cast to `int` changes nothing.
pub to_utc_time-utc_at :
    (t : ℤ) (yday : Bool)
    → negsuc 62167219199 ≤ℤ t
    → t ≤ℤ pos 46172011305599
    → to_utc_time t yday ≡ utc_at (rem t seconds_per_day) (quot t seconds_per_day) yday
unfolding to_utc_time
to_utc_time-utc_at t yday h k =
    ap (λ days. utc_at (rem t seconds_per_day) days yday) (wrap-days t h k)

pub from_utc_time-utc_at :
    (t : ℤ) (yday : Bool)
    → negsuc 62167219199 ≤ℤ t
    → from_utc_time (utc_at (rem t seconds_per_day) (quot t seconds_per_day) yday) ≡ t
from_utc_time-utc_at t yday h =
    let (s, j, k, v) = to_utc_time-IsSplit t h in
    ap from_utc_time (v.finds yday) ∙ from_utc_time-utc_of s j yday v.second_in k ∙ v.is_sum

-- `fromUtcTime` undoes `toUtcTime` from the year 0 on, up to the last second of the days that `Date` counts
-- with no overflow of an `int`, past the year 1000000.
pub from_utc_time-to_utc_time :
    (t : ℤ) (yday : Bool)
    → negsuc 62167219199 ≤ℤ t
    → t ≤ℤ pos 46172011305599
    → from_utc_time (to_utc_time t yday) ≡ t
from_utc_time-to_utc_time t yday h k =
    ap from_utc_time (to_utc_time-utc_at t yday h k) ∙ from_utc_time-utc_at t yday h
