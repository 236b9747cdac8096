-- ===== src/Date/Text.antt =====
-- What toIsoString of base/Date.cc writes.
use naive_net.Common.{
  ℕ, ◌-◌, ◌≤◌, ◌<◌, ◌≡◌, refl, sym, ap, ◌∙◌, List, [], ◌∷◌, ◌++◌, append-nil, length, length-append,
  length-replicate, replicate, take, take-all, arith,
}
use naive_net.Common.Int.{pos}
use naive_net.Common.Printf.{
  blank_padded, zero_padded, signed, decimal, read_digits, length-decimal,
}
use naive_net.Date.{YearMonthDay, of_ymd, to_iso_string}
use naive_net.Date.Calendar.{IsCivil, days_of_month}
use naive_net.Date.RoundTrip.{year_month_day-of_ymd}
use naive_net.ProcessInfo.{atoi}
use naive_net.ProcessInfo.Text.{atoi-decimal}
use naive_net.Thread.CurrentThread.Text.{blanks}
use naive_net.Timestamp.Text.{length-zero_padded, read_digits-zero_padded}

days_of_month_le : (y m : ℕ) → days_of_month y m ≤ 31
unfolding days_of_month
days_of_month_le y m = ground arith

length-blank_padded : (n : ℕ) → n < 10000 → length (blank_padded 4 (pos n)) ≡ 4
unfolding blank_padded signed
length-blank_padded n h = omega (
  arith,
  length-append (replicate (4 - length (decimal n)) b' ') (decimal n),
  length-replicate {A = ℕ} (4 - length (decimal n)) b' ',
  length-decimal n 3 (omega arith),
)

atoi-blank_padded : (n : ℕ) → atoi (blank_padded 4 (pos n)) ≡ pos n
unfolding blank_padded signed
atoi-blank_padded n =
    let front = replicate (4 - length (decimal n)) b' ' in
    ap (λ l. atoi (front ++ l)) (sym (append-nil (decimal n)))
    ∙ atoi-decimal front n [] (blanks (4 - length (decimal n))) refl

iso_text : YearMonthDay → List ℕ
iso_text ymd = take 31 (
    blank_padded 4 ymd.year ++ (b'-' ∷ (zero_padded 2 ymd.month ++ (b'-' ∷ zero_padded 2 ymd.day))))

-- The text of a calendar day up to the year 9999 has four bytes for the year, blanks before it, two for
-- the month and two for the day, with "-" in between, and these are the day's.
pub to_iso_string-Reads :
    (y m d : ℕ)
    → IsCivil y m d
    → y < 10000
    → (year month day : List ℕ) × (to_iso_string (of_ymd (pos y) (pos m) (pos d))
        ≡ year ++ (b'-' ∷ (month ++ (b'-' ∷ day))))
      × ((length year ≡ 4) × (length month ≡ 2) × (length day ≡ 2))
      × ((atoi year ≡ pos y) × (read_digits 0 month ≡ m) × (read_digits 0 day ≡ d))
unfolding to_iso_string iso_text
to_iso_string-Reads y m d c h =
    let year = blank_padded 4 (pos y) in
    let month = zero_padded 2 (pos m) in
    let day = zero_padded 2 (pos d) in
    let a = length-blank_padded y h in
    let b : length month ≡ 2 = length-zero_padded m 1 (omega (arith, c.month_to)) in
    let e : length day ≡ 2 =
      length-zero_padded d 1 (omega (arith, c.day_to, days_of_month_le y m)) in
    let text = year ++ (b'-' ∷ (month ++ (b'-' ∷ day))) in
    let whole : take 31 text ≡ text = take-all 31 text (
      omega (
        arith,
        a,
        b,
        e,
        length-append year (b'-' ∷ (month ++ (b'-' ∷ day))),
        length-append month (b'-' ∷ day),
      )) in
    (
      year,
      month,
      day,
      ap iso_text (year_month_day-of_ymd y m d c) ∙ whole,
      (a, b, e),
      (atoi-blank_padded y, read_digits-zero_padded 2 m, read_digits-zero_padded 2 d),
    )
