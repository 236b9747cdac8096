-- ===== src/Log/Convert/Decimal.antt =====
-- `convert` of base/log/LogStream.cc writes what `printf("%d")` does.
use naive_net.Common.{
  ℕ, zero, suc, ◌+◌, ◌/◌, ◌%◌, ◌^◌, ◌≤◌, ◌<◌, ◌≡◌, refl, sym, ap, ◌∙◌, List, [], ◌∷◌, ◌++◌, reverse,
  append_assoc, reverse-cons, ◌==◌, ltb, get_or, length, Bool-cases, inl, inr, arith, append-nil,
  reverse-append, ltb→lt, true, false, ==_iff,
}
use naive_net.Common.Tables.{holds_below, holds_below_at}
use naive_net.Common.Int.{
  ℤ, pos, negsuc, sub_ℕ, pos_part, neg_part, ◌+ℤ◌, rem, quot-pos, rem-pos, quot-negative,
  rem-negative, +ℤ-pos,
}
use naive_net.Common.Printf.{
  decimal_onto, decimal, signed, read_signed, read_signed-signed, length-decimal,
}
use naive_net.Log.Convert.{digits, zero_at, convert_loop, convert}

digit_table : holds_below 10 (λ k. get_or digits (9 + k) 0 == b'0' + k) ≡ true
unfolding holds_below
digit_table = refl

zero_at-pos : (n : ℕ) → zero_at (rem (pos n) 10) ≡ b'0' + n % 10
zero_at-pos n =
    rw (rem-pos n 10, +ℤ-pos 9 (n % 10))
      ((==_iff _ _).0 (
        holds_below_at 10 (n % 10) (λ k. get_or digits (9 + k) 0 == b'0' + k) (omega arith)
          digit_table))

-- `-n` for a number `n`: its last digit, and what is left.
negative_table : holds_below 10 (λ k. zero_at (sub_ℕ 0 k) == b'0' + k) ≡ true
unfolding holds_below ◌+ℤ◌
negative_table = refl

zero_at-negative : (n : ℕ) → zero_at (rem (sub_ℕ 0 n) 10) ≡ b'0' + n % 10
zero_at-negative n =
    ap zero_at (rem-negative n 10 (omega arith))
    ∙ (==_iff _ _).0 (
        holds_below_at 10 (n % 10) (λ k. zero_at (sub_ℕ 0 k) == b'0' + k) (omega arith)
          negative_table)

-- The loop writes the digits of a number from the last on, whatever its sign.
convert_loop-negative : (fuel n : ℕ) → convert_loop fuel (sub_ℕ 0 n) ≡ convert_loop fuel (pos n)
unfolding convert_loop
convert_loop-negative zero n = refl
convert_loop-negative (suc fuel) n =
    rw
      (
        zero_at-negative n,
        quot-negative n 10,
        zero_at-pos n,
        quot-pos n 10,
        convert_loop-negative fuel (n / 10),
      )
      (ground arith)

reverse-convert_loop :
    (fuel n : ℕ) (rest : List ℕ)
    → reverse (convert_loop fuel (pos n)) ++ rest ≡ decimal_onto fuel n rest
unfolding convert_loop decimal_onto
reverse-convert_loop zero n rest = refl
reverse-convert_loop (suc fuel) n rest =
    rw (zero_at-pos n, quot-pos n 10)
      (elim (Bool-cases (ltb n 10)) [
        | inl e ↦
            let z : n / 10 ≡ 0 = ground arith in
            rw (e, z) (ap (λ c. (b'0' + c) ∷ rest) (omega (arith, ltb→lt n 10 e)))
        | inr e ↦
            let z : (n / 10 == 0) ≡ false = ground arith in
            rw (e, z)
              (ap (λ l. l ++ rest) (reverse-cons (b'0' + n % 10) (convert_loop fuel (pos (n / 10))))
                ∙ append_assoc _ ((b'0' + n % 10) ∷ []) rest
                ∙ reverse-convert_loop fuel (n / 10) ((b'0' + n % 10) ∷ rest))
      ])

reverse-written : (n : ℕ) → reverse (convert_loop (suc n) (pos n)) ≡ decimal n
unfolding decimal
reverse-written n = sym (append-nil _) ∙ reverse-convert_loop (suc n) n []

-- `convert` writes the number as `printf("%d")` does, the sign included.
pub convert-eq-signed : (v : ℤ) → convert v ≡ signed v
unfolding convert signed
convert-eq-signed (pos n) =
    let z : n + 0 ≡ n = omega arith in
    let t : ltb n 0 ≡ false = ground arith in rw (z, t) (reverse-written n)
convert-eq-signed (negsuc n) =
    let z : 0 + suc n ≡ suc n = omega arith in
    let t : ltb 0 (suc n) ≡ true = ground arith in
    let m : convert_loop (suc (suc n)) (negsuc n) ≡ convert_loop (suc (suc n)) (pos (suc n)) =
      ap (convert_loop (suc (suc n))) {x = negsuc n} {y = sub_ℕ 0 (suc n)} (ground arith)
      ∙ convert_loop-negative (suc (suc n)) (suc n) in
    rw (z, t, m)
      (reverse-append (convert_loop (suc (suc n)) (pos (suc n))) (b'-' ∷ [])
        ∙ ap (◌∷◌ b'-') (reverse-written (suc n)))

-- Reading the text back gives the number.
pub read_signed-convert : (v : ℤ) → read_signed (convert v) ≡ v
read_signed-convert v = rw (convert-eq-signed v) (read_signed-signed v)

-- A number of 64 bits, signed or not, takes 20 bytes at most.
pub length-convert : (v : ℤ) → pos_part v < 2 ^ 64 → neg_part v ≤ 2 ^ 63 → length (convert v) ≤ 20
unfolding signed
length-convert (pos n) h k = rw (convert-eq-signed (pos n)) (length-decimal n 19 (omega arith))
length-convert (negsuc n) h k =
    rw (convert-eq-signed (negsuc n)) (omega (arith, length-decimal (suc n) 18 (omega arith)))
