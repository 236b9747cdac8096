-- ===== src/Common/Printf.antt =====
-- The conversions of `printf` that the program uses: `%d` and `%lu` with a width, padded by blanks
-- or by zeros. A text is the list of its bytes.
use naive_net.Common.{
  ℕ, zero, suc, ◌+◌, ◌-◌, ◌*◌, ◌/◌, ◌%◌, ◌≤◌, ◌<◌, ◌≡◌, List, [], ◌∷◌, ◌++◌, arith, ltb,
  if◌then◌else◌, ◌==◌, ◌^◌, ap, ◌∙◌, inl, inr, Bool-cases, length, replicate,
}
use native.Mathlib.Nat.{pow-suc}
use naive_net.Common.Int.{ℤ, pos, negsuc, sub_ℕ}

-- The decimal digits of a number, the highest first.
unfoldable pub decimal_onto : ℕ → ℕ → List ℕ → List ℕ
decimal_onto zero n rest = rest
decimal_onto (suc fuel) n rest =
    let more = decimal_onto fuel (n / 10) ((b'0' + n % 10) ∷ rest) in
    if ltb n 10 then (b'0' + n) ∷ rest else more

unfoldable pub decimal : ℕ → List ℕ
unfolding decimal_onto
decimal n = decimal_onto (suc n) n []

-- `%d` without a width.
unfoldable pub signed : ℤ → List ℕ
unfolding decimal
signed (pos n) = decimal n
signed (negsuc n) = b'-' ∷ decimal (suc n)

-- `%4d`: blanks on the left.
unfoldable pub blank_padded : ℕ → ℤ → List ℕ
unfolding signed
blank_padded width v = replicate (width - length (signed v)) b' ' ++ signed v

-- `%02d`: zeros between the sign and the digits.
unfoldable pub zero_padded : ℕ → ℤ → List ℕ
unfolding decimal
zero_padded width (pos n) = replicate (width - length (decimal n)) b'0' ++ decimal n
zero_padded width (negsuc n) =
    b'-' ∷ replicate (width - 1 - length (decimal (suc n))) b'0' ++ decimal (suc n)

-- Decimal digits read as a number, from `acc` on.
unfoldable pub read_digits : ℕ → List ℕ → ℕ
read_digits acc [] = acc
read_digits acc (c ∷ cs) = read_digits (acc * 10 + (c - b'0')) cs

-- `strtol`, for a text that is a number.
unfoldable pub read_signed : List ℕ → ℤ
unfolding read_digits
read_signed [] = pos 0
read_signed (c ∷ cs) =
    if c == b'-' then sub_ℕ 0 (read_digits 0 cs) else pos (read_digits 0 (c ∷ cs))

read_digits-decimal_onto :
    (fuel n : ℕ) (rest : List ℕ)
    → n < fuel
    → read_digits 0 (decimal_onto fuel n rest) ≡ read_digits n rest
unfolding read_digits decimal_onto
read_digits-decimal_onto zero n rest h = absurd (omega arith)
read_digits-decimal_onto (suc fuel) n rest h = elim (Bool-cases (ltb n 10)) [
  | inl e ↦ rw e (ap (λ k. read_digits k rest) (omega arith))
  | inr e ↦ rw e (
      read_digits-decimal_onto fuel (n / 10) _ (ground arith)
      ∙ ap (λ k. read_digits k rest) (omega arith))
]

pub read_digits-decimal : (n : ℕ) → read_digits 0 (decimal n) ≡ n
unfolding decimal read_digits
read_digits-decimal n = read_digits-decimal_onto (suc n) n [] (omega arith)

-- A text of digits does not begin with the sign.
decimal_onto_head :
    (fuel n : ℕ) (rest : List ℕ)
    → n < fuel
    → (c : ℕ) × (cs : List ℕ) × (decimal_onto fuel n rest ≡ c ∷ cs) × (b'0' ≤ c)
unfolding decimal_onto
decimal_onto_head zero n rest h = absurd (omega arith)
decimal_onto_head (suc fuel) n rest h = elim (Bool-cases (ltb n 10)) [
  | inl e ↦ (b'0' + n, rest, rw e, omega arith)
  | inr e ↦ rw e (decimal_onto_head fuel (n / 10) _ (ground arith))
]

pub read_signed-signed : (v : ℤ) → read_signed (signed v) ≡ v
unfolding read_signed signed decimal
read_signed-signed (pos n) =
    let (c, cs, e, h) = decimal_onto_head (suc n) n [] (omega arith) in
    rw e (ground (arith, read_digits-decimal_onto (suc n) n [] (omega arith)))
read_signed-signed (negsuc n) = rw (read_digits-decimal (suc n)) (ground arith)

length-decimal_onto :
    (fuel n w : ℕ) (rest : List ℕ)
    → n < 10 ^ suc w
    → length (decimal_onto fuel n rest) ≤ suc w + length rest
unfolding decimal_onto
length-decimal_onto zero n w rest h = omega arith
length-decimal_onto (suc fuel) n zero rest h = ground arith
length-decimal_onto (suc fuel) n (suc w) rest h = elim (Bool-cases (ltb n 10)) [
  | inl e ↦ rw e (omega arith)
  | inr e ↦ rw e (
      omega (
        arith,
        length-decimal_onto fuel (n / 10) w ((b'0' + n % 10) ∷ rest)
            (omega (arith, pow-suc 10 (suc w))),
      ))
]

-- A number below a power of ten has no more digits than the exponent.
pub length-decimal : (n w : ℕ) → n < 10 ^ suc w → length (decimal n) ≤ suc w
unfolding decimal
length-decimal n w h = omega (arith, length-decimal_onto (suc n) n w [] h)
