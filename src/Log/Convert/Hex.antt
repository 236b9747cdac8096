-- ===== src/Log/Convert/Hex.antt =====
-- `convertHex` of base/log/LogStream.cc writes the hexadecimal digits of a number.
use naive_net.Common.{
  ℕ, zero, suc, ◌+◌, ◌-◌, ◌/◌, ◌%◌, ◌*◌, ◌^◌, ◌≤◌, ◌<◌, ◌≡◌, refl, sym, ap, ◌∙◌, List, [], ◌∷◌,
  ◌++◌, reverse, reverse-cons, append_assoc, ◌==◌, if◌then◌else◌, get_or, Bool-cases, inl, inr,
  true, ltb, arith, ==_iff, length, length-reverse, append-nil,
}
use native.Mathlib.Nat.{pow-suc}
use naive_net.Common.Tables.{holds_below, holds_below_at}
use naive_net.Log.Convert.{digits_hex, convert_hex_loop, convert_hex}

-- The value of a digit `0` .. `9` or `A` .. `F`.
unfoldable pub hex_value : ℕ → ℕ
hex_value c = if ltb c b'A' then c - b'0' else c - b'A' + 10

-- Hexadecimal digits read as a number, from `acc` on.
unfoldable pub read_hex : ℕ → List ℕ → ℕ
unfolding hex_value
read_hex acc [] = acc
read_hex acc (c ∷ cs) = read_hex (acc * 16 + hex_value c) cs

hex_table : holds_below 16 (λ k. hex_value (get_or digits_hex k 0) == k) ≡ true
unfolding holds_below hex_value
hex_table = refl

hex_value-digit : (n : ℕ) → hex_value (get_or digits_hex (n % 16) 0) ≡ n % 16
hex_value-digit n = (==_iff _ _).0 (
    holds_below_at 16 (n % 16) (λ k. hex_value (get_or digits_hex k 0) == k) (omega arith)
      hex_table)

read_hex-digit :
    (acc n : ℕ) (rest : List ℕ)
    → read_hex acc (get_or digits_hex (n % 16) 0 ∷ rest) ≡ read_hex (acc * 16 + n % 16) rest
unfolding read_hex
read_hex-digit acc n rest = ap (λ k. read_hex (acc * 16 + k) rest) (hex_value-digit n)

read_hex-loop :
    (fuel n : ℕ) (rest : List ℕ)
    → n < fuel
    → read_hex 0 (reverse (convert_hex_loop fuel n) ++ rest) ≡ read_hex n rest
unfolding convert_hex_loop
read_hex-loop zero n rest h = absurd (omega arith)
read_hex-loop (suc fuel) n rest h = elim (Bool-cases (n / 16 == 0)) [
  | inl e ↦ rw e (read_hex-digit 0 n rest ∙ ap (λ k. read_hex k rest) (ground arith))
  | inr e ↦ rw e (
      ap (λ l. read_hex 0 (l ++ rest))
        (reverse-cons (get_or digits_hex (n % 16) 0) (convert_hex_loop fuel (n / 16)))
      ∙ ap (read_hex 0) (append_assoc _ (get_or digits_hex (n % 16) 0 ∷ []) rest)
      ∙ read_hex-loop fuel (n / 16) (get_or digits_hex (n % 16) 0 ∷ rest) (ground arith)
      ∙ read_hex-digit (n / 16) n rest
      ∙ ap (λ k. read_hex k rest) (omega arith))
]

-- Reading the text back gives the number.
pub read_hex-convert_hex : (n : ℕ) → read_hex 0 (convert_hex n) ≡ n
unfolding convert_hex read_hex
read_hex-convert_hex n =
    ap (read_hex 0) (sym (append-nil (reverse (convert_hex_loop (suc n) n))))
    ∙ read_hex-loop (suc n) n [] (omega arith)

length_loop : (fuel n w : ℕ) → n < 16 ^ suc w → length (convert_hex_loop fuel n) ≤ suc w
unfolding convert_hex_loop
length_loop zero n w h = omega arith
length_loop (suc fuel) n zero h = ground arith
length_loop (suc fuel) n (suc w) h = elim (Bool-cases (n / 16 == 0)) [
  | inl e ↦ rw e (omega arith)
  | inr e ↦ rw e (omega (arith, length_loop fuel (n / 16) w (omega (arith, pow-suc 16 (suc w)))))
]

-- A pointer of 64 bits takes 16 digits at most.
pub length-convert_hex : (n : ℕ) → n < 2 ^ 64 → length (convert_hex n) ≤ 16
unfolding convert_hex
length-convert_hex n h =
    omega
      (arith, length-reverse (convert_hex_loop (suc n) n), length_loop (suc n) n 15 (omega arith))
