-- ===== src/Log/Convert.antt =====
-- `detail::convert` and `detail::convertHex` of base/log/LogStream.cc. A result is the text in
-- `buf[0 .. p - buf)`; the zero byte behind it is left to the caller.
pub mod Decimal
pub mod Hex
use naive_net.Common.{
  ℕ, zero, suc, ◌+◌, ◌/◌, ◌%◌, ◌≡◌, refl, List, [], ◌∷◌, ◌++◌, reverse, ◌==◌, if◌then◌else◌, get_or,
}
use naive_net.Common.Int.{ℤ, pos, negsuc, pos_part, neg_part, ◌+ℤ◌, quot, rem, ltb_ℤ, ◌==ℤ◌}

-- `digits`, and the pointer `zero` into the middle of it: an index may be negative.
abbrev pub digits : List ℕ
digits =
    b'9' ∷ b'8' ∷ b'7' ∷ b'6' ∷ b'5' ∷ b'4' ∷ b'3' ∷ b'2' ∷ b'1' ∷ b'0' ∷ b'1' ∷ b'2' ∷ b'3' ∷ b'4'
    ∷ b'5' ∷ b'6' ∷ b'7' ∷ b'8' ∷ b'9' ∷ []

abbrev pub zero_at : ℤ → ℕ
zero_at lsd = get_or digits (pos_part (pos 9 +ℤ lsd)) 0

abbrev pub digits_hex : List ℕ
digits_hex =
    b'0' ∷ b'1' ∷ b'2' ∷ b'3' ∷ b'4' ∷ b'5' ∷ b'6' ∷ b'7' ∷ b'8' ∷ b'9' ∷ b'A' ∷ b'B' ∷ b'C' ∷ b'D'
    ∷ b'E' ∷ b'F' ∷ []

-- The `do` loop of `convert`, on fuel: what it writes from `p` on.
unfoldable pub convert_loop : ℕ → ℤ → List ℕ
convert_loop zero i = []
convert_loop (suc fuel) i =
    let i' = quot i 10 in
    let rest = convert_loop fuel i' in zero_at (rem i 10) ∷ (if i' ==ℤ pos 0 then [] else rest)

-- Each round makes `i` smaller, so as many rounds as its magnitude, and one, are enough.
unfoldable pub convert : ℤ → List ℕ
convert value =
    let written = convert_loop (suc (pos_part value + neg_part value)) value in
    reverse (if ltb_ℤ value (pos 0) then written ++ b'-' ∷ [] else written)

unfoldable pub convert_hex_loop : ℕ → ℕ → List ℕ
convert_hex_loop zero i = []
convert_hex_loop (suc fuel) i =
    let i' = i / 16 in
    let rest = convert_hex_loop fuel i' in
    get_or digits_hex (i % 16) 0 ∷ (if i' == 0 then [] else rest)

unfoldable pub convert_hex : ℕ → List ℕ
unfolding convert_hex_loop
convert_hex value = reverse (convert_hex_loop (suc value) value)
