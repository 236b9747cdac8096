-- ===== src/Common/Int.antt =====
-- Signed integers over the native numbers, with the division and the remainder of C by a positive
-- constant, which round towards zero.
use naive_net.Common.{
  ℕ, zero, suc, ◌<◌, ◌+◌, ◌-◌, ◌*◌, ◌/◌, ◌%◌, ◌≤◌, ◌≡◌, refl, ◌⊎◌, inl, inr, Bool, true, false, not,
  arith, ltb, leb, ◌==◌, ◌&&◌, if◌then◌else◌,
}

-- `negsuc n` is -(n + 1).
pub data ℤ : Type 0 where
  pos : ℕ → ℤ
  negsuc : ℕ → ℤ

abbrev pub pos_part : ℤ → ℕ
pos_part (pos n) = n
pos_part (negsuc n) = 0

abbrev pub neg_part : ℤ → ℕ
neg_part (pos n) = 0
neg_part (negsuc n) = suc n

-- a - b, as an integer.
abbrev pub sub_ℕ : ℕ → ℕ → ℤ
sub_ℕ a b = if leb b a then pos (a - b) else negsuc (b - a - 1)

infixl 65 ◌+ℤ◌ ◌-ℤ◌
infixl 70 ◌*ℤ◌
infix 50 ◌≤ℤ◌ ◌<ℤ◌ ◌==ℤ◌
unfoldable pub ◌+ℤ◌ : ℤ → ℤ → ℤ
a +ℤ b = sub_ℕ (pos_part a + pos_part b) (neg_part a + neg_part b)

unfoldable pub ◌-ℤ◌ : ℤ → ℤ → ℤ
a -ℤ b = sub_ℕ (pos_part a + neg_part b) (neg_part a + pos_part b)

-- A product with a constant that is not negative.
unfoldable pub ◌*ℤ◌ : ℕ → ℤ → ℤ
k *ℤ a = sub_ℕ (k * pos_part a) (k * neg_part a)

-- C's `/` and `%` by a positive constant.
unfoldable pub quot : ℤ → ℕ → ℤ
quot a k = sub_ℕ (pos_part a / k) (neg_part a / k)

unfoldable pub rem : ℤ → ℕ → ℤ
rem a k = sub_ℕ (pos_part a % k) (neg_part a % k)

abbrev pub ◌≤ℤ◌ : ℤ → ℤ → Type 0
a ≤ℤ b = pos_part a + neg_part b ≤ pos_part b + neg_part a

abbrev pub ◌<ℤ◌ : ℤ → ℤ → Type 0
a <ℤ b = suc (pos_part a + neg_part b) ≤ pos_part b + neg_part a

abbrev pub ltb_ℤ : ℤ → ℤ → Bool
ltb_ℤ a b = ltb (pos_part a + neg_part b) (pos_part b + neg_part a)

abbrev pub leb_ℤ : ℤ → ℤ → Bool
leb_ℤ a b = leb (pos_part a + neg_part b) (pos_part b + neg_part a)

abbrev pub ◌==ℤ◌ : ℤ → ℤ → Bool
a ==ℤ b = (pos_part a == pos_part b) && (neg_part a == neg_part b)

-- What the arithmetic tactics need to know of the operations, which stay shut.
pub +ℤ_parts :
    (a b : ℤ)
    → pos_part (a +ℤ b) + neg_part a + neg_part b ≡ neg_part (a +ℤ b) + pos_part a + pos_part b
unfolding ◌+ℤ◌
+ℤ_parts a b = ground arith

pub -ℤ_parts :
    (a b : ℤ)
    → pos_part (a -ℤ b) + neg_part a + pos_part b ≡ neg_part (a -ℤ b) + pos_part a + neg_part b
unfolding ◌-ℤ◌
-ℤ_parts a b = ground arith

pub eq_of_parts : (a b : ℤ) → pos_part a + neg_part b ≡ pos_part b + neg_part a → a ≡ b
eq_of_parts a b h = ground arith

pub ruleset int_laws = (arith, +ℤ_parts, -ℤ_parts, eq_of_parts)

pub +ℤ-pos : (a b : ℕ) → pos a +ℤ pos b ≡ pos (a + b)
+ℤ-pos a b = omega int_laws

pub -ℤ-pos : (a b : ℕ) → b ≤ a → pos a -ℤ pos b ≡ pos (a - b)
-ℤ-pos a b h = omega int_laws

pub *ℤ-pos : (k a : ℕ) → k *ℤ pos a ≡ pos (k * a)
unfolding ◌*ℤ◌
*ℤ-pos k a = ground arith

pub quot-pos : (a k : ℕ) → quot (pos a) k ≡ pos (a / k)
unfolding quot
quot-pos a k = ground arith

pub rem-pos : (a k : ℕ) → rem (pos a) k ≡ pos (a % k)
unfolding rem
rem-pos a k = ground arith

-- On arguments that are not negative the operations are those of the native numbers.
pub ruleset pos_laws = (+ℤ-pos, *ℤ-pos, quot-pos, rem-pos)

pub *ℤ_parts :
    (k : ℕ) (a : ℤ) → pos_part (k *ℤ a) + k * neg_part a ≡ neg_part (k *ℤ a) + k * pos_part a
unfolding ◌*ℤ◌
*ℤ_parts k (pos n) = ground arith
*ℤ_parts k (negsuc n) = ground arith

-- The negative of a number, divided: both results are negatives.
pub quot-negative : (n k : ℕ) → quot (sub_ℕ 0 n) k ≡ sub_ℕ 0 (n / k)
unfolding quot
quot-negative zero k = ground arith
quot-negative (suc n) k = ground arith

pub rem-negative : (n k : ℕ) → 0 < k → rem (sub_ℕ 0 n) k ≡ sub_ℕ 0 (n % k)
unfolding rem
rem-negative zero k h = ground arith
rem-negative (suc n) k h = ground arith

pub ==ℤ_refl : (a : ℤ) → (a ==ℤ a) ≡ true
==ℤ_refl a = ground arith

pub lt-not-==ℤ : (a b : ℤ) → a <ℤ b → (a ==ℤ b) ≡ false
lt-not-==ℤ a b h = ground arith

pub ==ℤ-eq : (a b : ℤ) → (a ==ℤ b) ≡ true → a ≡ b
==ℤ-eq a b h = ground arith
