-- ===== src/ProcessInfo/Text.antt =====
-- The searches in a text and `atoi` that base/ProcessInfo.cc calls.
use naive_net.Common.{
  ℕ, zero, suc, ◌+◌, ◌-◌, ◌*◌, ◌/◌, ◌%◌, ◌<◌, ◌≡◌, refl, sym, ap, ◌∙◌, List, [], ◌∷◌, ◌++◌, some,
  none, true, false, ltb, ◌==◌, Bool-cases, inl, inr, length, take, drop, All, arith, if◌then◌else◌,
}
use naive_net.Common.Int.{pos}
use naive_net.Common.Printf.{decimal, decimal_onto}
use naive_net.ProcessInfo.{
  atoi, atoi_digits, atoi_sign, skip_space, is_digit, is_space, find, rfind, is_prefix, find_text,
  starts_with_digit,
}

-- None of the bytes is `c`.
abbrev pub Without : ℕ → List ℕ → Type 0
Without c = All (λ x. (x == c) ≡ false)

pub find-first :
    (c : ℕ) (front back : List ℕ)
    → Without c front
    → find c (front ++ c ∷ back) ≡ some (length front)
unfolding find
find-first c [] back h = ground arith
find-first c (x ∷ front) back (h, t) = rw (h, find-first c front back t) refl

rfind-none : (c : ℕ) (back : List ℕ) → Without c back → rfind c back ≡ none
unfolding rfind
rfind-none c [] h = refl
rfind-none c (x ∷ back) (h, t) = rw (rfind-none c back t, h) refl

pub rfind-last :
    (c : ℕ) (front back : List ℕ)
    → Without c back
    → rfind c (front ++ c ∷ back) ≡ some (length front)
unfolding rfind
rfind-last c [] back h = rw (rfind-none c back h) (ground arith)
rfind-last c (x ∷ front) back h = rw (rfind-last c front back h) refl

pub take-front : (front back : List ℕ) → take (length front) (front ++ back) ≡ front
take-front [] back = refl
take-front (x ∷ front) back = ap (◌∷◌ x) (take-front front back)

pub drop-past :
    (front : List ℕ) (k : ℕ) (back : List ℕ) → drop (length front + k) (front ++ back) ≡ drop k back
drop-past [] k back = ap (λ i. drop i back) {y = k} (omega arith)
drop-past (x ∷ front) k back =
    ap (λ i. drop i (x ∷ (front ++ back))) {y = suc (length front + k)} (omega arith)
    ∙ drop-past front k back

pub is_prefix-front : (word back : List ℕ) → is_prefix word (word ++ back) ≡ true
unfolding is_prefix
is_prefix-front [] back = refl
is_prefix-front (c ∷ word) back = rw (is_prefix-front word back) (ground arith)

-- The word begins at none of the bytes of `front`.
abbrev pub NotBefore : List ℕ → List ℕ → List ℕ → Type 0
NotBefore word [] back = Unit
NotBefore word (x ∷ front) back =
    (is_prefix word (x ∷ (front ++ back)) ≡ false) × NotBefore word front back

find_text-here : (word text : List ℕ) → is_prefix word text ≡ true → find_text word text ≡ some 0
unfolding find_text
find_text-here word [] h = rw h refl
find_text-here word (x ∷ text) h = rw h refl

pub find_text-first :
    (word front back : List ℕ)
    → NotBefore word front (word ++ back)
    → find_text word (front ++ (word ++ back)) ≡ some (length front)
unfolding find_text
find_text-first word [] back h = find_text-here word (word ++ back) (is_prefix-front word back)
find_text-first word (x ∷ front) back (h, t) = rw (h, find_text-first word front back t) refl

-- A byte after a number that does not go on with it.
abbrev pub EndsNumber : List ℕ → Type 0
EndsNumber rest = starts_with_digit rest ≡ false

atoi_digits-end : (acc : ℕ) (rest : List ℕ) → EndsNumber rest → atoi_digits acc rest ≡ acc
unfolding atoi_digits
atoi_digits-end acc [] h = refl
atoi_digits-end acc (c ∷ rest) h = rw h refl

decimal_onto-append :
    (fuel n : ℕ) (a b : List ℕ) → decimal_onto fuel n (a ++ b) ≡ decimal_onto fuel n a ++ b
unfolding decimal_onto
decimal_onto-append zero n a b = refl
decimal_onto-append (suc fuel) n a b = elim (Bool-cases (ltb n 10)) [
  | inl e ↦ rw e refl
  | inr e ↦ rw e (decimal_onto-append fuel (n / 10) ((b'0' + n % 10) ∷ a) b)
]

atoi_digits-decimal_onto :
    (fuel n : ℕ) (rest : List ℕ)
    → n < fuel
    → atoi_digits 0 (decimal_onto fuel n rest) ≡ atoi_digits n rest
unfolding decimal_onto atoi_digits
atoi_digits-decimal_onto zero n rest h = absurd (omega arith)
atoi_digits-decimal_onto (suc fuel) n rest h = elim (Bool-cases (ltb n 10)) [
  | inl e ↦
      let d : is_digit (b'0' + n) ≡ true = ground arith in
      rw (e, d) (ap (λ k. atoi_digits k rest) {y = n} (omega arith))
  | inr e ↦
      let d : is_digit (b'0' + n % 10) ≡ true = ground arith in
      rw e (
        atoi_digits-decimal_onto fuel (n / 10) ((b'0' + n % 10) ∷ rest) (ground arith)
        ∙ ap (λ t. if t then atoi_digits (n / 10 * 10 + ((b'0' + n % 10) - b'0')) rest else n / 10)
            d
        ∙ ap (λ k. atoi_digits k rest) {y = n} (omega arith))
]

starts_with_digit-decimal_onto :
    (fuel n : ℕ) (rest : List ℕ) → n < fuel → starts_with_digit (decimal_onto fuel n rest) ≡ true
unfolding decimal_onto
starts_with_digit-decimal_onto zero n rest h = absurd (omega arith)
starts_with_digit-decimal_onto (suc fuel) n rest h = elim (Bool-cases (ltb n 10)) [
  | inl e ↦ rw e (ground arith)
  | inr e ↦
      rw e (starts_with_digit-decimal_onto fuel (n / 10) ((b'0' + n % 10) ∷ rest) (ground arith))
]

-- A text that begins with a digit is neither blank nor signed.
atoi-digit : (text : List ℕ) → starts_with_digit text ≡ true → atoi text ≡ pos (atoi_digits 0 text)
unfolding atoi skip_space atoi_sign
atoi-digit [] h = grind (arith, h)
atoi-digit (c ∷ cs) h =
    let a : is_space c ≡ false = ground arith in
    let m : (c == b'-') ≡ false = ground arith in
    let p : (c == b'+') ≡ false = ground arith in rw (a, m, p) refl

atoi-blanks :
    (blanks text : List ℕ) → All (λ c. is_space c ≡ true) blanks → atoi (blanks ++ text) ≡ atoi text
unfolding atoi skip_space
atoi-blanks [] text h = refl
atoi-blanks (c ∷ blanks) text (h, t) = rw h (atoi-blanks blanks text t)

-- `atoi` reads a decimal number behind blanks, whatever ends it.
pub atoi-decimal :
    (blanks : List ℕ) (n : ℕ) (rest : List ℕ)
    → All (λ c. is_space c ≡ true) blanks
    → EndsNumber rest
    → atoi (blanks ++ (decimal n ++ rest)) ≡ pos n
unfolding decimal
atoi-decimal blanks n rest h e =
    let text = decimal_onto (suc n) n rest in
    atoi-blanks blanks (decimal_onto (suc n) n [] ++ rest) h
    ∙ ap atoi (sym (decimal_onto-append (suc n) n [] rest))
    ∙ atoi-digit text (starts_with_digit-decimal_onto (suc n) n rest (omega arith))
    ∙ ap pos (atoi_digits-decimal_onto (suc n) n rest (omega arith) ∙ atoi_digits-end n rest e)

-- The name of a number begins with a digit.
pub starts_with_digit-decimal : (n : ℕ) → starts_with_digit (decimal n) ≡ true
unfolding decimal
starts_with_digit-decimal n = starts_with_digit-decimal_onto (suc n) n [] (omega arith)
