-- ===== src/StringPiece/Order.antt =====
-- The comparisons of base/StringPiece.h against those of the bytes.
use naive_net.Common.{
  ℕ, zero, suc, ◌≤◌, ◌≡◌, refl, sym, subst, length-take, ap, ◌∙◌, ◌⊎◌, inl, inr, List, [], ◌∷◌, not,
  ltb, length, take, arith, Bool-cases, if◌then◌else◌,
}
use naive_net.Common.Int.{ℤ, pos, negsuc, ltb_ℤ, ◌==ℤ◌}
use naive_net.StringPiece.{StringPiece, as_string, lt, le, ge, gt, compare_to, compared}

-- Bytes in the order of a dictionary.
unfoldable pub compare_bytes : List ℕ → List ℕ → ℤ
compare_bytes [] [] = pos 0
compare_bytes [] (y ∷ ys) = negsuc 0
compare_bytes (x ∷ xs) [] = pos 1
compare_bytes (x ∷ xs) (y ∷ ys) =
    let rest = compare_bytes xs ys in if ltb x y then negsuc 0 else if ltb y x then pos 1 else rest

-- The same sign.
abbrev pub Agrees : ℤ → ℤ → Type 0
Agrees a b = (ltb_ℤ a (pos 0) ≡ ltb_ℤ b (pos 0)) × (ltb_ℤ (pos 0) a ≡ ltb_ℤ (pos 0) b)

-- The bytes of a piece are all in its memory.
abbrev pub IsPiece : StringPiece → Type 0
IsPiece p = p.len ≤ length p.ptr

-- The comparison of lengths that comes after equal bytes.
abbrev by_length : ℤ → ℕ → ℕ → ℤ
by_length r n m =
    if r ==ℤ pos 0 then (if ltb n m then negsuc 0 else if ltb m n then pos 1 else r) else r

by_length-suc : (c : ℤ) (n m : ℕ) → by_length c n m ≡ by_length c (suc n) (suc m)
by_length-suc c n m = ground arith

Agrees-by_length : (r c : ℤ) (n m : ℕ) → Agrees r c → Agrees (by_length r n m) (by_length c n m)
Agrees-by_length r c n m h = ground arith

compare_bytes-take :
    (n : ℕ) (xs ys : List ℕ)
    → n ≤ length xs
    → n ≤ length ys
    → (n ≡ length xs) ⊎ (n ≡ length ys)
    → compare_bytes xs ys
      ≡ by_length (compare_bytes (take n xs) (take n ys)) (length xs) (length ys)
unfolding compare_bytes
compare_bytes-take zero [] [] h k e = refl
compare_bytes-take zero [] (y ∷ ys) h k e = ground arith
compare_bytes-take zero (x ∷ xs) [] h k e = ground arith
compare_bytes-take zero (x ∷ xs) (y ∷ ys) h k (inl e) = absurd (omega arith)
compare_bytes-take zero (x ∷ xs) (y ∷ ys) h k (inr e) = absurd (omega arith)
compare_bytes-take (suc n) [] ys h k e = absurd (omega arith)
compare_bytes-take (suc n) (x ∷ xs) [] h k e = absurd (omega arith)
compare_bytes-take (suc n) (x ∷ xs) (y ∷ ys) h k e =
    let rest =
      compare_bytes-take n xs ys (omega arith) (omega arith)
        (elim e [ inl q ↦ inl (omega arith) | inr q ↦ inr (omega arith) ]) in
    elim (Bool-cases (ltb x y)) [
      | inl l ↦ rw l refl
      | inr l ↦ rw l (elim (Bool-cases (ltb y x)) [
        | inl m ↦ rw m refl
        | inr m ↦
            rw m
              (rest ∙ by_length-suc (compare_bytes (take n xs) (take n ys)) (length xs) (length ys))
      ])
    ]

take-take : (n m : ℕ) (xs : List ℕ) → n ≤ m → take n (take m xs) ≡ take n xs
take-take zero m xs h = refl
take-take (suc n) zero xs h = absurd (omega arith)
take-take (suc n) (suc m) [] h = refl
take-take (suc n) (suc m) (x ∷ xs) h = ap (◌∷◌ x) (take-take n m xs (omega arith))

length_of_piece : (p : StringPiece) → IsPiece p → length (as_string p) ≡ p.len
unfolding as_string
length_of_piece p h = omega (arith, length-take p.len p.ptr)

-- The bytes of two pieces, compared up to the shorter one's length and then by length.
compared_bytes :
    (p x : StringPiece)
    → IsPiece p
    → IsPiece x
    → compare_bytes (as_string p) (as_string x)
      ≡ by_length
          (compare_bytes
            (take (if ltb p.len x.len then p.len else x.len) p.ptr)
            (take (if ltb p.len x.len then p.len else x.len) x.ptr))
          p.len
          x.len
unfolding as_string
compared_bytes p x h k =
    let n = if ltb p.len x.len then p.len else x.len in
    let a = length_of_piece p h in
    let b = length_of_piece x k in
    compare_bytes-take n (as_string p) (as_string x) (ground (arith, a)) (ground (arith, b))
      (ground (arith, a, b))
    ∙ ap
        (λ l.
          by_length (compare_bytes l (take n (as_string x))) (length (as_string p))
            (length (as_string x)))
        (take-take n p.len p.ptr (ground arith))
    ∙ ap
        (λ l.
          by_length (compare_bytes (take n p.ptr) l) (length (as_string p)) (length (as_string x)))
        (take-take n x.len x.ptr (ground arith))
    ∙ ap (λ l. by_length (compare_bytes (take n p.ptr) (take n x.ptr)) l (length (as_string x))) a
    ∙ ap (λ l. by_length (compare_bytes (take n p.ptr) (take n x.ptr)) p.len l) b

-- `memcmp` compares two ranges of bytes.
module _ (memcmp : List ℕ → List ℕ → ℕ → ℤ)
    (memcmp_Agrees : (p q : List ℕ) (n : ℕ)
      → n ≤ length p
      → n ≤ length q
      → Agrees (memcmp p q n) (compare_bytes (take n p) (take n q))) where
  -- `compare` has the sign that the order of the bytes has, as in a dictionary.
  pub compare_to-Agrees :
      (p x : StringPiece)
      → IsPiece p
      → IsPiece x
      → Agrees (compare_to memcmp p x) (compare_bytes (as_string p) (as_string x))
  unfolding compare_to compared as_string
  compare_to-Agrees p x h k =
      let n = if ltb p.len x.len then p.len else x.len in
      let to_p : n ≤ p.len = ground arith in
      let to_x : n ≤ x.len = ground arith in
      subst (Agrees (compare_to memcmp p x)) (sym (compared_bytes p x h k)) (
        Agrees-by_length (memcmp p.ptr x.ptr n) _ p.len x.len
          (memcmp_Agrees p.ptr x.ptr n (omega arith) (omega arith)))

-- The operators need no property of `memcmp`.
module _ (memcmp : List ℕ → List ℕ → ℕ → ℤ) where
  -- The four operators are the order that `compare` shows.
  pub operators-Agree :
      (p x : StringPiece)
      → (lt memcmp p x ≡ ltb_ℤ (compare_to memcmp p x) (pos 0))
        × (gt memcmp p x ≡ ltb_ℤ (pos 0) (compare_to memcmp p x))
        × (le memcmp p x ≡ not (gt memcmp p x))
        × (ge memcmp p x ≡ not (lt memcmp p x))
  unfolding lt gt le ge compare_to
  operators-Agree p x = (ground arith, ground arith, ground arith, ground arith)
