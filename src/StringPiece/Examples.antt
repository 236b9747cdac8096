-- ===== src/StringPiece/Examples.antt =====
-- Pieces of base/StringPiece.h, compared with a `memcmp` that looks at the bytes.
use naive_net.Common.{ℕ, refl, List, [], ◌∷◌, take, arith}
use naive_net.Common.Int.{ℤ}
use naive_net.StringPiece.{StringPiece, as_string, compare_to}
use naive_net.StringPiece.Order.{compare_bytes, Agrees, compare_to-Agrees}

abbrev memcmp : List ℕ → List ℕ → ℕ → ℤ
memcmp p q n = compare_bytes (take n p) (take n q)

-- "ab" in "abc", and "abc"
abbrev short : StringPiece
short = record { ptr = b'a' ∷ b'b' ∷ b'c' ∷ []; len = 2 }

abbrev long : StringPiece
long = record { ptr = b'a' ∷ b'b' ∷ b'c' ∷ []; len = 3 }

compare_to-Agrees_example :
    Agrees (compare_to memcmp short long) (compare_bytes (as_string short) (as_string long))
compare_to-Agrees_example =
    compare_to-Agrees memcmp (λ p q n h k. (refl, refl)) short long (omega arith) (omega arith)
