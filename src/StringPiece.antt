-- ===== src/StringPiece.antt =====
-- `StringPiece` of base/StringPiece.h: the bytes from `ptr_` on to the end of the memory that it points
-- into, and `length_`. A length is taken not to be negative.
pub mod Order
mod Examples
use naive_net.Common.{
  ℕ, ◌+◌, ◌-◌, List, [], ◌∷◌, Bool, true, false, not, ◌&&◌, ◌||◌, ltb, leb, ◌==◌, if◌then◌else◌,
  length, take, drop, get_elem?, Option,
}
use naive_net.Common.Int.{ℤ, pos, negsuc, ltb_ℤ, ◌==ℤ◌}

pub record StringPiece : Type 0 where
  pub ptr : List ℕ
  pub len : ℕ

unfoldable pub empty_piece : StringPiece
empty_piece = record { ptr = []; len = 0 }

-- `strlen`
unfoldable pub strlen : List ℕ → ℕ
strlen [] = 0
strlen (c ∷ cs) = let n = strlen cs in if c == 0 then 0 else 1 + n

-- From a C text, from a `std::string`, and from a pointer with a length.
unfoldable pub of_c_str : List ℕ → StringPiece
of_c_str str = record { ptr = str; len = strlen str }

unfoldable pub of_string : List ℕ → StringPiece
of_string str = record { ptr = str; len = length str }

unfoldable pub of_range : List ℕ → ℕ → StringPiece
of_range offset n = record { ptr = offset; len = n }

-- `clear`, and `set` with a C text or with a pointer and a length.
unfoldable pub clear : StringPiece → StringPiece
clear p = record p { ptr = []; len = 0 }

unfoldable pub set_c_str : StringPiece → List ℕ → StringPiece
set_c_str p str = record p { ptr = str; len = strlen str }

unfoldable pub set_range : StringPiece → List ℕ → ℕ → StringPiece
set_range p buffer n = record p { ptr = buffer; len = n }

unfoldable pub is_empty : StringPiece → Bool
is_empty p = p.len == 0

unfoldable pub at : StringPiece → ℕ → Option ℕ
at p i = get_elem? p.ptr i

unfoldable pub remove_prefix : StringPiece → ℕ → StringPiece
remove_prefix p n = record { ptr = drop n p.ptr; len = p.len - n }

unfoldable pub remove_suffix : StringPiece → ℕ → StringPiece
remove_suffix p n = record p { len = p.len - n }

-- `as_string` and `CopyToStdString`
unfoldable pub as_string : StringPiece → List ℕ
as_string p = take p.len p.ptr

-- `memcmp` is that of the C library.
module _ (memcmp : List ℕ → List ℕ → ℕ → ℤ) where
  -- The length to which two are compared, and the result there.
  unfoldable pub compared : StringPiece → StringPiece → ℤ
  compared p x = memcmp p.ptr x.ptr (if ltb p.len x.len then p.len else x.len)

  -- `operator==` and `operator!=`
  unfoldable pub eq : StringPiece → StringPiece → Bool
  eq p x = (p.len == x.len) && (memcmp p.ptr x.ptr p.len ==ℤ pos 0)

  unfoldable pub ne : StringPiece → StringPiece → Bool
  ne p x = not (eq p x)

  -- The four operators of `STRINGPIECE_BINARY_PREDICATE`.
  unfoldable pub lt : StringPiece → StringPiece → Bool
  lt p x = let r = compared p x in ltb_ℤ r (pos 0) || ((r ==ℤ pos 0) && ltb p.len x.len)

  unfoldable pub le : StringPiece → StringPiece → Bool
  le p x = let r = compared p x in ltb_ℤ r (pos 0) || ((r ==ℤ pos 0) && leb p.len x.len)

  unfoldable pub ge : StringPiece → StringPiece → Bool
  ge p x = let r = compared p x in ltb_ℤ (pos 0) r || ((r ==ℤ pos 0) && leb x.len p.len)

  unfoldable pub gt : StringPiece → StringPiece → Bool
  gt p x = let r = compared p x in ltb_ℤ (pos 0) r || ((r ==ℤ pos 0) && ltb x.len p.len)

  unfoldable pub compare_to : StringPiece → StringPiece → ℤ
  compare_to p x =
      let r = compared p x in
      if r ==ℤ pos 0
      then (if ltb p.len x.len then negsuc 0 else if ltb x.len p.len then pos 1 else r)
      else r

  unfoldable pub starts_with : StringPiece → StringPiece → Bool
  starts_with p x = leb x.len p.len && (memcmp p.ptr x.ptr x.len ==ℤ pos 0)
