-- ===== src/Log/Stream.antt =====
-- `LogStream` and `Fmt` of base/log/LogStream.h and base/log/LogStream.cc: the text operators on a
-- buffer of `kSmallBuffer` bytes. The argument of an overload of `operator<<` is an `Item`.
pub mod Items
pub mod Laws
use naive_net.Common.{
  ℕ, ◌+◌, ◌*◌, List, [], ◌∷◌, ◌++◌, Option, none, some, Bool, true, false, leb, if◌then◌else◌,
  length, take,
}
use naive_net.Common.Int.{ℤ, pos}
use naive_net.Log.Buffer.{FixedBuffer, avail, append, write_current, add, reset}
use naive_net.Log.Convert.{convert, convert_hex}

abbrev pub small_buffer : ℕ
small_buffer = 4000

abbrev pub large_buffer : ℕ
large_buffer = 4000 * 1000

abbrev pub max_numeric_size : ℕ
max_numeric_size = 32

pub record LogStream : Type 0 where
  pub buffer : FixedBuffer

-- What the overloads of `operator<<` take: a floating-point number of the type `D`, a C text or a
-- null pointer, and the bytes of a `std::string`, a `StringPiece` or a `Fmt`.
pub data Item (D : Type 0) : Type 0 where
  bool : Bool → Item D
  short unsigned_short int unsigned_int long unsigned_long long_long unsigned_long_long : ℤ → Item D
  pointer : ℕ → Item D
  float double : D → Item D
  char : ℕ → Item D
  c_str : Option (List ℕ) → Item D
  string string_piece fmt : List ℕ → Item D

-- `formatInteger`; `convert` ends its text by a zero byte.
unfoldable pub format_integer : LogStream → ℤ → LogStream
format_integer s v =
    if leb max_numeric_size (avail s.buffer)
    then record s {
      buffer = add (write_current s.buffer (convert v ++ 0 ∷ [])) (length (convert v));
    }
    else s

-- `operator<<(const void*)`
unfoldable pub format_pointer : LogStream → ℕ → LogStream
format_pointer s v =
    if leb max_numeric_size (avail s.buffer)
    then record s {
      buffer =
          add (write_current s.buffer (b'0' ∷ b'x' ∷ convert_hex v ++ 0 ∷ []))
            (length (convert_hex v) + 2);
    }
    else s

-- `LogStream::append`
unfoldable pub append_bytes : LogStream → List ℕ → LogStream
append_bytes s bytes = record s { buffer = append s.buffer bytes }

unfoldable pub reset_buffer : LogStream → LogStream
reset_buffer s = record s { buffer = reset s.buffer }

-- `print_g12` is the text of `printf("%.12g")`.
module _ {D : Type 0} (print_g12 : D → List ℕ) where
  -- `operator<<(double)`: `snprintf` writes at most 31 bytes and a zero, and returns the length
  -- of the whole text.
  unfoldable pub format_double : LogStream → D → LogStream
  format_double s v =
      if leb max_numeric_size (avail s.buffer)
      then record s {
        buffer =
            add (write_current s.buffer (take 31 (print_g12 v) ++ 0 ∷ [])) (length (print_g12 v));
      }
      else s

  unfoldable pub put : LogStream → Item D → LogStream
  unfolding format_integer format_pointer format_double append_bytes
  put s (bool true) = append_bytes s (b'1' ∷ [])
  put s (bool false) = append_bytes s (b'0' ∷ [])
  put s (short v) = format_integer s v
  put s (unsigned_short v) = format_integer s v
  put s (int v) = format_integer s v
  put s (unsigned_int v) = format_integer s v
  put s (long v) = format_integer s v
  put s (unsigned_long v) = format_integer s v
  put s (long_long v) = format_integer s v
  put s (unsigned_long_long v) = format_integer s v
  put s (pointer v) = format_pointer s v
  put s (float v) = format_double s v
  put s (double v) = format_double s v
  put s (char c) = append_bytes s (c ∷ [])
  put s (c_str (some text)) = append_bytes s text
  put s (c_str none) = append_bytes s (b'(' ∷ b'n' ∷ b'u' ∷ b'l' ∷ b'l' ∷ b')' ∷ [])
  put s (string text) = append_bytes s text
  put s (string_piece text) = append_bytes s text
  put s (fmt text) = append_bytes s text

  -- `s << a << b << …`
  unfoldable pub put_all : LogStream → List (Item D) → LogStream
  put_all s [] = s
  put_all s (i ∷ is) = put_all (put s i) is

-- `Fmt::Fmt`, given the text that `snprintf` makes: `none` where the assertion fails.
unfoldable pub make_fmt : List ℕ → Option (List ℕ)
make_fmt text = if leb 32 (length text) then none else some text
