-- ===== src/Log/Stream/Laws.antt =====
-- What the text operators of base/log/LogStream.cc add to the buffer.
use naive_net.Common.{
  ℕ, zero, suc, ◌+◌, ◌^◌, ◌≤◌, ◌<◌, ◌≡◌, refl, ap, ◌∙◌, List, [], ◌∷◌, ◌++◌, none, some, true,
  false, leb, ltb, if◌then◌else◌, length, take, arith, Bool-cases, inl, inr, append_assoc,
  append-nil, sym, length-append,
}
use naive_net.Common.Int.{ℤ}
use naive_net.Common.Printf.{signed}
use naive_net.Log.Buffer.{avail, append, write_current, add, as_string, length_of}
use naive_net.Log.Buffer.Contents.{IsBuffer, as_string-append, as_string-add, length-as_string}
use naive_net.Log.Convert.{convert, convert_hex}
use naive_net.Log.Convert.Decimal.{convert-eq-signed, length-convert}
use naive_net.Log.Convert.Hex.{length-convert_hex}
use naive_net.Log.Stream.Items.{IsWord, text_of, room_for, IsItem, texts_of, room_for_all, AreItems}
use naive_net.Log.Stream.{
  LogStream, Item, format_integer, format_pointer, append_bytes, format_double, put, put_all,
}

-- What an operator does to a stream that is well formed: it adds its text where the room suffices.
abbrev pub Puts : LogStream → ℕ → List ℕ → LogStream → Type 0
Puts s room text s' =
    IsBuffer s'.buffer
    × (as_string s'.buffer
        ≡ (if leb room (avail s.buffer) then as_string s.buffer ++ text else as_string s.buffer))

format_integer-Puts :
    (s : LogStream) (v : ℤ)
    → IsBuffer s.buffer
    → IsWord v
    → Puts s 32 (signed v) (format_integer s v)
unfolding format_integer
format_integer-Puts s v b w = elim (Bool-cases (leb 32 (avail s.buffer))) [
  | inl e ↦
      rw (e, ← convert-eq-signed v)
        (as_string-add s.buffer (convert v) b (ground (arith, length-convert v w.0 w.1)))
  | inr e ↦ rw e (b, refl)
]

format_pointer-Puts :
    (s : LogStream) (v : ℕ)
    → IsBuffer s.buffer
    → v < 2 ^ 64
    → Puts s 32 (b'0' ∷ b'x' ∷ convert_hex v) (format_pointer s v)
unfolding format_pointer
format_pointer-Puts s v b w = elim (Bool-cases (leb 32 (avail s.buffer))) [
  | inl e ↦
      let n : length (convert_hex v) + 2 ≡ suc (suc (length (convert_hex v))) = omega arith in
      rw (e, n)
        (as_string-add s.buffer (b'0' ∷ b'x' ∷ convert_hex v) b
          (ground (arith, length-convert_hex v w)))
  | inr e ↦ rw e (b, refl)
]

append_bytes-Puts :
    (s : LogStream) (text : List ℕ) (room : ℕ)
    → IsBuffer s.buffer
    → room ≡ length text + 1
    → Puts s room text (append_bytes s text)
unfolding append_bytes
append_bytes-Puts s text room b e =
    let same : ltb (length text) (avail s.buffer) ≡ leb room (avail s.buffer) = ground arith in
    rw (← same) (as_string-append s.buffer text b)

length-signed : (v : ℤ) → IsWord v → length (signed v) ≤ 32
length-signed v w = rw (← convert-eq-signed v) (omega (arith, length-convert v w.0 w.1))

take_all : (n : ℕ) (xs : List ℕ) → length xs ≤ n → take n xs ≡ xs
take_all zero [] h = refl
take_all zero (x ∷ xs) h = absurd (omega arith)
take_all (suc n) [] h = refl
take_all (suc n) (x ∷ xs) h = ap (◌∷◌ x) (take_all n xs (omega arith))

module _ {D : Type 0} (print_g12 : D → List ℕ) where
  format_double-Puts :
      (s : LogStream) (v : D)
      → IsBuffer s.buffer
      → length (print_g12 v) ≤ 31
      → Puts s 32 (print_g12 v) (format_double print_g12 s v)
  unfolding format_double
  format_double-Puts s v b w = elim (Bool-cases (leb 32 (avail s.buffer))) [
    | inl e ↦
        rw (e, take_all 31 (print_g12 v) w) (as_string-add s.buffer (print_g12 v) b (ground arith))
    | inr e ↦ rw e (b, refl)
  ]

  -- Each overload adds the text of its item, if the buffer has the room that the item wants, and
  -- leaves the contents as they are otherwise; the buffer stays well formed, so no byte and no
  -- closing zero is written past its end.
  pub put-Puts :
      (s : LogStream) (i : Item D)
      → IsBuffer s.buffer
      → IsItem print_g12 i
      → IsBuffer (put print_g12 s i).buffer
        × (as_string (put print_g12 s i).buffer ≡ (
            if leb (room_for print_g12 i) (avail s.buffer)
            then as_string s.buffer ++ text_of print_g12 i
            else as_string s.buffer))
  unfolding put text_of room_for IsItem
  put-Puts s (Item.bool true) b w = append_bytes-Puts s _ 2 b refl
  put-Puts s (Item.bool false) b w = append_bytes-Puts s _ 2 b refl
  put-Puts s (Item.short v) b w = format_integer-Puts s v b w
  put-Puts s (Item.unsigned_short v) b w = format_integer-Puts s v b w
  put-Puts s (Item.int v) b w = format_integer-Puts s v b w
  put-Puts s (Item.unsigned_int v) b w = format_integer-Puts s v b w
  put-Puts s (Item.long v) b w = format_integer-Puts s v b w
  put-Puts s (Item.unsigned_long v) b w = format_integer-Puts s v b w
  put-Puts s (Item.long_long v) b w = format_integer-Puts s v b w
  put-Puts s (Item.unsigned_long_long v) b w = format_integer-Puts s v b w
  put-Puts s (Item.pointer v) b w = format_pointer-Puts s v b w
  put-Puts s (Item.float v) b w = format_double-Puts s v b w
  put-Puts s (Item.double v) b w = format_double-Puts s v b w
  put-Puts s (Item.char c) b w = append_bytes-Puts s _ 2 b refl
  put-Puts s (Item.c_str (some text)) b w = append_bytes-Puts s text _ b refl
  put-Puts s (Item.c_str none) b w = append_bytes-Puts s _ 7 b refl
  put-Puts s (Item.string text) b w = append_bytes-Puts s text _ b refl
  put-Puts s (Item.string_piece text) b w = append_bytes-Puts s text _ b refl
  put-Puts s (Item.fmt text) b w = append_bytes-Puts s text _ b refl

  length-text_of :
      (i : Item D) → IsItem print_g12 i → length (text_of print_g12 i) ≤ room_for print_g12 i
  unfolding IsItem text_of room_for
  length-text_of (Item.bool true) w = omega arith
  length-text_of (Item.bool false) w = omega arith
  length-text_of (Item.short v) w = length-signed v w
  length-text_of (Item.unsigned_short v) w = length-signed v w
  length-text_of (Item.int v) w = length-signed v w
  length-text_of (Item.unsigned_int v) w = length-signed v w
  length-text_of (Item.long v) w = length-signed v w
  length-text_of (Item.unsigned_long v) w = length-signed v w
  length-text_of (Item.long_long v) w = length-signed v w
  length-text_of (Item.unsigned_long_long v) w = length-signed v w
  length-text_of (Item.pointer v) w = omega (arith, length-convert_hex v w)
  length-text_of (Item.float v) w = omega arith
  length-text_of (Item.double v) w = omega arith
  length-text_of (Item.char c) w = omega arith
  length-text_of (Item.c_str (some text)) w = omega arith
  length-text_of (Item.c_str none) w = omega arith
  length-text_of (Item.string text) w = omega arith
  length-text_of (Item.string_piece text) w = omega arith
  length-text_of (Item.fmt text) w = omega arith

  put-size : (s : LogStream) (i : Item D) → (put print_g12 s i).buffer.size ≡ s.buffer.size
  unfolding put append add write_current
  put-size s (Item.bool true) = ground arith
  put-size s (Item.c_str none) = ground arith
  put-size s _ = ground arith

  -- A put uses up no more than the room that its item wants.
  avail-put :
      (s : LogStream) (i : Item D)
      → IsBuffer s.buffer
      → IsItem print_g12 i
      → room_for print_g12 i ≤ avail s.buffer
      → (as_string (put print_g12 s i).buffer ≡ as_string s.buffer ++ text_of print_g12 i)
        × (avail s.buffer ≤ avail (put print_g12 s i).buffer + room_for print_g12 i)
  avail-put s i b w h =
      let fits : leb (room_for print_g12 i) (avail s.buffer) ≡ true = ground arith in
      let adds : as_string (put print_g12 s i).buffer ≡ as_string s.buffer ++ text_of print_g12 i =
        rw fits at (put-Puts s i b w).1 in
      (
        adds,
        unfold avail length_of in
            omega (
              arith,
              put-size s i,
              ap length adds,
              length-append (as_string s.buffer) (text_of print_g12 i),
              length-as_string (put print_g12 s i).buffer (put-Puts s i b w).0,
              length-as_string s.buffer b,
              length-text_of i w,
            ),
      )

  -- A chain of operators whose items have the room that they want together adds all of their texts,
  -- in order.
  pub as_string-put_all :
      (s : LogStream) (is : List (Item D))
      → IsBuffer s.buffer
      → AreItems print_g12 is
      → room_for_all print_g12 is ≤ avail s.buffer
      → as_string (put_all print_g12 s is).buffer ≡ as_string s.buffer ++ texts_of print_g12 is
  unfolding put_all texts_of room_for_all AreItems
  as_string-put_all s [] b w h = sym (append-nil _)
  as_string-put_all s (i ∷ is) b w h =
      let (adds, left) = avail-put s i b w.0 (omega arith) in
      as_string-put_all (put print_g12 s i) is (put-Puts s i b w.0).0 w.1 (omega arith)
      ∙ ap (λ l. l ++ texts_of print_g12 is) adds
      ∙ append_assoc (as_string s.buffer) (text_of print_g12 i) (texts_of print_g12 is)
