-- ===== src/Log/Stream/Items.antt =====
-- What the text operators of base/log/LogStream.h are given: the text of each item, the room that it
-- wants in the buffer, and the items that the machine's words allow.
use naive_net.Common.{ℕ, ◌+◌, ◌^◌, ◌≤◌, ◌<◌, List, [], ◌∷◌, ◌++◌, none, some, true, false, length}
use naive_net.Common.Int.{ℤ, pos_part, neg_part}
use naive_net.Common.Printf.{signed}
use naive_net.Log.Convert.{convert_hex}
use naive_net.Log.Stream.{Item}

-- A value of 64 bits, signed or not.
abbrev pub IsWord : ℤ → Type 0
IsWord v = (pos_part v < 2 ^ 64) × (neg_part v ≤ 2 ^ 63)

abbrev pub null_text : List ℕ
null_text = b'(' ∷ b'n' ∷ b'u' ∷ b'l' ∷ b'l' ∷ b')' ∷ []

module _ {D : Type 0} (print_g12 : D → List ℕ) where
  -- The text of an item.
  unfoldable pub text_of : Item D → List ℕ
  text_of (Item.bool true) = b'1' ∷ []
  text_of (Item.bool false) = b'0' ∷ []
  text_of (Item.short v) = signed v
  text_of (Item.unsigned_short v) = signed v
  text_of (Item.int v) = signed v
  text_of (Item.unsigned_int v) = signed v
  text_of (Item.long v) = signed v
  text_of (Item.unsigned_long v) = signed v
  text_of (Item.long_long v) = signed v
  text_of (Item.unsigned_long_long v) = signed v
  text_of (Item.pointer v) = b'0' ∷ b'x' ∷ convert_hex v
  text_of (Item.float v) = print_g12 v
  text_of (Item.double v) = print_g12 v
  text_of (Item.char c) = c ∷ []
  text_of (Item.c_str (some text)) = text
  text_of (Item.c_str none) = null_text
  text_of (Item.string text) = text
  text_of (Item.string_piece text) = text
  text_of (Item.fmt text) = text

  -- The room that an item wants: 32 bytes for a number, and else one more than its text.
  unfoldable pub room_for : Item D → ℕ
  room_for (Item.bool b) = 2
  room_for (Item.char c) = 2
  room_for (Item.c_str (some text)) = length text + 1
  room_for (Item.c_str none) = 7
  room_for (Item.string text) = length text + 1
  room_for (Item.string_piece text) = length text + 1
  room_for (Item.fmt text) = length text + 1
  room_for i = 32

  -- An integer is one of 64 bits, and the text of a floating-point number has 31 bytes at most.
  unfoldable pub IsItem : Item D → Type 0
  IsItem (Item.short v) = IsWord v
  IsItem (Item.unsigned_short v) = IsWord v
  IsItem (Item.int v) = IsWord v
  IsItem (Item.unsigned_int v) = IsWord v
  IsItem (Item.long v) = IsWord v
  IsItem (Item.unsigned_long v) = IsWord v
  IsItem (Item.long_long v) = IsWord v
  IsItem (Item.unsigned_long_long v) = IsWord v
  IsItem (Item.pointer v) = v < 2 ^ 64
  IsItem (Item.float v) = length (print_g12 v) ≤ 31
  IsItem (Item.double v) = length (print_g12 v) ≤ 31
  IsItem i = Unit {0}

  -- The texts of several items, and the room that they want together.
  unfoldable pub texts_of : List (Item D) → List ℕ
  unfolding text_of
  texts_of [] = []
  texts_of (i ∷ is) = text_of i ++ texts_of is

  unfoldable pub room_for_all : List (Item D) → ℕ
  unfolding room_for
  room_for_all [] = 0
  room_for_all (i ∷ is) = room_for i + room_for_all is

  unfoldable pub AreItems : List (Item D) → Type 0
  unfolding IsItem
  AreItems [] = Unit {0}
  AreItems (i ∷ is) = IsItem i × AreItems is
