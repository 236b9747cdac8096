-- ===== src/Log/Examples.antt =====
-- The log stream of base/log/LogStream.h at concrete items.
use naive_net.Common.{
  ℕ, ◌≤◌, ◌≡◌, refl, List, [], ◌∷◌, ◌++◌, true, some, replicate, leb, if◌then◌else◌, arith,
}
use naive_net.Common.Int.{negsuc}
use naive_net.Common.Printf.{signed, decimal, decimal_onto}
use naive_net.Log.Buffer.{avail, as_string}
use naive_net.Log.Buffer.Contents.{IsBuffer}
use naive_net.Log.Convert.{convert}
use naive_net.Log.Convert.Decimal.{convert-eq-signed}
use naive_net.Log.Stream.{LogStream, Item, put, put_all}
use naive_net.Log.Stream.Items.{text_of, texts_of, room_for, room_for_all, IsItem, AreItems}
use naive_net.Log.Stream.Laws.{put-Puts, as_string-put_all}

abbrev stream_of : ℕ → LogStream
stream_of n = record { buffer = record { size = n; memory = replicate n 0; cur = 0 } }

abbrev no_print : Unit {0} → List ℕ
no_print u = b'0' ∷ []

stream_of_40-IsBuffer : IsBuffer (stream_of 40).buffer
stream_of_40-IsBuffer = record { sized = refl; room = omega arith }

stream_of_100-IsBuffer : IsBuffer (stream_of 100).buffer
stream_of_100-IsBuffer = record { sized = refl; room = omega arith }

-- `s << -42 << true << "ab"`
abbrev three_items : List (Item (Unit {0}))
three_items = Item.int (negsuc 41) ∷ Item.bool true ∷ Item.c_str (some (b'a' ∷ b'b' ∷ [])) ∷ []

three_texts : texts_of no_print three_items ≡ b'-' ∷ b'4' ∷ b'2' ∷ b'1' ∷ b'a' ∷ b'b' ∷ []
unfolding texts_of text_of signed decimal decimal_onto
three_texts = refl

three_items-AreItems : AreItems no_print three_items
unfolding AreItems IsItem
three_items-AreItems = ((omega arith, omega arith), (tt, (tt, tt)))

three_items-fit : room_for_all no_print three_items ≤ avail (stream_of 100).buffer
unfolding room_for_all room_for avail
three_items-fit = omega arith

int-IsItem : IsItem no_print (Item.int (negsuc 41))
unfolding IsItem
int-IsItem = (omega arith, omega arith)

as_string-put_all_example :
    as_string (put_all no_print (stream_of 100) three_items).buffer
    ≡ as_string (stream_of 100).buffer ++ texts_of no_print three_items
as_string-put_all_example =
    as_string-put_all no_print (stream_of 100) three_items stream_of_100-IsBuffer
      three_items-AreItems three_items-fit

put-Puts_example :
    IsBuffer (put no_print (stream_of 40) (Item.int (negsuc 41))).buffer
    × (as_string (put no_print (stream_of 40) (Item.int (negsuc 41))).buffer ≡ (
        if leb (room_for no_print (Item.int (negsuc 41))) (avail (stream_of 40).buffer)
        then as_string (stream_of 40).buffer ++ text_of no_print (Item.int (negsuc 41))
        else as_string (stream_of 40).buffer))
put-Puts_example =
    put-Puts no_print (stream_of 40) (Item.int (negsuc 41)) stream_of_40-IsBuffer int-IsItem

convert-eq-signed_example : convert (negsuc 41) ≡ signed (negsuc 41)
convert-eq-signed_example = convert-eq-signed (negsuc 41)
