-- ===== src/Log/Buffer/Contents.antt =====
-- `FixedBuffer` as an append-only text: what `asString` reads after each operation.
use naive_net.Common.{
  ℕ, ◌+◌, ◌-◌, ◌≤◌, ◌<◌, ◌≡◌, refl, sym, ap, ◌∙◌, List, [], ◌∷◌, ◌++◌, arith, ltb, if◌then◌else◌,
  length, take, drop, length-append, length-take, length-drop, length-replicate, Bool-cases, inl,
  inr, append_assoc,
}
use naive_net.Log.Buffer.{
  FixedBuffer, memcpy, create, length_of, avail, append, write_current, add, reset, bzero,
  debug_string, as_string,
}

-- The memory has its size, and there is room for one more byte.
pub record IsBuffer (b : FixedBuffer) : Type 0 where
  pub sized : length b.memory ≡ b.size
  pub room : b.cur < b.size

take-append_left : (xs ys : List ℕ) (n : ℕ) → n ≡ length xs → take n (xs ++ ys) ≡ xs
take-append_left [] ys n e = rw e
take-append_left (x ∷ xs) ys n e = rw e (ap (◌∷◌ x) (take-append_left xs ys (length xs) refl))

length-memcpy :
    (memory : List ℕ) (at : ℕ) (bytes : List ℕ)
    → at + length bytes ≤ length memory
    → length (memcpy memory at bytes) ≡ length memory
unfolding memcpy
length-memcpy memory at bytes h =
    rw
      (
        length-append (take at memory) (bytes ++ drop (at + length bytes) memory),
        length-append bytes (drop (at + length bytes) memory),
        length-take at memory,
        length-drop (at + length bytes) memory,
      )
      (omega arith)

take-memcpy :
    (memory : List ℕ) (at : ℕ) (bytes rest : List ℕ)
    → at ≤ length memory
    → take (at + length bytes) (take at memory ++ (bytes ++ rest)) ≡ take at memory ++ bytes
take-memcpy memory at bytes rest h =
    ap (take (at + length bytes)) (sym (append_assoc (take at memory) bytes rest))
    ∙ take-append_left (take at memory ++ bytes) rest _
        (omega (arith, length-append (take at memory) bytes, length-take at memory))

-- `append` adds all of its bytes if they fit with one byte to spare, and none otherwise; the
-- buffer stays well formed.
pub as_string-append :
    (b : FixedBuffer) (bytes : List ℕ)
    → IsBuffer b
    → IsBuffer (append b bytes)
      × (as_string (append b bytes)
          ≡ (if ltb (length bytes) (avail b) then as_string b ++ bytes else as_string b))
unfolding append as_string memcpy
as_string-append b bytes v = elim (Bool-cases (ltb (length bytes) (b.size - b.cur))) [
  | inl e ↦ rw e (
    record {
      sized = length-memcpy b.memory b.cur bytes (ground (arith, v.sized)) ∙ v.sized;
      room = ground arith;
    },
    take-memcpy b.memory b.cur bytes _ (omega (arith, v.sized, v.room)),
  )
  | inr e ↦ rw e (v, refl)
]

-- Text written at `current()` with a zero byte behind it, and added, extends the contents.
pub as_string-add :
    (b : FixedBuffer) (bytes : List ℕ)
    → IsBuffer b
    → length bytes < avail b
    → let b' = add (write_current b (bytes ++ 0 ∷ [])) (length bytes) in
      IsBuffer b' × (as_string b' ≡ as_string b ++ bytes)
unfolding add write_current as_string avail memcpy
as_string-add b bytes v h = (
  record {
    sized =
        length-memcpy b.memory b.cur (bytes ++ 0 ∷ [])
          (omega (arith, v.sized, length-append bytes (0 ∷ [])))
        ∙ v.sized;
    room = omega arith;
  },
  ap (λ r. take (b.cur + length bytes) (take b.cur b.memory ++ r)) (append_assoc bytes (0 ∷ []) _)
      ∙ take-memcpy b.memory b.cur bytes _ (omega (arith, v.sized, v.room)),
)

-- `debugString` leaves the contents as they are, and its zero byte is inside of the memory.
pub as_string-debug_string :
    (b : FixedBuffer)
    → IsBuffer b
    → IsBuffer (debug_string b) × (as_string (debug_string b) ≡ as_string b)
unfolding debug_string write_current as_string memcpy
as_string-debug_string b v = (
  record {
    sized = length-memcpy b.memory b.cur (0 ∷ []) (omega (arith, v.sized)) ∙ v.sized;
    room = v.room;
  },
  take-append_left (take b.cur b.memory) _ _ (omega (arith, length-take b.cur b.memory, v.sized)),
)

-- A new buffer is empty, and so is one that was reset or blanked and reset.
pub as_string-reset :
    (b : FixedBuffer) → IsBuffer b → IsBuffer (reset b) × (as_string (reset b) ≡ [])
unfolding reset as_string
as_string-reset b v = (record { sized = v.sized; room = omega (arith, v.room) }, refl)

pub bzero-IsBuffer : (b : FixedBuffer) → IsBuffer b → IsBuffer (bzero b)
unfolding bzero
bzero-IsBuffer b v = record { sized = length-replicate b.size 0; room = v.room }

pub create-IsBuffer : (memory : List ℕ) → 0 < length memory → IsBuffer (create memory)
unfolding create
create-IsBuffer memory h = record { sized = refl; room = h }

-- `length()` is the length of the contents.
pub length-as_string : (b : FixedBuffer) → IsBuffer b → length (as_string b) ≡ length_of b
unfolding as_string length_of
length-as_string b v = omega (arith, length-take b.cur b.memory, v.sized, v.room)
