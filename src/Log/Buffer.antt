-- ===== src/Log/Buffer.antt =====
-- `detail::FixedBuffer` of base/log/LogStream.h: `SIZE` bytes of memory, and the pointer `cur_` as an
-- offset from `data_`. The cookie, a mark for debuggers, is left out.
pub mod Contents
use naive_net.Common.{
  ℕ, ◌+◌, ◌-◌, List, [], ◌∷◌, ◌++◌, ltb, if◌then◌else◌, length, take, drop, replicate,
}

pub record FixedBuffer : Type 0 where
  pub size : ℕ
  pub memory : List ℕ
  pub cur : ℕ

-- `memcpy(memory + at, bytes, length bytes)`
unfoldable pub memcpy : List ℕ → ℕ → List ℕ → List ℕ
memcpy memory at bytes = take at memory ++ (bytes ++ drop (at + length bytes) memory)

-- The memory of a new buffer is not initialised: it is an argument.
unfoldable pub create : List ℕ → FixedBuffer
create memory = record { size = length memory; memory = memory; cur = 0 }

-- `length()` and `avail()`
unfoldable pub length_of : FixedBuffer → ℕ
length_of b = b.cur

unfoldable pub avail : FixedBuffer → ℕ
avail b = b.size - b.cur

-- `append`: all of the bytes, or none of them.
unfoldable pub append : FixedBuffer → List ℕ → FixedBuffer
unfolding avail memcpy
append b bytes =
    if ltb (length bytes) (avail b)
    then record b { memory = memcpy b.memory b.cur bytes; cur = b.cur + length bytes }
    else b

-- A write at `current()`, and `add`.
unfoldable pub write_current : FixedBuffer → List ℕ → FixedBuffer
unfolding memcpy
write_current b bytes = record b { memory = memcpy b.memory b.cur bytes }

unfoldable pub add : FixedBuffer → ℕ → FixedBuffer
add b len = record b { cur = b.cur + len }

unfoldable pub reset : FixedBuffer → FixedBuffer
reset b = record b { cur = 0 }

unfoldable pub bzero : FixedBuffer → FixedBuffer
bzero b = record b { memory = replicate b.size 0 }

-- `debugString` ends the text by a zero byte at `cur_`.
unfoldable pub debug_string : FixedBuffer → FixedBuffer
unfolding write_current
debug_string b = write_current b (0 ∷ [])

-- `asString`: the bytes from `data_` up to `cur_`.
unfoldable pub as_string : FixedBuffer → List ℕ
as_string b = take b.cur b.memory
