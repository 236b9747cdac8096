-- ===== src/Atomic.antt =====
-- `AtomicIntegerT` of base/Atomic.h over integers of `w` bits. Each operation is one step, as is each
-- builtin of the compiler that it calls.
pub mod Numbers
mod Examples
use naive_net.Common.{ℕ, zero, suc, ◌-◌, ◌%◌, ◌^◌, ltb, if◌then◌else◌}
use naive_net.Common.Int.{ℤ, pos, negsuc, ◌+ℤ◌, ◌==ℤ◌}

-- An integer cut to `w` bits in two's complement.
unfoldable pub low_bits : ℕ → ℤ → ℕ
low_bits w (pos n) = n % 2 ^ w
low_bits w (negsuc n) = 2 ^ w - 1 - n % 2 ^ w

unfoldable pub wrap : ℕ → ℤ → ℤ
unfolding low_bits
wrap w v = let m = low_bits w v in if ltb m (2 ^ (w - 1)) then pos m else negsuc (2 ^ w - 1 - m)

pub record AtomicInteger : Type 0 where
  pub value : ℤ

unfoldable pub new_atomic : AtomicInteger
new_atomic = record { value = pos 0 }

-- Each gives its result and the integer afterwards. `get` compares with 0 and stores 0 if it is equal.
unfoldable pub get : AtomicInteger → ℤ × AtomicInteger
get s = (s.value, record { value = if s.value ==ℤ pos 0 then pos 0 else s.value })

module _ (w : ℕ) where
  unfoldable pub get_and_add : ℤ → AtomicInteger → ℤ × AtomicInteger
  unfolding wrap
  get_and_add x s = (s.value, record { value = wrap w (s.value +ℤ x) })

  -- The sum that is returned is made without the atomic integer.
  unfoldable pub add_and_get : ℤ → AtomicInteger → ℤ × AtomicInteger
  unfolding get_and_add
  add_and_get x s = ((get_and_add x s).0 +ℤ x, (get_and_add x s).1)

  unfoldable pub increment_and_get : AtomicInteger → ℤ × AtomicInteger
  unfolding add_and_get
  increment_and_get s = add_and_get (pos 1) s

  unfoldable pub decrement_and_get : AtomicInteger → ℤ × AtomicInteger
  unfolding add_and_get
  decrement_and_get s = add_and_get (negsuc 0) s

  unfoldable pub add : ℤ → AtomicInteger → AtomicInteger
  unfolding get_and_add
  add x s = (get_and_add x s).1

  unfoldable pub increment : AtomicInteger → AtomicInteger
  unfolding increment_and_get
  increment s = (increment_and_get s).1

  unfoldable pub decrement : AtomicInteger → AtomicInteger
  unfolding decrement_and_get
  decrement s = (decrement_and_get s).1

unfoldable pub get_and_set : ℤ → AtomicInteger → ℤ × AtomicInteger
get_and_set new_value s = (s.value, record { value = new_value })
