-- ===== src/Thread/Latch.antt =====
-- `CountDownLatch` of base/CountDownLatch.h and base/CountDownLatch.cc: those that call `wait` and
-- `countDown`, one step for each critical section.
pub mod Wakeup
mod Examples
use naive_net.Common.{
  ℕ, suc, ◌≡◌, List, Bool, true, false, if◌then◌else◌, some, get_elem?, set, replicate, map,
}
use naive_net.Common.Int.{ℤ, pos, ◌-ℤ◌, ltb_ℤ, ◌==ℤ◌}

-- Where a thread that waits is: outside, in `wait` with the mutex to get, in `condition_.wait()`, or
-- back from `wait`.
pub data Waiter : Type 0 where
  before entering sleeping passed : Waiter

-- `downs` notes how often `countDown` was called.
pub record CountDownLatch : Type 0 where
  pub count : ℤ
  pub waiters : List Waiter
  pub downs : ℕ

unfoldable pub new_latch : ℤ → ℕ → CountDownLatch
new_latch count n = record { count = count; waiters = replicate n before; downs = 0 }

unfoldable pub get_count : CountDownLatch → ℤ
get_count s = s.count

-- `notifyAll`
abbrev pub wake : Waiter → Waiter
wake w = elim w [ sleeping ↦ entering | before ↦ before | entering ↦ entering | passed ↦ passed ]

unfoldable pub count_down : CountDownLatch → CountDownLatch
count_down s =
    let count = s.count -ℤ pos 1 in
    record {
      count = count;
      waiters = if count ==ℤ pos 0 then map wake s.waiters else s.waiters;
      downs = suc s.downs;
    }

-- The test of the `while` loop of `wait`.
unfoldable pub test_count : ℤ → Waiter
test_count count = if ltb_ℤ (pos 0) count then sleeping else passed

pub data LatchStep (s : CountDownLatch) : CountDownLatch → Type 0 where
  call_wait :
      (i : ℕ)
      → get_elem? s.waiters i ≡ some before
      → LatchStep s (record s { waiters = set s.waiters i entering })
  test :
      (i : ℕ)
      → get_elem? s.waiters i ≡ some entering
      → LatchStep s (record s { waiters = set s.waiters i (test_count s.count) })
  down : LatchStep s (count_down s)
  -- A wait may end with no `notifyAll`.
  wake_up :
      (i : ℕ)
      → get_elem? s.waiters i ≡ some sleeping
      → LatchStep s (record s { waiters = set s.waiters i entering })

pub data LatchSteps (s : CountDownLatch) : CountDownLatch → Type 0 where
  done : LatchSteps s s
  next : {t u : CountDownLatch} → LatchSteps s t → LatchStep t u → LatchSteps s u
