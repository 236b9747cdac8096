-- ===== src/Thread/Latch/Examples.antt =====
-- A latch for one: a thread waits, and `countDown` lets it pass.
use naive_net.Common.{◌≢◌, ◌≡◌, refl, [], ◌∷◌, arith}
use naive_net.Common.Int.{pos, ◌-ℤ◌}
use naive_net.Thread.Latch.{
  Waiter, CountDownLatch, new_latch, count_down, test_count, LatchStep, LatchSteps,
}
use naive_net.Thread.Latch.Wakeup.{IsLatch, LatchSteps-IsLatch, LatchSteps-passes}

abbrev let_through : CountDownLatch
let_through = record { count = pos 0; waiters = Waiter.entering ∷ []; downs = 1 }

three_steps : LatchSteps (new_latch (pos 1) 1) let_through
unfolding new_latch count_down test_count ◌-ℤ◌
three_steps =
    LatchSteps.next
      (LatchSteps.next (LatchSteps.next LatchSteps.done (LatchStep.call_wait 0 refl))
        (LatchStep.test 0 refl))
      LatchStep.down

LatchSteps-IsLatch_example : IsLatch (pos 1) let_through
LatchSteps-IsLatch_example = LatchSteps-IsLatch (pos 1) 1 three_steps

LatchSteps-passes_example :
    (Waiter.entering ≢ Waiter.sleeping) × (test_count (pos 0) ≡ Waiter.passed)
LatchSteps-passes_example = LatchSteps-passes 1 1 0 Waiter.entering three_steps (omega arith) refl
