-- ===== src/Thread/Examples.antt =====
-- A thread pool of base/ThreadPool.cc with one thread, one caller and room for one task.
use mathlib.Core.List.{Perm}
use naive_net.Common.{
  ℕ, zero, suc, ◌≡◌, refl, sym, ap, [], ◌∷◌, ◌++◌, some, none-some, some-injective, get_elem?, true,
  false, length, arith,
}
use naive_net.Thread.Wait.{Notified}
use naive_net.Thread.Pool.{
  Worker, Caller, ThreadPool, worker_sleeper, caller_sleeper, start, is_full, Told, Move, Step,
  Steps,
}
use naive_net.Thread.Pool.Telling.{IsAlert}
use naive_net.Thread.Pool.Wakeup.{Steps-IsAlert}
use naive_net.Thread.Pool.Executed.{at_hand, Steps-executed}
use naive_net.Thread.Pool.Stuck.{IsStuck, Wants, Steps-IsStuck}

abbrev ended : ThreadPool ℕ
ended = record {
  max_queue_size = 1;
  init_callback = true;
  running = false;
  queue = 5 ∷ [];
  workers = Worker.exited ∷ [];
  callers = Caller.blocked 6 ∷ [];
  prepared = 1;
  accepted = 5 ∷ [];
  taken = [];
  executed = [];
}

abbrev woken : ThreadPool ℕ
woken = record ended { callers = Caller.putting 6 ∷ [] }

ended-IsStuck : IsStuck ended
unfolding is_full
ended-IsStuck = record {
  some_thread = λ e. omega (arith, ap length e);
  all_exited = (tt, tt);
  full = refl;
}

Steps-IsStuck_example :
    IsStuck woken
    × (woken.queue ≡ ended.queue)
    × (woken.executed ≡ ended.executed)
    × Wants woken.callers 0 6
Steps-IsStuck_example =
    Steps-IsStuck 0 6 (Steps.next Steps.done (Step.move (Move.wake_caller 0 6 refl))) ended-IsStuck
      (Caller.blocked 6, refl, refl)

-- A caller that has come while the thread of the pool is on its way in `take`.
abbrev called : ThreadPool ℕ
called = record {
  max_queue_size = 1;
  init_callback = true;
  running = true;
  queue = [];
  workers = Worker.taking ∷ [];
  callers = Caller.putting 7 ∷ [];
  prepared = 1;
  accepted = [];
  taken = [];
  executed = [];
}

to_called : Steps (start {Task = ℕ} 1 true 1 1) called
unfolding start
to_called =
    Steps.next
      (Steps.next (Steps.next Steps.done (Step.move (Move.call 0 7 refl)))
        (Step.move (Move.prepare 0 refl)))
      (Step.move (Move.enter 0 refl refl))

Steps-IsAlert_example : IsAlert called
Steps-IsAlert_example = Steps-IsAlert 1 true 1 1 to_called

-- The thread has taken the task, and has to call it.
abbrev taken_task : ThreadPool ℕ
taken_task = record called {
  workers = Worker.holding 7 ∷ [];
  callers = Caller.outside ∷ [];
  accepted = 7 ∷ [];
  taken = 7 ∷ [];
}

none_asleep :
    (i : ℕ) (w : Worker ℕ)
    → get_elem? (Worker.taking ∷ []) i ≡ some w
    → worker_sleeper.asleep w ≡ false
none_asleep zero w e = ap worker_sleeper.asleep (sym (some-injective e))
none_asleep (suc i) w e = absurd (none-some e)

none_blocked :
    (j : ℕ) (c : Caller ℕ)
    → get_elem? (Caller.outside ∷ []) j ≡ some c
    → caller_sleeper.asleep c ≡ false
none_blocked zero c e = ap caller_sleeper.asleep (sym (some-injective e))
none_blocked (suc j) c e = absurd (none-some e)

to_taken : Steps (start {Task = ℕ} 1 true 1 1) taken_task
unfolding is_full
to_taken =
    Steps.next
      (Steps.next to_called (
        Step.move
          (Move.put 0 7 refl (λ e. omega (arith, ap length e)) refl (Notified.nobody none_asleep))))
      (Step.move
        (Move.take_task 0 7 [] refl refl (Told.bounded refl (Notified.nobody none_blocked))))

Steps-executed_example :
    Perm
      ((taken_task.executed ++ at_hand taken_task.workers) ++ taken_task.queue)
      taken_task.accepted
Steps-executed_example = Steps-executed 1 true 0 1 to_taken
