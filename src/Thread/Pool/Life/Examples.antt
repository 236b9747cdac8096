-- ===== src/Thread/Pool/Life/Examples.antt =====
-- A `ThreadPool` of base/ThreadPool.cc with one thread, from its constructor on.
use naive_net.Common.{inl, ℕ, ◌≡◌, refl, List, [], ◌∷◌, true, false, if◌then◌else◌, ◌==◌, arith}
use naive_net.Common.Text.{bytes}
use naive_net.Thread.Pool.{Worker, Caller, ThreadPool, Move, stop}
use naive_net.Thread.Life.{Outcome, returned, threw_exception}
use naive_net.Thread.Pool.Life.{
  Owner, started, stopped, gone, Life, alive, failed_assertion, aborted, new_pool, thread_name,
  report, LifeStep, LifeSteps,
}
use naive_net.Thread.Pool.Life.Phases.{Keeps}
use naive_net.Thread.Pool.Life.Keeps.{LifeSteps-Keeps}
use naive_net.Thread.Pool.Life.Ends.{NoneSpurious, LifeSteps-destroyed}

-- Task 0 throws.
abbrev outcome : ℕ → Outcome
outcome x = if x == 0 then threw_exception (bytes "zero") [] else returned

abbrev pool_now : List (Worker ℕ) → ℕ → ThreadPool ℕ
pool_now workers prepared = record {
  max_queue_size = 2;
  init_callback = true;
  running = true;
  queue = [];
  workers = workers;
  callers = Caller.outside ∷ [];
  prepared = prepared;
  accepted = [];
  taken = [];
  executed = [];
}

abbrev life_now : ThreadPool ℕ → ℕ → Owner → Life ℕ
life_now pool joined owner = record {
  owner = owner;
  pool = pool;
  name = bytes "Pool";
  names = bytes "Pool1" ∷ [];
  joined = joined;
  called_here = 0;
}

module _ (outcome : ℕ → Outcome) where
  starts :
      LifeSteps outcome returned
        (new_pool (bytes "Pool") 1)
        (alive (life_now (pool_now (Worker.starting ∷ []) 0) 0 started))
  unfolding new_pool thread_name
  starts =
      LifeSteps.later
        (LifeSteps.later
          (LifeSteps.later
            (LifeSteps.later
              (LifeSteps.later LifeSteps.at_first (LifeStep.set_max_queue_size 2 refl))
              (LifeStep.set_thread_init_callback true refl))
            (LifeStep.start 1 refl refl))
          (LifeStep.start_thread 1 0 refl (omega arith)))
        (LifeStep.start_ends 1 refl)

  prepares :
      LifeSteps outcome returned
        (new_pool (bytes "Pool") 1)
        (alive (life_now (pool_now (Worker.at_loop ∷ []) 1) 0 started))
  prepares = LifeSteps.later starts (LifeStep.move (Move.prepare 0 refl) refl (λ c. refl))

  stops :
      LifeSteps outcome returned
        (new_pool (bytes "Pool") 1)
        (alive (life_now (record (pool_now (Worker.exited ∷ []) 1) { running = false }) 1 stopped))
  unfolding stop
  stops =
      LifeSteps.later
        (LifeSteps.later
          (LifeSteps.later (LifeSteps.later prepares (LifeStep.stop_begins refl))
            (LifeStep.move (Move.leave 0 refl refl) refl tt))
          (LifeStep.join 0 false refl refl refl))
        (LifeStep.stop_ends 1 false refl refl)

  -- A second call of `stop` joins the thread again.
  stops_again : LifeSteps outcome returned (new_pool (bytes "Pool") 1) failed_assertion
  unfolding stop
  stops_again =
      LifeSteps.later (LifeSteps.later stops (LifeStep.stop_begins refl))
        (LifeStep.join_again 0 false refl (omega arith) refl)

LifeSteps-Keeps_example :
    Keeps
      (bytes "Pool")
      (life_now (record (pool_now (Worker.exited ∷ []) 1) { running = false }) 1 stopped)
LifeSteps-Keeps_example = LifeSteps-Keeps outcome returned (bytes "Pool") 1 (stops outcome)

LifeSteps-destroyed_example :
    (m : Life ℕ) × (h : LifeSteps
      (λ x. returned)
      returned
      (life_now (pool_now (Worker.at_loop ∷ []) 1) 0 started)
      (alive m))
    × NoneSpurious (λ x. returned) returned h
    × (m.owner ≡ gone)
LifeSteps-destroyed_example =
    LifeSteps-destroyed (λ x. returned) returned (λ x. refl) refl (bytes "Pool") 1 _
      (prepares (λ x. returned)) (inl refl)

thrown :
    LifeSteps outcome returned
      (life_now (pool_now (Worker.holding 0 ∷ []) 1) 0 started)
      (aborted (bytes "exception caught in ThreadPool Pool\nreason: zero\n"))
unfolding report
thrown = LifeSteps.later LifeSteps.at_first (LifeStep.throw 0 0 refl refl (λ e. cc))
