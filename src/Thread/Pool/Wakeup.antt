-- ===== src/Thread/Pool/Wakeup.antt =====
-- No wake-up of base/ThreadPool.cc is lost, neither of the threads that wait for a task nor of those that
-- wait for room.
use naive_net.Common.{
  ℕ, refl, ap, inl, inr, [], ◌∷◌, Bool, length, length-append, length-set, arith,
}
use naive_net.Thread.Wait.Counting.{count-set, count-replicate}
use naive_net.Thread.Pool.Telling.{
  is_taking, is_waiting, is_putting, is_blocked, IsAlert, worker_turn, length-Notified,
  none_waiting, length-wake, some_worker, has_worker, put_queue, Told-callers,
}
use naive_net.Thread.Pool.{Worker, Caller, ThreadPool, start, is_full, stop, Move, Step, Steps}

module _ {Task : Type 0} where
  Move-IsAlert : {s t : ThreadPool Task} → Move s t → IsAlert s → IsAlert t
  unfolding is_full
  Move-IsAlert {s = s} (Move.call j x e) v =
      let b = count-set is_blocked s.callers j _ (Caller.putting x) e in
      let p = count-set is_putting s.callers j _ (Caller.putting x) e in
      record {
        workers_told = v.workers_told;
        callers_told =
            λ h. let told = v.callers_told (omega (arith, h, b)) in omega (arith, told, p);
        none_blocked = λ h. omega (arith, v.none_blocked h, b);
      }
  Move-IsAlert {s = s} (Move.run_here j x e z) v =
      let b = count-set is_blocked s.callers j _ Caller.outside e in
      let none_left = v.none_blocked (ap length z) in
      record {
        workers_told = v.workers_told;
        callers_told = λ h. absurd (omega (arith, h, b, none_left));
        none_blocked = λ h. omega (arith, none_left, b);
      }
  Move-IsAlert {s = s} (Move.wait_not_full j x e z f) v = record {
    workers_told = v.workers_told;
    callers_told = λ h. ground arith;
    none_blocked = λ h. absurd (omega (arith, h, some_worker s.workers z));
  }
  Move-IsAlert {s = s} (Move.put j x {ws} e z f n) v =
      let b = count-set is_blocked s.callers j _ Caller.outside e in
      let p = count-set is_putting s.callers j _ Caller.outside e in
      record {
        workers_told = λ h. put_queue s x n v h;
        callers_told = λ h.
            let told = v.callers_told (omega (arith, h, b)) in
            omega (arith, told, p, length-append s.queue (x ∷ []));
        none_blocked = λ h. absurd (omega (arith, h, length-Notified n, some_worker s.workers z));
      }
  Move-IsAlert {s = s} (Move.prepare i e) v =
      worker_turn s i _ _ e refl refl refl refl (inr (omega arith, omega arith)) v
  Move-IsAlert {s = s} (Move.enter i e r) v =
      worker_turn s i _ _ e refl refl refl refl (inr (omega arith, omega arith)) v
  Move-IsAlert {s = s} (Move.leave i e r) v =
      worker_turn s i _ _ e refl refl refl refl (inr (omega arith, omega arith)) v
  Move-IsAlert {s = s} (Move.wait_not_empty i e z r) v =
      worker_turn s i _ _ e refl refl refl refl (inl (ap length z)) v
  Move-IsAlert {s = s} (Move.take_task i x q e z n) v =
      let waiting = count-set is_waiting s.workers i _ (Worker.holding x) e in
      let taking = count-set is_taking s.workers i _ (Worker.holding x) e in
      let told = Told-callers s x q z n v in
      let threads = length-set s.workers i (Worker.holding x) in
      record {
        workers_told = λ h.
            let many = v.workers_told (omega (arith, h, waiting)) in
            omega (arith, many, taking, ap length z);
        callers_told = told.0;
        none_blocked = λ h. absurd (omega (arith, h, threads, has_worker s.workers i e));
      }
  Move-IsAlert {s = s} (Move.take_none i e z r) v =
      worker_turn s i _ _ e refl refl refl refl (inl (ap length z)) v
  Move-IsAlert {s = s} (Move.execute i x e) v =
      worker_turn s i _ _ e refl refl refl refl (inr (omega arith, omega arith)) v
  Move-IsAlert {s = s} (Move.wake_worker i e) v =
      worker_turn s i _ _ e refl refl refl refl (inr (omega arith, omega arith)) v
  Move-IsAlert {s = s} (Move.wake_caller j x e) v =
      let b = count-set is_blocked s.callers j _ (Caller.putting x) e in
      let p = count-set is_putting s.callers j _ (Caller.putting x) e in
      record {
        workers_told = v.workers_told;
        callers_told =
            λ h. let told = v.callers_told (omega (arith, h, b)) in omega (arith, told, p);
        none_blocked = λ h. omega (arith, v.none_blocked h, b);
      }

  Step-IsAlert : {s t : ThreadPool Task} → Step s t → IsAlert s → IsAlert t
  unfolding stop
  Step-IsAlert (Step.move m) v = Move-IsAlert m v
  Step-IsAlert {s = s} Step.stop_pool v = record {
    workers_told = λ h. absurd (omega (arith, h, none_waiting s.workers));
    callers_told = v.callers_told;
    none_blocked = λ h. v.none_blocked (omega (arith, h, length-wake s.workers));
  }

  -- No wake-up is lost in any schedule from `start` on, nor by `stop`: where a thread of the pool sleeps,
  -- at least as many are on their way in `take` as there are tasks in the queue; where a caller sleeps in
  -- `run`, the tasks and the callers on their way there are as many as the queue may hold; and with no
  -- thread in the pool no caller sleeps.
  pub Steps-IsAlert :
      (max_size : ℕ) (callback : Bool) (num_threads callers : ℕ) {s : ThreadPool Task}
      → Steps (start max_size callback num_threads callers) s
      → IsAlert s
  unfolding start
  Steps-IsAlert m b n c Steps.done = record {
    workers_told = λ h. omega arith;
    callers_told = λ h. absurd (omega (arith, h, count-replicate is_blocked Caller.outside c refl));
    none_blocked = λ h. count-replicate is_blocked Caller.outside c refl;
  }
  Steps-IsAlert m b n c (Steps.next h k) = Step-IsAlert k (Steps-IsAlert m b n c h)
