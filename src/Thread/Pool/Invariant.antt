-- ===== src/Thread/Pool/Invariant.antt =====
-- What every schedule of base/ThreadPool.cc keeps.
use naive_net.Common.{
  ℕ, zero, suc, ◌≤◌, ◌<◌, ◌≡◌, refl, sym, ap, ◌∙◌, List, [], ◌∷◌, ◌++◌, map, append_assoc, Bool,
  false, length, length-append, set, arith, All,
}
use naive_net.Thread.Wait.{Notified, nobody, somebody}
use naive_net.Thread.Pool.{
  Worker, ThreadPool, worker_sleeper, start, is_full, stop, Move, Step, Steps,
}

module _ {Task : Type 0} where
  abbrev pub IsAwake : Worker Task → Type 0
  IsAwake w = worker_sleeper.asleep w ≡ false

  -- The queue keeps its bound; the tasks put into it are those taken from it and those in it, in order;
  -- once the pool is stopped no thread of it waits.
  pub record IsPool (s : ThreadPool Task) : Type 0 where
    pub bounded : 0 < s.max_queue_size → length s.queue ≤ s.max_queue_size
    pub in_order : s.accepted ≡ s.taken ++ s.queue
    pub awake : s.running ≡ false → All IsAwake s.workers

  All-set :
      (ws : List (Worker Task)) (i : ℕ) (w : Worker Task)
      → All IsAwake ws
      → IsAwake w
      → All IsAwake (set ws i w)
  All-set [] i w a h = tt
  All-set (v ∷ ws) zero w a h = (h, a.1)
  All-set (v ∷ ws) (suc i) w a h = (a.0, All-set ws i w a.1 h)

  wake-IsAwake : (w : Worker Task) → IsAwake (worker_sleeper.wake w)
  wake-IsAwake Worker.starting = refl
  wake-IsAwake Worker.at_loop = refl
  wake-IsAwake Worker.taking = refl
  wake-IsAwake Worker.waiting = refl
  wake-IsAwake (Worker.holding x) = refl
  wake-IsAwake Worker.exited = refl

  All-wake : (ws : List (Worker Task)) → All IsAwake (map worker_sleeper.wake ws)
  All-wake [] = tt
  All-wake (w ∷ ws) = (wake-IsAwake w, All-wake ws)

  All-Notified :
      {ws vs : List (Worker Task)} → Notified worker_sleeper ws vs → All IsAwake ws → All IsAwake vs
  All-Notified (nobody h) a = a
  All-Notified (somebody i x e h) a = All-set _ i _ a (wake-IsAwake x)

  pub Move-IsPool : {s t : ThreadPool Task} → Move s t → IsPool s → IsPool t
  unfolding is_full
  Move-IsPool (Move.call j x e) v = record {
    bounded = v.bounded;
    in_order = v.in_order;
    awake = v.awake;
  }
  Move-IsPool (Move.run_here j x e z) v = record {
    bounded = v.bounded;
    in_order = v.in_order;
    awake = v.awake;
  }
  Move-IsPool (Move.wait_not_full j x e z f) v = record {
    bounded = v.bounded;
    in_order = v.in_order;
    awake = v.awake;
  }
  Move-IsPool {s = s} (Move.put j x e z f n) v = record {
    bounded = λ h. ground (arith, length-append s.queue (x ∷ []));
    in_order = ap (λ l. l ++ x ∷ []) v.in_order ∙ append_assoc s.taken s.queue (x ∷ []);
    awake = λ r. All-Notified n (v.awake r);
  }
  Move-IsPool (Move.prepare i e) v = record {
    bounded = v.bounded;
    in_order = v.in_order;
    awake = λ q. All-set _ i _ (v.awake q) refl;
  }
  Move-IsPool (Move.enter i e r) v = record {
    bounded = v.bounded;
    in_order = v.in_order;
    awake = λ q. All-set _ i _ (v.awake q) refl;
  }
  Move-IsPool (Move.leave i e r) v = record {
    bounded = v.bounded;
    in_order = v.in_order;
    awake = λ q. All-set _ i _ (v.awake q) refl;
  }
  Move-IsPool (Move.wait_not_empty i e z r) v = record {
    bounded = v.bounded;
    in_order = v.in_order;
    awake = λ q. absurd (ground arith);
  }
  Move-IsPool {s = s} (Move.take_task i x q e z n) v = record {
    bounded = λ h. omega (arith, v.bounded h, ap length z);
    in_order = v.in_order ∙ ap (λ l. s.taken ++ l) z ∙ sym (append_assoc s.taken (x ∷ []) q);
    awake = λ q. All-set _ i _ (v.awake q) refl;
  }
  Move-IsPool (Move.take_none i e z r) v = record {
    bounded = v.bounded;
    in_order = v.in_order;
    awake = λ q. All-set _ i _ (v.awake q) refl;
  }
  Move-IsPool (Move.execute i x e) v = record {
    bounded = v.bounded;
    in_order = v.in_order;
    awake = λ q. All-set _ i _ (v.awake q) refl;
  }
  Move-IsPool (Move.wake_worker i e) v = record {
    bounded = v.bounded;
    in_order = v.in_order;
    awake = λ q. All-set _ i _ (v.awake q) refl;
  }
  Move-IsPool (Move.wake_caller j x e) v = record {
    bounded = v.bounded;
    in_order = v.in_order;
    awake = v.awake;
  }

  pub stop-IsPool : (s : ThreadPool Task) → IsPool s → IsPool (stop s)
  unfolding stop
  stop-IsPool s v = record {
    bounded = v.bounded;
    in_order = v.in_order;
    awake = λ q. All-wake s.workers;
  }

  pub Step-IsPool : {s t : ThreadPool Task} → Step s t → IsPool s → IsPool t
  Step-IsPool (Step.move m) v = Move-IsPool m v
  Step-IsPool {s = s} Step.stop_pool v = stop-IsPool s v

  -- In every schedule from `start` on, the queue keeps its bound, tasks leave it in the order in which
  -- they were put into it and none is lost on the way, and once `stop` has been called no thread of the
  -- pool waits for a task.
  pub Steps-IsPool :
      (max_size : ℕ) (callback : Bool) (num_threads callers : ℕ) {s : ThreadPool Task}
      → Steps (start max_size callback num_threads callers) s
      → IsPool s
  unfolding start
  Steps-IsPool m b n c Steps.done = record {
    bounded = λ h. omega arith;
    in_order = refl;
    awake = λ q. absurd (ground arith);
  }
  Steps-IsPool m b n c (Steps.next h k) = Step-IsPool k (Steps-IsPool m b n c h)
