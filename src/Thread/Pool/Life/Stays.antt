-- ===== src/Thread/Pool/Life/Stays.antt =====
-- What a step of a thread of base/ThreadPool.cc, and `notifyAll`, leave of the threads of the pool.
use naive_net.Common.{
  ℕ, zero, suc, ◌+◌, ◌≡◌, ◌≢◌, refl, sym, ap, ◌∙◌, none-some, some-injective, List, [], ◌∷◌, ◌++◌,
  map, some, true, false, length, length-set, get_elem?, set, arith,
}
use naive_net.Thread.Wait.{Notified, nobody, somebody}
use naive_net.Thread.Pool.{Worker, ThreadPool, worker_sleeper, Move}

module _ {Task : Type 0} where
  abbrev one : Worker Task → ℕ
  one Worker.starting = 1
  one Worker.at_loop = 0
  one Worker.taking = 0
  one Worker.waiting = 0
  one (Worker.holding x) = 0
  one Worker.exited = 0

  -- The threads that have not called the callback yet.
  abbrev pub startings : List (Worker Task) → ℕ
  startings [] = 0
  startings (w ∷ ws) = one w + startings ws

  startings-set :
      (ws : List (Worker Task)) (i : ℕ) (w v : Worker Task)
      → get_elem? ws i ≡ some w
      → startings (set ws i v) + one w ≡ startings ws + one v
  startings-set [] i w v e = absurd (none-some e)
  startings-set (u ∷ ws) zero w v e = omega (arith, ap one (some-injective e))
  startings-set (u ∷ ws) (suc i) w v e = omega (arith, startings-set ws i w v e)

  pub startings-append :
      (ws : List (Worker Task)) → startings (ws ++ Worker.starting ∷ []) ≡ suc (startings ws)
  startings-append [] = refl
  startings-append (w ∷ ws) = omega (arith, startings-append ws)

  -- What a step of a thread leaves of a pool.
  pub record Stays (s t : ThreadPool Task) : Type 0 where
    pub callback_left : t.init_callback ≡ s.init_callback
    pub running_left : t.running ≡ s.running
    pub count_left : length t.workers ≡ length s.workers
    pub exited_left :
        (i : ℕ)
        → get_elem? s.workers i ≡ some Worker.exited
        → get_elem? t.workers i ≡ some Worker.exited
    pub calls_left :
        s.init_callback ≡ true → startings t.workers + t.prepared ≡ startings s.workers + s.prepared
    pub no_calls_left : s.init_callback ≡ false → t.prepared ≡ s.prepared
    pub queue_left : s.workers ≡ [] → t.queue ≡ s.queue

  exited-set :
      (ws : List (Worker Task)) (i : ℕ) (w v : Worker Task)
      → get_elem? ws i ≡ some w
      → w ≢ Worker.exited
      → (j : ℕ) → get_elem? ws j ≡ some Worker.exited
      → get_elem? (set ws i v) j ≡ some Worker.exited
  exited-set [] i w v e h j f = absurd (none-some f)
  exited-set (u ∷ ws) zero w v e h zero f = absurd (h (sym (some-injective e) ∙ some-injective f))
  exited-set (u ∷ ws) zero w v e h (suc j) f = f
  exited-set (u ∷ ws) (suc i) w v e h zero f = f
  exited-set (u ∷ ws) (suc i) w v e h (suc j) f = exited-set ws i w v e h j f

  module _ {s t : ThreadPool Task} (callback_same : t.init_callback ≡ s.init_callback)
      (running_same : t.running ≡ s.running) where
    still :
        t.workers ≡ s.workers
        → t.prepared ≡ s.prepared
        → (s.workers ≡ [] → t.queue ≡ s.queue)
        → Stays s t
    still same calls q = record {
      callback_left = callback_same;
      running_left = running_same;
      count_left = ap length same;
      exited_left = λ i e. ap (λ ws. get_elem? ws i) same ∙ e;
      calls_left = λ c. omega (arith, ap startings same);
      no_calls_left = λ c. calls;
      queue_left = q;
    }

    turned :
        (i : ℕ) (w v : Worker Task)
        → get_elem? s.workers i ≡ some w
        → w ≢ Worker.exited
        → t.workers ≡ set s.workers i v
        → (s.init_callback ≡ true → one v + t.prepared ≡ one w + s.prepared)
        → (s.init_callback ≡ false → t.prepared ≡ s.prepared)
        → Stays s t
    turned i w v e h same calls no_calls = record {
      callback_left = callback_same;
      running_left = running_same;
      count_left = ap length same ∙ length-set s.workers i v;
      exited_left = λ j f. ap (λ ws. get_elem? ws j) same ∙ exited-set s.workers i w v e h j f;
      calls_left = λ c. omega (arith, ap startings same, startings-set s.workers i w v e, calls c);
      no_calls_left = no_calls;
      queue_left = λ z. absurd (none-some (sym (ap (λ ws. get_elem? ws i) z) ∙ e));
    }

  -- A thread that sleeps is at `notEmpty_.wait()`.
  asleep_waiting : (w : Worker Task) → worker_sleeper.asleep w ≡ true → w ≡ Worker.waiting
  asleep_waiting Worker.waiting e = refl
  asleep_waiting Worker.starting e = cc
  asleep_waiting Worker.at_loop e = cc
  asleep_waiting Worker.taking e = cc
  asleep_waiting (Worker.holding x) e = cc
  asleep_waiting Worker.exited e = cc

  notified :
      {s t : ThreadPool Task}
      → t.init_callback ≡ s.init_callback
      → t.running ≡ s.running
      → t.prepared ≡ s.prepared
      → s.workers ≢ []
      → {ws : List (Worker Task)} → Notified worker_sleeper s.workers ws
      → t.workers ≡ ws
      → Stays s t
  notified c r p z (nobody h) e = still c r e p (λ n. absurd (z n))
  notified {s = s} c r p z (somebody i w g a) e =
      turned c r i Worker.waiting Worker.taking (g ∙ ap some (asleep_waiting w a)) (λ n. cc)
        (e ∙ ap (λ v. set s.workers i (worker_sleeper.wake v)) (asleep_waiting w a))
        (λ n. omega arith) (λ n. p)

  pub Move-Stays : {s t : ThreadPool Task} → Move s t → Stays s t
  Move-Stays (Move.call j x e) = still refl refl refl refl (λ z. refl)
  Move-Stays (Move.run_here j x e z) = still refl refl refl refl (λ z. refl)
  Move-Stays (Move.wait_not_full j x e z f) = still refl refl refl refl (λ z. refl)
  Move-Stays (Move.put j x e z f n) = notified refl refl refl z n refl
  Move-Stays (Move.prepare i e) =
      turned refl refl i _ _ e (λ n. cc) refl (λ c. ground arith) (λ c. ground arith)
  Move-Stays (Move.enter i e r) = turned refl refl i _ _ e (λ n. cc) refl (λ c. refl) (λ c. refl)
  Move-Stays (Move.leave i e r) = turned refl refl i _ _ e (λ n. cc) refl (λ c. refl) (λ c. refl)
  Move-Stays (Move.wait_not_empty i e z r) =
      turned refl refl i _ _ e (λ n. cc) refl (λ c. refl) (λ c. refl)
  Move-Stays (Move.take_task i x q e z n) =
      turned refl refl i _ _ e (λ n. cc) refl (λ c. refl) (λ c. refl)
  Move-Stays (Move.take_none i e z r) =
      turned refl refl i _ _ e (λ n. cc) refl (λ c. refl) (λ c. refl)
  Move-Stays (Move.execute i x e) = turned refl refl i _ _ e (λ n. cc) refl (λ c. refl) (λ c. refl)
  Move-Stays (Move.wake_worker i e) =
      turned refl refl i _ _ e (λ n. cc) refl (λ c. refl) (λ c. refl)
  Move-Stays (Move.wake_caller j x e) = still refl refl refl refl (λ z. refl)

  -- `notifyAll` leaves the number of threads, those at their end and those before the callback.
  pub startings-wake :
      (ws : List (Worker Task))
      → (length (map worker_sleeper.wake ws) ≡ length ws)
        × (startings (map worker_sleeper.wake ws) ≡ startings ws)
  startings-wake [] = (refl, refl)
  startings-wake (w ∷ ws) =
      let (n, k) = startings-wake ws in (ap suc n, omega (arith, k, one-wake w))
    where
      one-wake : (w : Worker Task) → one (worker_sleeper.wake w) ≡ one w
      one-wake Worker.starting = refl
      one-wake Worker.at_loop = refl
      one-wake Worker.taking = refl
      one-wake Worker.waiting = refl
      one-wake (Worker.holding x) = refl
      one-wake Worker.exited = refl

  pub exited-wake :
      (ws : List (Worker Task)) (i : ℕ)
      → get_elem? ws i ≡ some Worker.exited
      → get_elem? (map worker_sleeper.wake ws) i ≡ some Worker.exited
  exited-wake [] i e = absurd (none-some e)
  exited-wake (w ∷ ws) zero e = ap (λ v. some (worker_sleeper.wake v)) (some-injective e)
  exited-wake (w ∷ ws) (suc i) e = exited-wake ws i e

  pub exited-append :
      (ws vs : List (Worker Task)) (i : ℕ)
      → get_elem? ws i ≡ some Worker.exited
      → get_elem? (ws ++ vs) i ≡ some Worker.exited
  exited-append [] vs i e = absurd (none-some e)
  exited-append (w ∷ ws) vs zero e = e
  exited-append (w ∷ ws) vs (suc i) e = exited-append ws vs i e

  pub nil_of_length : (ws : List (Worker Task)) → length ws ≡ 0 → ws ≡ []
  nil_of_length [] e = refl
  nil_of_length (w ∷ ws) e = absurd (omega arith)
