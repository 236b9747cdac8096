-- ===== src/Thread/Pool/Telling.antt =====
-- The threads of base/ThreadPool.cc that sleep and those that are on their way, for the two conditions.
use naive_net.Common.{
  ℕ, suc, ◌+◌, ◌≤◌, ◌<◌, ◌≡◌, ◌≢◌, refl, ap, ◌∙◌, ◌⊎◌, inl, inr, none-some, List, [], ◌∷◌, ◌++◌,
  map, some, length, length-append, length-set, get_elem?, set, arith,
}
use naive_net.Thread.Wait.{Notified, nobody, somebody}
use naive_net.Thread.Wait.Counting.{count, count-set, Counts, count-Notified}
use naive_net.Thread.Pool.{
  Worker, Caller, ThreadPool, worker_sleeper, caller_sleeper, Told, unbounded, bounded,
}

module _ {Task : Type 0} where
  abbrev pub is_taking : Worker Task → ℕ
  is_taking Worker.taking = 1
  is_taking Worker.starting = 0
  is_taking Worker.at_loop = 0
  is_taking Worker.waiting = 0
  is_taking (Worker.holding x) = 0
  is_taking Worker.exited = 0

  abbrev pub is_waiting : Worker Task → ℕ
  is_waiting Worker.waiting = 1
  is_waiting Worker.starting = 0
  is_waiting Worker.at_loop = 0
  is_waiting Worker.taking = 0
  is_waiting (Worker.holding x) = 0
  is_waiting Worker.exited = 0

  abbrev pub is_putting : Caller Task → ℕ
  is_putting (Caller.putting x) = 1
  is_putting Caller.outside = 0
  is_putting (Caller.blocked x) = 0

  abbrev pub is_blocked : Caller Task → ℕ
  is_blocked (Caller.blocked x) = 1
  is_blocked Caller.outside = 0
  is_blocked (Caller.putting x) = 0

  worker-Counts : Counts worker_sleeper is_taking is_waiting
  worker-Counts Worker.starting = inl (refl, refl)
  worker-Counts Worker.at_loop = inl (refl, refl)
  worker-Counts Worker.taking = inl (refl, refl)
  worker-Counts (Worker.holding x) = inl (refl, refl)
  worker-Counts Worker.exited = inl (refl, refl)
  worker-Counts Worker.waiting = inr (refl, refl, refl, refl, refl)

  caller-Counts : Counts caller_sleeper is_putting is_blocked
  caller-Counts Caller.outside = inl (refl, refl)
  caller-Counts (Caller.putting x) = inl (refl, refl)
  caller-Counts (Caller.blocked x) = inr (refl, refl, refl, refl, refl)

  -- Where a thread of the pool sleeps, as many are on their way in `take` as there are tasks; where a
  -- caller sleeps, as many are on their way in `run` as there is room; and none sleeps without threads.
  pub record IsAlert (s : ThreadPool Task) : Type 0 where
    pub workers_told : 0 < count is_waiting s.workers → length s.queue ≤ count is_taking s.workers
    pub callers_told :
        0 < count is_blocked s.callers
        → s.max_queue_size ≤ length s.queue + count is_putting s.callers
    pub none_blocked : length s.workers ≡ 0 → count is_blocked s.callers ≡ 0

  -- A step of a thread of the pool that leaves the queue and the callers.
  pub worker_turn :
      (s : ThreadPool Task) {t : ThreadPool Task} (i : ℕ) (w u : Worker Task)
      → get_elem? s.workers i ≡ some w
      → t.workers ≡ set s.workers i u
      → t.callers ≡ s.callers
      → t.queue ≡ s.queue
      → t.max_queue_size ≡ s.max_queue_size
      → (length s.queue ≡ 0) ⊎ ((is_waiting u ≤ is_waiting w) × (is_taking w ≤ is_taking u))
      → IsAlert s
      → IsAlert t
  worker_turn s {t = t} i w u e same callers queue size empty v =
      let waiting = count-set is_waiting s.workers i w u e in
      let taking = count-set is_taking s.workers i w u e in
      let waiting' = ap (count is_waiting) same in
      let taking' = ap (count is_taking) same in
      let blocked = ap (count is_blocked) callers in
      let putting = ap (count is_putting) callers in
      let many = ap length queue in
      let threads = ap length same ∙ length-set s.workers i u in
      record {
        workers_told = λ h. elim empty [
          | inl z ↦ omega (arith, z, many)
          | inr (a, b) ↦
              let told = v.workers_told (omega (arith, h, waiting, waiting', a)) in
              omega (arith, told, taking, taking', b, many)
        ];
        callers_told = λ h.
            let told = v.callers_told (omega (arith, h, blocked)) in
            omega (arith, told, many, size, putting);
        none_blocked = λ h. blocked ∙ v.none_blocked (omega (arith, h, threads));
      }

  pub length-Notified :
      {ws vs : List (Worker Task)} → Notified worker_sleeper ws vs → length vs ≡ length ws
  length-Notified (nobody h) = refl
  length-Notified (somebody i x e h) = length-set _ i _

  pub none_waiting : (ws : List (Worker Task)) → count is_waiting (map worker_sleeper.wake ws) ≡ 0
  none_waiting [] = refl
  none_waiting (w ∷ ws) = omega (arith, none_waiting ws, awake w)
    where
      awake : (w : Worker Task) → is_waiting (worker_sleeper.wake w) ≡ 0
      awake Worker.starting = refl
      awake Worker.at_loop = refl
      awake Worker.taking = refl
      awake Worker.waiting = refl
      awake (Worker.holding x) = refl
      awake Worker.exited = refl

  pub length-wake : (ws : List (Worker Task)) → length (map worker_sleeper.wake ws) ≡ length ws
  length-wake [] = refl
  length-wake (w ∷ ws) = ap suc (length-wake ws)

  pub some_worker : (ws : List (Worker Task)) → ws ≢ [] → 0 < length ws
  some_worker [] h = absurd (h refl)
  some_worker (w ∷ ws) h = omega arith

  pub has_worker :
      {w : Worker Task} (ws : List (Worker Task)) (i : ℕ) → get_elem? ws i ≡ some w → 0 < length ws
  has_worker [] i e = absurd (none-some e)
  has_worker (v ∷ ws) i e = omega arith

  -- `put` tells one of the threads that wait.
  pub put_queue :
      (s : ThreadPool Task) (x : Task) {ws : List (Worker Task)}
      → Notified worker_sleeper s.workers ws
      → IsAlert s
      → 0 < count is_waiting ws
      → length (s.queue ++ x ∷ []) ≤ count is_taking ws
  put_queue s x n v h = elim (count-Notified worker_sleeper is_taking is_waiting worker-Counts n) [
    | inl (z, same) ↦ absurd (omega (arith, h, z, ap (count is_waiting) same))
    | inr (a, b) ↦
        let told = v.workers_told (omega (arith, b)) in
        omega (arith, told, a, length-append s.queue (x ∷ []))
  ]

  -- `take` tells one of the callers that wait, if the queue is bounded.
  pub Told-callers :
      (s : ThreadPool Task) (x : Task) (q : List Task) {cs : List (Caller Task)}
      → s.queue ≡ x ∷ q
      → Told s cs
      → IsAlert s
      → (0 < count is_blocked cs → s.max_queue_size ≤ length q + count is_putting cs)
        × (0 < length s.workers → count is_blocked s.callers ≡ 0 → count is_blocked cs ≡ 0)
  Told-callers s x q z (unbounded e) v = (λ h. ground arith, λ p n. n)
  Told-callers s x q z (bounded e n) v =
      elim (count-Notified caller_sleeper is_putting is_blocked caller-Counts n) [
        | inl (none_asleep, same) ↦ (
          λ h. absurd (omega (arith, h, none_asleep, ap (count is_blocked) same)),
          λ p k. ap (count is_blocked) same ∙ k,
        )
        | inr (a, b) ↦ (
          λ h. let told = v.callers_told (omega (arith, b)) in omega (arith, told, a, ap length z),
          λ p k. absurd (omega (arith, b, k)),
        )
      ]
