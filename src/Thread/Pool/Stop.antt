-- ===== src/Thread/Pool/Stop.antt =====
-- `stop` of base/ThreadPool.cc lets every thread of the pool come to its end.
use naive_net.Common.{
  ◌∙◌, length, length-set, ℕ, zero, suc, ◌+◌, ◌≤◌, ◌<◌, ◌≡◌, refl, ap, none-some, some-injective,
  ltb, Bool-cases, ◌⊎◌, inl, inr, List, [], ◌∷◌, some, false, get_elem?, set, All, arith,
}
use naive_net.Thread.Wait.{can_notify}
use naive_net.Thread.Pool.{
  Worker, Caller, ThreadPool, caller_sleeper, stop, Move, Moves, Step, Steps, Told,
}
use naive_net.Thread.Pool.Invariant.{IsPool, Move-IsPool, stop-IsPool, IsAwake}
use naive_net.Thread.Pool.Stuck.{IsExited}

module _ {Task : Type 0} where
  -- A step that is not the end of a wait with no `notify`.
  abbrev pub IsPrompt : {s t : ThreadPool Task} → Move s t → Type 0
  IsPrompt (Move.wake_worker i e) = ⊥
  IsPrompt (Move.wake_caller j x e) = ⊥
  IsPrompt (Move.call j x e) = Unit
  IsPrompt (Move.run_here j x e z) = Unit
  IsPrompt (Move.wait_not_full j x e z f) = Unit
  IsPrompt (Move.put j x e z f n) = Unit
  IsPrompt (Move.prepare i e) = Unit
  IsPrompt (Move.enter i e r) = Unit
  IsPrompt (Move.leave i e r) = Unit
  IsPrompt (Move.wait_not_empty i e z r) = Unit
  IsPrompt (Move.take_task i x q e z n) = Unit
  IsPrompt (Move.take_none i e z r) = Unit
  IsPrompt (Move.execute i x e) = Unit

  abbrev pub ArePrompt : {s t : ThreadPool Task} → Moves s t → Type 0
  ArePrompt Moves.none_left = Unit
  ArePrompt (Moves.next_move ms m) = ArePrompt ms × IsPrompt m

  -- The steps that a thread has left once the pool is stopped.
  abbrev rank : Worker Task → ℕ
  rank Worker.exited = 0
  rank Worker.at_loop = 1
  rank (Worker.holding x) = 2
  rank Worker.taking = 3
  rank Worker.waiting = 4
  rank Worker.starting = 2

  abbrev ranks : List (Worker Task) → ℕ
  ranks [] = 0
  ranks (w ∷ ws) = rank w + ranks ws

  ranks-set :
      (ws : List (Worker Task)) (i : ℕ) (w v : Worker Task)
      → get_elem? ws i ≡ some w
      → rank v < rank w
      → ranks (set ws i v) < ranks ws
  ranks-set [] i w v e h = absurd (none-some e)
  ranks-set (u ∷ ws) zero w v e h = omega (arith, ap rank (some-injective e))
  ranks-set (u ∷ ws) (suc i) w v e h = omega (arith, ranks-set ws i w v e h)

  find_thread :
      (ws : List (Worker Task))
      → All IsAwake ws
      → All IsExited ws
        ⊎ ((i : ℕ) × (w : Worker Task) × (get_elem? ws i ≡ some w) × IsAwake w × (0 < rank w))
  find_thread [] a = inl tt
  find_thread (Worker.exited ∷ ws) a = elim (find_thread ws a.1) [
    | inl h ↦ inl (tt, h)
    | inr (i, w, e, b, p) ↦ inr (suc i, w, e, b, p)
  ]
  find_thread (Worker.starting ∷ ws) a = inr (0, _, refl, refl, omega arith)
  find_thread (Worker.at_loop ∷ ws) a = inr (0, _, refl, refl, omega arith)
  find_thread (Worker.holding x ∷ ws) a = inr (0, _, refl, refl, omega arith)
  find_thread (Worker.taking ∷ ws) a = inr (0, _, refl, refl, omega arith)
  find_thread (Worker.waiting ∷ ws) a = absurd (ground (arith, a.0))

  tell : (s : ThreadPool Task) → (cs : List (Caller Task)) × Told s cs
  tell s = elim (Bool-cases (ltb 0 s.max_queue_size)) [
    | inl e ↦ let (cs, n) = can_notify caller_sleeper s.callers in (cs, Told.bounded e n)
    | inr e ↦ (s.callers, Told.unbounded e)
  ]

  List-cases : (q : List Task) → (q ≡ []) ⊎ ((x : Task) × (r : List Task) × (q ≡ x ∷ r))
  List-cases [] = inl refl
  List-cases (x ∷ r) = inr (x, r, refl)

  -- Once the pool is stopped, a thread that has not come to its end has a step, and comes nearer to it.
  thread_step :
      (s : ThreadPool Task) (i : ℕ) (w : Worker Task)
      → s.running ≡ false
      → get_elem? s.workers i ≡ some w
      → IsAwake w
      → 0 < rank w
      → (t : ThreadPool Task) × (m : Move s t) × IsPrompt m
        × (t.running ≡ false)
        × (ranks t.workers < ranks s.workers)
        × (length t.workers ≡ length s.workers)
  thread_step s i Worker.exited r e a h = absurd (omega arith)
  thread_step s i Worker.waiting r e a h = absurd (ground arith)
  thread_step s i Worker.starting r e a h = (
    _,
    Move.prepare i e,
    tt,
    r,
    ranks-set s.workers i _ _ e (omega arith),
    length-set s.workers i _,
  )
  thread_step s i Worker.at_loop r e a h = (
    _,
    Move.leave i e r,
    tt,
    r,
    ranks-set s.workers i _ _ e (omega arith),
    length-set s.workers i _,
  )
  thread_step s i (Worker.holding x) r e a h = (
    _,
    Move.execute i x e,
    tt,
    r,
    ranks-set s.workers i _ _ e (omega arith),
    length-set s.workers i _,
  )
  thread_step s i Worker.taking r e a h = elim (List-cases s.queue) [
    | inl z ↦ (
      _,
      Move.take_none i e z r,
      tt,
      r,
      ranks-set s.workers i _ _ e (omega arith),
      length-set s.workers i _,
    )
    | inr (x, q, z) ↦
        let (cs, n) = tell s in
        (
          _,
          Move.take_task i x q e z n,
          tt,
          r,
          ranks-set s.workers i _ _ e (omega arith),
          length-set s.workers i _,
        )
  ]

  first : {s t u : ThreadPool Task} → Move s t → Moves t u → Moves s u
  first k Moves.none_left = Moves.next_move Moves.none_left k
  first k (Moves.next_move h l) = Moves.next_move (first k h) l

  first-ArePrompt :
      {s t u : ThreadPool Task} (k : Move s t) (h : Moves t u)
      → IsPrompt k
      → ArePrompt h
      → ArePrompt (first k h)
  unfolding first
  first-ArePrompt k Moves.none_left p q = (tt, p)
  first-ArePrompt k (Moves.next_move h l) p q = (first-ArePrompt k h p q.0, q.1)

  exits :
      (n : ℕ) (s : ThreadPool Task)
      → IsPool s
      → s.running ≡ false
      → ranks s.workers ≤ n
      → (t : ThreadPool Task) × (ms : Moves s t) × ArePrompt ms
        × (length t.workers ≡ length s.workers)
        × All IsExited t.workers
  exits zero s v r h = elim (find_thread s.workers (v.awake r)) [
    | inl a ↦ (s, Moves.none_left, tt, refl, a)
    | inr (i, w, e, b, p) ↦
        let (u, k, y, q, l, z) = thread_step s i w r e b p in absurd (omega (arith, l))
  ]
  exits (suc n) s v r h = elim (find_thread s.workers (v.awake r)) [
    | inl a ↦ (s, Moves.none_left, tt, refl, a)
    | inr (i, w, e, b, p) ↦
        let (u, k, y, q, l, z) = thread_step s i w r e b p in
        let (t, ks, ps, z', a) = exits n u (Move-IsPool k v) q (omega (arith, l)) in
        (t, first k ks, first-ArePrompt k ks y ps, z' ∙ z, a)
  ]

  Moves-Steps : {s t u : ThreadPool Task} → Steps s t → Moves t u → Steps s u
  Moves-Steps h Moves.none_left = h
  Moves-Steps h (Moves.next_move k l) = Steps.next (Moves-Steps h k) (Step.move l)

  -- From a stopped pool that is well formed there are steps, none of them the end of a wait with no `notify`,
  -- after which every thread of the pool has come to its end.
  pub stopped-exits :
      (s : ThreadPool Task)
      → IsPool s
      → s.running ≡ false
      → (t : ThreadPool Task) × (ms : Moves s t) × ArePrompt ms
        × (length t.workers ≡ length s.workers)
        × All IsExited t.workers
  stopped-exits s v r = exits (ranks s.workers) s v r (omega arith)

  -- From a pool that is well formed, `stop` can be followed by steps after which every thread of the
  -- pool has come to its end.
  pub Steps-stop :
      (s : ThreadPool Task)
      → IsPool s
      → (t : ThreadPool Task) × Steps (stop s) t × All IsExited t.workers
  unfolding stop
  Steps-stop s v =
      let (t, h, p, z, a) = stopped-exits (stop s) (stop-IsPool s v) refl in
      (t, Moves-Steps Steps.done h, a)
