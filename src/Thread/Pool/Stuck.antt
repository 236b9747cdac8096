-- ===== src/Thread/Pool/Stuck.antt =====
-- What is left behind in base/ThreadPool.cc when every thread of the pool has come to its end.
use naive_net.Common.{
  ℕ, zero, suc, ◌≡◌, ◌≢◌, refl, sym, ap, subst, none-some, some-injective, ◌∙◌, List, [], ◌∷◌, map,
  some, true, get_elem?, set, All, arith,
}
use naive_net.Thread.Pool.{
  Worker, Caller, ThreadPool, worker_sleeper, is_full, stop, Move, Step, Steps,
}

module _ {Task : Type 0} where
  abbrev pub IsExited : Worker Task → Type 0
  IsExited Worker.exited = Unit
  IsExited w = ⊥

  -- Every thread of the pool has come to its end, and the queue is full.
  pub record IsStuck (s : ThreadPool Task) : Type 0 where
    pub some_thread : s.workers ≢ []
    pub all_exited : All IsExited s.workers
    pub full : is_full s ≡ true

  IsExited-at :
      (ws : List (Worker Task)) (i : ℕ) (w : Worker Task)
      → All IsExited ws
      → get_elem? ws i ≡ some w
      → IsExited w
  IsExited-at [] i w a e = absurd (none-some e)
  IsExited-at (v ∷ ws) zero w a e = subst IsExited (some-injective e) a.0
  IsExited-at (v ∷ ws) (suc i) w a e = IsExited-at ws i w a.1 e

  wake_exited : (w : Worker Task) → IsExited w → worker_sleeper.wake w ≡ w
  wake_exited Worker.exited a = refl
  wake_exited Worker.starting a = elim a [ ]
  wake_exited Worker.at_loop a = elim a [ ]
  wake_exited Worker.taking a = elim a [ ]
  wake_exited Worker.waiting a = elim a [ ]
  wake_exited (Worker.holding x) a = elim a [ ]

  map_wake : (ws : List (Worker Task)) → All IsExited ws → map worker_sleeper.wake ws ≡ ws
  map_wake [] a = refl
  map_wake (w ∷ ws) a =
      ap (λ v. v ∷ map worker_sleeper.wake ws) (wake_exited w a.0) ∙ ap (◌∷◌ w) (map_wake ws a.1)

  -- A caller in `run` with the task, before its test of the queue or in its wait.
  abbrev Has : Caller Task → Task → Type 0
  Has Caller.outside x = ⊥
  Has (Caller.putting y) x = y ≡ x
  Has (Caller.blocked y) x = y ≡ x

  -- Caller `j` is in `run` with the task.
  abbrev pub Wants : List (Caller Task) → ℕ → Task → Type 0
  Wants cs j x = (c : Caller Task) × (get_elem? cs j ≡ some c) × Has c x

  Wants-set :
      (cs : List (Caller Task)) (i j : ℕ) (x : Task) (c d : Caller Task)
      → get_elem? cs i ≡ some c
      → (Has c x → Has d x)
      → Wants cs j x
      → Wants (set cs i d) j x
  Wants-set [] i j x c d e f w = absurd (none-some e)
  Wants-set (b ∷ cs) zero zero x c d e f (a, k, w) =
      (d, refl, f (subst (λ z. Has z x) (sym (some-injective k) ∙ some-injective e) w))
  Wants-set (b ∷ cs) zero (suc j) x c d e f w = w
  Wants-set (b ∷ cs) (suc i) zero x c d e f w = w
  Wants-set (b ∷ cs) (suc i) (suc j) x c d e f w = Wants-set cs i j x c d e f w

  Move-IsStuck :
      {s t : ThreadPool Task} (j : ℕ) (x : Task)
      → Move s t
      → IsStuck s
      → Wants s.callers j x
      → IsStuck t × (t.queue ≡ s.queue) × (t.executed ≡ s.executed) × Wants t.callers j x
  unfolding is_full
  Move-IsStuck {s = s} j x (Move.call i y e) v w = (
    record { some_thread = v.some_thread; all_exited = v.all_exited; full = v.full },
    refl,
    refl,
    Wants-set s.callers i j x _ _ e (λ k. absurd k) w,
  )
  Move-IsStuck j x (Move.run_here i y e z) v w = absurd (v.some_thread z)
  Move-IsStuck {s = s} j x (Move.wait_not_full i y e z f) v w = (
    record { some_thread = v.some_thread; all_exited = v.all_exited; full = v.full },
    refl,
    refl,
    Wants-set s.callers i j x _ _ e (λ k. k) w,
  )
  Move-IsStuck j x (Move.put i y e z f n) v w = absurd (ground (arith, v.full))
  Move-IsStuck {s = s} j x (Move.prepare i e) v w =
      absurd (IsExited-at s.workers i _ v.all_exited e)
  Move-IsStuck {s = s} j x (Move.enter i e r) v w =
      absurd (IsExited-at s.workers i _ v.all_exited e)
  Move-IsStuck {s = s} j x (Move.leave i e r) v w =
      absurd (IsExited-at s.workers i _ v.all_exited e)
  Move-IsStuck {s = s} j x (Move.wait_not_empty i e z r) v w =
      absurd (IsExited-at s.workers i _ v.all_exited e)
  Move-IsStuck {s = s} j x (Move.take_task i y q e z n) v w =
      absurd (IsExited-at s.workers i _ v.all_exited e)
  Move-IsStuck {s = s} j x (Move.take_none i e z r) v w =
      absurd (IsExited-at s.workers i _ v.all_exited e)
  Move-IsStuck {s = s} j x (Move.execute i y e) v w =
      absurd (IsExited-at s.workers i _ v.all_exited e)
  Move-IsStuck {s = s} j x (Move.wake_worker i e) v w =
      absurd (IsExited-at s.workers i _ v.all_exited e)
  Move-IsStuck {s = s} j x (Move.wake_caller i y e) v w = (
    record { some_thread = v.some_thread; all_exited = v.all_exited; full = v.full },
    refl,
    refl,
    Wants-set s.callers i j x _ _ e (λ k. k) w,
  )

  Step-IsStuck :
      {s t : ThreadPool Task} (j : ℕ) (x : Task)
      → Step s t
      → IsStuck s
      → Wants s.callers j x
      → IsStuck t × (t.queue ≡ s.queue) × (t.executed ≡ s.executed) × Wants t.callers j x
  unfolding stop is_full
  Step-IsStuck j x (Step.move m) v w = Move-IsStuck j x m v w
  Step-IsStuck {s = s} j x Step.stop_pool v w = (
    record {
      some_thread = λ e. v.some_thread (sym (map_wake s.workers v.all_exited) ∙ e);
      all_exited = subst (All IsExited) (sym (map_wake s.workers v.all_exited)) v.all_exited;
      full = v.full;
    },
    refl,
    refl,
    w,
  )

  -- Once every thread of the pool has come to its end with the queue full, no schedule changes the
  -- queue or calls a task, and it stays that way: a caller that is in `run` with a task is still there
  -- with it after any steps.
  pub Steps-IsStuck :
      {s t : ThreadPool Task} (j : ℕ) (x : Task)
      → Steps s t
      → IsStuck s
      → Wants s.callers j x
      → IsStuck t × (t.queue ≡ s.queue) × (t.executed ≡ s.executed) × Wants t.callers j x
  Steps-IsStuck j x Steps.done v w = (v, refl, refl, w)
  Steps-IsStuck j x (Steps.next h k) v w =
      let (v', q, r, w') = Steps-IsStuck j x h v w in
      let (u, q', r', w2) = Step-IsStuck j x k v' w' in (u, q' ∙ q, r' ∙ r, w2)
