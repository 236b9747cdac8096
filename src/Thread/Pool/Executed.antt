-- ===== src/Thread/Pool/Executed.antt =====
-- The tasks that the threads of base/ThreadPool.cc take from the queue are those that they call.
use mathlib.Core.List.{Perm, perm_middle, perm_append_singleton}
use mathlib.Core.List.Perm
use naive_net.Common.{
  ℕ, zero, suc, ◌<◌, ◌≡◌, refl, sym, ap, subst, none-some, some-injective, List, [], ◌∷◌, ◌++◌,
  append_assoc, map, some, Bool, length, length-set, get_elem?, set, replicate, arith,
}
use naive_net.Thread.Wait.{Notified, nobody, somebody}
use naive_net.Thread.Pool.{Worker, ThreadPool, worker_sleeper, start, stop, Move, Step, Steps}
use naive_net.Thread.Pool.Invariant.{Steps-IsPool}
use naive_net.Thread.Pool.Telling.{length-Notified, length-wake}

module _ {Task : Type 0} where
  abbrev has : Worker Task → List Task
  has (Worker.holding x) = x ∷ []
  has Worker.starting = []
  has Worker.at_loop = []
  has Worker.taking = []
  has Worker.waiting = []
  has Worker.exited = []

  -- The tasks that threads have at hand.
  abbrev pub at_hand : List (Worker Task) → List Task
  at_hand [] = []
  at_hand (w ∷ ws) = has w ++ at_hand ws

  exchange : (a b c : List Task) → Perm (a ++ (b ++ c)) (b ++ (a ++ c))
  exchange a [] c = Perm.rfl
  exchange a (x ∷ b) c = Perm.trans (perm_middle a (b ++ c)) (Perm.cons x (exchange a b c))

  at_hand-set :
      (ws : List (Worker Task)) (i : ℕ) (w u : Worker Task)
      → get_elem? ws i ≡ some w
      → Perm (has w ++ at_hand (set ws i u)) (has u ++ at_hand ws)
  at_hand-set [] i w u e = absurd (none-some e)
  at_hand-set (v ∷ ws) zero w u e =
      subst (λ z. Perm (has w ++ (has u ++ at_hand ws)) (has u ++ (has z ++ at_hand ws)))
        (sym (some-injective e)) (exchange (has w) (has u) (at_hand ws))
  at_hand-set (v ∷ ws) (suc i) w u e =
      Perm.trans (exchange (has w) (has v) (at_hand (set ws i u))) (
        Perm.trans (Perm.append_left (has v) (at_hand-set ws i w u e))
          (exchange (has v) (has u) (at_hand ws)))

  -- The tasks taken are those called and those at hand.
  abbrev Calls : ThreadPool Task → Type 0
  Calls s = Perm (s.executed ++ at_hand s.workers) s.taken

  turned :
      (s : ThreadPool Task) (i : ℕ) (w u : Worker Task)
      → get_elem? s.workers i ≡ some w
      → has w ≡ []
      → has u ≡ []
      → Calls s
      → Perm (s.executed ++ at_hand (set s.workers i u)) s.taken
  turned s i w u e p q c =
      let k = at_hand-set s.workers i w u e in
      Perm.trans
        (Perm.append_left s.executed (
          subst (λ l. Perm (l ++ at_hand (set s.workers i u)) (at_hand s.workers)) p
            (subst (λ l. Perm (has w ++ at_hand (set s.workers i u)) (l ++ at_hand s.workers)) q
              k)))
        c

  told :
      (s : ThreadPool Task) {ws : List (Worker Task)}
      → Notified worker_sleeper s.workers ws
      → Calls s
      → Perm (s.executed ++ at_hand ws) s.taken
  told s (nobody h) c = c
  told s (somebody i Worker.waiting e a) c = turned s i _ _ e refl refl c
  told s (somebody i Worker.starting e a) c = absurd (ground (arith, a))
  told s (somebody i Worker.at_loop e a) c = absurd (ground (arith, a))
  told s (somebody i Worker.taking e a) c = absurd (ground (arith, a))
  told s (somebody i (Worker.holding x) e a) c = absurd (ground (arith, a))
  told s (somebody i Worker.exited e a) c = absurd (ground (arith, a))

  Move-Calls :
      {s t : ThreadPool Task}
      → Move s t
      → 0 < length s.workers
      → Calls s
      → Calls t × (length t.workers ≡ length s.workers)
  Move-Calls (Move.call j x e) p c = (c, refl)
  Move-Calls (Move.run_here j x e z) p c = absurd (omega (arith, p, ap length z))
  Move-Calls (Move.wait_not_full j x e z f) p c = (c, refl)
  Move-Calls {s = s} (Move.put j x e z f n) p c = (told s n c, length-Notified n)
  Move-Calls {s = s} (Move.prepare i e) p c =
      (turned s i _ _ e refl refl c, length-set s.workers i _)
  Move-Calls {s = s} (Move.enter i e r) p c =
      (turned s i _ _ e refl refl c, length-set s.workers i _)
  Move-Calls {s = s} (Move.leave i e r) p c =
      (turned s i _ _ e refl refl c, length-set s.workers i _)
  Move-Calls {s = s} (Move.wait_not_empty i e z r) p c =
      (turned s i _ _ e refl refl c, length-set s.workers i _)
  Move-Calls {s = s} (Move.take_task i x q e z n) p c = (
    Perm.trans (Perm.append_left s.executed (at_hand-set s.workers i _ (Worker.holding x) e)) (
        Perm.trans (perm_middle s.executed (at_hand s.workers))
          (Perm.trans (Perm.cons x c) (Perm.symm (perm_append_singleton x s.taken)))),
    length-set s.workers i _,
  )
  Move-Calls {s = s} (Move.take_none i e z r) p c =
      (turned s i _ _ e refl refl c, length-set s.workers i _)
  Move-Calls {s = s} (Move.execute i x e) p c = (
    subst (λ l. Perm l s.taken)
        (sym (append_assoc s.executed (x ∷ []) (at_hand (set s.workers i Worker.at_loop))))
        (Perm.trans (Perm.append_left s.executed (at_hand-set s.workers i _ Worker.at_loop e)) c),
    length-set s.workers i _,
  )
  Move-Calls {s = s} (Move.wake_worker i e) p c =
      (turned s i _ _ e refl refl c, length-set s.workers i _)
  Move-Calls (Move.wake_caller j x e) p c = (c, refl)

  at_hand-wake : (ws : List (Worker Task)) → at_hand (map worker_sleeper.wake ws) ≡ at_hand ws
  at_hand-wake [] = refl
  at_hand-wake (Worker.starting ∷ ws) = at_hand-wake ws
  at_hand-wake (Worker.at_loop ∷ ws) = at_hand-wake ws
  at_hand-wake (Worker.taking ∷ ws) = at_hand-wake ws
  at_hand-wake (Worker.waiting ∷ ws) = at_hand-wake ws
  at_hand-wake (Worker.holding x ∷ ws) = ap (◌∷◌ x) (at_hand-wake ws)
  at_hand-wake (Worker.exited ∷ ws) = at_hand-wake ws

  Step-Calls :
      {s t : ThreadPool Task}
      → Step s t
      → 0 < length s.workers
      → Calls s
      → Calls t × (length t.workers ≡ length s.workers)
  unfolding stop
  Step-Calls (Step.move m) p c = Move-Calls m p c
  Step-Calls {s = s} Step.stop_pool p c = (
    subst (λ l. Perm (s.executed ++ l) s.taken) (sym (at_hand-wake s.workers)) c,
    length-wake s.workers,
  )

  at_hand-replicate : (n : ℕ) → at_hand (replicate n Worker.starting) ≡ []
  at_hand-replicate zero = refl
  at_hand-replicate (suc n) = at_hand-replicate n

  keeps :
      (m : ℕ) (b : Bool) (n c : ℕ) {s : ThreadPool Task}
      → Steps (start m b (suc n) c) s
      → Calls s × (0 < length s.workers)
  unfolding start
  keeps m b n c Steps.done =
      (subst (λ l. Perm l []) (sym (at_hand-replicate n)) Perm.rfl, omega arith)
  keeps m b n c (Steps.next h k) =
      let v = keeps m b n c h in
      let w = Step-Calls k v.1 v.0 in (w.0, subst (λ l. 0 < l) (sym w.1) v.1)

  -- In every schedule of a pool with a thread at least, from `start` on, the tasks that were ever put into the queue
  -- are, each as often, those that were called, those that threads have at hand and those in the queue.
  pub Steps-executed :
      (max_size : ℕ) (callback : Bool) (num_threads callers : ℕ) {s : ThreadPool Task}
      → Steps (start max_size callback (suc num_threads) callers) s
      → Perm ((s.executed ++ at_hand s.workers) ++ s.queue) s.accepted
  Steps-executed m b n c {s = s} h =
      subst (Perm ((s.executed ++ at_hand s.workers) ++ s.queue))
        (sym (Steps-IsPool m b (suc n) c h).in_order)
        (Perm.append_right s.queue (keeps m b n c h).0)
