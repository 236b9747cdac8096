-- ===== src/Thread/Pool/Life/Ends.antt =====
-- The destructor of base/ThreadPool.cc comes to its end where tasks return.
use naive_net.Common.{
  ◌-◌, ◌≤◌, ◌⊎◌, inl, inr, false, ℕ, zero, suc, ◌+◌, ◌<◌, ◌≡◌, refl, ap, subst, List, [], ◌∷◌, some,
  true, length, get_elem?, arith, All,
}
use naive_net.Thread.Pool.{Worker, ThreadPool, Move, Moves, stop}
use naive_net.Thread.Pool.Invariant.{IsPool, stop-IsPool}
use naive_net.Thread.Pool.Stop.{IsPrompt, ArePrompt, stopped-exits}
use naive_net.Thread.Pool.Stuck.{IsExited}
use naive_net.Thread.Pool.Life.Phases.{Phase}
use naive_net.Thread.Pool.Life.Keeps.{LifeSteps-Keeps}
use naive_net.Thread.Pool.Life.Joining.{LifeSteps-InOrder}
use naive_net.Thread.Life.{Outcome, returned}
use naive_net.Thread.Pool.Life.{
  started, joining, gone, Life, Process, alive, new_pool, is_there, is_idle, IsReturning, LifeStep,
  LifeSteps,
}

module _ {Task : Type 0} (outcome : Task → Outcome) (callback : Outcome) where
  abbrev IsPromptStep : {l : Life Task} {p : Process Task} → LifeStep outcome callback l p → Type 0
  IsPromptStep (LifeStep.move m o r) = IsPrompt m
  IsPromptStep (LifeStep.set_max_queue_size n e) = Unit
  IsPromptStep (LifeStep.set_thread_init_callback b e) = Unit
  IsPromptStep (LifeStep.start n e w) = Unit
  IsPromptStep (LifeStep.start_again e w) = Unit
  IsPromptStep (LifeStep.start_thread n i e h) = Unit
  IsPromptStep (LifeStep.start_ends n e) = Unit
  IsPromptStep (LifeStep.stop_begins e) = Unit
  IsPromptStep (LifeStep.destroy_running e r) = Unit
  IsPromptStep (LifeStep.destroy_stopped e r) = Unit
  IsPromptStep (LifeStep.join i b e x h) = Unit
  IsPromptStep (LifeStep.join_again i b e x h) = Unit
  IsPromptStep (LifeStep.stop_ends i b e h) = Unit
  IsPromptStep (LifeStep.throw i x o e t) = Unit
  IsPromptStep (LifeStep.throw_in_callback i o e c t) = Unit

  -- No wait ends without a `notify`.
  abbrev pub NoneSpurious :
      {l : Life Task} {p : Process Task} → LifeSteps outcome callback l p → Type 0
  NoneSpurious LifeSteps.at_first = Unit
  NoneSpurious (LifeSteps.later h k) = NoneSpurious h × IsPromptStep k

module _ {Task : Type 0} (outcome : Task → Outcome) (callback : Outcome)
    (returns : (x : Task) → outcome x ≡ returned) (callback_returns : callback ≡ returned) where
  returning : {s t : ThreadPool Task} (m : Move s t) → IsReturning outcome callback m
  returning (Move.execute i x e) = returns x
  returning (Move.prepare i e) = λ c. callback_returns
  returning (Move.call j x e) = tt
  returning (Move.run_here j x e z) = tt
  returning (Move.wait_not_full j x e z f) = tt
  returning (Move.put j x e z f n) = tt
  returning (Move.enter i e r) = tt
  returning (Move.leave i e r) = tt
  returning (Move.wait_not_empty i e z r) = tt
  returning (Move.take_task i x q e z n) = tt
  returning (Move.take_none i e z r) = tt
  returning (Move.wake_worker i e) = tt
  returning (Move.wake_caller j x e) = tt

  moves :
      (l k : Life Task) {t : ThreadPool Task} (h : LifeSteps outcome callback l (alive k))
      → NoneSpurious outcome callback h
      → is_there k.owner ≡ true
      → (ms : Moves k.pool t) → ArePrompt ms
      → (h' : LifeSteps outcome callback l (alive (record k { pool = t }))) × NoneSpurious outcome
          callback h'
  moves l k h s o Moves.none_left p = (h, s)
  moves l k h s o (Moves.next_move ms m) p =
      let (h', s') = moves l k h s o ms p.0 in
      (LifeSteps.later h' (LifeStep.move m o (returning m)), (s', p.1))

  exited_at :
      (ws : List (Worker Task)) (i : ℕ)
      → All IsExited ws
      → i < length ws
      → get_elem? ws i ≡ some Worker.exited
  exited_at [] i a h = elim h [ ]
  exited_at (Worker.exited ∷ ws) zero a h = refl
  exited_at (Worker.starting ∷ ws) zero a h = elim a.0 [ ]
  exited_at (Worker.at_loop ∷ ws) zero a h = elim a.0 [ ]
  exited_at (Worker.taking ∷ ws) zero a h = elim a.0 [ ]
  exited_at (Worker.waiting ∷ ws) zero a h = elim a.0 [ ]
  exited_at (Worker.holding x ∷ ws) zero a h = elim a.0 [ ]
  exited_at (w ∷ ws) (suc i) a h = exited_at ws i a.1 (omega arith)

  -- The loop of `stop` in the destructor, with `n` threads to join.
  joins :
      (n i : ℕ) (l k : Life Task) (h : LifeSteps outcome callback l (alive k))
      → NoneSpurious outcome callback h
      → k.owner ≡ joining i true
      → k.joined ≡ i
      → i + n ≡ length k.pool.workers
      → All IsExited k.pool.workers
      → (m : Life Task) × (h' : LifeSteps outcome callback l (alive m)) × NoneSpurious outcome
          callback h'
        × (m.owner ≡ gone)
  joins zero i l k h s o j e a =
      (_, LifeSteps.later h (LifeStep.stop_ends i true o (omega arith)), (s, tt), refl)
  joins (suc n) i l k h s o j e a =
      joins n (suc i) l _
        (LifeSteps.later h
          (LifeStep.join i true o (exited_at k.pool.workers i a (omega arith)) (ground arith)))
        (s, tt) refl refl (omega arith) a

  -- The destructor from its loop on, with the threads of the pool at any place.
  ends_from :
      (i : ℕ) (l k : Life Task) (h : LifeSteps outcome callback l (alive k))
      → NoneSpurious outcome callback h
      → k.owner ≡ joining i true
      → k.joined ≡ i
      → i ≤ length k.pool.workers
      → IsPool k.pool
      → k.pool.running ≡ false
      → (m : Life Task) × (h' : LifeSteps outcome callback l (alive m)) × NoneSpurious outcome
          callback h'
        × (m.owner ≡ gone)
  ends_from i l k h s o j le v r =
      let (t, ms, p, z, a) = stopped-exits k.pool v r in
      let (h', s') = moves l k h s (ap is_there o) ms p in
      joins (length t.workers - i) i l _ h' s' o j (omega (arith, z, le)) a

  -- Where tasks and the callback return, a pool that has been started can be destroyed, and its destructor
  -- never gets stuck: from every state of every life of the pool in which the owner is outside of the
  -- functions of a started pool or in the loop of the destructor, there are steps after which the
  -- destructor has ended, and in which no wait ends without a `notify`.
  pub LifeSteps-destroyed :
      (name : List ℕ) (callers : ℕ) (l : Life Task)
      → LifeSteps outcome callback (new_pool name callers) (alive l)
      → (l.owner ≡ started) ⊎ ((i : ℕ) × (l.owner ≡ joining i true))
      → (m : Life Task) × (h' : LifeSteps outcome callback l (alive m)) × NoneSpurious outcome
          callback h'
        × (m.owner ≡ gone)
  unfolding stop
  LifeSteps-destroyed name callers l h (inl e) =
      let k = LifeSteps-Keeps outcome callback name callers h in
      let q = subst (λ o. Phase o l) e k.phase in
      ends_from 0 l _
        (LifeSteps.later LifeSteps.at_first (LifeStep.destroy_running (ap is_idle e) q.0)) (tt, tt)
        refl q.1 (omega arith) (stop-IsPool l.pool k.well_formed) refl
  LifeSteps-destroyed name callers l h (inr (i, e)) =
      let k = LifeSteps-Keeps outcome callback name callers h in
      let q = subst (λ o. Phase o l) e k.phase in
      let j = LifeSteps-InOrder outcome callback name callers h i e in
      ends_from i l l LifeSteps.at_first tt e j (omega (arith, j, k.joined_le)) k.well_formed q.0
