-- ===== src/Thread/Queue/Wakeup.antt =====
-- No wake-up of base/BlockingQueue.h is lost, and nothing that is put.
use naive_net.Common.{
  ℕ, ◌≤◌, ◌<◌, ◌≡◌, refl, sym, ap, ◌∙◌, List, [], ◌∷◌, ◌++◌, append_assoc, length, length-append,
  arith, inl, inr,
}
use naive_net.Thread.Wait.Counting.{count, count-set, Counts, count-Notified}
use naive_net.Thread.Queue.{Taker, BlockingQueue, taker_sleeper, new_queue, QueueStep, QueueSteps}

abbrev is_taking : Taker → ℕ
is_taking Taker.taking = 1
is_taking Taker.outside = 0
is_taking Taker.waiting = 0

abbrev is_waiting : Taker → ℕ
is_waiting Taker.waiting = 1
is_waiting Taker.outside = 0
is_waiting Taker.taking = 0

abbrev pub awake : List Taker → ℕ
awake ts = count is_taking ts

abbrev pub asleep : List Taker → ℕ
asleep ts = count is_waiting ts

taker-Counts : Counts taker_sleeper is_taking is_waiting
taker-Counts Taker.outside = inl (refl, refl)
taker-Counts Taker.taking = inl (refl, refl)
taker-Counts Taker.waiting = inr (refl, refl, refl, refl, refl)

module _ {T : Type 0} where
  -- What was put is what was taken and what is there, in order; and where a taker sleeps, as many takers
  -- are on their way as there are elements.
  pub record IsQueue (s : BlockingQueue T) : Type 0 where
    pub in_order : s.accepted ≡ s.taken ++ s.queue
    pub no_lost_wakeup : 0 < asleep s.takers → length s.queue ≤ awake s.takers

  QueueStep-IsQueue : {s t : BlockingQueue T} → QueueStep s t → IsQueue s → IsQueue t
  QueueStep-IsQueue {s = s} (QueueStep.put x {ts} n) v = record {
    in_order = ap (λ l. l ++ x ∷ []) v.in_order ∙ append_assoc s.taken s.queue (x ∷ []);
    no_lost_wakeup = λ h. elim (count-Notified taker_sleeper is_taking is_waiting taker-Counts n) [
      | inl (z, q) ↦ absurd (omega (arith, ap asleep q, z, h))
      | inr (a, z) ↦
          let w = v.no_lost_wakeup (omega (arith, z)) in
          omega (arith, length-append s.queue (x ∷ []), w, a)
    ];
  }
  QueueStep-IsQueue {s = s} (QueueStep.enter i e) v = record {
    in_order = v.in_order;
    no_lost_wakeup = λ h. ground (
      arith,
      v.no_lost_wakeup,
      count-set is_taking s.takers i _ Taker.taking e,
      count-set is_waiting s.takers i _ Taker.taking e,
    );
  }
  QueueStep-IsQueue {s = s} (QueueStep.wait i e z) v = record {
    in_order = v.in_order;
    no_lost_wakeup = λ h. omega (arith, ap length z);
  }
  QueueStep-IsQueue {s = s} (QueueStep.take_front i x q e z) v = record {
    in_order = v.in_order ∙ ap (λ l. s.taken ++ l) z ∙ sym (append_assoc s.taken (x ∷ []) q);
    no_lost_wakeup = λ h. ground (
      arith,
      v.no_lost_wakeup,
      ap length z,
      count-set is_taking s.takers i _ Taker.outside e,
      count-set is_waiting s.takers i _ Taker.outside e,
    );
  }
  QueueStep-IsQueue {s = s} (QueueStep.wake_up i e) v = record {
    in_order = v.in_order;
    no_lost_wakeup = λ h. ground (
      arith,
      v.no_lost_wakeup,
      count-set is_taking s.takers i _ Taker.taking e,
      count-set is_waiting s.takers i _ Taker.taking e,
    );
  }

  -- In every schedule of a new queue, elements leave it in the order in which they were put into it, and
  -- none is lost; and where a taker sleeps, as many takers are awake in `take` as there are elements.
  pub QueueSteps-IsQueue : (n : ℕ) {s : BlockingQueue T} → QueueSteps (new_queue n) s → IsQueue s
  unfolding new_queue
  QueueSteps-IsQueue n QueueSteps.done = record {
    in_order = refl;
    no_lost_wakeup = λ h. omega arith;
  }
  QueueSteps-IsQueue n (QueueSteps.next h k) = QueueStep-IsQueue k (QueueSteps-IsQueue n h)
