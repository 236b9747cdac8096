-- ===== src/Thread/Queue/Locking/Order.antt =====
-- Statement by statement, base/BlockingQueue.h keeps the order of its elements and loses no wake-up.
use naive_net.Common.{
  ℕ, ◌≤◌, ◌<◌, ◌≡◌, sym, ap, subst, ◌∙◌, [], ◌∷◌, ◌++◌, append_assoc, none, none-some, length, map,
}
use naive_net.Thread.Queue.{BlockingQueue}
use naive_net.Thread.Queue.Locking.{Contents, contents, seen, Holds, InTurn, free, locked}
use naive_net.Thread.Queue.Locking.Refinement.{Statements-Refines}
use naive_net.Thread.Queue.Statements.{Place, SharedQueue, new_shared, Statements}
use naive_net.Thread.Queue.Wakeup.{asleep, awake, QueueSteps-IsQueue}

module _ {T : Type 0} where
  -- What was put is what was taken and what is there, in order.
  abbrev pub InOrder : Contents T → Type 0
  InOrder c = c.accepted ≡ c.taken ++ c.queue

  Holds-InOrder :
      (p : Place T) (tid holder : ℕ) (c d : Contents T)
      → Holds p tid holder c d
      → InOrder d
      → InOrder c
  unfolding Holds
  Holds-InOrder (Place.put_assign x) tid holder c d h o = subst InOrder (sym h.1) o
  Holds-InOrder (Place.put_push x) tid holder c d h o = subst InOrder (sym h.1) o
  Holds-InOrder (Place.put_notify x) tid holder c d h o =
      subst InOrder (sym h.1) (ap (λ l. l ++ x ∷ []) o ∙ append_assoc d.taken d.queue (x ∷ []))
  Holds-InOrder Place.put_unassign tid holder c d h o = subst InOrder (sym h.1) o
  Holds-InOrder Place.put_unlock tid holder c d h o = subst InOrder (sym h.1) o
  Holds-InOrder Place.take_assign tid holder c d h o = subst InOrder (sym h.1) o
  Holds-InOrder Place.take_test tid holder c d h o = subst InOrder (sym h.1) o
  Holds-InOrder Place.take_front tid holder c d h o = subst InOrder (sym h.1) o
  Holds-InOrder Place.take_unassign tid holder c d h o = subst InOrder (sym h.1) o
  Holds-InOrder Place.take_unlock tid holder c d h o = subst InOrder (sym h.1) o
  Holds-InOrder Place.wait_unassign tid holder c d h o = subst InOrder (sym h.1) o
  Holds-InOrder Place.wait_release tid holder c d h o = subst InOrder (sym h.1) o
  Holds-InOrder Place.wait_assign tid holder c d h o = subst InOrder (sym h.1) o
  Holds-InOrder Place.outside tid holder c d h o = elim h [ ]
  Holds-InOrder (Place.put_lock x) tid holder c d h o = elim h [ ]
  Holds-InOrder Place.take_lock tid holder c d h o = elim h [ ]
  Holds-InOrder Place.sleeping tid holder c d h o = elim h [ ]
  Holds-InOrder Place.wait_lock tid holder c d h o = elim h [ ]

  InTurn-InOrder :
      (tid : ℕ → ℕ) {s : SharedQueue T} {a : BlockingQueue T}
      → InTurn tid s a
      → InOrder (contents a)
      → s.accepted ≡ s.taken ++ s.queue
  InTurn-InOrder tid (free m h e alone) o = subst InOrder (sym e) o
  InTurn-InOrder tid {s = s} {a = a} (locked i p m at within holds alone) o =
      Holds-InOrder p (tid i) s.lock.holder _ (contents a) holds o

  InTurn-queue :
      (tid : ℕ → ℕ) {s : SharedQueue T} {a : BlockingQueue T}
      → InTurn tid s a
      → s.lock.mutex ≡ none
      → s.queue ≡ a.queue
  InTurn-queue tid (free m h e alone) n = ap (λ c. c.queue) e
  InTurn-queue tid (locked i p m at within holds alone) n = absurd (none-some (sym n ∙ m))

  -- In every schedule of the statements of `put` and `take` on a new queue, elements leave it in the
  -- order in which they were put into it and none is lost, between any two statements; and whenever no
  -- thread has the mutex and a thread sleeps in `take`, as many threads are awake in `take` as there are
  -- elements.
  pub Statements-in_order :
      (tid : ℕ → ℕ) (n : ℕ) {s : SharedQueue T}
      → Statements tid (new_shared n) s
      → (s.accepted ≡ s.taken ++ s.queue)
        × (s.lock.mutex ≡ none
            → 0 < asleep (map seen s.places)
            → length s.queue ≤ awake (map seen s.places))
  Statements-in_order tid n {s} h =
      let (a, k, r) = Statements-Refines tid n h in
      let v = QueueSteps-IsQueue n k in
      (
        InTurn-InOrder tid r.in_turn v.in_order,
        λ m z.
            subst (λ q. length q ≤ awake (map seen s.places)) (sym (InTurn-queue tid r.in_turn m))
              (subst (λ ts. length a.queue ≤ awake ts) r.takers
                (v.no_lost_wakeup (subst (λ ts. 0 < asleep ts) (sym r.takers) z))),
      )
