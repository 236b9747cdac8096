-- ===== src/Thread/Queue/Examples.antt =====
-- Two threads of base/BlockingQueue.h: one waits in `take`, the other has pushed an element in `put`.
use naive_net.Common.{ℕ, suc, ◌≡◌, ◌≤◌, ◌<◌, refl, [], ◌∷◌, ◌++◌, none, some, map, length}
use naive_net.Thread.Mutex.{
  new_mutex, pthread_mutex_lock, pthread_mutex_unlock, assign_holder, unassign_holder,
}
use naive_net.Thread.Queue.{BlockingQueue, QueueSteps, new_queue}
use naive_net.Thread.Queue.Statements.{
  Place, SharedQueue, put_locked, take_locked, put_assigned, take_assigned, wait_unassigned,
  wait_released, Statement, Statements, new_shared,
}
use naive_net.Thread.Queue.Locking.{inside, seen, Refines}
use naive_net.Thread.Queue.Locking.Order.{Statements-in_order}
use naive_net.Thread.Queue.Wakeup.{asleep, awake}
use naive_net.Thread.Queue.Locking.Refinement.{Statements-Refines}
use naive_net.Thread.Queue.Locking.Exclusion.{Statements-inside, Statements-released}

abbrev pushing : SharedQueue ℕ
pushing = record {
  lock = record { mutex = some 1; holder = 2 };
  queue = 7 ∷ [];
  places = Place.sleeping ∷ Place.put_notify 7 ∷ [];
  accepted = 7 ∷ [];
  taken = [];
}

-- The first thread finds the queue empty and waits.
abbrev one_waits : SharedQueue ℕ
one_waits = record pushing {
  lock = new_mutex;
  queue = [];
  places = Place.sleeping ∷ Place.outside ∷ [];
  accepted = [];
}

waits : Statements suc {T = ℕ} (new_shared 2) one_waits
unfolding new_shared new_mutex pthread_mutex_lock pthread_mutex_unlock assign_holder unassign_holder
waits =
    let a = Statements.next Statements.done (Statement.call_take 0 refl) in
    let b = Statements.next a (Statement.get_mutex 0 refl take_locked refl) in
    let c = Statements.next b (Statement.assign 0 refl take_assigned) in
    let d = Statements.next c (Statement.test_empty 0 refl refl) in
    let e = Statements.next d (Statement.unassign 0 refl wait_unassigned) in
    Statements.next e (Statement.give_mutex 0 refl wait_released)

to_pushing : Statements suc {T = ℕ} (new_shared 2) pushing
unfolding new_mutex pthread_mutex_lock assign_holder
to_pushing =
    let a = Statements.next waits (Statement.call_put 1 7 refl) in
    let b = Statements.next a (Statement.get_mutex 1 refl (put_locked 7) refl) in
    let c = Statements.next b (Statement.assign 1 refl (put_assigned 7)) in
    Statements.next c (Statement.push 1 7 refl)

Statements-Refines_example :
    (a : BlockingQueue ℕ) × QueueSteps (new_queue 2) a × Refines suc pushing a
Statements-Refines_example = Statements-Refines suc 2 to_pushing

Statements-inside_example : pushing.lock.mutex ≡ some 1
unfolding inside
Statements-inside_example = Statements-inside suc 2 1 (Place.put_notify 7) to_pushing refl refl

Statements-released_example : (t : SharedQueue ℕ) × Statements suc pushing t × (t.lock.mutex ≡ none)
Statements-released_example = Statements-released suc 2 to_pushing

Statements-in_order_example :
    (one_waits.accepted ≡ one_waits.taken ++ one_waits.queue)
    × (one_waits.lock.mutex ≡ none
        → 0 < asleep (map seen one_waits.places)
        → length one_waits.queue ≤ awake (map seen one_waits.places))
Statements-in_order_example = Statements-in_order suc 2 waits
