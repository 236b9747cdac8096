-- ===== src/Thread/Queue/Locking.antt =====
-- The statements of base/BlockingQueue.h under its mutex: who has it, what `holder_` says, and what the
-- queue holds meanwhile, against the steps of whole critical sections.
pub mod Seen
pub mod Turns
pub mod Refinement
pub mod Exclusion
pub mod Order
use naive_net.Common.{
  ℕ, zero, suc, ◌+◌, ◌≤◌, ◌<◌, ◌≡◌, ◌≢◌, refl, sym, ap, subst, ◌∙◌, ◌⊎◌, inl, inr, List, [], ◌∷◌,
  ◌++◌, map, Option, none, some, none-some, some-injective, Bool, true, false, length, get_elem?,
  set, replicate, arith, get_elem?-set_ne, get_elem?-set_self,
}
use naive_net.Thread.Wait.{Notified, nobody, somebody}
use naive_net.Thread.Mutex.{
  MutexLock, assign_holder, unassign_holder, pthread_mutex_lock, pthread_mutex_unlock,
}
use naive_net.Thread.Queue.{Taker, BlockingQueue, taker_sleeper, QueueStep}
use naive_net.Thread.Queue.Statements.{Place, SharedQueue, At, go, place_sleeper, Statement}

pub record Contents (T : Type 0) : Type 0 where
  pub queue : List T
  pub accepted : List T
  pub taken : List T

module _ {T : Type 0} where
  -- Where the steps of whole critical sections see a thread.
  unfoldable pub seen : Place T → Taker
  seen p = elim p [
    | Place.take_lock ↦ Taker.taking
    | Place.take_assign ↦ Taker.taking
    | Place.take_test ↦ Taker.taking
    | Place.take_front ↦ Taker.taking
    | Place.wait_unassign ↦ Taker.taking
    | Place.wait_release ↦ Taker.taking
    | Place.wait_lock ↦ Taker.taking
    | Place.wait_assign ↦ Taker.taking
    | Place.sleeping ↦ Taker.waiting
    | _ ↦ Taker.outside
  ]

  -- Between the lock and the unlock.
  unfoldable pub inside : Place T → Bool
  inside p = elim p [
    | Place.outside ↦ false
    | Place.put_lock x ↦ false
    | Place.take_lock ↦ false
    | Place.sleeping ↦ false
    | Place.wait_lock ↦ false
    | _ ↦ true
  ]

  abbrev pub shared_contents : SharedQueue T → Contents T
  shared_contents s = record { queue = s.queue; accepted = s.accepted; taken = s.taken }

  abbrev pub contents : BlockingQueue T → Contents T
  contents a = record { queue = a.queue; accepted = a.accepted; taken = a.taken }

  -- The contents with an element pushed that has not been notified of.
  abbrev pub pushed : T → Contents T → Contents T
  pushed x d = record {
    queue = d.queue ++ x ∷ [];
    accepted = d.accepted ++ x ∷ [];
    taken = d.taken;
  }

  -- What holds while thread `i` has the mutex and is at a place: the holder, and the contents against
  -- those that the critical sections see.
  unfoldable pub Holds : Place T → ℕ → ℕ → Contents T → Contents T → Type 0
  Holds (Place.put_assign x) tid holder c d = (holder ≡ 0) × (c ≡ d)
  Holds (Place.put_push x) tid holder c d = (holder ≡ tid) × (c ≡ d)
  Holds (Place.put_notify x) tid holder c d = (holder ≡ tid) × (c ≡ pushed x d)
  Holds Place.put_unassign tid holder c d = (holder ≡ tid) × (c ≡ d)
  Holds Place.put_unlock tid holder c d = (holder ≡ 0) × (c ≡ d)
  Holds Place.take_assign tid holder c d = (holder ≡ 0) × (c ≡ d)
  Holds Place.take_test tid holder c d = (holder ≡ tid) × (c ≡ d)
  Holds Place.take_front tid holder c d = (holder ≡ tid) × (c ≡ d) × (c.queue ≢ [])
  Holds Place.take_unassign tid holder c d = (holder ≡ tid) × (c ≡ d)
  Holds Place.take_unlock tid holder c d = (holder ≡ 0) × (c ≡ d)
  Holds Place.wait_unassign tid holder c d = (holder ≡ tid) × (c ≡ d) × (c.queue ≡ [])
  Holds Place.wait_release tid holder c d = (holder ≡ 0) × (c ≡ d) × (c.queue ≡ [])
  Holds Place.wait_assign tid holder c d = (holder ≡ 0) × (c ≡ d)
  Holds _ tid holder c d = ⊥

  -- No thread but `i` is between the lock and the unlock.
  abbrev pub Alone : ℕ → List (Place T) → Type 0
  Alone i ps = (j : ℕ) (p : Place T) → j ≢ i → get_elem? ps j ≡ some p → inside p ≡ false

  pub data InTurn (tid : ℕ → ℕ) (s : SharedQueue T) (a : BlockingQueue T) : Type 0 where
    free :
        s.lock.mutex ≡ none
        → s.lock.holder ≡ 0
        → shared_contents s ≡ contents a
        → ((j : ℕ) (p : Place T) → get_elem? s.places j ≡ some p → inside p ≡ false)
        → InTurn tid s a
    locked :
        (i : ℕ) (p : Place T)
        → s.lock.mutex ≡ some i
        → At s i p
        → inside p ≡ true
        → Holds p (tid i) s.lock.holder (shared_contents s) (contents a)
        → Alone i s.places
        → InTurn tid s a

  pub record Refines (tid : ℕ → ℕ) (s : SharedQueue T) (a : BlockingQueue T) : Type 0 where
    pub takers : a.takers ≡ map seen s.places
    pub in_turn : InTurn tid s a
