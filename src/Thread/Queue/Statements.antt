-- ===== src/Thread/Queue/Statements.antt =====
-- `put` and `take` of base/BlockingQueue.h statement by statement, with those of `lock`, `unlock`,
-- `UnassignGuard` and `Condition::wait` of base/Mutex.h and base/Condition.h that they run.
use naive_net.Common.{ℕ, ◌≡◌, List, [], ◌∷◌, ◌++◌, some, true, false, get_elem?, set, replicate}
use naive_net.Thread.Wait.{Sleeper, Notified}
use naive_net.Thread.Mutex.{
  MutexLock, new_mutex, assign_holder, unassign_holder, pthread_mutex_lock, pthread_mutex_unlock,
}

-- The statement that a thread runs next: in `put`, in `take` and in `wait`. In `sleeping` it is in
-- `pthread_cond_wait`, and in `wait_lock` there too, woken up and with the mutex to get.
pub data Place (T : Type 0) : Type 0 where
  outside : Place T
  put_lock put_assign put_push put_notify : T → Place T
  put_unassign put_unlock : Place T
  take_lock take_assign take_test take_front take_unassign take_unlock : Place T
  wait_unassign wait_release sleeping wait_lock wait_assign : Place T

-- `accepted` and `taken` note what was ever pushed and popped.
pub record SharedQueue (T : Type 0) : Type 0 where
  pub lock : MutexLock
  pub queue : List T
  pub places : List (Place T)
  pub accepted : List T
  pub taken : List T

module _ {T : Type 0} where
  abbrev pub place_sleeper : Sleeper (Place T)
  place_sleeper = record {
    asleep = λ p. elim p [ sleeping ↦ true | _ ↦ false ];
    wake = λ p. wait_lock;
  }

  -- Where a thread goes on after it has got the mutex, has set `holder_`, has cleared it and has given
  -- the mutex back.
  pub data AfterLock : Place T → Place T → Type 0 where
    put_locked : (x : T) → AfterLock (put_lock x) (put_assign x)
    take_locked : AfterLock take_lock take_assign
    wait_locked : AfterLock wait_lock wait_assign

  pub data AfterAssign : Place T → Place T → Type 0 where
    put_assigned : (x : T) → AfterAssign (put_assign x) (put_push x)
    take_assigned : AfterAssign take_assign take_test
    wait_assigned : AfterAssign wait_assign take_test

  pub data AfterUnassign : Place T → Place T → Type 0 where
    put_unassigned : AfterUnassign put_unassign put_unlock
    take_unassigned : AfterUnassign take_unassign take_unlock
    wait_unassigned : AfterUnassign wait_unassign wait_release

  pub data AfterUnlock : Place T → Place T → Type 0 where
    put_unlocked : AfterUnlock put_unlock outside
    take_unlocked : AfterUnlock take_unlock outside
    wait_released : AfterUnlock wait_release sleeping

  unfoldable pub new_shared : ℕ → SharedQueue T
  new_shared n = record {
    lock = new_mutex;
    queue = [];
    places = replicate n outside;
    accepted = [];
    taken = [];
  }

  -- Thread `i` is at `p`.
  abbrev pub At : SharedQueue T → ℕ → Place T → Type 0
  At s i p = get_elem? s.places i ≡ some p

  abbrev pub go : SharedQueue T → ℕ → Place T → SharedQueue T
  go s i p = record s { places = set s.places i p }

module _ (tid : ℕ → ℕ) {T : Type 0} where
  -- One statement of one thread.
  pub data Statement (s : SharedQueue T) : SharedQueue T → Type 0 where
    call_put : (i : ℕ) (x : T) → At s i outside → Statement s (go s i (put_lock x))
    call_take : (i : ℕ) → At s i outside → Statement s (go s i take_lock)
    get_mutex :
        (i : ℕ) {p p' : Place T} {m : MutexLock}
        → At s i p
        → AfterLock p p'
        → pthread_mutex_lock i s.lock ≡ some m
        → Statement s (record (go s i p') { lock = m })
    assign :
        (i : ℕ) {p p' : Place T}
        → At s i p
        → AfterAssign p p'
        → Statement s (record (go s i p') { lock = assign_holder (tid i) s.lock })
    push :
        (i : ℕ) (x : T)
        → At s i (put_push x)
        → Statement s (record (go s i (put_notify x)) {
          queue = s.queue ++ x ∷ [];
          accepted = s.accepted ++ x ∷ [];
        })
    notify :
        (i : ℕ) (x : T) {ps : List (Place T)}
        → At s i (put_notify x)
        → Notified place_sleeper s.places ps
        → Statement s (record s { places = set ps i put_unassign })
    test_empty : (i : ℕ) → At s i take_test → s.queue ≡ [] → Statement s (go s i wait_unassign)
    test_full :
        (i : ℕ) (x : T) (q : List T)
        → At s i take_test
        → s.queue ≡ x ∷ q
        → Statement s (go s i take_front)
    front :
        (i : ℕ) (x : T) (q : List T)
        → At s i take_front
        → s.queue ≡ x ∷ q
        → Statement s (record (go s i take_unassign) { queue = q; taken = s.taken ++ x ∷ [] })
    unassign :
        (i : ℕ) {p p' : Place T}
        → At s i p
        → AfterUnassign p p'
        → Statement s (record (go s i p') { lock = unassign_holder s.lock })
    give_mutex :
        (i : ℕ) {p p' : Place T}
        → At s i p
        → AfterUnlock p p'
        → Statement s (record (go s i p') { lock = pthread_mutex_unlock s.lock })
    -- A wait may end with no `notify`.
    wake_up : (i : ℕ) → At s i sleeping → Statement s (go s i wait_lock)

  pub data Statements (s : SharedQueue T) : SharedQueue T → Type 0 where
    done : Statements s s
    next : {t u : SharedQueue T} → Statements s t → Statement t u → Statements s u
