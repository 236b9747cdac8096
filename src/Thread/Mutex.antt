-- ===== src/Thread/Mutex.antt =====
-- `MutexLock` of base/Mutex.h: the mutex of the system and `holder_`. A thread is an index; `tid` gives
-- its number in the system.
use naive_net.Common.{ℕ, Option, none, some, Bool, ◌==◌}
use naive_net.Common.Int.{ℤ, ◌+ℤ◌, ◌==ℤ◌}

-- `mutex` is the thread that has locked the mutex of the system.
pub record MutexLock : Type 0 where
  pub mutex : Option ℕ
  pub holder : ℕ

unfoldable pub new_mutex : MutexLock
new_mutex = record { mutex = none; holder = 0 }

unfoldable pub is_locked_by_this_thread : ℕ → MutexLock → Bool
is_locked_by_this_thread tid m = m.holder == tid

unfoldable pub assign_holder : ℕ → MutexLock → MutexLock
assign_holder tid m = record m { holder = tid }

unfoldable pub unassign_holder : MutexLock → MutexLock
unassign_holder m = record m { holder = 0 }

-- `pthread_mutex_lock`, which goes through where no thread has the mutex, and `pthread_mutex_unlock`.
unfoldable pub pthread_mutex_lock : ℕ → MutexLock → Option MutexLock
pthread_mutex_lock i m = elim m.mutex [ none ↦ some (record m { mutex = some i }) | some j ↦ none ]

unfoldable pub pthread_mutex_unlock : MutexLock → MutexLock
pthread_mutex_unlock m = record m { mutex = none }

-- `waitForSeconds` of base/Condition.cc: `clock` is the time in seconds and nanoseconds, and
-- `pthread_cond_timedwait` gives its number and the mutex afterwards.
unfoldable pub wait_for_seconds :
    (ℤ × ℤ → MutexLock → ℤ × MutexLock) → ℤ → ℕ → ℤ × ℤ → ℤ → MutexLock → Bool × MutexLock
unfolding assign_holder unassign_holder
wait_for_seconds pthread_cond_timedwait etimedout tid clock seconds m =
    let r = pthread_cond_timedwait (clock.0 +ℤ seconds, clock.1) (unassign_holder m) in
    (etimedout ==ℤ r.0, assign_holder tid r.1)
