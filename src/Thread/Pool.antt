-- ===== src/Thread/Pool.antt =====
-- `ThreadPool` of base/ThreadPool.h and base/ThreadPool.cc: the threads of the pool and those that call
-- `run`, with one step for each critical section and each test outside of one.
pub mod Invariant
pub mod Stop
pub mod Stuck
pub mod Telling
pub mod Wakeup
pub mod Executed
pub mod Life
use naive_net.Common.{
  ℕ, suc, ◌≡◌, ◌≢◌, List, [], ◌∷◌, ◌++◌, map, Option, some, Bool, true, false, ◌&&◌, ltb, leb,
  if◌then◌else◌, length, get_elem?, set, replicate,
}
use naive_net.Thread.Wait.{Sleeper, Notified}

module _ (Task : Type 0) where
  -- Where a thread of the pool is in `runInThread`: before the callback, at the test of its loop, in `take` with the mutex to
  -- get, in `notEmpty_.wait()`, with a task taken, or at its end.
  pub data Worker : Type 0 where
    starting : Worker
    at_loop : Worker
    taking : Worker
    waiting : Worker
    holding : Task → Worker
    exited : Worker

  -- Where a caller of `run` is: outside, in `run` with the mutex to get, or in `notFull_.wait()`.
  pub data Caller : Type 0 where
    outside : Caller
    putting : Task → Caller
    blocked : Task → Caller

  -- `init_callback` says whether `threadInitCallback_` is set, and `prepared` counts the calls that
  -- threads of the pool have made of it. `accepted` and `taken` note the tasks that were ever put into the queue and taken from it, and
  -- `executed` those that were called.
  pub record ThreadPool : Type 0 where
    pub max_queue_size : ℕ
    pub init_callback : Bool
    pub running : Bool
    pub queue : List Task
    pub workers : List Worker
    pub callers : List Caller
    pub prepared : ℕ
    pub accepted : List Task
    pub taken : List Task
    pub executed : List Task

module _ {Task : Type 0} where
  abbrev pub worker_sleeper : Sleeper (Worker Task)
  worker_sleeper = record {
    asleep = λ w. elim w [ waiting ↦ true | _ ↦ false ];
    wake = λ w. elim w [
      | waiting ↦ taking
      | starting ↦ starting
      | at_loop ↦ at_loop
      | taking ↦ taking
      | holding x ↦ holding x
      | exited ↦ exited
    ];
  }

  abbrev pub caller_sleeper : Sleeper (Caller Task)
  caller_sleeper = record {
    asleep = λ c. elim c [ blocked x ↦ true | _ ↦ false ];
    wake = λ c. elim c [ blocked x ↦ putting x | outside ↦ outside | putting x ↦ putting x ];
  }

  -- `setMaxQueueSize`, `setThreadInitCallback` and `start`, for `callers` threads outside of the pool.
  unfoldable pub start : ℕ → Bool → ℕ → ℕ → ThreadPool Task
  start max_size callback num_threads callers = record {
    max_queue_size = max_size;
    init_callback = callback;
    running = true;
    queue = [];
    workers = replicate num_threads starting;
    callers = replicate callers outside;
    prepared = 0;
    accepted = [];
    taken = [];
    executed = [];
  }

  unfoldable pub is_full : ThreadPool Task → Bool
  is_full s = ltb 0 s.max_queue_size && leb s.max_queue_size (length s.queue)

  -- What `stop` does under the mutex: `notEmpty_.notifyAll()` wakes every thread that waits.
  unfoldable pub stop : ThreadPool Task → ThreadPool Task
  stop s = record s { running = false; workers = map worker_sleeper.wake s.workers }

  -- `take` tells `notFull_` only if the queue is bounded.
  pub data Told (s : ThreadPool Task) : List (Caller Task) → Type 0 where
    unbounded : ltb 0 s.max_queue_size ≡ false → Told s s.callers
    bounded :
        {cs : List (Caller Task)}
        → ltb 0 s.max_queue_size ≡ true
        → Notified caller_sleeper s.callers cs
        → Told s cs

  -- A step of a caller or of a thread of the pool.
  pub data Move (s : ThreadPool Task) : ThreadPool Task → Type 0 where
    -- `run`, by caller `j`
    call :
        (j : ℕ) (x : Task)
        → get_elem? s.callers j ≡ some outside
        → Move s (record s { callers = set s.callers j (putting x) })
    run_here :
        (j : ℕ) (x : Task)
        → get_elem? s.callers j ≡ some (putting x)
        → s.workers ≡ []
        → Move s (record s { callers = set s.callers j outside; executed = s.executed ++ x ∷ [] })
    wait_not_full :
        (j : ℕ) (x : Task)
        → get_elem? s.callers j ≡ some (putting x)
        → s.workers ≢ []
        → is_full s ≡ true
        → Move s (record s { callers = set s.callers j (blocked x) })
    put :
        (j : ℕ) (x : Task) {ws : List (Worker Task)}
        → get_elem? s.callers j ≡ some (putting x)
        → s.workers ≢ []
        → is_full s ≡ false
        → Notified worker_sleeper s.workers ws
        → Move s (record s {
          callers = set s.callers j outside;
          queue = s.queue ++ x ∷ [];
          workers = ws;
          accepted = s.accepted ++ x ∷ [];
        })
    -- `runInThread` and `take`, by thread `i`
    prepare :
        (i : ℕ)
        → get_elem? s.workers i ≡ some starting
        → Move s (record s {
          workers = set s.workers i at_loop;
          prepared = if s.init_callback then suc s.prepared else s.prepared;
        })
    enter :
        (i : ℕ)
        → get_elem? s.workers i ≡ some at_loop
        → s.running ≡ true
        → Move s (record s { workers = set s.workers i taking })
    leave :
        (i : ℕ)
        → get_elem? s.workers i ≡ some at_loop
        → s.running ≡ false
        → Move s (record s { workers = set s.workers i exited })
    wait_not_empty :
        (i : ℕ)
        → get_elem? s.workers i ≡ some taking
        → s.queue ≡ []
        → s.running ≡ true
        → Move s (record s { workers = set s.workers i waiting })
    take_task :
        (i : ℕ) (x : Task) (q : List Task) {cs : List (Caller Task)}
        → get_elem? s.workers i ≡ some taking
        → s.queue ≡ x ∷ q
        → Told s cs
        → Move s (record s {
          workers = set s.workers i (holding x);
          queue = q;
          callers = cs;
          taken = s.taken ++ x ∷ [];
        })
    take_none :
        (i : ℕ)
        → get_elem? s.workers i ≡ some taking
        → s.queue ≡ []
        → s.running ≡ false
        → Move s (record s { workers = set s.workers i at_loop })
    execute :
        (i : ℕ) (x : Task)
        → get_elem? s.workers i ≡ some (holding x)
        → Move s (record s { workers = set s.workers i at_loop; executed = s.executed ++ x ∷ [] })
    -- A wait may end with no `notify`.
    wake_worker :
        (i : ℕ)
        → get_elem? s.workers i ≡ some waiting
        → Move s (record s { workers = set s.workers i taking })
    wake_caller :
        (j : ℕ) (x : Task)
        → get_elem? s.callers j ≡ some (blocked x)
        → Move s (record s { callers = set s.callers j (putting x) })

  pub data Step (s : ThreadPool Task) : ThreadPool Task → Type 0 where
    move : {t : ThreadPool Task} → Move s t → Step s t
    stop_pool : Step s (stop s)

  -- Any number of steps.
  pub data Moves (s : ThreadPool Task) : ThreadPool Task → Type 0 where
    none_left : Moves s s
    next_move : {t u : ThreadPool Task} → Moves s t → Move t u → Moves s u

  pub data Steps (s : ThreadPool Task) : ThreadPool Task → Type 0 where
    done : Steps s s
    next : {t u : ThreadPool Task} → Steps s t → Step t u → Steps s u
