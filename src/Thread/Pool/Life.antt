-- ===== src/Thread/Pool/Life.antt =====
-- `ThreadPool` of base/ThreadPool.h and base/ThreadPool.cc from its constructor to its destructor, with
-- one thread that owns it: the setters, the loops of `start` and `stop`, and what an exception of a task
-- or of the callback does to the process.
pub mod Stays
pub mod Phases
pub mod Keeps
pub mod Joining
pub mod Ends
mod Examples
use naive_net.Common.{
  ℕ, suc, ◌+◌, ◌<◌, ◌≡◌, ◌≢◌, List, [], ◌∷◌, ◌++◌, some, Bool, true, false, ◌&&◌, if◌then◌else◌,
  ◌==◌, length, get_elem?, replicate, take, ltb, leb,
}
use naive_net.Common.Int.{pos}
use naive_net.Common.Printf.{signed}
use naive_net.Common.Text.{bytes}
use naive_net.Thread.Life.{
  Outcome, returned, threw_exception, threw_std_exception, threw_unknown, crash_report,
}
use naive_net.Thread.Pool.{Worker, Caller, ThreadPool, Move, stop}

-- The name of thread `i`, counted from 0: `name_` and `i + 1`, printed into 32 bytes.
unfoldable pub thread_name : List ℕ → ℕ → List ℕ
unfolding signed
thread_name name i = name ++ take 31 (signed (pos (i + 1)))

-- The handlers of `runInThread`, and of the thread beneath it for what is thrown on: what is printed
-- before the process ends.
unfoldable pub report : List ℕ → List ℕ → Outcome → List ℕ
unfolding crash_report
report pool thread returned = []
report pool thread (threw_exception what stack) =
    bytes "exception caught in ThreadPool "
    ++ (pool ++ (bytes "\nreason: " ++ (what ++ bytes "\n")))
report pool thread (threw_std_exception what) =
    bytes "exception caught in ThreadPool "
    ++ (pool ++ (bytes "\nreason: " ++ (what ++ bytes "\n")))
report pool thread threw_unknown =
    bytes "unknown exception caught in ThreadPool "
    ++ (pool ++ bytes "\n" ++ crash_report thread threw_unknown)

-- Where the owner is: before `start`, in its loop with `i` of `n` threads made, after it, in the loop of
-- `stop` with `i` threads joined, which the destructor may have called, after it, after the destructor.
pub data Owner : Type 0 where
  made : Owner
  starting_threads : ℕ → ℕ → Owner
  started : Owner
  joining : ℕ → Bool → Owner
  stopped : Owner
  gone : Owner

-- Outside of every function of the pool, and before the end of the destructor.
abbrev pub is_idle : Owner → Bool
is_idle made = true
is_idle started = true
is_idle stopped = true
is_idle (starting_threads n i) = false
is_idle (joining i last) = false
is_idle gone = false

abbrev pub is_there : Owner → Bool
is_there gone = false
is_there made = true
is_there (starting_threads n i) = true
is_there started = true
is_there (joining i last) = true
is_there stopped = true

module _ (Task : Type 0) where
  -- `names` has the names of the threads, `joined` counts those that are joined, and `called_here` the
  -- calls of the callback in `start`.
  pub record Life : Type 0 where
    pub owner : Owner
    pub pool : ThreadPool Task
    pub name : List ℕ
    pub names : List (List ℕ)
    pub joined : ℕ
    pub called_here : ℕ

  -- The process ends by an assertion, or by an exception, with what was printed.
  pub data Process : Type 0 where
    alive : Life → Process
    failed_assertion : Process
    aborted : List ℕ → Process

-- The constructor, with `callers` threads that may call `run`.
unfoldable pub new_pool : {Task : Type 0} → List ℕ → ℕ → Life Task
new_pool name callers = record {
  owner = made;
  pool = record {
    max_queue_size = 0;
    init_callback = false;
    running = false;
    queue = [];
    workers = [];
    callers = replicate callers Caller.outside;
    prepared = 0;
    accepted = [];
    taken = [];
    executed = [];
  };
  name = name;
  names = [];
  joined = 0;
  called_here = 0;
}

module _ {Task : Type 0} (outcome : Task → Outcome) (callback : Outcome) where
  -- A step of a thread of the pool in which what it calls returns.
  abbrev pub IsReturning : {s t : ThreadPool Task} → Move s t → Type 0
  IsReturning (Move.execute i x e) = outcome x ≡ returned
  IsReturning {s = s} (Move.prepare i e) = s.init_callback ≡ true → callback ≡ returned
  IsReturning (Move.call j x e) = Unit
  IsReturning (Move.run_here j x e z) = Unit
  IsReturning (Move.wait_not_full j x e z f) = Unit
  IsReturning (Move.put j x e z f n) = Unit
  IsReturning (Move.enter i e r) = Unit
  IsReturning (Move.leave i e r) = Unit
  IsReturning (Move.wait_not_empty i e z r) = Unit
  IsReturning (Move.take_task i x q e z n) = Unit
  IsReturning (Move.take_none i e z r) = Unit
  IsReturning (Move.wake_worker i e) = Unit
  IsReturning (Move.wake_caller j x e) = Unit

  pub data LifeStep (l : Life Task) : Process Task → Type 0 where
    set_max_queue_size :
        (max_size : ℕ)
        → l.owner ≡ made
        → LifeStep l (alive (record l { pool = record l.pool { max_queue_size = max_size } }))
    set_thread_init_callback :
        (given : Bool)
        → l.owner ≡ made
        → LifeStep l (alive (record l { pool = record l.pool { init_callback = given } }))
    -- `start`
    start :
        (n : ℕ)
        → is_idle l.owner ≡ true
        → l.pool.workers ≡ []
        → LifeStep l (
            alive
              (record l { owner = starting_threads n 0; pool = record l.pool { running = true } }))
    start_again : is_idle l.owner ≡ true → l.pool.workers ≢ [] → LifeStep l failed_assertion
    start_thread :
        (n i : ℕ)
        → l.owner ≡ starting_threads n i
        → i < n
        → LifeStep l (
            alive (record l {
              owner = starting_threads n (suc i);
              pool = record l.pool { workers = l.pool.workers ++ Worker.starting ∷ [] };
              names = l.names ++ thread_name l.name i ∷ [];
            }))
    -- An exception of the callback goes to the caller of `start`.
    start_ends :
        (n : ℕ)
        → l.owner ≡ starting_threads n n
        → LifeStep l (
            alive (record l {
              owner = started;
              called_here =
                  if n == 0 && l.pool.init_callback then suc l.called_here else l.called_here;
            }))
    -- `stop`, and the destructor, which calls it if `running_` is true
    stop_begins :
        is_idle l.owner ≡ true
        → LifeStep l (alive (record l { owner = joining 0 false; pool = stop l.pool }))
    destroy_running :
        is_idle l.owner ≡ true
        → l.pool.running ≡ true
        → LifeStep l (alive (record l { owner = joining 0 true; pool = stop l.pool }))
    destroy_stopped :
        is_idle l.owner ≡ true
        → l.pool.running ≡ false
        → LifeStep l (alive (record l { owner = gone }))
    -- `Thread::join` asserts that the thread has not been joined.
    join :
        (i : ℕ) (last : Bool)
        → l.owner ≡ joining i last
        → get_elem? l.pool.workers i ≡ some Worker.exited
        → leb l.joined i ≡ true
        → LifeStep l (alive (record l { owner = joining (suc i) last; joined = suc i }))
    join_again :
        (i : ℕ) (last : Bool)
        → l.owner ≡ joining i last
        → i < length l.pool.workers
        → ltb i l.joined ≡ true
        → LifeStep l failed_assertion
    stop_ends :
        (i : ℕ) (last : Bool)
        → l.owner ≡ joining i last
        → i ≡ length l.pool.workers
        → LifeStep l (alive (record l { owner = if last then gone else stopped }))
    -- the threads of the pool and those that call `run`
    move :
        {t : ThreadPool Task} (m : Move l.pool t)
        → is_there l.owner ≡ true
        → IsReturning m
        → LifeStep l (alive (record l { pool = t }))
    throw :
        (i : ℕ) (x : Task)
        → is_there l.owner ≡ true
        → get_elem? l.pool.workers i ≡ some (Worker.holding x)
        → outcome x ≢ returned
        → LifeStep l (aborted (report l.name (thread_name l.name i) (outcome x)))
    throw_in_callback :
        (i : ℕ)
        → is_there l.owner ≡ true
        → get_elem? l.pool.workers i ≡ some Worker.starting
        → l.pool.init_callback ≡ true
        → callback ≢ returned
        → LifeStep l (aborted (report l.name (thread_name l.name i) callback))

  -- Any number of steps.
  pub data LifeSteps (l : Life Task) : Process Task → Type 0 where
    at_first : LifeSteps l (alive l)
    later :
        {k : Life Task} {p : Process Task} → LifeSteps l (alive k) → LifeStep k p → LifeSteps l p
