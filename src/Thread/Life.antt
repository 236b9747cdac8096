-- ===== src/Thread/Life.antt =====
-- `Thread` of base/Thread.h and base/Thread.cc from its constructor on: the object, the thread of the
-- system that it starts, and `ThreadData`, which lives as long as that one runs.
pub mod Handles
mod Examples
use naive_net.Common.{
  ℕ, ◌≡◌, ◌≢◌, List, [], ◌∷◌, ◌++◌, Option, none, some, Bool, true, false, not, ◌&&◌, if◌then◌else◌,
  take,
}
use naive_net.Common.Int.{ℤ, pos}
use naive_net.Common.Printf.{signed}
use naive_net.Common.Text.{bytes}

-- `tid` is what `tid_` points to, and `func_` is left to the steps.
pub record Thread : Type 0 where
  pub started : Bool
  pub joined : Bool
  pub tid : ℤ
  pub name : List ℕ

-- What became of `pthreadId_`: `misused` where a thread is joined or detached that is not there.
pub data Handle : Type 0 where
  unmade live was_joined was_detached misused : Handle

-- The thread of the system: not yet there, before `runInThread`, in `func_` with `name_` and
-- `t_threadName`, after it.
pub data Run : Type 0 where
  not_there : Run
  created : List ℕ → Run
  running : List ℕ → List ℕ → Run
  finished crashed : Run

-- `object` is gone after the destructor; `printed` is what has gone to stderr.
pub record Life : Type 0 where
  pub object : Option Thread
  pub handle : Handle
  pub run : Run
  pub aborted : Bool
  pub printed : List ℕ

-- `setDefaultName` with the number of the thread: "Thread%d" into 32 bytes.
unfoldable pub set_default_name : ℤ → List ℕ → List ℕ
set_default_name num [] = take 31 ((b'T' ∷ b'h' ∷ b'r' ∷ b'e' ∷ b'a' ∷ b'd' ∷ []) ++ signed num)
set_default_name num (c ∷ name) = c ∷ name

unfoldable pub new_life : ℤ → List ℕ → Life
unfolding set_default_name
new_life num name = record {
  object =
      some
        (record { started = false; joined = false; tid = pos 0; name = set_default_name num name });
  handle = unmade;
  run = not_there;
  aborted = false;
  printed = [];
}

-- `pthread_join` and `pthread_detach`.
unfoldable pub join_handle : Handle → Handle
join_handle h = elim h [ live ↦ was_joined | _ ↦ misused ]

unfoldable pub detach_handle : Handle → Handle
detach_handle h = elim h [ live ↦ was_detached | _ ↦ misused ]

-- `wkTid_.lock()`: the number is stored if the object is still there.
unfoldable pub store_tid : ℤ → Option Thread → Option Thread
store_tid tid none = none
store_tid tid (some o) = some (record o { tid = tid })

-- The name of the running thread.
unfoldable pub run_name : List ℕ → List ℕ
run_name [] = b'm' ∷ b'u' ∷ b'd' ∷ b'u' ∷ b'o' ∷ b'T' ∷ b'h' ∷ b'r' ∷ b'e' ∷ b'a' ∷ b'd' ∷ []
run_name (c ∷ name) = c ∷ name

-- How a call ends: it returns, or throws an `Exception` with its message and its stack trace, another
-- `std::exception`, or anything else.
pub data Outcome : Type 0 where
  returned : Outcome
  threw_exception : List ℕ → List ℕ → Outcome
  threw_std_exception : List ℕ → Outcome
  threw_unknown : Outcome

-- What the handlers of `runInThread` print before the process ends.
unfoldable pub crash_report : List ℕ → Outcome → List ℕ
crash_report name returned = []
crash_report name (threw_exception what stack) =
    bytes "exception caught in Thread "
    ++ (name
        ++ (bytes "\nreason: " ++ (what ++ (bytes "\nstack trace: " ++ (stack ++ bytes "\n")))))
crash_report name (threw_std_exception what) =
    bytes "exception caught in Thread " ++ (name ++ (bytes "\nreason: " ++ (what ++ bytes "\n")))
crash_report name threw_unknown =
    bytes "unknown exception caught in Thread " ++ (name ++ bytes "\n")

-- The destructor.
unfoldable pub destroyed : Thread → Handle → Handle
unfolding detach_handle
destroyed o h = if o.started && not o.joined then detach_handle h else h

-- The caller's asserted conditions are those of the steps.
pub data LifeStep (s : Life) : Life → Type 0 where
  start :
      (o : Thread)
      → s.object ≡ some o
      → o.started ≡ false
      → LifeStep s (record s {
        object = some (record o { started = true });
        handle = live;
        run = created o.name;
      })
  start_fails :
      (o : Thread)
      → s.object ≡ some o
      → o.started ≡ false
      → LifeStep s (record s { object = some (record o { started = false }); aborted = true })
  begin :
      (name : List ℕ) (tid : ℤ)
      → s.run ≡ created name
      → LifeStep s
          (record s { object = store_tid tid s.object; run = running name (run_name name) })
  end :
      (name shown : List ℕ) → s.run ≡ running name shown → LifeStep s (record s { run = finished })
  -- Each exception ends the process.
  throws :
      (name shown : List ℕ) (o : Outcome)
      → s.run ≡ running name shown
      → o ≢ returned
      → LifeStep s
          (record s { run = crashed; aborted = true; printed = s.printed ++ crash_report name o })
  -- `pthread_join` waits for the end.
  join :
      (o : Thread)
      → s.object ≡ some o
      → o.started ≡ true
      → o.joined ≡ false
      → s.run ≡ finished
      → LifeStep s
          (record s { object = some (record o { joined = true }); handle = join_handle s.handle })
  destroy :
      (o : Thread)
      → s.object ≡ some o
      → LifeStep s (record s { object = none; handle = destroyed o s.handle })

-- No step comes after the process has been ended.
pub data LifeSteps (s : Life) : Life → Type 0 where
  done : LifeSteps s s
  next : {t u : Life} → LifeSteps s t → t.aborted ≡ false → LifeStep t u → LifeSteps s u
