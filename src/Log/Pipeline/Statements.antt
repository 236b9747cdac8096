-- ===== src/Log/Pipeline/Statements.antt =====
-- The logging statements of base/log/Logging.h in several threads, where `setOutput` has been given
-- `append` of base/log/AsyncLogging.h: what they make of its schedule.
use naive_net.Common.{
  ℕ, List, [], ◌∷◌, ◌++◌, Option, some, ◌>>=◌, Bool, true, false, if◌then◌else◌, ◌==◌,
}
use naive_net.Common.Int.{ℤ, pos}
use naive_net.Timestamp.{Timestamp}
use naive_net.TimeZone.Utc.{Tm}
use naive_net.TimeZone.Local.{TimeZone}
use naive_net.Log.Async.{Event}
use naive_net.Log.Stream.{Item}
use naive_net.Log.Logging.{LogLevel, Effect}
use naive_net.Log.Logging.Statement.{Site, LogThread, log_statement}

-- A statement that thread `thread` comes to, with its time and `errno`.
pub record Statement (D : Type 0) : Type 0 where
  pub thread : ℕ
  pub site : Site
  pub now : Timestamp
  pub errno : ℤ
  pub items : List (Item D)
  pub filename : List ℕ
  pub line : ℤ

-- What happens next: a statement, a step of the thread behind, or `stop`.
pub data Act (D : Type 0) : Type 0 where
  says : Statement D → Act D
  backend stop : Act D

-- The output function appends the line; `abort` ends the process, and `g_flush` is left as it is.
unfoldable pub lines_of : List Effect → List Event
lines_of [] = []
lines_of (Effect.output text ∷ effects) = Event.log text ∷ lines_of effects
lines_of (Effect.flush ∷ effects) = lines_of effects
lines_of (Effect.abort ∷ effects) = []

unfoldable pub aborts : List Effect → Bool
aborts [] = false
aborts (Effect.output text ∷ effects) = aborts effects
aborts (Effect.flush ∷ effects) = aborts effects
aborts (Effect.abort ∷ effects) = true

unfoldable pub set_thread : (ℕ → LogThread) → ℕ → LogThread → ℕ → LogThread
set_thread threads i th j = if j == i then th else threads j

module _ {D : Type 0} (print_g12 : D → List ℕ) (strerror_tl : ℤ → List ℕ) (memory : List ℕ)
    (gmtime_r : ℤ → Tm) (log_level : LogLevel) (tz : TimeZone) (number : ℕ → ℕ) where
  -- The steps of `AsyncLogging` that the threads make, up to the end of the process; thread `i` has the
  -- number `number i`, and `none` is a failed assertion.
  unfoldable pub schedule : (ℕ → LogThread) → List (Act D) → Option (List Event)
  unfolding lines_of aborts set_thread
  schedule threads [] = some []
  schedule threads (backend ∷ acts) = schedule threads acts >>= λ es. some (Event.backend ∷ es)
  schedule threads (stop ∷ acts) = schedule threads acts >>= λ es. some (Event.stop ∷ es)
  schedule threads (says s ∷ acts) =
      log_statement print_g12 strerror_tl memory gmtime_r log_level tz (threads s.thread) s.site
        s.now (pos (number s.thread)) s.errno s.items s.filename s.line
      >>= λ r.
          let rest = schedule (set_thread threads s.thread r.1) acts in
          if aborts r.0 then some (lines_of r.0) else rest >>= λ es. some (lines_of r.0 ++ es)
