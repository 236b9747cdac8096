-- ===== src/ProcessInfo/Globals.antt =====
-- What base/ProcessInfo.cc passes on: the numbers of the process and of its users, and the variables that
-- are set as the program starts.
use naive_net.Common.{ℕ, Bool, not}
use naive_net.Common.Int.{ℤ}
use naive_net.ProcessInfo.{System, to_int32}
use naive_net.Timestamp.{Timestamp}

pub record Globals : Type 0 where
  pub start_time : Timestamp
  pub clock_ticks : ℤ
  pub page_size : ℤ

-- `Timestamp::now` and the two calls of `sysconf`, cast to `int`.
unfoldable pub at_start : Timestamp → ℕ → ℕ → Globals
at_start now clock_ticks page_size = record {
  start_time = now;
  clock_ticks = to_int32 clock_ticks;
  page_size = to_int32 page_size;
}

unfoldable pub pid : {W : Type 0} → System W → ℤ
pid sys = sys.getpid

unfoldable pub uid : {W : Type 0} → System W → ℕ
uid sys = sys.getuid

unfoldable pub euid : {W : Type 0} → System W → ℕ
euid sys = sys.geteuid

unfoldable pub start_time : Globals → Timestamp
start_time g = g.start_time

unfoldable pub clock_ticks_per_second : Globals → ℤ
clock_ticks_per_second g = g.clock_ticks

unfoldable pub page_size : Globals → ℤ
page_size g = g.page_size

-- Whether `NDEBUG` is not defined.
unfoldable pub is_debug_build : Bool → Bool
is_debug_build ndebug = not ndebug
