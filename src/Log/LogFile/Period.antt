-- ===== src/Log/LogFile/Period.antt =====
-- When base/log/LogFile.cc goes on to the next file.
use naive_net.Common.{ℕ, ◌≤◌, ◌<◌, ◌≡◌, ◌⊎◌, List, arith}
use naive_net.Common.Int.{ℤ}
use naive_net.File.{Stdio, open_file, flush}
use naive_net.Log.LogFile.{LogFile, period_of, roll_file, flush_file, check_file, append_unlocked}

module _ {W : Type 0} (io : Stdio W) (time_text : ℕ → List ℕ) (hostname : List ℕ) (pid : ℤ) where
  -- After a line, the file is no longer than the size to roll at, or else the clock has not gone on
  -- since the last roll.
  pub append_unlocked-size :
      (t : LogFile W) (line : List ℕ) (now later : ℕ)
      → ((append_unlocked io time_text hostname pid t line now later).file.written_bytes
          ≤ t.roll_size)
        ⊎ (later ≤ t.last_roll)
  unfolding append_unlocked roll_file check_file flush_file open_file flush period_of
  append_unlocked-size t line now later = ground arith

  -- What each step keeps: lines are counted up to the check, the period is that of the last roll, and
  -- no flush is noted before it.
  pub record IsLogFile (t : LogFile W) : Type 0 where
    pub counted : t.count < t.check_every_n
    pub period : t.start_of_period ≡ period_of io time_text hostname pid t.last_roll
    pub flushed : t.last_roll ≤ t.last_flush

  -- Where the clock does not go back, a line keeps `IsLogFile`: the count stays below the check, the
  -- period is that of the last roll, and the last flush is noted between the last roll and the
  -- reading of the clock.
  pub append_unlocked-IsLogFile :
      (t : LogFile W) (line : List ℕ) (now later : ℕ)
      → t.last_flush ≤ now
      → now ≤ later
      → IsLogFile t
      → IsLogFile (append_unlocked io time_text hostname pid t line now later)
        × ((append_unlocked io time_text hostname pid t line now later).last_flush ≤ later)
  unfolding append_unlocked roll_file check_file flush_file period_of
  append_unlocked-IsLogFile t line now later h k v = (
    record { counted = ground arith; period = ground arith; flushed = ground arith },
    ground arith,
  )
