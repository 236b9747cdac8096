-- ===== src/Log/Pipeline.antt =====
-- The thread of base/log/AsyncLogging.cc with the `LogFile` of base/log/LogFile.cc that it writes to.
pub mod Files
pub mod Statements
pub mod Lines
pub mod Whole
mod WholeExamples
pub mod Examples
use naive_net.Common.{ℕ, suc, List, [], ◌∷◌, Option}
use naive_net.Common.Int.{ℤ}
use naive_net.File.{Stdio}
use naive_net.Log.Async.{Call, append_call, flush_call}
use naive_net.Log.LogFile.{LogFile, create, flush_file, append_unlocked}

module _ {W : Type 0} (io : Stdio W) (time_text : ℕ → List ℕ) (hostname : List ℕ) (pid : ℤ) where
  -- `LogFile output(basename_, rollSize_, false)`, with the defaults of base/log/LogFile.h.
  unfoldable pub output_file : List ℕ → ℕ → ℕ → Option (LogFile W)
  output_file basename roll_size now =
      create io time_text hostname pid basename roll_size 3 1024 now

  -- One call of `threadFunc` on `output`: without a mutex `append` is `append_unlocked`.
  unfoldable pub call_file : LogFile W → Call → ℕ × ℕ → LogFile W
  call_file f (append_call text) clock =
      append_unlocked io time_text hostname pid f text clock.0 clock.1
  call_file f flush_call clock = flush_file io time_text hostname pid f

  -- All calls in turn; `clock` gives what the calls of `time` in the `n`-th one read.
  unfoldable pub call_files : (ℕ → ℕ × ℕ) → ℕ → LogFile W → List Call → LogFile W
  unfolding call_file
  call_files clock n f [] = f
  call_files clock n f (c ∷ cs) = call_files clock (suc n) (call_file f c (clock n)) cs
