-- ===== src/Log/LogFile.antt =====
-- `LogFile` of base/log/LogFile.h and base/log/LogFile.cc. A time is a number of seconds from 1970 on. An
-- operation is given what each of its calls of `time` reads; `mutex_` only makes it one step.
pub mod Rolling
pub mod Period
pub mod Examples
use naive_net.Common.{
  ℕ, suc, ◌+◌, ◌-◌, ◌*◌, ◌/◌, List, [], ◌∷◌, ◌++◌, Bool, true, false, ◌||◌, Option, none, some, ltb,
  leb, ◌==◌, if◌then◌else◌,
}
use naive_net.Common.Int.{ℤ}
use naive_net.Common.Printf.{signed}
use naive_net.File.{Stdio, AppendFile, open_file, append, flush}

abbrev pub roll_per_seconds : ℕ
roll_per_seconds = 60 * 60 * 24

-- `closed` is what became of the files that `file_` held before, the first one first.
pub record LogFile (W : Type 0) : Type 0 where
  pub basename : List ℕ
  pub roll_size : ℕ
  pub flush_interval : ℕ
  pub check_every_n : ℕ
  pub count : ℕ
  pub start_of_period : ℕ
  pub last_roll : ℕ
  pub last_flush : ℕ
  pub file : AppendFile W
  pub closed : List W

abbrev pub contains : ℕ → List ℕ → Bool
contains c [] = false
contains c (d ∷ ds) = (c == d) || contains c ds

-- `time_text` is the text of `strftime` under ".%Y%m%d-%H%M%S.", of the date by `gmtime_r`.
module _ {W : Type 0} (io : Stdio W) (time_text : ℕ → List ℕ) (hostname : List ℕ) (pid : ℤ) where
  -- `getLogFileName`
  unfoldable pub get_log_file_name : List ℕ → ℕ → List ℕ
  get_log_file_name basename now =
      basename
      ++ (time_text now ++ (hostname ++ (b'.' ∷ signed pid ++ (b'.' ∷ b'l' ∷ b'o' ∷ b'g' ∷ []))))

  unfoldable pub period_of : ℕ → ℕ
  period_of now = now / roll_per_seconds * roll_per_seconds

  -- `rollFile`, with what it returns.
  unfoldable pub roll_file : LogFile W → ℕ → LogFile W × Bool
  roll_file t now =
      if ltb t.last_roll now
      then (
        record t {
          last_roll = now;
          last_flush = now;
          start_of_period = period_of now;
          file = open_file io (get_log_file_name t.basename now);
          closed = t.closed ++ t.file.fp ∷ [];
        },
        true,
      )
      else (t, false)

  -- The constructor; `none` is the failed assertion on the name, or a `file_` that stays null, as
  -- `rollFile` opens no file where the clock reads 0.
  unfoldable pub create : List ℕ → ℕ → ℕ → ℕ → ℕ → Option (LogFile W)
  create basename roll_size flush_interval check_every_n now =
      if contains b'/' basename
      then none
      else if ltb 0 now
      then some record {
        basename = basename;
        roll_size = roll_size;
        flush_interval = flush_interval;
        check_every_n = check_every_n;
        count = 0;
        start_of_period = period_of now;
        last_roll = now;
        last_flush = now;
        file = open_file io (get_log_file_name basename now);
        closed = [];
      }
      else none

  unfoldable pub flush_file : LogFile W → LogFile W
  flush_file t = record t { file = flush io t.file }

  -- What `append_unlocked` does once in `checkEveryN_` lines; `now` is read first and `later` by
  -- `rollFile`.
  unfoldable pub check_file : LogFile W → ℕ → ℕ → LogFile W
  check_file t now later =
      if period_of now == t.start_of_period
      then (if ltb (t.last_flush + t.flush_interval) now
          then flush_file (record t { last_flush = now })
          else t)
      else (roll_file t later).0

  unfoldable pub append_unlocked : LogFile W → List ℕ → ℕ → ℕ → LogFile W
  append_unlocked t logline now later =
      let t' = record t { file = append io t.file logline } in
      if ltb t.roll_size t'.file.written_bytes
      then (roll_file t' later).0
      else if leb t.check_every_n (t.count + 1)
      then check_file (record t' { count = 0 }) now later
      else record t' { count = t.count + 1 }
