-- ===== src/Log/Logging.antt =====
-- `Logger` of base/log/Logging.h and base/log/Logging.cc: one line of the log, from its header to the
-- output function. The variables of a thread, `t_lastSecond` and `t_time`, are a `TimeCache`.
pub mod Time
pub mod Line
pub mod Statement
pub mod Globals
pub mod Examples
use naive_net.Common.{
  ℕ, List, [], ◌∷◌, ◌++◌, Option, none, some, ◌>>=◌, Bool, true, false, leb, ◌==◌, if◌then◌else◌,
  length,
}
use naive_net.Common.Int.{ℤ, pos, quot, rem, ◌==ℤ◌}
use naive_net.Common.Printf.{zero_padded}
use naive_net.Log.Buffer.{create, as_string}
use naive_net.Log.Stream.{LogStream, Item, put_all, small_buffer}
use naive_net.TimeZone.Utc.{Tm}
use naive_net.TimeZone.Local.{TimeZone, valid, to_local_time}
use naive_net.Timestamp.{Timestamp, micro_seconds_per_second, date_text}

pub data LogLevel : Type 0 where
  trace debug info warn error fatal : LogLevel

-- The number of a level in the `enum`.
abbrev pub level_number : LogLevel → ℕ
level_number trace = 0
level_number debug = 1
level_number info = 2
level_number warn = 3
level_number error = 4
level_number fatal = 5

-- `LogLevelName`
unfoldable pub log_level_name : LogLevel → List ℕ
log_level_name trace = b'T' ∷ b'R' ∷ b'A' ∷ b'C' ∷ b'E' ∷ b' ' ∷ []
log_level_name debug = b'D' ∷ b'E' ∷ b'B' ∷ b'U' ∷ b'G' ∷ b' ' ∷ []
log_level_name info = b'I' ∷ b'N' ∷ b'F' ∷ b'O' ∷ b' ' ∷ b' ' ∷ []
log_level_name warn = b'W' ∷ b'A' ∷ b'R' ∷ b'N' ∷ b' ' ∷ b' ' ∷ []
log_level_name error = b'E' ∷ b'R' ∷ b'R' ∷ b'O' ∷ b'R' ∷ b' ' ∷ []
log_level_name fatal = b'F' ∷ b'A' ∷ b'T' ∷ b'A' ∷ b'L' ∷ b' ' ∷ []

-- `initLogLevel`, by whether the two variables of the environment are set.
unfoldable pub init_log_level : Bool → Bool → LogLevel
init_log_level true set_debug = trace
init_log_level false true = debug
init_log_level false false = info

-- The macros: `LOG_TRACE`, `LOG_DEBUG` and `LOG_INFO` test the level, the others do not.
unfoldable pub is_logged : LogLevel → LogLevel → Bool
is_logged log_level trace = leb (level_number log_level) (level_number trace)
is_logged log_level debug = leb (level_number log_level) (level_number debug)
is_logged log_level info = leb (level_number log_level) (level_number info)
is_logged log_level warn = true
is_logged log_level error = true
is_logged log_level fatal = true

-- The level of `LOG_SYSERR` and `LOG_SYSFATAL`.
unfoldable pub sys_level : Bool → LogLevel
sys_level to_abort = if to_abort then fatal else error

-- `strrchr(text, '/') + 1`, if there is one.
unfoldable pub after_last_slash : List ℕ → Option (List ℕ)
after_last_slash [] = none
after_last_slash (c ∷ cs) =
    let found = after_last_slash cs in
    elim found [ some rest ↦ some rest | none ↦ if c == b'/' then some cs else none ]

-- The bytes of a `SourceFile`.
unfoldable pub source_file : List ℕ → List ℕ
unfolding after_last_slash
source_file filename = elim (after_last_slash filename) [ none ↦ filename | some rest ↦ rest ]

pub record TimeCache : Type 0 where
  pub last_second : ℤ
  pub time_text : List ℕ

-- The variables of a new thread: `t_lastSecond` is 0, and `t_time` is empty.
unfoldable pub new_cache : TimeCache
new_cache = record { last_second = pos 0; time_text = [] }

module _ (gmtime_r : ℤ → Tm) where
  -- The date of a second, by `g_logTimeZone` if that is valid.
  unfoldable pub log_date : TimeZone → ℤ → Option Tm
  log_date tz seconds =
      if valid tz then to_local_time gmtime_r tz seconds else some (gmtime_r seconds)

  -- `snprintf` into `t_time`, with the assertion on its length.
  unfoldable pub date_17 : TimeZone → ℤ → Option (List ℕ)
  date_17 tz seconds = log_date tz seconds >>= λ tm.
      if length (date_text tm) == 17 then some (date_text tm) else none

  unfoldable pub refresh : TimeZone → TimeCache → ℤ → Option TimeCache
  refresh tz cache seconds =
      if seconds ==ℤ cache.last_second
      then some cache
      else date_17 tz seconds >>= λ text. some record { last_second = seconds; time_text = text }

  -- ".%06d " or ".%06dZ ", with the assertion on its length.
  unfoldable pub micros_text : TimeZone → ℤ → Option (List ℕ)
  micros_text tz us =
      let text = b'.' ∷ zero_padded 6 us ++ (if valid tz then b' ' ∷ [] else b'Z' ∷ b' ' ∷ []) in
      if length text == (if valid tz then 8 else 9) then some text else none

  -- `formatTime`: the two texts that it puts, and the variables of the thread; `none` is a failed
  -- assertion.
  unfoldable pub format_time :
      TimeZone → TimeCache → Timestamp → Option (TimeCache × List ℕ × List ℕ)
  format_time tz cache t =
      refresh tz cache (quot t.micro_seconds_since_epoch micro_seconds_per_second) >>= λ cache'.
      micros_text tz (rem t.micro_seconds_since_epoch micro_seconds_per_second) >>= λ us.
      some (cache', cache'.time_text, us)

-- What the destructor does with the output and flush functions.
pub data Effect : Type 0 where
  output : List ℕ → Effect
  flush abort : Effect

module _ {D : Type 0} (strerror_tl : ℤ → List ℕ) (tid_string : List ℕ) where
  abbrev errno_items : ℤ → List (Item D)
  errno_items saved_errno =
      if saved_errno ==ℤ pos 0
      then []
      else Item.c_str (some (strerror_tl saved_errno))
        ∷ Item.c_str (some (b' ' ∷ b'(' ∷ b'e' ∷ b'r' ∷ b'r' ∷ b'n' ∷ b'o' ∷ b'=' ∷ []))
        ∷ Item.int saved_errno
        ∷ Item.c_str (some (b')' ∷ b' ' ∷ []))
        ∷ []

  -- What the constructor of `Impl` puts.
  unfoldable pub header_items : List ℕ → List ℕ → LogLevel → ℤ → List (Item D)
  header_items date us level saved_errno =
      Item.string_piece date
      ∷ Item.string_piece us
      ∷ Item.string_piece tid_string
      ∷ Item.string_piece (log_level_name level)
      ∷ errno_items saved_errno

module _ {D : Type 0} where
  -- What `finish` puts.
  unfoldable pub finish_items : List ℕ → ℤ → List (Item D)
  finish_items filename line =
      Item.c_str (some (b' ' ∷ b'-' ∷ b' ' ∷ []))
      ∷ Item.string_piece (source_file filename)
      ∷ Item.char b':'
      ∷ Item.int line
      ∷ Item.char 10
      ∷ []

-- `print_g12` is the text of `printf("%.12g")`, `memory` what the buffer of a new stream holds, and
-- `tid_string` that of the thread.
module _ {D : Type 0} (print_g12 : D → List ℕ) (strerror_tl : ℤ → List ℕ)
    (memory tid_string : List ℕ) where
  -- A line of the log: the constructor, the items of the user and the destructor.
  unfoldable pub log_line :
      List ℕ → List ℕ → LogLevel → ℤ → List (Item D) → List ℕ → ℤ → List Effect
  log_line date us level saved_errno items filename line =
      let stream =
        put_all print_g12 (record { buffer = create memory })
          (header_items strerror_tl tid_string date us level saved_errno
            ++ (items ++ finish_items filename line)) in
      output (as_string stream.buffer) ∷ elim level [ fatal ↦ flush ∷ abort ∷ [] | _ ↦ [] ]
