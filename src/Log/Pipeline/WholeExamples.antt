-- ===== src/Log/Pipeline/WholeExamples.antt =====
-- Two threads log, one line below the level, one above it and a fatal one, on the way of base/log/Logging.h
-- to base/log/LogFile.cc.
use naive_net.Common.{
  length, ℕ, ◌≡◌, refl, List, [], ◌∷◌, ◌++◌, some, replicate, arith, inl, inr, if◌then◌else◌, ◌==◌,
}
use naive_net.Common.Int.{ℤ, pos, quot}
use naive_net.Common.Printf.{decimal, decimal_onto, signed, blank_padded}
use naive_net.Log.Async.{AsyncLogging, Event, start, run}
use naive_net.Log.Async.Drops.{Written}
use naive_net.Log.Async.Texts.{held}
use naive_net.Log.Logging.{
  LogLevel, header_items, finish_items, log_level_name, source_file, after_last_slash, sys_level,
}
use naive_net.Log.Logging.Examples.{
  fixed_date, cache, cache-date, instant, instant-micros, seven, items, no_print, no_error,
}
use naive_net.Log.Logging.Statement.{
  Site, site_level, site_errno, site_items, LogThread, new_log_thread,
}
use naive_net.Log.LogFile.Examples.{whole, no_text}
use naive_net.Log.LogFile.Rolling.{all_text}
use naive_net.Log.Pipeline.{call_files}
use naive_net.Log.Pipeline.Examples.{basename, clock, new_file, new_file-output}
use naive_net.Log.Pipeline.Lines.{IsFine, lines}
use naive_net.Log.Pipeline.Statements.{Statement, Act, says, backend, schedule}
use naive_net.Log.Pipeline.Whole.{statements-files}
use naive_net.Log.Stream.Items.{texts_of, text_of, room_for_all, room_for, AreItems, IsItem}
use naive_net.Thread.CurrentThread.{new_thread}
use naive_net.Thread.CurrentThread.Text.{tid_text}
use naive_net.TimeZone.Local.{invalid_zone}

abbrev memory : List ℕ
memory = replicate 200 0

abbrev threads : ℕ → LogThread
threads i = new_log_thread

abbrev number : ℕ → ℕ
number i = if i == 0 then 42 else 43

abbrev statement : ℕ → Site → Statement (Unit {0})
statement i site = record {
  thread = i;
  site = site;
  now = instant;
  errno = pos 2;
  items = items;
  filename = b'a' ∷ b'/' ∷ b'b' ∷ [];
  line = pos 12;
}

abbrev acts : List (Act (Unit {0}))
acts =
    says (statement 0 (Site.log_trace (b'f' ∷ [])))
    ∷ says (statement 1 Site.log_syserr)
    ∷ backend
    ∷ says (statement 0 Site.log_fatal)
    ∷ backend
    ∷ []

abbrev date_then : ℤ → List ℕ
date_then t = cache.time_text

abbrev micros_then : ℤ → List ℕ
micros_then t = seven

abbrev Fine : Statement (Unit {0}) → Type 0
Fine =
    IsFine no_print no_error memory fixed_date LogLevel.info invalid_zone number memory date_then
      micros_then

trace_0-Fine : Fine (statement 0 (Site.log_trace (b'f' ∷ [])))
unfolding AreItems IsItem header_items finish_items site_items site_errno site_level room_for_all
    room_for log_level_name source_file after_last_slash texts_of text_of tid_text blank_padded
    signed decimal decimal_onto sys_level quot
trace_0-Fine = record {
  later = refl;
  has_date = cache-date;
  has_micros = instant-micros;
  items = omega arith;
  room = omega arith;
  short = omega arith;
}

syserr_1-Fine : Fine (statement 1 Site.log_syserr)
unfolding AreItems IsItem header_items finish_items site_items site_errno site_level room_for_all
    room_for log_level_name source_file after_last_slash texts_of text_of tid_text blank_padded
    signed decimal decimal_onto sys_level quot
syserr_1-Fine = record {
  later = refl;
  has_date = cache-date;
  has_micros = instant-micros;
  items = omega arith;
  room = omega arith;
  short = omega arith;
}

fatal_0-Fine : Fine (statement 0 Site.log_fatal)
unfolding AreItems IsItem header_items finish_items site_items site_errno site_level room_for_all
    room_for log_level_name source_file after_last_slash texts_of text_of tid_text blank_padded
    signed decimal decimal_onto sys_level quot
fatal_0-Fine = record {
  later = refl;
  has_date = cache-date;
  has_micros = instant-micros;
  items = omega arith;
  room = omega arith;
  short = omega arith;
}

statements-files_example :
    (es : List Event) × (schedule no_print no_error memory fixed_date LogLevel.info invalid_zone
        number threads acts
      ≡ some es)
    × (t : AsyncLogging) × (run memory no_text (start memory no_text) es ≡ some t)
    × (l : List ℕ) × Written memory no_text l
        (length t.output)
        (all_text whole (call_files whole no_text [] (pos 1) clock 0 new_file t.output))
    × (l ++ held t
        ≡ lines no_print no_error memory fixed_date LogLevel.info invalid_zone number memory
            date_then micros_then acts)
unfolding new_log_thread new_thread
statements-files_example =
    statements-files whole no_text [] (pos 1) (λ name. refl) (λ w bytes. refl) no_print no_error
      memory fixed_date LogLevel.info invalid_zone number threads acts memory no_text date_then
      micros_then clock basename 3 90000 (omega arith) (λ i. ground arith)
      (λ i. (inr refl, inl refl)) (trace_0-Fine, (syserr_1-Fine, (fatal_0-Fine, tt)))
      new_file-output
