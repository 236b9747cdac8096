-- ===== src/Log/Pipeline/Whole.antt =====
-- The whole way of a line, from a logging statement of base/log/Logging.h through base/log/AsyncLogging.cc
-- to the files of base/log/LogFile.cc.
use naive_net.Common.{ℕ, ◌<◌, ◌≡◌, ◌^◌, sym, ap, ◌∙◌, subst, List, [], ◌++◌, some, length}
use naive_net.Common.Int.{ℤ}
use naive_net.TimeZone.Utc.{Tm}
use naive_net.TimeZone.Local.{TimeZone}
use naive_net.File.{Stdio}
use naive_net.Log.Async.{AsyncLogging, Event, start, run}
use naive_net.Log.Async.Drops.{Written, run-Written}
use naive_net.Log.Async.Texts.{text_of_calls, held}
use naive_net.Log.LogFile.{LogFile}
use naive_net.Log.LogFile.Rolling.{all_text}
use naive_net.Log.Logging.{LogLevel}
use naive_net.Log.Logging.Statement.{LogThread, IsReady}
use naive_net.Log.Pipeline.{output_file, call_files}
use naive_net.Log.Pipeline.Files.{call_files-text, output_file-text}
use naive_net.Log.Pipeline.Lines.{AreFine, lines, schedule-Made}
use naive_net.Log.Pipeline.Statements.{Act, schedule}

module _ {W D : Type 0} (io : Stdio W) (time_text : ℕ → List ℕ) (hostname : List ℕ) (pid : ℤ)
    (contents_fopen : (name : List ℕ) → io.contents (io.fopen name) ≡ [])
    (fwrite_whole : (w : W) (bytes : List ℕ) → (io.fwrite w bytes).0 ≡ length bytes)
    (print_g12 : D → List ℕ) (strerror_tl : ℤ → List ℕ) (memory : List ℕ) (gmtime_r : ℤ → Tm)
    (log_level : LogLevel) (tz : TimeZone) (number : ℕ → ℕ) where
  -- Threads whose variables are theirs, or those of a new thread, come to logging statements, in any order
  -- with each other, with the steps of the thread behind and with `stop`; no time is in the first second of
  -- 1970, the texts of the times are `date` and `us`, each line
  -- has room in its stream and in a buffer, a new file is empty, `fwrite` takes all and the `LogFile` can
  -- be made. Then no assertion fails. The lines of the statements that are at the level or above, up to
  -- the first fatal one, are in order a text that has been written of and the one that the buffers hold;
  -- and of the first the files have, round by round, the buffers of the round, or where they are more
  -- than 25, a message with the time of that round and their number, and the first two.
  pub statements-files :
      (threads : ℕ → LogThread) (acts : List (Act D)) (large : List ℕ) (now : ℕ → List ℕ)
      (date us : ℤ → List ℕ) (clock : ℕ → ℕ × ℕ) (basename : List ℕ) (roll_size opened : ℕ)
      {f : LogFile W}
      → 0 < length large
      → ((i : ℕ) → (0 < number i) × (number i < 2 ^ 31))
      → ((i : ℕ) → IsReady gmtime_r tz (number i) (threads i))
      → AreFine print_g12 strerror_tl memory gmtime_r log_level tz number large date us acts
      → output_file io time_text hostname pid basename roll_size opened ≡ some f
      → (es : List Event) × (schedule print_g12 strerror_tl memory gmtime_r log_level tz number
            threads acts
          ≡ some es)
        × (t : AsyncLogging) × (run large now (start large now) es ≡ some t)
        × (l : List ℕ) × Written large now l
            (length t.output)
            (all_text io (call_files io time_text hostname pid clock 0 f t.output))
        × (l ++ held t
            ≡ lines print_g12 strerror_tl memory gmtime_r log_level tz number large date us acts)
  statements-files threads acts large now date us clock basename roll_size opened {f} room n r fine
        o =
      let (es, e, text, fits) =
        schedule-Made print_g12 strerror_tl memory gmtime_r log_level tz number large date us
          threads acts room n r fine in
      let (t, went, (l, w, h)) = run-Written large now es room fits in
      let files : all_text io (call_files io time_text hostname pid clock 0 f t.output)
          ≡ text_of_calls t.output =
        call_files-text io time_text hostname pid contents_fopen fwrite_whole clock 0 f t.output
        ∙ ap (λ x. x ++ text_of_calls t.output)
            (output_file-text io time_text hostname pid contents_fopen fwrite_whole basename
              roll_size opened o) in
      (es, e, t, went, l, subst (Written large now l (length t.output)) (sym files) w, h ∙ text)
