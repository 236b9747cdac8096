-- ===== src/Log/Pipeline/Examples.antt =====
-- Two lines through the buffers of base/log/AsyncLogging.cc into files that roll at three bytes.
use naive_net.Common.{ℕ, ◌+◌, ◌≡◌, refl, List, [], ◌∷◌, ◌++◌, some, true, replicate, arith}
use naive_net.Common.Int.{pos}
use naive_net.File.{open_file}
use naive_net.Log.Buffer.{bzero, create, append, avail, memcpy, length_of, reset}
use naive_net.Log.Async.{
  AsyncLogging, Event, start, run, step, append_line, backend_step, collect, swap_buffers,
  assert_empty, refill_next, write, kept, resize2, refill, finish_round, pop_back, calls,
}
use naive_net.Log.Async.Output.{fit, is_never_full}
use naive_net.Log.Async.Texts.{held, text_of_events}
use naive_net.Log.LogFile
use naive_net.Log.LogFile.{LogFile, period_of, get_log_file_name}
use naive_net.Log.LogFile.Examples.{whole, no_text}
use naive_net.Log.LogFile.Rolling.{all_text}
use naive_net.Log.Pipeline.{output_file, call_files}
use naive_net.Log.Pipeline.Files.{run-files}

abbrev memory : List ℕ
memory = replicate 8 0

abbrev schedule : List Event
schedule =
    Event.log (1 ∷ 2 ∷ [])
    ∷ Event.backend
    ∷ Event.log (3 ∷ 4 ∷ [])
    ∷ Event.backend
    ∷ Event.backend
    ∷ []

abbrev pub basename : List ℕ
basename = b'l' ∷ []

abbrev pub clock : ℕ → ℕ × ℕ
clock n = (90001 + n, 90001 + n)

abbrev pub new_file : LogFile (List ℕ)
new_file = record {
  basename = basename;
  roll_size = 3;
  flush_interval = 3;
  check_every_n = 1024;
  count = 0;
  start_of_period = 86400;
  last_roll = 90000;
  last_flush = 90000;
  file = record { fp = []; written_bytes = 0; reports = 0 };
  closed = [];
}

pub new_file-output : output_file whole no_text [] (pos 1) basename 3 90000 ≡ some new_file
unfolding output_file naive_net.Log.LogFile.create period_of open_file
new_file-output = refl

schedule-fit : fit memory schedule ≡ true
unfolding fit
schedule-fit = refl

schedule-is_never_full : is_never_full memory no_text (start memory no_text) schedule ≡ true
unfolding is_never_full step start bzero create append_line append avail memcpy backend_step collect
    swap_buffers assert_empty length_of refill_next write kept resize2 refill finish_round pop_back
    reset calls
schedule-is_never_full = refl

run-files_example :
    (t : AsyncLogging) × (run memory no_text (start memory no_text) schedule ≡ some t)
    × (all_text whole (call_files whole no_text [] (pos 1) clock 0 new_file t.output) ++ held t
        ≡ text_of_events schedule)
run-files_example =
    run-files whole no_text [] (pos 1) (λ name. refl) (λ w bytes. refl) memory no_text schedule
      clock basename 3 90000 (omega arith) schedule-fit schedule-is_never_full new_file-output
