-- ===== src/Log/Async/Examples.antt =====
-- The logging threads of base/log/AsyncLogging.cc with buffers of eight bytes.
use naive_net.Common.{
  length, ◌⊎◌, ◌&&◌, false, ◌+◌, ℕ, ◌≡◌, ◌≤◌, refl, List, [], ◌∷◌, ◌++◌, some, true, replicate,
  arith,
}
use naive_net.Log.Async.{
  AsyncLogging, Event, Phase, start, run, step, append_line, backend_step, collect, swap_buffers,
  assert_empty, refill_next, append_call, flush_call, drop_message, write, kept, resize2, refill,
  finish_round, pop_back, calls,
}
use mathlib.Core.Option
use naive_net.Log.Buffer.{
  FixedBuffer, append, avail, memcpy, length_of, reset, create, bzero, as_string,
}
use naive_net.Log.Async.Invariant.{start-IsWorking, run-IsWorking}
use naive_net.Log.Async.Spare.{IsWorking}
use naive_net.Log.Async.Output.{is_never_full, fit}
use naive_net.Log.Async.Texts.{held, text_of_events, text_of_calls}
use naive_net.Log.Async.Drains.{run-drains}
use naive_net.Log.Async.Drops.{Written, run-Written}
use naive_net.Log.Async.Shutdown.{run-stop}

abbrev memory : List ℕ
memory = replicate 8 0

abbrev now : ℕ → List ℕ
now k = (48 + k) ∷ []

-- Two lines that do not fit into one buffer, and a round of the thread between them.
abbrev schedule : List Event
schedule =
    Event.log (1 ∷ 2 ∷ 3 ∷ 4 ∷ 5 ∷ [])
    ∷ Event.backend
    ∷ Event.log (6 ∷ 7 ∷ 8 ∷ 9 ∷ [])
    ∷ Event.backend
    ∷ Event.log (5 ∷ 5 ∷ 5 ∷ 5 ∷ 5 ∷ [])
    ∷ []

run-IsWorking_example :
    (t' : AsyncLogging) × (run memory now (start memory now) schedule ≡ some t') × IsWorking 8 t'
run-IsWorking_example =
    run-IsWorking memory now (start memory now) schedule (omega arith)
      (start-IsWorking memory now (omega arith))

abbrev idle : AsyncLogging
idle = record {
  running = true;
  current_buffer = record { size = 8; memory = 1 ∷ 2 ∷ 0 ∷ 0 ∷ 0 ∷ 0 ∷ 0 ∷ 0 ∷ []; cur = 2 };
  next_buffer = some (record { size = 8; memory = memory; cur = 0 });
  buffers = [];
  phase = Phase.loop_test;
  new_buffer1 = some (record { size = 8; memory = memory; cur = 0 });
  new_buffer2 = some (record { size = 8; memory = memory; cur = 0 });
  buffers_to_write = [];
  output = [];
}

abbrev one_line : List Event
one_line = Event.log (3 ∷ 4 ∷ []) ∷ Event.backend ∷ []

-- 27 buffers of two bytes are too many.
abbrev small_memory : List ℕ
small_memory = 0 ∷ 0 ∷ []

abbrev burst : List Event
burst = replicate 27 (Event.log (7 ∷ [])) ++ Event.backend ∷ Event.backend ∷ []

burst-fit : fit small_memory burst ≡ true
unfolding fit
burst-fit = refl

burst_dropped :
    Option.map (λ t. t.output) (run small_memory now (start small_memory now) burst)
    ≡ some (
        append_call (drop_message small_memory now 0 27)
        ∷ append_call (7 ∷ [])
        ∷ append_call (7 ∷ [])
        ∷ flush_call
        ∷ [])
unfolding run start step append_line append avail memcpy backend_step collect swap_buffers
    assert_empty length_of refill_next write kept resize2 refill finish_round pop_back reset calls
    create bzero as_string
burst_dropped = refl

run-Written_example :
    (t : AsyncLogging) × (run small_memory now (start small_memory now) burst ≡ some t)
    × ((l : List ℕ) × Written small_memory now l (length t.output) (text_of_calls t.output)
        × (l ++ held t ≡ text_of_events burst))
run-Written_example = run-Written small_memory now burst (omega arith) burst-fit

run-stop_example :
    (t' : AsyncLogging) × (run memory now idle (Event.stop ∷ Event.backend ∷ one_line) ≡ some t')
    × (text_of_calls t'.output ≡ text_of_calls idle.output)
run-stop_example = run-stop memory now idle one_line refl

abbrev new_buffer : FixedBuffer
new_buffer = record { size = 8; memory = memory; cur = 0 }

abbrev waiting : AsyncLogging
waiting = record {
  running = true;
  current_buffer = record { size = 8; memory = 3 ∷ 4 ∷ 0 ∷ 0 ∷ 0 ∷ 0 ∷ 0 ∷ 0 ∷ []; cur = 2 };
  next_buffer = some new_buffer;
  buffers = [];
  phase = Phase.loop_test;
  new_buffer1 = some new_buffer;
  new_buffer2 = some new_buffer;
  buffers_to_write = [];
  output = [];
}

waiting-run : run memory now (start memory now) (Event.log (3 ∷ 4 ∷ []) ∷ []) ≡ some waiting
unfolding run start step append_line append avail memcpy create bzero
waiting-run = refl

waiting-fit : fit memory (Event.log (3 ∷ 4 ∷ []) ∷ []) ≡ true
unfolding fit
waiting-fit = refl

run-drains_example :
    (k : ℕ) × (k ≤ 3)
    × (u : AsyncLogging) × (run memory now waiting (replicate k Event.backend) ≡ some u)
    × (held u ≡ [])
    × Written memory now
        (text_of_events (Event.log (3 ∷ 4 ∷ []) ∷ []))
        (length u.output)
        (text_of_calls u.output)
    × (((is_never_full memory now (start memory now) (Event.log (3 ∷ 4 ∷ []) ∷ [])
            && is_never_full memory now waiting (replicate k Event.backend))
          ≡ false)
        ⊎ (text_of_calls u.output ≡ text_of_events (Event.log (3 ∷ 4 ∷ []) ∷ [])))
run-drains_example =
    run-drains memory now (Event.log (3 ∷ 4 ∷ []) ∷ []) waiting (omega arith) waiting-fit
      waiting-run refl
