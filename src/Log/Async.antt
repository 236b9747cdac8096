-- ===== src/Log/Async.antt =====
-- `AsyncLogging` of base/log/AsyncLogging.h and base/log/AsyncLogging.cc: lines gathered in buffers
-- by the threads that log, and written to a file by one thread behind them. A critical section is
-- one step, as is what the thread does outside of it; a wait on `cond_` only lets other steps go
-- first. The variables of `threadFunc` stand in the state beside the members.
pub mod Spare
pub mod Invariant
pub mod Texts
pub mod Output
pub mod Drops
pub mod Drains
pub mod Shutdown
mod Examples
use naive_net.Common.{
  ℕ, ◌-◌, List, [], ◌∷◌, ◌++◌, map, Option, none, some, ◌>>=◌, Bool, true, false, ltb, ◌==◌,
  if◌then◌else◌, length, take,
}
use naive_net.Common.Printf.{decimal}
use naive_net.Log.Buffer.{FixedBuffer, create, length_of, avail, append, reset, bzero, as_string}

-- What `threadFunc` calls of its `LogFile`.
pub data Call : Type 0 where
  append_call : List ℕ → Call
  flush_call : Call

-- Where `threadFunc` is: before the test of its loop, after the critical section, or at its end.
pub data Phase : Type 0 where
  loop_test writing ended : Phase

pub record AsyncLogging : Type 0 where
  pub running : Bool
  pub current_buffer : FixedBuffer
  pub next_buffer : Option FixedBuffer
  pub buffers : List FixedBuffer
  pub phase : Phase
  pub new_buffer1 : Option FixedBuffer
  pub new_buffer2 : Option FixedBuffer
  pub buffers_to_write : List FixedBuffer
  pub output : List Call

pub data Event : Type 0 where
  log : List ℕ → Event
  backend stop : Event

-- `assert(newBuffer && newBuffer->length() == 0)`
unfoldable pub assert_empty : Option FixedBuffer → Option FixedBuffer
unfolding length_of
assert_empty none = none
assert_empty (some b) = if length_of b == 0 then some b else none

unfoldable pub pop_back : List FixedBuffer → Option (FixedBuffer × List FixedBuffer)
pop_back [] = none
pop_back (b ∷ []) = some (b, [])
pop_back (b ∷ c ∷ bs) = pop_back (c ∷ bs) >>= λ p. some (p.0, b ∷ p.1)

-- `if (!newBuffer) { newBuffer = buffersToWrite.pop_back(); newBuffer->reset(); }`
unfoldable pub refill :
    Option FixedBuffer → List FixedBuffer → Option (Option FixedBuffer × List FixedBuffer)
unfolding pop_back reset
refill (some b) bs = some (some b, bs)
refill none bs = pop_back bs >>= λ p. some (some (reset p.0), p.1)

-- `if (!nextBuffer_) nextBuffer_ = move(newBuffer2);`, with what is left of `newBuffer2`.
unfoldable pub refill_next :
    Option FixedBuffer → FixedBuffer → Option FixedBuffer × Option FixedBuffer
refill_next none b = (some b, none)
refill_next (some n) b = (some n, some b)

-- What the critical section of `threadFunc` does with the two new buffers.
unfoldable pub swap_buffers : AsyncLogging → FixedBuffer → FixedBuffer → AsyncLogging
unfolding refill_next
swap_buffers t b1 b2 = record t {
  phase = writing;
  buffers_to_write = t.buffers ++ t.current_buffer ∷ [];
  buffers = [];
  current_buffer = b1;
  new_buffer1 = none;
  next_buffer = (refill_next t.next_buffer b2).0;
  new_buffer2 = (refill_next t.next_buffer b2).1;
}

-- The assertions at the head of the loop, and the critical section.
unfoldable pub collect : AsyncLogging → Option AsyncLogging
unfolding assert_empty swap_buffers
collect t = assert_empty t.new_buffer1 >>= λ b1. assert_empty t.new_buffer2 >>= λ b2.
    if length t.buffers_to_write == 0 then some (swap_buffers t b1 b2) else none

unfoldable pub resize2 : List FixedBuffer → List FixedBuffer
resize2 bs = if ltb 2 (length bs) then take 2 bs else bs

unfoldable pub end_loop : AsyncLogging → AsyncLogging
end_loop t = record t { phase = ended; output = t.output ++ flush_call ∷ [] }

-- `memory` is what a new buffer holds before it is cleared, and its length is `kLargeBuffer`;
-- `now` gives the text of the time in a round, by the number of calls of the `LogFile` before it.
module _ (memory : List ℕ) (now : ℕ → List ℕ) where
  -- The constructor of `AsyncLogging`, `start`, and `threadFunc` up to its loop.
  unfoldable pub start : AsyncLogging
  unfolding create bzero
  start = record {
    running = true;
    current_buffer = bzero (create memory);
    next_buffer = some (bzero (create memory));
    buffers = [];
    phase = loop_test;
    new_buffer1 = some (bzero (create memory));
    new_buffer2 = some (bzero (create memory));
    buffers_to_write = [];
    output = [];
  }

  unfoldable pub next_or_new : Option FixedBuffer → FixedBuffer
  unfolding create
  next_or_new none = create memory
  next_or_new (some b) = b

  -- `append`
  unfoldable pub append_line : AsyncLogging → List ℕ → AsyncLogging
  unfolding avail next_or_new
  append_line t line =
      if ltb (length line) (avail t.current_buffer)
      then record t { current_buffer = append t.current_buffer line }
      else record t {
        buffers = t.buffers ++ t.current_buffer ∷ [];
        current_buffer = append (next_or_new t.next_buffer) line;
        next_buffer = none;
      }

  -- `snprintf` into 256 bytes, after `k` calls.
  unfoldable pub drop_message : ℕ → ℕ → List ℕ
  drop_message k n = take 255 (
      (b'D' ∷ b'r' ∷ b'o' ∷ b'p' ∷ b'p' ∷ b'e' ∷ b'd' ∷ b' ' ∷ b'l' ∷ b'o' ∷ b'g' ∷ b' ' ∷ b'm'
        ∷ b'e' ∷ b's' ∷ b's' ∷ b'a' ∷ b'g' ∷ b'e' ∷ b's' ∷ b' ' ∷ b'a' ∷ b't' ∷ b' ' ∷ [])
      ++ (now k
          ++ (b',' ∷ b' ' ∷ decimal (n - 2)
              ++ (b' ' ∷ b'l' ∷ b'a' ∷ b'r' ∷ b'g' ∷ b'e' ∷ b'r' ∷ b' ' ∷ b'b' ∷ b'u' ∷ b'f' ∷ b'f'
                  ∷ b'e' ∷ b'r' ∷ b's' ∷ 10 ∷ []))))

  -- More than 25 buffers are too many: all but two are dropped.
  unfoldable pub kept : List FixedBuffer → List FixedBuffer
  kept bs = if ltb 25 (length bs) then take 2 bs else bs

  unfoldable pub calls : ℕ → List FixedBuffer → List Call
  unfolding kept
  calls k bs =
      (if ltb 25 (length bs) then append_call (drop_message k (length bs)) ∷ [] else [])
      ++ map (λ b. append_call (as_string b)) (kept bs)

  -- The end of a round: the buffers are written, and two of them are used again.
  unfoldable pub finish_round :
      AsyncLogging → Option FixedBuffer → Option FixedBuffer → AsyncLogging
  unfolding calls
  finish_round t b1 b2 = record t {
    phase = loop_test;
    new_buffer1 = b1;
    new_buffer2 = b2;
    buffers_to_write = [];
    output = t.output ++ (calls (length t.output) t.buffers_to_write ++ flush_call ∷ []);
  }

  -- A round of `threadFunc` from the end of its critical section on.
  unfoldable pub write : AsyncLogging → Option AsyncLogging
  unfolding kept resize2 refill finish_round
  write t =
      if length t.buffers_to_write == 0
      then none
      else refill t.new_buffer1 (resize2 (kept t.buffers_to_write)) >>= λ p.
          refill t.new_buffer2 p.1 >>= λ q. some (finish_round t p.0 q.0)

  -- What the thread does next.
  unfoldable pub backend_step : AsyncLogging → Phase → Option AsyncLogging
  unfolding collect write end_loop
  backend_step t loop_test = if t.running then collect t else some (end_loop t)
  backend_step t writing = write t
  backend_step t ended = some t

  -- `none` is a failed assertion.
  unfoldable pub step : AsyncLogging → Event → Option AsyncLogging
  unfolding append_line backend_step
  step t (log line) = some (append_line t line)
  step t backend = backend_step t t.phase
  step t stop = some (record t { running = false })

  unfoldable pub run : AsyncLogging → List Event → Option AsyncLogging
  unfolding step
  run t [] = some t
  run t (e ∷ es) = step t e >>= λ t'. run t' es
