-- ===== src/Exception.antt =====
-- `Exception` of base/Exception.h and base/Exception.cc, with the stack at the place where it is made.
pub mod Lines
use naive_net.Common.{ℕ, List, [], ◌∷◌, ◌++◌, Option, none, some, length, take}

pub record Exception : Type 0 where
  pub message : List ℕ
  pub stack : List ℕ

-- The loop of `fillStackTrace` over the texts of the frames.
unfoldable pub append_frames : List ℕ → List (List ℕ) → List ℕ
append_frames stack [] = stack
append_frames stack (frame ∷ frames) = append_frames ((stack ++ frame) ++ 10 ∷ []) frames

-- `backtrace` gives at most as many frames as it is asked for, and `backtrace_symbols` their texts, or
-- nothing without memory.
module _ {A : Type 0} (backtrace : ℕ → List A)
    (backtrace_symbols : List A → Option (List (List ℕ))) where
  unfoldable pub fill_stack_trace : Exception → Exception
  unfolding append_frames
  fill_stack_trace e = elim (backtrace_symbols (backtrace 200)) [
    | none ↦ e
    | some strings ↦ record e { stack = append_frames e.stack strings }
  ]

  -- Both constructors.
  unfoldable pub make_exception : List ℕ → Exception
  unfolding fill_stack_trace
  make_exception msg = fill_stack_trace (record { message = msg; stack = [] })

-- `what` and `stackTrace`
unfoldable pub what : Exception → List ℕ
what e = e.message

unfoldable pub stack_trace : Exception → List ℕ
stack_trace e = e.stack
