-- ===== src/Thread/Life/Examples.antt =====
-- A thread of base/Thread.cc with the number 42, started, run and joined.
use naive_net.Common.{◌≡◌, refl, [], ◌∷◌, some, true, false, arith}
use naive_net.Common.Int.{pos}
use naive_net.Common.Printf.{signed, decimal, decimal_onto}
use naive_net.Thread.CurrentThread.{new_thread, tid, after_fork}
use naive_net.Thread.CurrentThread.Text.{IsCached, tid-IsCached}
use naive_net.Thread.Life.{
  Thread, Handle, Run, Life, new_life, set_default_name, store_tid, run_name, join_handle, LifeStep,
  LifeSteps,
}
use naive_net.Thread.Life.Handles.{Says, LifeSteps-Says}

tid-IsCached_example :
    ((tid (pos 42) new_thread).0 ≡ pos 42)
    × IsCached 42 (tid (pos 42) new_thread).1
    × (tid (pos 7) (tid (pos 42) new_thread).1 ≡ tid (pos 42) new_thread)
    × IsCached 42 (after_fork (pos 42) new_thread)
tid-IsCached_example = tid-IsCached 42 (pos 7) new_thread (omega arith) (omega arith)

abbrev at_end : Thread
at_end = record { started = true; joined = true; tid = pos 42; name = b'a' ∷ [] }

abbrev joined : Life
joined = record {
  object = some at_end;
  handle = Handle.was_joined;
  run = Run.finished;
  aborted = false;
  printed = [];
}

four_steps : LifeSteps (new_life (pos 1) (b'a' ∷ [])) joined
unfolding new_life set_default_name store_tid run_name join_handle
four_steps =
    let o = record at_end { started = false; joined = false; tid = pos 0 } in
    let a = LifeSteps.next LifeSteps.done refl (LifeStep.start o refl refl) in
    let b = LifeSteps.next a refl (LifeStep.begin (b'a' ∷ []) (pos 42) refl) in
    let c = LifeSteps.next b refl (LifeStep.end (b'a' ∷ []) (b'a' ∷ []) refl) in
    LifeSteps.next c refl (LifeStep.join (record at_end { joined = false }) refl refl refl refl)

LifeSteps-Says_example : Says (some at_end) Handle.was_joined Run.finished
LifeSteps-Says_example = LifeSteps-Says (pos 1) (b'a' ∷ []) four_steps

-- The name of the first thread that is given none.
first_name : set_default_name (pos 1) [] ≡ b'T' ∷ b'h' ∷ b'r' ∷ b'e' ∷ b'a' ∷ b'd' ∷ b'1' ∷ []
unfolding set_default_name signed decimal decimal_onto
first_name = refl
