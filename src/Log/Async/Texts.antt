-- ===== src/Log/Async/Texts.antt =====
-- The texts that the buffers of base/log/AsyncLogging.cc hold, and those that have been written.
use naive_net.Common.{
  ℕ, ◌≡◌, refl, sym, ap, ◌∙◌, List, [], ◌∷◌, ◌++◌, map, append_assoc, append-nil, Bool, true, false,
  ◌&&◌, length, arith,
}
use naive_net.Log.Buffer.{FixedBuffer, as_string}
use naive_net.Log.Async.{AsyncLogging, Call, append_call, flush_call, Event}
use naive_net.Log.Async.Spare.{IsFresh}

-- The text of the calls, and that of the buffers.
unfoldable pub text_of_calls : List Call → List ℕ
text_of_calls [] = []
text_of_calls (append_call text ∷ cs) = text ++ text_of_calls cs
text_of_calls (flush_call ∷ cs) = text_of_calls cs

unfoldable pub text_of_buffers : List FixedBuffer → List ℕ
text_of_buffers [] = []
text_of_buffers (b ∷ bs) = as_string b ++ text_of_buffers bs

-- What is written and what is still held, in order.
unfoldable pub held : AsyncLogging → List ℕ
held t =
    text_of_buffers t.buffers_to_write ++ (text_of_buffers t.buffers ++ as_string t.current_buffer)

unfoldable pub total : AsyncLogging → List ℕ
total t = text_of_calls t.output ++ held t

pub text_of_buffers-append :
    (xs ys : List FixedBuffer)
    → text_of_buffers (xs ++ ys) ≡ text_of_buffers xs ++ text_of_buffers ys
unfolding text_of_buffers
text_of_buffers-append [] ys = refl
text_of_buffers-append (x ∷ xs) ys =
    ap (λ l. as_string x ++ l) (text_of_buffers-append xs ys) ∙ sym (append_assoc (as_string x) _ _)

pub text_of_buffers-snoc :
    (xs : List FixedBuffer) (x : FixedBuffer)
    → text_of_buffers (xs ++ x ∷ []) ≡ text_of_buffers xs ++ as_string x
unfolding text_of_buffers
text_of_buffers-snoc xs x =
    text_of_buffers-append xs (x ∷ [])
    ∙ ap (λ l. text_of_buffers xs ++ l) (append-nil (as_string x))

pub text_of_calls-append :
    (xs ys : List Call) → text_of_calls (xs ++ ys) ≡ text_of_calls xs ++ text_of_calls ys
unfolding text_of_calls
text_of_calls-append [] ys = refl
text_of_calls-append (append_call x ∷ xs) ys =
    ap (λ l. x ++ l) (text_of_calls-append xs ys) ∙ sym (append_assoc x _ _)
text_of_calls-append (flush_call ∷ xs) ys = text_of_calls-append xs ys

pub text_of_calls-map :
    (bs : List FixedBuffer)
    → text_of_calls (map (λ b. append_call (as_string b)) bs ++ flush_call ∷ [])
      ≡ text_of_buffers bs
unfolding text_of_calls text_of_buffers
text_of_calls-map [] = refl
text_of_calls-map (b ∷ bs) = ap (λ l. as_string b ++ l) (text_of_calls-map bs)

pub as_string-fresh : (size : ℕ) (b : FixedBuffer) → IsFresh size b → as_string b ≡ []
unfolding as_string
as_string-fresh size b f = rw (f.empty) refl

pub append_last : (a b c d : List ℕ) → a ++ (b ++ (c ++ d)) ≡ (a ++ (b ++ c)) ++ d
append_last a b c d = ap (λ l. a ++ l) (sym (append_assoc b c d)) ∙ sym (append_assoc a (b ++ c) d)

pub length_zero : (bs : List FixedBuffer) → length bs ≡ 0 → bs ≡ []
length_zero [] e = refl
length_zero (b ∷ bs) e = absurd (omega arith)

pub and-true : (a b : Bool) → (a && b) ≡ true → (a ≡ true) × (b ≡ true)
and-true true b e = (refl, e)
and-true false b e = absurd (ground arith)

abbrev pub event_text : Event → List ℕ
event_text (Event.log line) = line
event_text Event.backend = []
event_text Event.stop = []

unfoldable pub text_of_events : List Event → List ℕ
text_of_events [] = []
text_of_events (e ∷ es) = event_text e ++ text_of_events es
