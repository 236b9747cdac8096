-- ===== src/Log/Async/Output.antt =====
-- What the threads of base/log/AsyncLogging.cc write: the lines that were logged, in order, where
-- no buffer is dropped.
use naive_net.Common.{
  ℕ, ◌≤◌, ◌<◌, ◌≡◌, refl, sym, ap, subst, ◌∙◌, List, [], ◌∷◌, ◌++◌, map, append_assoc, append-nil,
  Option, none, some, Bool, true, false, ◌&&◌, ltb, leb, if◌then◌else◌, length, arith, Bool-cases,
  inl, inr, some-injective,
}
use naive_net.Log.Buffer.{FixedBuffer, avail, append, as_string, bzero, create}
use naive_net.Log.Buffer.Contents.{IsBuffer, as_string-append}
use naive_net.Log.Async.{
  AsyncLogging, append_call, flush_call, Phase, Event, collect, swap_buffers, finish_round,
  end_loop, next_or_new, append_line, kept, calls, backend_step, step, start, run,
}
use naive_net.Log.Async.Invariant.{
  next_or_new-IsFresh, step-IsWorking, collect-IsWorking, write-IsWorking,
}
use naive_net.Log.Async.Spare.{IsWorking, IsFresh, IsPhase}
use naive_net.Log.Async.Texts.{
  text_of_calls, text_of_buffers, held, total, text_of_buffers-snoc, text_of_calls-append,
  text_of_calls-map, as_string-fresh, append_last, length_zero, and-true, event_text,
  text_of_events,
}

module _ (memory : List ℕ) where
  -- Every line is shorter than a buffer.
  unfoldable pub fit : List Event → Bool
  fit [] = true
  fit (e ∷ es) = ltb (length (event_text e)) (length memory) && fit es

module _ (memory : List ℕ) (now : ℕ → List ℕ) where
  append-fits :
      (b : FixedBuffer) (line : List ℕ)
      → IsBuffer b
      → length line < avail b
      → as_string (append b line) ≡ as_string b ++ line
  append-fits b line v h =
      let fits : ltb (length line) (avail b) ≡ true = ground (arith, h) in
      rw fits at (as_string-append b line v).1

  pub held-append_line :
      (t : AsyncLogging) (line : List ℕ)
      → length line < length memory
      → IsWorking (length memory) t
      → held (append_line memory now t line) ≡ held t ++ line
  unfolding held append_line
  held-append_line t line h v = elim (Bool-cases (ltb (length line) (avail t.current_buffer))) [
    | inl e ↦
        rw (e, append-fits t.current_buffer line v.current.is_buffer (ground arith))
          (append_last _ _ (as_string t.current_buffer) line)
    | inr e ↦
        let f = next_or_new-IsFresh memory now t.next_buffer (omega arith) v.next in
        let room : length line < avail (next_or_new memory now t.next_buffer) =
          omega (arith, f.ours.size_is, f.empty) in
        rw
          (
            e,
            text_of_buffers-snoc t.buffers t.current_buffer,
            append-fits (next_or_new memory now t.next_buffer) line f.ours.is_buffer room,
            as_string-fresh (length memory) (next_or_new memory now t.next_buffer) f,
          )
          (sym (
            append_assoc (text_of_buffers t.buffers_to_write)
              (text_of_buffers t.buffers ++ as_string t.current_buffer) line))
  ]

  pub held-swap_buffers :
      (t : AsyncLogging) (b1 b2 : FixedBuffer)
      → length t.buffers_to_write ≡ 0
      → IsFresh (length memory) b1
      → held (swap_buffers t b1 b2) ≡ held t
  unfolding held swap_buffers text_of_buffers
  held-swap_buffers t b1 b2 e f =
      rw
        (
          length_zero t.buffers_to_write e,
          text_of_buffers-snoc t.buffers t.current_buffer,
          as_string-fresh (length memory) b1 f,
        )
        (append-nil (text_of_buffers t.buffers ++ as_string t.current_buffer))

  total-swap_buffers :
      (t : AsyncLogging) (b1 b2 : FixedBuffer)
      → length t.buffers_to_write ≡ 0
      → IsFresh (length memory) b1
      → total (swap_buffers t b1 b2) ≡ total t
  unfolding total swap_buffers
  total-swap_buffers t b1 b2 e f =
      ap (λ l. text_of_calls t.output ++ l) (held-swap_buffers t b1 b2 e f)

  total-finish_round :
      (t : AsyncLogging) (b1 b2 : Option FixedBuffer)
      → length t.buffers_to_write ≤ 25
      → total (finish_round memory now t b1 b2) ≡ total t
  unfolding total held finish_round calls kept text_of_buffers
  total-finish_round t b1 b2 h =
      let few : ltb 25 (length t.buffers_to_write) ≡ false = ground arith in
      rw
        (
          few,
          text_of_calls-append t.output
              (map (λ b. append_call (as_string b)) t.buffers_to_write ++ flush_call ∷ []),
          text_of_calls-map t.buffers_to_write,
        )
        (append_assoc (text_of_calls t.output) (text_of_buffers t.buffers_to_write) _)

  pub output-append_line :
      (t : AsyncLogging) (line : List ℕ) → (append_line memory now t line).output ≡ t.output
  unfolding append_line
  output-append_line t line = ground arith

  total-append_line :
      (t : AsyncLogging) (line : List ℕ)
      → length line < length memory
      → IsWorking (length memory) t
      → total (append_line memory now t line) ≡ total t ++ line
  unfolding total
  total-append_line t line h v =
      ap (λ cs. text_of_calls cs ++ held (append_line memory now t line))
        (output-append_line t line)
      ∙ ap (λ l. text_of_calls t.output ++ l) (held-append_line t line h v)
      ∙ sym (append_assoc (text_of_calls t.output) (held t) line)

  total-stop : (t : AsyncLogging) → total (record t { running = false }) ≡ total t ++ []
  unfolding total held
  total-stop t = sym (append-nil (total t))

  total-end_loop : (t : AsyncLogging) → total (end_loop t) ≡ total t
  unfolding total held end_loop text_of_calls
  total-end_loop t =
      rw (text_of_calls-append t.output (flush_call ∷ []), append-nil (text_of_calls t.output))

  -- The buffers to write are never more than 25.
  unfoldable pub is_never_full : AsyncLogging → List Event → Bool
  unfolding step
  is_never_full t [] = true
  is_never_full t (e ∷ es) =
      leb (length t.buffers_to_write) 25
      && elim (step memory now t e) [ none ↦ true | some t' ↦ is_never_full t' es ]

  backend_step-total :
      (t t' : AsyncLogging) (p : Phase)
      → IsWorking (length memory) t
      → t.phase ≡ p
      → length t.buffers_to_write ≤ 25
      → backend_step memory now t p ≡ some t'
      → total t' ≡ total t
  unfolding backend_step
  backend_step-total t t' Phase.ended v e h k = ap total (sym (some-injective k))
  backend_step-total t t' Phase.writing v e h k =
      let (b1, b2, e', w) = write-IsWorking memory now t v e in
      ap total (some-injective (sym k ∙ e')) ∙ total-finish_round t b1 b2 h
  backend_step-total t t' Phase.loop_test v e h k = elim (Bool-cases t.running) [
    | inl r ↦
        let (b1, b2, f, e', w) = collect-IsWorking (length memory) t v e in
        let z =
          subst (λ p. IsPhase p t.buffers_to_write t.new_buffer1 t.new_buffer2) e v.in_phase in
        ap total
          (some-injective (sym k ∙ ap (λ b. if b then collect t else some (end_loop t)) r ∙ e'))
        ∙ total-swap_buffers t b1 b2 z.0 f
    | inr r ↦
        ap total (some-injective (sym k ∙ ap (λ b. if b then collect t else some (end_loop t)) r))
        ∙ total-end_loop t
  ]

  step-total :
      (t t' : AsyncLogging) (e : Event)
      → IsWorking (length memory) t
      → length t.buffers_to_write ≤ 25
      → length (event_text e) < length memory
      → step memory now t e ≡ some t'
      → total t' ≡ total t ++ event_text e
  unfolding step
  step-total t t' (Event.log line) v h k e =
      ap total (sym (some-injective e)) ∙ total-append_line t line k v
  step-total t t' Event.backend v h k e =
      backend_step-total t t' t.phase v refl h e ∙ sym (append-nil (total t))
  step-total t t' Event.stop v h k e = ap total (sym (some-injective e)) ∙ total-stop t

  pub total-start : total (start memory now) ≡ []
  unfolding total held start text_of_calls text_of_buffers as_string bzero create
  total-start = refl

  -- From a well-formed state, where the lines are shorter than a buffer and the buffers to write are
  -- never more than 25, what is written and what is held at the end make up what was there before
  -- and the lines that are logged, in order.
  pub run-total :
      (t t' : AsyncLogging) (es : List Event)
      → IsWorking (length memory) t
      → fit memory es ≡ true
      → is_never_full t es ≡ true
      → run memory now t es ≡ some t'
      → total t' ≡ total t ++ text_of_events es
  unfolding run fit is_never_full text_of_events
  run-total t t' [] v h k e = ap total (sym (some-injective e)) ∙ sym (append-nil (total t))
  run-total t t' (e ∷ es) v h k r =
      let (h0, h1) = and-true (ltb (length (event_text e)) (length memory)) (fit memory es) h in
      let (k0, k1) =
        and-true (leb (length t.buffers_to_write) 25)
          (elim (step memory now t e) [ none ↦ true | some u ↦ is_never_full u es ]) k in
      let room : 0 < length memory = ground (arith, h0) in
      let (u, s, w) = step-IsWorking memory now t e room v in
      run-total u t' es w h1 (rw s at k1) (rw s at r)
      ∙ ap (λ l. l ++ text_of_events es)
          (step-total t u e v (ground (arith, k0)) (ground (arith, h0)) s)
      ∙ append_assoc (total t) (event_text e) (text_of_events es)
