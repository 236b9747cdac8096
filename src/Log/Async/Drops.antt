-- ===== src/Log/Async/Drops.antt =====
-- What the threads of base/log/AsyncLogging.cc write where they are too slow: of more than 25 buffers
-- the first two, behind a message.
use naive_net.Common.{
  suc, ◌+◌, map, length-append, ℕ, ◌≤◌, ◌<◌, ◌≡◌, refl, sym, ap, subst, ◌∙◌, List, [], ◌∷◌, ◌++◌,
  append_assoc, append-nil, some, Option, true, ltb, if◌then◌else◌, length, take, arith, Bool-cases,
  inl, inr, some-injective,
}
use naive_net.Log.Buffer.{FixedBuffer, as_string, create, bzero}
use naive_net.Log.Async.{
  AsyncLogging, append_call, flush_call, Phase, Event, collect, swap_buffers, finish_round,
  end_loop, drop_message, kept, calls, backend_step, step, start, run,
}
use naive_net.Log.Async.Invariant.{
  start-IsWorking, run-IsWorking, step-IsWorking, collect-IsWorking, write-IsWorking,
}
use naive_net.Log.Async.Spare.{IsWorking, IsPhase}
use naive_net.Log.Async.Output.{fit, held-append_line, output-append_line, held-swap_buffers}
use naive_net.Log.Async.Texts.{
  text_of_calls, text_of_buffers, held, text_of_calls-append, text_of_calls-map, and-true,
  event_text, text_of_events,
}

module _ (memory : List ℕ) (now : ℕ → List ℕ) where
  -- What is written of a text by a number of calls, round by round: the buffers of a round, or where they
  -- are more than 25, the message with the time and their number, and the first two.
  pub data Written : List ℕ → ℕ → List ℕ → Type 0 where
    nothing : Written [] 0 []
    flush_at_end : {logged out : List ℕ} {k : ℕ} → Written logged k out → Written logged (k + 1) out
    whole_round :
        {logged out : List ℕ} {k : ℕ} (bs : List FixedBuffer)
        → length bs ≤ 25
        → Written logged k out
        → Written (logged ++ text_of_buffers bs) (k + (length bs + 1)) (out ++ text_of_buffers bs)
    cut_round :
        {logged out : List ℕ} {k : ℕ} (bs : List FixedBuffer)
        → 25 < length bs
        → Written logged k out
        → Written
            (logged ++ text_of_buffers bs)
            (k + 4)
            (out ++ (drop_message memory now k (length bs) ++ text_of_buffers (take 2 bs)))

  -- The lines logged so far are what is written of, and what is held.
  abbrev pub Accounts : List ℕ → AsyncLogging → Type 0
  Accounts logged t =
      (l : List ℕ) × Written l (length t.output) (text_of_calls t.output) × (l ++ held t ≡ logged)

  length-calls :
      (bs : List FixedBuffer)
      → length (map (λ b. append_call (as_string b)) bs ++ flush_call ∷ []) ≡ length bs + 1
  length-calls [] = refl
  length-calls (b ∷ bs) = ap suc (length-calls bs) ∙ omega arith

  length-take2 : (bs : List FixedBuffer) → 25 < length bs → length (take 2 bs) ≡ 2
  length-take2 [] h = absurd (omega arith)
  length-take2 (b ∷ []) h = absurd (omega arith)
  length-take2 (b ∷ c ∷ bs) h = refl

  round-Written :
      {l out : List ℕ} {k : ℕ} (bs : List FixedBuffer)
      → Written l k out
      → Written
          (l ++ text_of_buffers bs)
          (k + length (calls memory now k bs ++ flush_call ∷ []))
          (out ++ text_of_calls (calls memory now k bs ++ flush_call ∷ []))
  unfolding calls kept text_of_calls
  round-Written bs w = elim (Bool-cases (ltb 25 (length bs))) [
    | inl e ↦
        rw
          (
            e,
            text_of_calls-map (take 2 bs),
            length-calls (take 2 bs),
            length-take2 bs (ground arith),
          )
          (cut_round bs (ground arith) w)
    | inr e ↦ rw (e, text_of_calls-map bs, length-calls bs) (whole_round bs (ground arith) w)
  ]

  finish_round-Accounts :
      (t : AsyncLogging) (b1 b2 : Option FixedBuffer) (logged : List ℕ)
      → Accounts logged t
      → Accounts logged (finish_round memory now t b1 b2)
  unfolding finish_round held text_of_buffers
  finish_round-Accounts t b1 b2 logged (l, w, e) = (
    l ++ text_of_buffers t.buffers_to_write,
    rw
        (
          text_of_calls-append t.output
              (calls memory now (length t.output) t.buffers_to_write ++ flush_call ∷ []),
          length-append t.output
              (calls memory now (length t.output) t.buffers_to_write ++ flush_call ∷ []),
        )
        (round-Written t.buffers_to_write w),
    append_assoc l (text_of_buffers t.buffers_to_write) _ ∙ e,
  )

  swapped :
      {l : List ℕ} (t : AsyncLogging) (b1 b2 : FixedBuffer)
      → Written l (length t.output) (text_of_calls t.output)
      → Written l
          (length (swap_buffers t b1 b2).output)
          (text_of_calls (swap_buffers t b1 b2).output)
  unfolding swap_buffers
  swapped t b1 b2 w = w

  end_loop-Accounts :
      (t : AsyncLogging) (logged : List ℕ) → Accounts logged t → Accounts logged (end_loop t)
  unfolding end_loop held text_of_calls
  end_loop-Accounts t logged (l, w, e) = (
    l,
    rw
        (
          text_of_calls-append t.output (flush_call ∷ []),
          append-nil (text_of_calls t.output),
          length-append t.output (flush_call ∷ []),
        )
        (flush_at_end w),
    e,
  )

  backend_step-Accounts :
      (t t' : AsyncLogging) (p : Phase) (logged : List ℕ)
      → IsWorking (length memory) t
      → t.phase ≡ p
      → backend_step memory now t p ≡ some t'
      → Accounts logged t
      → Accounts logged t'
  unfolding backend_step
  backend_step-Accounts t t' Phase.ended logged v e k a =
      subst (Accounts logged) (some-injective k) a
  backend_step-Accounts t t' Phase.writing logged v e k a =
      let (b1, b2, e', w) = write-IsWorking memory now t v e in
      subst (Accounts logged) (some-injective (sym e' ∙ k)) (finish_round-Accounts t b1 b2 logged a)
  backend_step-Accounts t t' Phase.loop_test logged v e k (l, w, a) = elim (Bool-cases t.running) [
    | inl r ↦
        let (b1, b2, f, e', u) = collect-IsWorking (length memory) t v e in
        let z =
          subst (λ p. IsPhase p t.buffers_to_write t.new_buffer1 t.new_buffer2) e v.in_phase in
        subst (Accounts logged)
          (some-injective
            (sym e' ∙ sym (ap (λ b. if b then collect t else some (end_loop t)) r) ∙ k))
          (l, swapped t b1 b2 w, ap (λ x. l ++ x) (held-swap_buffers memory now t b1 b2 z.0 f) ∙ a)
    | inr r ↦
        subst (Accounts logged)
          (some-injective (sym (ap (λ b. if b then collect t else some (end_loop t)) r) ∙ k))
          (end_loop-Accounts t logged (l, w, a))
  ]

  step-Accounts :
      (t t' : AsyncLogging) (e : Event) (logged : List ℕ)
      → IsWorking (length memory) t
      → length (event_text e) < length memory
      → step memory now t e ≡ some t'
      → Accounts logged t
      → Accounts (logged ++ event_text e) t'
  unfolding step held
  step-Accounts t t' (Event.log line) logged v h k (l, w, a) =
      subst (Accounts (logged ++ line)) (some-injective k) (
        l,
        subst (λ cs. Written l (length cs) (text_of_calls cs))
            (sym (output-append_line memory now t line)) w,
        ap (λ x. l ++ x) (held-append_line memory now t line h v)
            ∙ sym (append_assoc l (held t) line)
            ∙ ap (λ x. x ++ line) a,
      )
  step-Accounts t t' Event.backend logged v h k a =
      subst (λ x. Accounts x t') (sym (append-nil logged))
        (backend_step-Accounts t t' t.phase logged v refl k a)
  step-Accounts t t' Event.stop logged v h k a =
      subst (λ x. Accounts x t') (sym (append-nil logged))
        (subst (Accounts logged) (some-injective k) a)

  pub run-Accounts :
      (t t' : AsyncLogging) (es : List Event) (logged : List ℕ)
      → IsWorking (length memory) t
      → fit memory es ≡ true
      → run memory now t es ≡ some t'
      → Accounts logged t
      → Accounts (logged ++ text_of_events es) t'
  unfolding run fit text_of_events
  run-Accounts t t' [] logged v h r a =
      subst (λ x. Accounts x t') (sym (append-nil logged))
        (subst (Accounts logged) (some-injective r) a)
  run-Accounts t t' (e ∷ es) logged v h r a =
      let (h0, h1) = and-true (ltb (length (event_text e)) (length memory)) (fit memory es) h in
      let room : 0 < length memory = ground (arith, h0) in
      let (u, s, w) = step-IsWorking memory now t e room v in
      subst (λ x. Accounts x t') (append_assoc logged (event_text e) (text_of_events es))
        (run-Accounts u t' es (logged ++ event_text e) w h1 (rw s at r)
          (step-Accounts t u e logged v (ground (arith, h0)) s a))

  pub start-Accounts : Accounts [] (start memory now)
  unfolding start held text_of_calls text_of_buffers as_string create bzero
  start-Accounts = ([], nothing, refl)

  -- Where a buffer has a byte at least and the lines are shorter than it, every schedule of a new
  -- `AsyncLogging` runs without a failed assertion. The lines that were logged, in order, are a text
  -- that has been written of and the one that is held; and of the first is written, round by round, the
  -- buffers of the round, or where they are more than 25, a message with the time of that round and their
  -- number, and the first two.
  pub run-Written :
      (es : List Event)
      → 0 < length memory
      → fit memory es ≡ true
      → (t : AsyncLogging) × (run memory now (start memory now) es ≡ some t)
        × ((l : List ℕ) × Written l (length t.output) (text_of_calls t.output)
            × (l ++ held t ≡ text_of_events es))
  run-Written es room h =
      let v = start-IsWorking memory now room in
      let r = run-IsWorking memory now (start memory now) es room v in
      (r.0, r.1, run-Accounts (start memory now) r.0 es [] v h r.1 start-Accounts)
