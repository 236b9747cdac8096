-- ===== src/Log/Async/Shutdown.antt =====
-- The end of base/log/AsyncLogging.cc: what `stop` leaves unwritten.
use naive_net.Common.{
  ℕ, ◌≡◌, refl, ap, ◌∙◌, List, [], ◌∷◌, append-nil, some, ◌>>=◌, false, ltb, length, Bool-cases,
  inl, inr,
}
use naive_net.Log.Buffer.{avail}
use naive_net.Log.Async.{
  AsyncLogging, flush_call, Phase, Event, end_loop, append_line, backend_step, step, run,
}
use naive_net.Log.Async.Texts.{text_of_calls, text_of_calls-append}

module _ (memory : List ℕ) (now : ℕ → List ℕ) where
  ended-step :
      (t : AsyncLogging) (e : Event)
      → t.phase ≡ Phase.ended
      → (t' : AsyncLogging) × (step memory now t e ≡ some t')
        × (t'.phase ≡ Phase.ended)
        × (t'.output ≡ t.output)
  unfolding step append_line backend_step
  ended-step t (Event.log line) h = elim (Bool-cases (ltb (length line) (avail t.current_buffer))) [
    | inl e ↦ (_, refl, rw e h, rw e refl)
    | inr e ↦ (_, refl, rw e h, rw e refl)
  ]
  ended-step t Event.backend h = (t, ap (backend_step memory now t) h, h, refl)
  ended-step t Event.stop h = (_, refl, h, refl)

  run-ended :
      (t : AsyncLogging) (es : List Event)
      → t.phase ≡ Phase.ended
      → (t' : AsyncLogging) × (run memory now t es ≡ some t') × (t'.output ≡ t.output)
  unfolding run
  run-ended t [] h = (t, refl, refl)
  run-ended t (e ∷ es) h =
      let (u, s, p, o) = ended-step t e h in
      let (t', r, q) = run-ended u es p in (t', rw s r, q ∙ o)

  -- If `stop` is called when the thread is at the test of its loop, and the thread goes on next,
  -- nothing more is written, whatever steps follow: what is held then is lost.
  pub run-stop :
      (t : AsyncLogging) (es : List Event)
      → t.phase ≡ Phase.loop_test
      → (t' : AsyncLogging) × (run memory now t (Event.stop ∷ Event.backend ∷ es) ≡ some t')
        × (text_of_calls t'.output ≡ text_of_calls t.output)
  unfolding run step backend_step end_loop text_of_calls
  run-stop t es h =
      let (t', r, o) = run-ended (end_loop (record t { running = false })) es refl in
      (
        t',
        ap
              (λ p. backend_step memory now (record t { running = false }) p >>= λ u.
                run memory now u es)
              h
            ∙ r,
        ap text_of_calls o
            ∙ text_of_calls-append t.output (flush_call ∷ [])
            ∙ append-nil (text_of_calls t.output),
      )
