-- ===== src/Log/Async/Drains.antt =====
-- As long as it is not stopped, the thread of base/log/AsyncLogging.cc empties the buffers.
use naive_net.Common.{
  ◌⊎◌, ◌&&◌, false, ℕ, zero, suc, ◌≤◌, ◌<◌, ◌≡◌, ◌≢◌, refl, sym, ap, subst, ◌∙◌, List, [], ◌∷◌,
  ◌++◌, append-nil, some, some-injective, true, if◌then◌else◌, length, replicate, arith, Bool-cases,
  inl, inr,
}
use naive_net.Log.Buffer.{as_string}
use naive_net.Log.Async.{
  AsyncLogging, Phase, Event, collect, swap_buffers, finish_round, end_loop, append_line,
  backend_step, step, start, run,
}
use naive_net.Log.Async.Drops.{Written, run-Accounts, start-Accounts}
use naive_net.Log.Async.Invariant.{
  collect-IsWorking, write-IsWorking, start-IsWorking, run-IsWorking, step-IsWorking,
}
use naive_net.Log.Async.Output.{fit, is_never_full, total-start, run-total}
use naive_net.Log.Async.Spare.{IsWorking}
use naive_net.Log.Async.Texts.{
  text_of_calls, text_of_buffers, held, total, and-true, as_string-fresh, text_of_events,
}

-- The thread has come to its end only where it has been stopped.
abbrev IsUp : AsyncLogging → Type 0
IsUp t = t.running ≡ true → t.phase ≢ Phase.ended

module _ (memory : List ℕ) (now : ℕ → List ℕ) where
  running-append_line :
      (t : AsyncLogging) (line : List ℕ)
      → ((append_line memory now t line).running ≡ t.running)
        × ((append_line memory now t line).phase ≡ t.phase)
  unfolding append_line
  running-append_line t line = (ground arith, ground arith)

  -- The next round at the test of the loop leaves the thread with buffers to write and nothing else.
  collect_step :
      (t : AsyncLogging)
      → IsWorking (length memory) t
      → t.phase ≡ Phase.loop_test
      → t.running ≡ true
      → (u : AsyncLogging) × (step memory now t Event.backend ≡ some u)
        × IsWorking (length memory) u
        × (u.phase ≡ Phase.writing)
        × (u.running ≡ true)
        × (text_of_buffers u.buffers ++ as_string u.current_buffer ≡ [])
  unfolding step backend_step swap_buffers text_of_buffers
  collect_step t v e r =
      let (b1, b2, f, k, w) = collect-IsWorking (length memory) t v e in
      (
        swap_buffers t b1 b2,
        ap (backend_step memory now t) e
            ∙ ap (λ b. if b then collect t else some (end_loop t)) r
            ∙ k,
        w,
        refl,
        r,
        as_string-fresh (length memory) b1 f,
      )

  write_step :
      (t : AsyncLogging)
      → IsWorking (length memory) t
      → t.phase ≡ Phase.writing
      → (u : AsyncLogging) × (step memory now t Event.backend ≡ some u)
        × IsWorking (length memory) u
        × (u.phase ≡ Phase.loop_test)
        × (u.running ≡ t.running)
        × (held u ≡ text_of_buffers t.buffers ++ as_string t.current_buffer)
  unfolding step backend_step finish_round held text_of_buffers
  write_step t v e =
      let (b1, b2, k, w) = write-IsWorking memory now t v e in
      (finish_round memory now t b1 b2, ap (backend_step memory now t) e ∙ k, w, refl, refl, refl)

  abbrev Drained : AsyncLogging → ℕ → Type 0
  Drained t k =
      (u : AsyncLogging) × (run memory now t (replicate k Event.backend) ≡ some u) × (held u ≡ [])

  from_loop_test :
      (t : AsyncLogging)
      → IsWorking (length memory) t
      → t.phase ≡ Phase.loop_test
      → t.running ≡ true
      → Drained t 2
  unfolding run
  from_loop_test t v e r =
      let (u, s, w, p, q, z) = collect_step t v e r in
      let (x, s', w', p', q', z') = write_step u w p in (x, rw s (rw s' refl), z' ∙ z)

  from_phase :
      (t : AsyncLogging) (p : Phase)
      → IsWorking (length memory) t
      → t.phase ≡ p
      → p ≢ Phase.ended
      → t.running ≡ true
      → (k : ℕ) × (k ≤ 3) × Drained t k
  unfolding run
  from_phase t Phase.loop_test v e n r = (2, omega arith, from_loop_test t v e r)
  from_phase t Phase.ended v e n r = absurd (n refl)
  from_phase t Phase.writing v e n r =
      let (u, s, w, p, q, z) = write_step t v e in
      let (x, s', z') = from_loop_test u w p (q ∙ r) in (3, omega arith, (x, rw s s', z'))

  backend-IsUp :
      (t t' : AsyncLogging) (p : Phase)
      → IsWorking (length memory) t
      → t.phase ≡ p
      → step memory now t Event.backend ≡ some t'
      → IsUp t
      → IsUp t'
  unfolding step backend_step end_loop
  backend-IsUp t t' Phase.ended v e s h =
      subst IsUp (some-injective (sym (ap (backend_step memory now t) e) ∙ s)) h
  backend-IsUp t t' Phase.writing v e s h =
      let (u, s', w, p, q, z) = write_step t v e in
      subst IsUp (some-injective (sym s' ∙ s)) (λ r x. cc)
  backend-IsUp t t' Phase.loop_test v e s h = elim (Bool-cases t.running) [
    | inl r ↦
        let (u, s', w, p, q, z) = collect_step t v e r in
        subst IsUp (some-injective (sym s' ∙ s)) (λ r x. cc)
    | inr r ↦
        subst IsUp
          (some-injective (
            sym (
              ap (backend_step memory now t) e
              ∙ ap (λ b. if b then collect t else some (end_loop t)) r)
            ∙ s))
          (λ up x. cc)
  ]

  step-IsUp :
      (t t' : AsyncLogging) (e : Event)
      → IsWorking (length memory) t
      → step memory now t e ≡ some t'
      → IsUp t
      → IsUp t'
  unfolding step
  step-IsUp t t' (Event.log line) v s h =
      let (r, p) = running-append_line t line in
      subst IsUp (some-injective s) (λ up x. h (sym r ∙ up) (sym p ∙ x))
  step-IsUp t t' Event.backend v s h = backend-IsUp t t' t.phase v refl s h
  step-IsUp t t' Event.stop v s h = subst IsUp (some-injective s) (λ up x. cc)

  run-IsUp :
      (t t' : AsyncLogging) (es : List Event)
      → 0 < length memory
      → IsWorking (length memory) t
      → run memory now t es ≡ some t'
      → IsUp t
      → IsUp t'
  unfolding run
  run-IsUp t t' [] room v s h = subst IsUp (some-injective s) h
  run-IsUp t t' (e ∷ es) room v s h =
      let (u, k, w) = step-IsWorking memory now t e room v in
      run-IsUp u t' es room w (rw k at s) (step-IsUp t u e v k h)

  start-IsUp : IsUp (start memory now)
  unfolding start
  start-IsUp r x = cc

  quiet :
      (k : ℕ)
      → 0 < length memory
      → (fit memory (replicate k Event.backend) ≡ true)
        × (text_of_events (replicate k Event.backend) ≡ [])
  unfolding fit text_of_events
  quiet zero room = (refl, refl)
  quiet (suc k) room = let (f, e) = quiet k room in (ground arith, e)

  drained_total :
      (t u : AsyncLogging) (es : List Event)
      → IsWorking (length memory) t
      → fit memory es ≡ true
      → text_of_events es ≡ []
      → is_never_full memory now t es ≡ true
      → run memory now t es ≡ some u
      → text_of_calls u.output ++ held u ≡ total t
  unfolding total
  drained_total t u es w f e n d =
      run-total memory now t u es w f n d ∙ ap (λ x. total t ++ x) e ∙ append-nil (total t)

  -- Where a buffer has a byte at least and the lines are shorter than it, after every schedule in which
  -- a new `AsyncLogging` has not been stopped, at most three steps of the thread behind leave no byte in
  -- a buffer: what is then written is, round by round, the buffers of all that has been logged, but of a
  -- round of more than 25 a message with the time and their number, and the first two alone. Where the
  -- rounds of the schedule and of these steps never have more than 25, it is all that has been logged.
  pub run-drains :
      (es : List Event) (t : AsyncLogging)
      → 0 < length memory
      → fit memory es ≡ true
      → run memory now (start memory now) es ≡ some t
      → t.running ≡ true
      → (k : ℕ) × (k ≤ 3)
        × (u : AsyncLogging) × (run memory now t (replicate k Event.backend) ≡ some u)
        × (held u ≡ [])
        × Written memory now (text_of_events es) (length u.output) (text_of_calls u.output)
        × (((is_never_full memory now (start memory now) es
                && is_never_full memory now t (replicate k Event.backend))
              ≡ false)
            ⊎ (text_of_calls u.output ≡ text_of_events es))
  run-drains es t room h s r =
      let v = start-IsWorking memory now room in
      let (x, s', w') = run-IsWorking memory now (start memory now) es room v in
      let w = subst (IsWorking (length memory)) (some-injective (sym s' ∙ s)) w' in
      let up = run-IsUp (start memory now) t es room v s start-IsUp r in
      let (k, few, (u, d, z)) = from_phase t t.phase w refl up r in
      let (f, e) = quiet k room in
      let (l, written, q) =
        run-Accounts memory now t u (replicate k Event.backend) (text_of_events es) w f d
          (run-Accounts memory now (start memory now) t es [] v h s (start-Accounts memory now)) in
      (
        k,
        few,
        u,
        d,
        z,
        subst (λ x. Written memory now x (length u.output) (text_of_calls u.output))
            (sym (append-nil l)
              ∙ ap (λ x. l ++ x) (sym z)
              ∙ q
              ∙ ap (λ x. text_of_events es ++ x) e
              ∙ append-nil (text_of_events es))
            written,
        elim (Bool-cases (
            is_never_full memory now (start memory now) es
            && is_never_full memory now t (replicate k Event.backend))) [
              | inr n ↦ inl n
              | inl y ↦ inr (
                  let (y0, y1) =
                    and-true (is_never_full memory now (start memory now) es)
                      (is_never_full memory now t (replicate k Event.backend)) y in
                  sym (append-nil (text_of_calls u.output))
                  ∙ ap (λ x. text_of_calls u.output ++ x) (sym z)
                  ∙ drained_total t u (replicate k Event.backend) w f e y1 d
                  ∙ run-total memory now (start memory now) t es v h y0 s
                  ∙ ap (λ x. x ++ text_of_events es) (total-start memory now))
            ],
      )
