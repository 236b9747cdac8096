-- ===== src/Log/Async/Invariant.antt =====
-- The state of base/log/AsyncLogging.cc that every schedule of the threads keeps: why the assertions
-- of `threadFunc` hold, and `buffersToWrite` has the buffers that are taken from it.
use naive_net.Common.{
  ℕ, ◌+◌, ◌≤◌, ◌<◌, ◌≡◌, refl, ap, subst, ◌∙◌, List, [], ◌∷◌, Option, none, some, true, false, ltb,
  ◌==◌, if◌then◌else◌, length, length-append, take, arith, All, Bool-cases, inl, inr,
  length-replicate,
}
use naive_net.Log.Buffer.{FixedBuffer, create, avail, bzero}
use naive_net.Log.Async.{
  AsyncLogging, Phase, Event, collect, swap_buffers, finish_round, resize2, end_loop, start,
  next_or_new, append_line, kept, write, backend_step, step, run,
}
use naive_net.Log.Async.Spare.{
  missing, IsOurs, IsFresh, IsSpare, IsPhase, IsWorking, append-IsOurs, All-snoc, refill-IsFresh,
  take2-All, resize2-All, length-take2, assert_empty-IsFresh, refill_next-IsFresh,
}

pub collect-IsWorking :
    (size : ℕ) (t : AsyncLogging)
    → IsWorking size t
    → t.phase ≡ Phase.loop_test
    → (b1 : FixedBuffer) × (b2 : FixedBuffer) × IsFresh size b1
      × (collect t ≡ some (swap_buffers t b1 b2))
      × IsWorking size (swap_buffers t b1 b2)
unfolding collect swap_buffers
collect-IsWorking size t v e =
    let (l, m1, m2) =
      subst (λ p. IsPhase p t.buffers_to_write t.new_buffer1 t.new_buffer2) e v.in_phase in
    let (b1, e1, f1) = assert_empty-IsFresh size t.new_buffer1 v.new1 m1 in
    let (b2, e2, f2) = assert_empty-IsFresh size t.new_buffer2 v.new2 m2 in
    let z : (length t.buffers_to_write == 0) ≡ true = ground (arith, l) in
    let (s1, s2, m, n) = refill_next-IsFresh size t.next_buffer b2 v.next f2 in
    let more = length-append t.buffers (t.current_buffer ∷ []) in
    (
      b1,
      b2,
      f1,
      rw (e1, e2, z) refl,
      record {
        in_phase = (omega (arith, more), omega (arith, more, n, v.taken));
        taken = omega (arith, m);
        current = f1.ours;
        next = s1;
        new1 = tt;
        new2 = s2;
        full = tt;
        to_write = All-snoc t.buffers t.current_buffer v.full v.current;
      },
    )

two_missing : (a b : Option FixedBuffer) → missing a + missing b ≤ 2
two_missing none none = omega arith
two_missing none (some b) = omega arith
two_missing (some a) none = omega arith
two_missing (some a) (some b) = omega arith

module _ (memory : List ℕ) (now : ℕ → List ℕ) where
  -- At least two buffers, or all of fewer, are left to be used again.
  length-kept :
      (bs : List FixedBuffer) (n : ℕ)
      → n ≤ 2
      → n ≤ length bs
      → n ≤ length (resize2 (kept memory now bs))
  unfolding resize2 kept
  length-kept bs n h k = ground (arith, length-take2 bs, length-take2 (take 2 bs))

  kept-All :
      (size : ℕ) (bs : List FixedBuffer)
      → All (IsOurs size) bs
      → All (IsOurs size) (resize2 (kept memory now bs))
  unfolding kept
  kept-All size bs a = elim (Bool-cases (ltb 25 (length bs))) [
    | inl e ↦ rw e (resize2-All size (take 2 bs) (take2-All size bs a))
    | inr e ↦ rw e (resize2-All size bs a)
  ]

  pub next_or_new-IsFresh :
      (o : Option FixedBuffer)
      → 0 < length memory
      → IsSpare (length memory) o
      → IsFresh (length memory) (next_or_new memory now o)
  unfolding next_or_new create
  next_or_new-IsFresh none h s = record {
    ours = record { is_buffer = record { sized = refl; room = h }; size_is = refl };
    empty = refl;
  }
  next_or_new-IsFresh (some b) h s = s

  append_line-IsWorking :
      (t : AsyncLogging) (line : List ℕ)
      → 0 < length memory
      → IsWorking (length memory) t
      → IsWorking (length memory) (append_line memory now t line)
  unfolding append_line
  append_line-IsWorking t line h v =
      elim (Bool-cases (ltb (length line) (avail t.current_buffer))) [
        | inl e ↦ rw e (record {
          in_phase = v.in_phase;
          taken = v.taken;
          current = append-IsOurs _ _ line v.current;
          next = v.next;
          new1 = v.new1;
          new2 = v.new2;
          full = v.full;
          to_write = v.to_write;
        })
        | inr e ↦ rw e (record {
          in_phase = v.in_phase;
          taken = omega (arith, length-append t.buffers (t.current_buffer ∷ []));
          current = append-IsOurs _ _ line (next_or_new-IsFresh t.next_buffer h v.next).ours;
          next = tt;
          new1 = v.new1;
          new2 = v.new2;
          full = All-snoc t.buffers t.current_buffer v.full v.current;
          to_write = v.to_write;
        })
      ]

  pub write-IsWorking :
      (t : AsyncLogging)
      → IsWorking (length memory) t
      → t.phase ≡ Phase.writing
      → (b1 : Option FixedBuffer) × (b2 : Option FixedBuffer) × (write memory now t
          ≡ some (finish_round memory now t b1 b2))
        × IsWorking (length memory) (finish_round memory now t b1 b2)
  unfolding write finish_round
  write-IsWorking t v e =
      let (l, m) =
        subst (λ p. IsPhase p t.buffers_to_write t.new_buffer1 t.new_buffer2) e v.in_phase in
      let z : (length t.buffers_to_write == 0) ≡ false = ground (arith, l) in
      let left =
        length-kept t.buffers_to_write (missing t.new_buffer1 + missing t.new_buffer2)
          (two_missing t.new_buffer1 t.new_buffer2) m in
      let (p, e1, s1, m1, n1, a1) =
        refill-IsFresh (length memory) t.new_buffer1 (resize2 (kept memory now t.buffers_to_write))
          v.new1 (omega (arith, left)) (kept-All (length memory) t.buffers_to_write v.to_write) in
      let (q, e2, s2, m2, n2, a2) =
        refill-IsFresh (length memory) t.new_buffer2 p.1 v.new2 (omega (arith, left, n1)) a1 in
      (
        p.0,
        q.0,
        rw (z, e1, e2) refl,
        record {
          in_phase = (refl, m1, m2);
          taken = v.taken;
          current = v.current;
          next = v.next;
          new1 = s1;
          new2 = s2;
          full = v.full;
          to_write = tt;
        },
      )

  backend_step-IsWorking :
      (t : AsyncLogging) (p : Phase)
      → IsWorking (length memory) t
      → t.phase ≡ p
      → (t' : AsyncLogging) × (backend_step memory now t p ≡ some t') × IsWorking (length memory) t'
  unfolding backend_step end_loop
  backend_step-IsWorking t Phase.writing v e =
      let (b1, b2, e', w) = write-IsWorking t v e in (finish_round memory now t b1 b2, e', w)
  backend_step-IsWorking t Phase.ended v e = (t, refl, v)
  backend_step-IsWorking t Phase.loop_test v e = elim (Bool-cases t.running) [
    | inl r ↦
        (let (b1, b2, f, e', w) = collect-IsWorking (length memory) t v e in
          (swap_buffers t b1 b2, ap (λ b. if b then collect t else some (end_loop t)) r ∙ e', w))
    | inr r ↦ (
      end_loop t,
      ap (λ b. if b then collect t else some (end_loop t)) r,
      record {
        in_phase = tt;
        taken = v.taken;
        current = v.current;
        next = v.next;
        new1 = v.new1;
        new2 = v.new2;
        full = v.full;
        to_write = v.to_write;
      },
    )
  ]

  pub step-IsWorking :
      (t : AsyncLogging) (e : Event)
      → 0 < length memory
      → IsWorking (length memory) t
      → (t' : AsyncLogging) × (step memory now t e ≡ some t') × IsWorking (length memory) t'
  unfolding step
  step-IsWorking t (Event.log line) h v = (_, refl, append_line-IsWorking t line h v)
  step-IsWorking t Event.backend h v = backend_step-IsWorking t t.phase v refl
  step-IsWorking t Event.stop h v = (
    _,
    refl,
    record {
      in_phase = v.in_phase;
      taken = v.taken;
      current = v.current;
      next = v.next;
      new1 = v.new1;
      new2 = v.new2;
      full = v.full;
      to_write = v.to_write;
    },
  )

  -- From a well-formed state, with buffers of a byte at least, no order of the steps makes an
  -- assertion fail or takes a buffer that is not there, and the state stays well formed.
  pub run-IsWorking :
      (t : AsyncLogging) (es : List Event)
      → 0 < length memory
      → IsWorking (length memory) t
      → (t' : AsyncLogging) × (run memory now t es ≡ some t') × IsWorking (length memory) t'
  unfolding run
  run-IsWorking t [] h v = (t, refl, v)
  run-IsWorking t (e ∷ es) h v =
      let (u, s, w) = step-IsWorking t e h v in
      let (t', r, w') = run-IsWorking u es h w in (t', rw s r, w')

  bzero-IsFresh : 0 < length memory → IsFresh (length memory) (bzero (create memory))
  unfolding bzero create
  bzero-IsFresh h = record {
    ours = record {
      is_buffer = record { sized = length-replicate (length memory) 0; room = h };
      size_is = refl;
    };
    empty = refl;
  }

  pub start-IsWorking : 0 < length memory → IsWorking (length memory) (start memory now)
  unfolding start
  start-IsWorking h =
      let f = bzero-IsFresh h in
      record {
        in_phase = (refl, refl, refl);
        taken = omega arith;
        current = f.ours;
        next = f;
        new1 = f;
        new2 = f;
        full = tt;
        to_write = tt;
      }
