-- ===== src/Thread/Pool/Life/Phases.antt =====
-- What a `ThreadPool` of base/ThreadPool.cc keeps where its owner is.
use naive_net.Common.{
  ℕ, zero, suc, ◌+◌, ◌≤◌, ◌<◌, ◌≡◌, ◌≢◌, refl, sym, ap, ◌∙◌, subst, none-some, List, [], ◌∷◌, ◌++◌,
  some, Bool, true, false, length, length-append, get_elem?, arith, inl, inr, Bool-cases, leb, ltb,
  if◌then◌else◌,
}
use naive_net.Thread.Pool.{ThreadPool, Worker, Move, stop}
use naive_net.Thread.Pool.Invariant.{IsPool, Move-IsPool, stop-IsPool}
use naive_net.Thread.Pool.Life.Stays.{
  startings, Stays, Move-Stays, startings-wake, exited-wake, nil_of_length,
}
use naive_net.Thread.Life.{Outcome, returned}
use naive_net.Thread.Pool.Life.{
  report, thread_name, Owner, made, starting_threads, started, joining, stopped, gone, Life,
  Process, alive, failed_assertion, aborted, is_idle,
}

-- The names of the first `n` threads.
abbrev pub thread_names : List ℕ → ℕ → List (List ℕ)
thread_names name zero = []
thread_names name (suc n) = thread_names name n ++ thread_name name n ∷ []

module _ {Task : Type 0} where
  -- What holds where the owner is.
  abbrev pub Phase : Owner → Life Task → Type 0
  Phase made l = (l.pool.workers ≡ []) × (l.pool.queue ≡ []) × (l.pool.running ≡ false)
  Phase (starting_threads n i) l =
      (length l.pool.workers ≡ i) × (i ≤ n) × (l.pool.running ≡ true) × (l.joined ≡ 0)
  Phase started l = (l.pool.running ≡ true) × (l.joined ≡ 0)
  Phase (joining i last) l = (l.pool.running ≡ false) × (i ≤ l.joined)
  Phase stopped l = (l.pool.running ≡ false) × (l.joined ≡ length l.pool.workers)
  Phase gone l = (l.pool.running ≡ false) × (l.joined ≡ length l.pool.workers)

  pub record Keeps (name : List ℕ) (l : Life Task) : Type 0 where
    pub well_formed : IsPool l.pool
    pub same_name : l.name ≡ name
    pub named : l.names ≡ thread_names l.name (length l.pool.workers)
    pub called :
        l.pool.init_callback ≡ true
        → startings l.pool.workers + l.pool.prepared ≡ length l.pool.workers
    pub not_called : l.pool.init_callback ≡ false → l.pool.prepared ≡ 0
    pub ended : (i : ℕ) → i < l.joined → get_elem? l.pool.workers i ≡ some Worker.exited
    pub joined_le : l.joined ≤ length l.pool.workers
    pub phase : Phase l.owner l

  abbrev pub KeepsIn : List ℕ → Process Task → Type 0
  KeepsIn name (alive l) = Keeps name l
  KeepsIn name failed_assertion = Unit
  KeepsIn name (aborted text) =
      (i : ℕ) × (o : Outcome) × (o ≢ returned) × (text ≡ report name (thread_name name i) o)

  pub stop-Keeps :
      {name : List ℕ} {l : Life Task} (last : Bool)
      → Keeps name l
      → Keeps name (record l { owner = joining 0 last; pool = stop l.pool })
  unfolding stop
  stop-Keeps {l = l} last k =
      let (n, c) = startings-wake l.pool.workers in
      record {
        well_formed = stop-IsPool l.pool k.well_formed;
        same_name = k.same_name;
        named = k.named ∙ ap (thread_names l.name) (sym n);
        called = λ e. omega (arith, k.called e, n, c);
        not_called = k.not_called;
        ended = λ i h. exited-wake l.pool.workers i (k.ended i h);
        joined_le = omega (arith, k.joined_le, n);
        phase = (refl, omega arith);
      }

  -- Outside of every function a pool that is not running has all of its threads joined.
  pub all_joined :
      (o : Owner) (l : Life Task)
      → is_idle o ≡ true
      → Phase o l
      → l.joined ≤ length l.pool.workers
      → l.pool.running ≡ false
      → l.joined ≡ length l.pool.workers
  all_joined made l i p j r = omega (arith, ap length p.0)
  all_joined (starting_threads n k) l i p j r = absurd (ground arith)
  all_joined started l i p j r = absurd (ground (arith, p.0))
  all_joined (joining k last) l i p j r = absurd (ground arith)
  all_joined stopped l i p j r = p.1
  all_joined gone l i p j r = absurd (ground arith)

  Phase-move :
      (o : Owner) (l : Life Task) {t : ThreadPool Task}
      → Stays l.pool t
      → Phase o l
      → Phase o (record l { pool = t })
  Phase-move made l v p =
      (nil_of_length _ (v.count_left ∙ ap length p.0), v.queue_left p.0 ∙ p.1, v.running_left ∙ p.2)
  Phase-move (starting_threads n i) l v p = (v.count_left ∙ p.0, p.1, v.running_left ∙ p.2, p.3)
  Phase-move started l v p = (v.running_left ∙ p.0, p.1)
  Phase-move (joining i last) l v p = (v.running_left ∙ p.0, p.1)
  Phase-move stopped l v p = (v.running_left ∙ p.0, p.1 ∙ sym v.count_left)
  Phase-move gone l v p = (v.running_left ∙ p.0, p.1 ∙ sym v.count_left)

  pub move-Keeps :
      {name : List ℕ} {l : Life Task} {t : ThreadPool Task}
      → Move l.pool t
      → Keeps name l
      → Keeps name (record l { pool = t })
  move-Keeps {l = l} m k =
      let v = Move-Stays m in
      record {
        well_formed = Move-IsPool m k.well_formed;
        same_name = k.same_name;
        named = k.named ∙ ap (thread_names l.name) (sym v.count_left);
        called =
            λ e. let c = sym v.callback_left ∙ e in v.calls_left c ∙ k.called c ∙ sym v.count_left;
        not_called = λ e. let c = sym v.callback_left ∙ e in v.no_calls_left c ∙ k.not_called c;
        ended = λ i h. v.exited_left i (k.ended i h);
        joined_le = omega (arith, k.joined_le, v.count_left);
        phase = Phase-move l.owner l v k.phase;
      }

  -- Where a pool has no thread, the callback has not been called by one.
  pub no_calls :
      (s : ThreadPool Task)
      → (s.init_callback ≡ true → startings s.workers + s.prepared ≡ length s.workers)
      → (s.init_callback ≡ false → s.prepared ≡ 0)
      → s.workers ≡ []
      → s.prepared ≡ 0
  no_calls s c n z = elim (Bool-cases s.init_callback) [
    | inl e ↦ omega (arith, c e, ap length z, ap startings z)
    | inr e ↦ n e
  ]

  pub length_snoc :
      (ws : List (Worker Task)) (w : Worker Task) → length (ws ++ w ∷ []) ≡ suc (length ws)
  length_snoc ws w = omega (arith, length-append ws (w ∷ []))

  pub within :
      {w : Worker Task} (ws : List (Worker Task)) (i : ℕ) → get_elem? ws i ≡ some w → i < length ws
  within [] i e = absurd (none-some e)
  within (v ∷ ws) zero e = omega arith
  within (v ∷ ws) (suc i) e = omega (arith, within ws i e)

  pub ended_after :
      (l : Life Task) (i : ℕ)
      → ((j : ℕ) → j < l.joined → get_elem? l.pool.workers j ≡ some Worker.exited)
      → get_elem? l.pool.workers i ≡ some Worker.exited
      → i ≤ l.joined
      → leb l.joined i ≡ true
      → (j : ℕ) → j < suc i
      → get_elem? l.pool.workers j ≡ some Worker.exited
  ended_after l i k x q h j b = elim (Bool-cases (ltb j i)) [
    | inl c ↦ k j (ground arith)
    | inr c ↦
        let e : i ≡ j = ground arith in
        subst (λ n. get_elem? l.pool.workers n ≡ some Worker.exited) e x
  ]

  pub ends :
      (last : Bool) (l : Life Task)
      → l.pool.running ≡ false
      → l.joined ≡ length l.pool.workers
      → let o = if last then gone else stopped in Phase o (record l { owner = o })
  ends true l r n = (r, n)
  ends false l r n = (r, n)
