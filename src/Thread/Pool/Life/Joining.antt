-- ===== src/Thread/Pool/Life/Joining.antt =====
-- The loop of the destructor of base/ThreadPool.cc joins the threads in order.
use naive_net.Common.{ℕ, ◌≡◌, refl, ap, ◌∙◌, List, Bool, true, false, arith}
use naive_net.Thread.Pool.Life.Phases.{Phase}
use naive_net.Thread.Pool.Life.Keeps.{LifeSteps-Keeps}
use naive_net.Thread.Life.{Outcome}
use naive_net.Thread.Pool.Life.{
  Owner, made, starting_threads, started, joining, stopped, gone, Life, Process, alive,
  failed_assertion, aborted, new_pool, LifeStep, LifeSteps, is_idle,
}

abbrev is_last : Owner → Bool
is_last (joining i last) = last
is_last made = false
is_last (starting_threads n i) = false
is_last started = false
is_last stopped = false
is_last gone = false

abbrev place : Owner → ℕ
place (joining i last) = i
place made = 0
place (starting_threads n i) = 0
place started = 0
place stopped = 0
place gone = 0

module _ {Task : Type 0} (outcome : Task → Outcome) (callback : Outcome) where
  -- In the loop of the destructor, as many threads are joined as it has gone through.
  abbrev InOrder : Process Task → Type 0
  InOrder (alive l) = is_last l.owner ≡ true → l.joined ≡ place l.owner
  InOrder failed_assertion = Unit
  InOrder (aborted text) = Unit

  -- Before the destructor of a running pool no thread is joined.
  none_joined :
      (o : Owner) (l : Life Task)
      → is_idle o ≡ true
      → Phase o l
      → l.pool.running ≡ true
      → l.joined ≡ 0
  none_joined made l i p r = absurd (ground (arith, p, r))
  none_joined started l i p r = p.1
  none_joined stopped l i p r = absurd (ground (arith, p, r))
  none_joined (starting_threads n k) l i p r = absurd (ground (arith, i))
  none_joined (joining k last) l i p r = absurd (ground (arith, i))
  none_joined gone l i p r = absurd (ground (arith, i))

  LifeStep-InOrder :
      {l : Life Task} {p : Process Task}
      → LifeStep outcome callback l p
      → Phase l.owner l
      → InOrder (alive l)
      → InOrder p
  LifeStep-InOrder (LifeStep.set_max_queue_size n e) ph v = v
  LifeStep-InOrder (LifeStep.set_thread_init_callback b e) ph v = v
  LifeStep-InOrder (LifeStep.start n e w) ph v = λ z. absurd (ground (arith, z))
  LifeStep-InOrder (LifeStep.start_thread n i e h) ph v = λ z. absurd (ground (arith, z))
  LifeStep-InOrder (LifeStep.start_ends n e) ph v = λ z. absurd (ground (arith, z))
  LifeStep-InOrder (LifeStep.stop_begins e) ph v = λ z. absurd (ground (arith, z))
  LifeStep-InOrder (LifeStep.destroy_stopped e r) ph v = λ z. absurd (ground (arith, z))
  LifeStep-InOrder {l = l} (LifeStep.destroy_running e r) ph v = λ z. none_joined l.owner l e ph r
  LifeStep-InOrder (LifeStep.join i last e x h) ph v = λ z. refl
  LifeStep-InOrder (LifeStep.stop_ends i true e h) ph v = λ z. absurd (ground (arith, z))
  LifeStep-InOrder (LifeStep.stop_ends i false e h) ph v = λ z. absurd (ground (arith, z))
  LifeStep-InOrder (LifeStep.move m e r) ph v = v
  LifeStep-InOrder (LifeStep.start_again e w) ph v = tt
  LifeStep-InOrder (LifeStep.join_again i last e x h) ph v = tt
  LifeStep-InOrder (LifeStep.throw i x e g t) ph v = tt
  LifeStep-InOrder (LifeStep.throw_in_callback i e g c t) ph v = tt

  in_order :
      (name : List ℕ) (callers : ℕ) {p : Process Task}
      → LifeSteps outcome callback (new_pool name callers) p
      → InOrder p
  unfolding new_pool
  in_order name callers LifeSteps.at_first = λ z. absurd (ground (arith, z))
  in_order name callers (LifeSteps.later h k) =
      LifeStep-InOrder k (LifeSteps-Keeps outcome callback name callers h).phase
        (in_order name callers h)

  pub LifeSteps-InOrder :
      (name : List ℕ) (callers : ℕ) {l : Life Task}
      → LifeSteps outcome callback (new_pool name callers) (alive l)
      → (i : ℕ) → l.owner ≡ joining i true
      → l.joined ≡ i
  LifeSteps-InOrder name callers h i e = in_order name callers h (ap is_last e) ∙ ap place e
