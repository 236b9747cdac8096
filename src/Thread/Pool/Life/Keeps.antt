-- ===== src/Thread/Pool/Life/Keeps.antt =====
-- What a `ThreadPool` of base/ThreadPool.cc keeps from its constructor to its destructor.
use naive_net.Common.{
  ℕ, refl, sym, ap, ◌∙◌, subst, List, [], ◌∷◌, ◌++◌, true, false, length, length-append, arith,
}
use naive_net.Thread.Pool.{Worker}
use naive_net.Thread.Pool.Life.Stays.{startings, startings-append, exited-append}
use naive_net.Thread.Pool.Life.Phases.{
  thread_names, Phase, Keeps, KeepsIn, stop-Keeps, all_joined, move-Keeps, no_calls, length_snoc,
  within, ended_after, ends,
}
use naive_net.Thread.Life.{Outcome}
use naive_net.Thread.Pool.Life.{
  report, thread_name, thread_name, Life, Process, new_pool, LifeStep, LifeSteps,
}

module _ {Task : Type 0} (outcome : Task → Outcome) (callback : Outcome) where
  LifeStep-Keeps :
      {name : List ℕ} {l : Life Task} {p : Process Task}
      → LifeStep outcome callback l p
      → Keeps name l
      → KeepsIn name p
  LifeStep-Keeps {l = l} (LifeStep.set_max_queue_size n e) k =
      let q = subst (λ o. Phase o l) e k.phase in
      record {
        well_formed = record {
          bounded = λ h. omega (arith, ap length q.1);
          in_order = k.well_formed.in_order;
          awake = k.well_formed.awake;
        };
        same_name = k.same_name;
        named = k.named;
        called = k.called;
        not_called = k.not_called;
        ended = k.ended;
        joined_le = k.joined_le;
        phase =
            subst (λ o. Phase o (record l { pool = record l.pool { max_queue_size = n } })) (sym e)
              q;
      }
  LifeStep-Keeps {l = l} (LifeStep.set_thread_init_callback b e) k =
      let q = subst (λ o. Phase o l) e k.phase in
      let z = no_calls l.pool k.called k.not_called q.0 in
      record {
        well_formed = record {
          bounded = k.well_formed.bounded;
          in_order = k.well_formed.in_order;
          awake = k.well_formed.awake;
        };
        same_name = k.same_name;
        named = k.named;
        called = λ c. omega (arith, z, ap length q.0, ap startings q.0);
        not_called = λ c. z;
        ended = k.ended;
        joined_le = k.joined_le;
        phase =
            subst (λ o. Phase o (record l { pool = record l.pool { init_callback = b } })) (sym e)
              q;
      }
  LifeStep-Keeps (LifeStep.start n e z) k = record {
    well_formed = record {
      bounded = k.well_formed.bounded;
      in_order = k.well_formed.in_order;
      awake = λ r. absurd (ground arith);
    };
    same_name = k.same_name;
    named = k.named;
    called = k.called;
    not_called = k.not_called;
    ended = k.ended;
    joined_le = k.joined_le;
    phase = (ap length z, omega arith, refl, omega (arith, k.joined_le, ap length z));
  }
  LifeStep-Keeps (LifeStep.start_again e z) k = tt
  LifeStep-Keeps {l = l} (LifeStep.start_thread n i e h) k =
      let q = subst (λ o. Phase o l) e k.phase in
      let m = length-append l.pool.workers (Worker.starting ∷ []) in
      record {
        well_formed = record {
          bounded = k.well_formed.bounded;
          in_order = k.well_formed.in_order;
          awake = λ r. absurd (ground (arith, q.2));
        };
        same_name = k.same_name;
        named = rw (length_snoc l.pool.workers Worker.starting) (
            ap (λ x. x ++ thread_name l.name i ∷ []) k.named
            ∙ ap (λ j. thread_names l.name (length l.pool.workers) ++ thread_name l.name j ∷ [])
                (sym q.0));
        called = λ c. omega (arith, m, k.called c, startings-append l.pool.workers);
        not_called = k.not_called;
        ended = λ j b. exited-append l.pool.workers _ j (k.ended j b);
        joined_le = omega (arith, m, k.joined_le);
        phase = (omega (arith, m, q.0), omega arith, q.2, q.3);
      }
  LifeStep-Keeps {l = l} (LifeStep.start_ends n e) k = record {
    well_formed = k.well_formed;
    same_name = k.same_name;
    named = k.named;
    called = k.called;
    not_called = k.not_called;
    ended = k.ended;
    joined_le = k.joined_le;
    phase = let q = subst (λ o. Phase o l) e k.phase in (q.2, q.3);
  }
  LifeStep-Keeps (LifeStep.stop_begins e) k = stop-Keeps false k
  LifeStep-Keeps (LifeStep.destroy_running e r) k = stop-Keeps true k
  LifeStep-Keeps {l = l} (LifeStep.destroy_stopped e r) k = record {
    well_formed = k.well_formed;
    same_name = k.same_name;
    named = k.named;
    called = k.called;
    not_called = k.not_called;
    ended = k.ended;
    joined_le = k.joined_le;
    phase = (r, all_joined l.owner l e k.phase k.joined_le r);
  }
  LifeStep-Keeps {l = l} (LifeStep.join i last e x h) k =
      let q = subst (λ o. Phase o l) e k.phase in
      record {
        well_formed = k.well_formed;
        same_name = k.same_name;
        named = k.named;
        called = k.called;
        not_called = k.not_called;
        ended = λ j b. ended_after l i k.ended x q.1 h j b;
        joined_le = within l.pool.workers i x;
        phase = (q.0, omega arith);
      }
  LifeStep-Keeps (LifeStep.join_again i last e x h) k = tt
  LifeStep-Keeps {l = l} (LifeStep.stop_ends i last e n) k =
      let q = subst (λ o. Phase o l) e k.phase in
      record {
        well_formed = k.well_formed;
        same_name = k.same_name;
        named = k.named;
        called = k.called;
        not_called = k.not_called;
        ended = k.ended;
        joined_le = k.joined_le;
        phase = ends last l q.0 (omega (arith, k.joined_le, q.1));
      }
  LifeStep-Keeps (LifeStep.move m h r) k = move-Keeps m k
  LifeStep-Keeps (LifeStep.throw i x h e o) k =
      (i, outcome x, o, ap (λ n. report n (thread_name n i) (outcome x)) k.same_name)
  LifeStep-Keeps (LifeStep.throw_in_callback i h e c o) k =
      (i, callback, o, ap (λ n. report n (thread_name n i) callback) k.same_name)

  -- In every life of a pool that neither an assertion nor an exception ends, its queue keeps its bound, tasks
  -- leave it in the order in which they were put into it, and none is lost on the way; where the pool
  -- does not run, no thread of it waits for a task. The threads have their names. Where there is a
  -- callback, each thread that is past its start has called it once, and else none has. The threads that
  -- are joined have come to their ends. In the loop of `start` there are as many threads as it has
  -- counted, and the pool runs there and behind it; in `stop` it does not run, and after `stop` and the
  -- destructor all threads are joined. Where an exception ends the process, what is printed is the report
  -- of an exception with the names of the pool and of a thread.
  pub LifeSteps-Keeps :
      (name : List ℕ) (callers : ℕ) {p : Process Task}
      → LifeSteps outcome callback (new_pool name callers) p
      → KeepsIn name p
  unfolding new_pool
  LifeSteps-Keeps name callers LifeSteps.at_first = record {
    well_formed = record { bounded = λ h. omega arith; in_order = refl; awake = λ r. tt };
    same_name = refl;
    named = refl;
    called = λ e. refl;
    not_called = λ e. refl;
    ended = λ i h. absurd (omega arith);
    joined_le = omega arith;
    phase = (refl, refl, refl);
  }
  LifeSteps-Keeps name callers (LifeSteps.later h k) =
      LifeStep-Keeps k (LifeSteps-Keeps name callers h)
