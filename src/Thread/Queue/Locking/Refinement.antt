-- ===== src/Thread/Queue/Locking/Refinement.antt =====
-- Each statement of base/BlockingQueue.h is a step of the queue with whole critical sections, or none.
use naive_net.Common.{
  ℕ, zero, suc, ◌≡◌, refl, sym, ap, subst, ◌∙◌, ◌⊎◌, inl, inr, List, [], ◌∷◌, ◌++◌, map, some,
  none-some, some-injective, false, get_elem?, set, replicate, arith,
}
use naive_net.Thread.Wait.{Notified}
use naive_net.Thread.Mutex.{new_mutex, pthread_mutex_unlock}
use naive_net.Thread.Queue.{Taker, BlockingQueue, taker_sleeper, QueueStep, QueueSteps, new_queue}
use naive_net.Thread.Queue.Statements.{
  Place, SharedQueue, At, go, place_sleeper, AfterUnlock, put_unlocked, take_unlocked,
  wait_released, Statement, Statements, new_shared,
}
use naive_net.Thread.Queue.Locking.Seen.{
  map-set, map-set_same, get_elem?-map, AfterLock-seen, AfterAssign-seen, AfterUnassign-seen,
  Notified-seen, Notified-at, Notified-Alone, map-outside,
}
use naive_net.Thread.Queue.Locking.{seen, inside, pushed, Holds, InTurn, free, Refines}
use naive_net.Thread.Queue.Locking.Turns.{
  InTurn-Runs, stays, leaves, passes, get_mutex-InTurn, assign-InTurn, unassign-InTurn,
}

module _ {T : Type 0} where
  -- What a statement is against the steps of whole critical sections.
  unfoldable pub Next : (tid : ℕ → ℕ) → SharedQueue T → BlockingQueue T → Type 0
  Next tid t a = (b : BlockingQueue T) × ((b ≡ a) ⊎ QueueStep a b) × Refines tid t b

  -- A statement that the critical sections do not see.
  unseen :
      (tid : ℕ → ℕ) (s t : SharedQueue T) (a : BlockingQueue T) (i : ℕ) {p : Place T} (p' : Place T)
      → Refines tid s a
      → At s i p
      → seen p ≡ seen p'
      → t.places ≡ set s.places i p'
      → InTurn tid t a
      → Next tid t a
  unfolding Next
  unseen tid s t a i p' r e k ps n = (
    a,
    inl refl,
    record {
      takers = r.takers ∙ sym (ap (map seen) ps ∙ map-set_same s.places i p' e k);
      in_turn = n;
    },
  )

  -- A taker as the critical sections see it.
  get_elem?-seen :
      (tid : ℕ → ℕ) (s : SharedQueue T) (a : BlockingQueue T) (i : ℕ) {p : Place T}
      → Refines tid s a
      → At s i p
      → get_elem? a.takers i ≡ some (seen p)
  get_elem?-seen tid s a i r e = ap (λ l. get_elem? l i) r.takers ∙ get_elem?-map s.places i e

  seen-go :
      (tid : ℕ → ℕ) (s : SharedQueue T) (a : BlockingQueue T) (i : ℕ) (p' : Place T)
      → Refines tid s a
      → set a.takers i (seen p') ≡ map seen (set s.places i p')
  seen-go tid s a i p' r = ap (λ l. set l i (seen p')) r.takers ∙ sym (map-set s.places i p')

  notify-Next :
      (tid : ℕ → ℕ) (s : SharedQueue T) (a : BlockingQueue T) (i : ℕ) (x : T) {ps : List (Place T)}
      → Refines tid s a
      → At s i (Place.put_notify x)
      → Notified place_sleeper s.places ps
      → Next tid (record s { places = set ps i Place.put_unassign }) a
  unfolding Next seen inside Holds
  notify-Next tid s a i x {ps} r e n =
      let h = InTurn-Runs tid s a r.in_turn e refl in
      let at = Notified-at i (Place.put_notify x) refl e n in
      let t = record s { places = ps } in
      let b = record a {
        queue = a.queue ++ x ∷ [];
        takers = map seen ps;
        accepted = a.accepted ++ x ∷ [];
      } in
      (
        b,
        inr (
            QueueStep.put x (
              subst (λ l. Notified taker_sleeper l (map seen ps)) (sym r.takers)
                (Notified-seen n))),
        record {
          takers = sym (map-set_same ps i Place.put_unassign at refl);
          in_turn =
              stays tid t a i (Place.put_notify x) Place.put_unassign at
                (Notified-Alone i n h.alone) refl
                (record s { places = set ps i Place.put_unassign }) b h.has_mutex refl
                (h.holds.0, h.holds.1);
        },
      )

  take-Next :
      (tid : ℕ → ℕ) (s : SharedQueue T) (a : BlockingQueue T) (i : ℕ) (x : T) (q : List T)
      → Refines tid s a
      → At s i Place.take_front
      → s.queue ≡ x ∷ q
      → Next tid (record (go s i Place.take_unassign) { queue = q; taken = s.taken ++ x ∷ [] }) a
  unfolding Next seen inside Holds
  take-Next tid s a i x q r e z =
      let h = InTurn-Runs tid s a r.in_turn e refl in
      let t = record (go s i Place.take_unassign) { queue = q; taken = s.taken ++ x ∷ [] } in
      let b = record a {
        queue = q;
        takers = set a.takers i Taker.outside;
        taken = a.taken ++ x ∷ [];
      } in
      (
        b,
        inr (
            QueueStep.take_front i x q (get_elem?-seen tid s a i r e)
              (sym (ap (λ c. c.queue) h.holds.1) ∙ z)),
        record {
          takers = seen-go tid s a i Place.take_unassign r;
          in_turn =
              stays tid s a i Place.take_front Place.take_unassign e h.alone refl t b h.has_mutex
                refl
                (
                  h.holds.0,
                  ap (λ c. record { queue = q; accepted = c.accepted; taken = c.taken ++ x ∷ [] })
                      h.holds.1,
                );
        },
      )

  give_mutex-Next :
      (tid : ℕ → ℕ) (s : SharedQueue T) (a : BlockingQueue T) (i : ℕ) {p p' : Place T}
      → Refines tid s a
      → At s i p
      → AfterUnlock p p'
      → Next tid (record (go s i p') { lock = pthread_mutex_unlock s.lock }) a
  unfolding Next seen inside Holds pthread_mutex_unlock
  give_mutex-Next tid s a i r e put_unlocked =
      let h = InTurn-Runs tid s a r.in_turn e refl in
      unseen tid s _ a i Place.outside r e refl refl
        (leaves tid s a i _ Place.outside e h.alone refl _ refl h.holds.0 h.holds.1)
  give_mutex-Next tid s a i r e take_unlocked =
      let h = InTurn-Runs tid s a r.in_turn e refl in
      unseen tid s _ a i Place.outside r e refl refl
        (leaves tid s a i _ Place.outside e h.alone refl _ refl h.holds.0 h.holds.1)
  give_mutex-Next tid s a i r e wait_released =
      let h = InTurn-Runs tid s a r.in_turn e refl in
      let b = record a { takers = set a.takers i Taker.waiting } in
      (
        b,
        inr (
            QueueStep.wait i (get_elem?-seen tid s a i r e)
              (sym (ap (λ c. c.queue) h.holds.1) ∙ h.holds.2)),
        record {
          takers = seen-go tid s a i Place.sleeping r;
          in_turn = leaves tid s b i _ Place.sleeping e h.alone refl _ refl h.holds.0 h.holds.1;
        },
      )

  -- Each statement of a thread is a step of whole critical sections or none, and the relation goes on.
  pub Statement-Next :
      (tid : ℕ → ℕ) {s t : SharedQueue T} (a : BlockingQueue T)
      → Refines tid s a
      → Statement tid s t
      → Next tid t a
  unfolding Next seen inside Holds
  Statement-Next tid {s = s} a r (Statement.call_put i x e) =
      unseen tid s _ a i (Place.put_lock x) r e refl refl
        (passes tid s a a i _ _ refl e refl refl r.in_turn)
  Statement-Next tid {s = s} a r (Statement.call_take i e) = (
    record a { takers = set a.takers i Taker.taking },
    inr (QueueStep.enter i (get_elem?-seen tid s a i r e)),
    record {
      takers = seen-go tid s a i Place.take_lock r;
      in_turn = passes tid s a _ i _ _ refl e refl refl r.in_turn;
    },
  )
  Statement-Next tid {s = s} a r (Statement.get_mutex i e k l) =
      unseen tid s _ a i _ r e (AfterLock-seen k) refl
        (get_mutex-InTurn tid s a i _ e k l r.in_turn)
  Statement-Next tid {s = s} a r (Statement.assign i e k) =
      unseen tid s _ a i _ r e (AfterAssign-seen k) refl (assign-InTurn tid s a i e k r.in_turn)
  Statement-Next tid {s = s} a r (Statement.push i x e) =
      let h = InTurn-Runs tid s a r.in_turn e refl in
      unseen tid s _ a i (Place.put_notify x) r e refl refl (
        stays tid s a i _ _ e h.alone refl _ a h.has_mutex refl
          (h.holds.0, ap (pushed x) h.holds.1))
  Statement-Next tid {s = s} a r (Statement.notify i x e n) = notify-Next tid s a i x r e n
  Statement-Next tid {s = s} a r (Statement.test_empty i e z) =
      let h = InTurn-Runs tid s a r.in_turn e refl in
      unseen tid s _ a i Place.wait_unassign r e refl refl
        (stays tid s a i _ _ e h.alone refl _ a h.has_mutex refl (h.holds.0, h.holds.1, z))
  Statement-Next tid {s = s} a r (Statement.test_full i x q e z) =
      let h = InTurn-Runs tid s a r.in_turn e refl in
      unseen tid s _ a i Place.take_front r e refl refl (
        stays tid s a i _ _ e h.alone refl _ a h.has_mutex refl
          (h.holds.0, h.holds.1, λ n. grind (arith, z, n)))
  Statement-Next tid {s = s} a r (Statement.front i x q e z) = take-Next tid s a i x q r e z
  Statement-Next tid {s = s} a r (Statement.unassign i e k) =
      unseen tid s _ a i _ r e (AfterUnassign-seen k) refl (unassign-InTurn tid s a i e k r.in_turn)
  Statement-Next tid {s = s} a r (Statement.give_mutex i e k) = give_mutex-Next tid s a i r e k
  Statement-Next tid {s = s} a r (Statement.wake_up i e) = (
    record a { takers = set a.takers i Taker.taking },
    inr (QueueStep.wake_up i (get_elem?-seen tid s a i r e)),
    record {
      takers = seen-go tid s a i Place.wait_lock r;
      in_turn = passes tid s a _ i _ _ refl e refl refl r.in_turn;
    },
  )

  at-outside :
      (n j : ℕ) (p : Place T) → get_elem? (replicate n Place.outside) j ≡ some p → inside p ≡ false
  unfolding inside
  at-outside zero j p e = absurd (none-some e)
  at-outside (suc n) zero p e = ap inside (sym (some-injective e))
  at-outside (suc n) (suc j) p e = at-outside n j p e

  -- Every schedule of the statements of `put` and `take` on a new queue is one of steps with whole
  -- critical sections. What those leave is the same but for an element that has been pushed and not yet
  -- been notified of; and `holder_` is the number of the thread inside, once it has been set, and 0
  -- otherwise.
  pub Statements-Refines :
      (tid : ℕ → ℕ) (n : ℕ) {s : SharedQueue T}
      → Statements tid (new_shared n) s
      → (a : BlockingQueue T) × QueueSteps (new_queue n) a × Refines tid s a
  unfolding new_shared new_queue new_mutex Next
  Statements-Refines tid n Statements.done = (
    new_queue n,
    QueueSteps.done,
    record { takers = map-outside T n; in_turn = free refl refl refl (at-outside n) },
  )
  Statements-Refines tid n (Statements.next h k) =
      let b = Statements-Refines tid n h in
      let c = Statement-Next tid b.0 b.2 k in
      (
        c.0,
        elim c.1 [
          | inl e ↦ subst (QueueSteps (new_queue n)) (sym e) b.1
          | inr q ↦ QueueSteps.next b.1 q
        ],
        c.2,
      )
