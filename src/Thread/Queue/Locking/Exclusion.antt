-- ===== src/Thread/Queue/Locking/Exclusion.antt =====
-- One thread at a time is between the lock and the unlock of base/BlockingQueue.h, and it can go on.
use naive_net.Common.{
  ℕ, zero, suc, ◌≤◌, ◌≡◌, ◌≢◌, refl, ap, ◌∙◌, ◌⊎◌, inl, inr, List, [], ◌∷◌, none, some, true,
  get_elem?, set, arith,
}
use naive_net.Thread.Wait.{can_notify}
use naive_net.Thread.Mutex.{pthread_mutex_unlock}
use naive_net.Thread.Queue.{BlockingQueue}
use naive_net.Thread.Queue.Statements.{
  Place, SharedQueue, At, place_sleeper, put_assigned, take_assigned, wait_assigned, put_unassigned,
  take_unassigned, wait_unassigned, put_unlocked, take_unlocked, wait_released, Statement,
  Statements, new_shared,
}
use naive_net.Thread.Queue.Locking.Seen.{get_elem?-moved, Notified-at}
use naive_net.Thread.Queue.Locking.{inside, Holds, free, locked, Refines}
use naive_net.Thread.Queue.Locking.Turns.{Runs, InTurn-Runs}
use naive_net.Thread.Queue.Locking.Refinement.{Next, Statement-Next, Statements-Refines}

List-cases : {T : Type 0} (l : List T) → (l ≡ []) ⊎ ((x : T) × (q : List T) × (l ≡ x ∷ q))
List-cases [] = inl refl
List-cases (x ∷ q) = inr (x, q, refl)

module _ {T : Type 0} (tid : ℕ → ℕ) where
  -- Where a thread is between the lock and the unlock in a schedule of a new queue, it is the one that
  -- has locked the mutex; so two such threads are one.
  pub Statements-inside :
      (n : ℕ) {s : SharedQueue T} (i : ℕ) (p : Place T)
      → Statements tid (new_shared n) s
      → At s i p
      → inside p ≡ true
      → s.lock.mutex ≡ some i
  Statements-inside n i p h e k =
      let r = Statements-Refines tid n h in (InTurn-Runs tid _ r.0 r.2.in_turn e k).has_mutex

  -- How many statements are left until the mutex is given back, at most.
  left : Place T → ℕ
  left p = elim p [
    | Place.put_assign x ↦ 5
    | Place.put_push x ↦ 4
    | Place.put_notify x ↦ 3
    | Place.put_unassign ↦ 2
    | Place.put_unlock ↦ 1
    | Place.take_assign ↦ 5
    | Place.wait_assign ↦ 5
    | Place.take_test ↦ 4
    | Place.take_front ↦ 3
    | Place.wait_unassign ↦ 2
    | Place.take_unassign ↦ 2
    | _ ↦ 1
  ]

  left-pos : (p : Place T) → 1 ≤ left p
  unfolding left
  left-pos p = elim p as (λ q. 1 ≤ left q) [ Place.outside ↦ omega arith | _ ↦ omega arith ]

  -- The thread that has the mutex can run its next statement, and then gives it back or has less left.
  Ahead : SharedQueue T → Place T → Type 0
  Ahead s p =
      (t : SharedQueue T) × Statement tid s t
      × ((t.lock.mutex ≡ none)
          ⊎ ((i : ℕ) × (p' : Place T) × At t i p' × (inside p' ≡ true) × (suc (left p') ≤ left p)))

  moves :
      (s : SharedQueue T) (i : ℕ) (p p' : Place T) {t : SharedQueue T}
      → At s i p
      → Statement tid s t
      → t.places ≡ set s.places i p'
      → inside p' ≡ true
      → suc (left p') ≤ left p
      → Ahead s p
  unfolding Ahead
  moves s i p p' {t} e k ps h l =
      (t, k, inr (i, p', ap (λ l. get_elem? l i) ps ∙ get_elem?-moved s.places i p' e, h, l))

  tests : (s : SharedQueue T) (i : ℕ) → At s i Place.take_test → Ahead s Place.take_test
  unfolding left inside
  tests s i e = elim (List-cases s.queue) [
    | inl z ↦ moves s i _ Place.wait_unassign e (Statement.test_empty i e z) refl refl (omega arith)
    | inr (x, q, z) ↦
        moves s i _ Place.take_front e (Statement.test_full i x q e z) refl refl (omega arith)
  ]

  takes :
      (s : SharedQueue T) (i : ℕ)
      → At s i Place.take_front
      → s.queue ≢ []
      → Ahead s Place.take_front
  unfolding left inside
  takes s i e n = elim (List-cases s.queue) [
    | inl z ↦ absurd (n z)
    | inr (x, q, z) ↦
        moves s i _ Place.take_unassign e (Statement.front i x q e z) refl refl (omega arith)
  ]

  notifies :
      (s : SharedQueue T) (i : ℕ) (x : T)
      → At s i (Place.put_notify x)
      → Ahead s (Place.put_notify x)
  unfolding left inside Ahead
  notifies s i x e =
      let w = can_notify place_sleeper s.places in
      (
        _,
        Statement.notify i x e w.1,
        inr (
          i,
          Place.put_unassign,
          get_elem?-moved w.0 i Place.put_unassign (Notified-at i (Place.put_notify x) refl e w.1),
          refl,
          omega arith,
        ),
      )

  goes_on :
      (s : SharedQueue T) (a : BlockingQueue T) (i : ℕ) (p : Place T)
      → Runs tid s a i p
      → At s i p
      → Ahead s p
  unfolding Ahead left inside Holds pthread_mutex_unlock
  goes_on s a i (Place.put_assign x) r e =
      moves s i _ (Place.put_push x) e (Statement.assign i e (put_assigned x)) refl refl
        (omega arith)
  goes_on s a i (Place.put_push x) r e =
      moves s i _ (Place.put_notify x) e (Statement.push i x e) refl refl (omega arith)
  goes_on s a i Place.put_unassign r e =
      moves s i _ (Place.put_unlock) e (Statement.unassign i e put_unassigned) refl refl
        (omega arith)
  goes_on s a i Place.take_assign r e =
      moves s i _ (Place.take_test) e (Statement.assign i e take_assigned) refl refl (omega arith)
  goes_on s a i Place.wait_assign r e =
      moves s i _ (Place.take_test) e (Statement.assign i e wait_assigned) refl refl (omega arith)
  goes_on s a i Place.take_unassign r e =
      moves s i _ (Place.take_unlock) e (Statement.unassign i e take_unassigned) refl refl
        (omega arith)
  goes_on s a i Place.wait_unassign r e =
      moves s i _ (Place.wait_release) e (Statement.unassign i e wait_unassigned) refl refl
        (omega arith)
  goes_on s a i (Place.put_notify x) r e = notifies s i x e
  goes_on s a i Place.take_test r e = tests s i e
  goes_on s a i Place.take_front r e = takes s i e r.holds.2
  goes_on s a i Place.put_unlock r e = (_, Statement.give_mutex i e put_unlocked, inl refl)
  goes_on s a i Place.take_unlock r e = (_, Statement.give_mutex i e take_unlocked, inl refl)
  goes_on s a i Place.wait_release r e = (_, Statement.give_mutex i e wait_released, inl refl)
  goes_on s a i Place.outside r e = absurd r.holds
  goes_on s a i (Place.put_lock x) r e = absurd r.holds
  goes_on s a i Place.take_lock r e = absurd r.holds
  goes_on s a i Place.sleeping r e = absurd r.holds
  goes_on s a i Place.wait_lock r e = absurd r.holds

  released :
      (fuel : ℕ) {s t : SharedQueue T} (a : BlockingQueue T) (i : ℕ) (p : Place T)
      → left p ≤ fuel
      → Statements tid s t
      → Refines tid t a
      → At t i p
      → inside p ≡ true
      → (u : SharedQueue T) × Statements tid s u × (u.lock.mutex ≡ none)
  unfolding Ahead Next
  released zero a i p l h r e k = absurd (omega (arith, left-pos p, l))
  released (suc fuel) {t = t} a i p l h r e k =
      let run = InTurn-Runs tid t a r.in_turn e k in
      let g = goes_on t a i p run e in
      let n = Statement-Next tid a r g.1 in
      elim g.2 [
        | inl m ↦ (g.0, Statements.next h g.1, m)
        | inr (j, q, e', k', less) ↦
            released fuel n.0 j q (omega arith) (Statements.next h g.1) n.2 e' k'
      ]

  -- In no schedule of a new queue is the mutex kept for ever: the threads can go on to where no thread
  -- has it.
  pub Statements-released :
      (n : ℕ) {s : SharedQueue T}
      → Statements tid (new_shared n) s
      → (t : SharedQueue T) × Statements tid s t × (t.lock.mutex ≡ none)
  Statements-released n {s} h =
      let r = Statements-Refines tid n h in
      elim r.2.in_turn [
        | free m z c out ↦ (s, Statements.done, m)
        | locked i p m e k x al ↦ released (left p) r.0 i p (omega arith) Statements.done r.2 e k
      ]
