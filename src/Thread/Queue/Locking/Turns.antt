-- ===== src/Thread/Queue/Locking/Turns.antt =====
-- The mutex of base/BlockingQueue.h goes from thread to thread, statement by statement.
use naive_net.Common.{
  ℕ, ◌≡◌, ◌≢◌, refl, sym, ap, subst, ◌∙◌, inl, inr, List, Option, none, some, none-some,
  Option-cases, some-injective, Bool-cases, ◌==◌, true, false, get_elem?, set, arith,
  get_elem?-set_ne,
}
use naive_net.Thread.Mutex.{MutexLock, assign_holder, unassign_holder, pthread_mutex_lock}
use naive_net.Thread.Queue.{BlockingQueue}
use naive_net.Thread.Queue.Statements.{
  Place, SharedQueue, At, go, AfterLock, put_locked, take_locked, wait_locked, AfterAssign,
  put_assigned, take_assigned, wait_assigned, AfterUnassign, put_unassigned, take_unassigned,
  wait_unassigned,
}
use naive_net.Thread.Queue.Locking.Seen.{get_elem?-moved, moved-cases}
use naive_net.Thread.Queue.Locking.{
  inside, shared_contents, contents, Holds, Alone, InTurn, free, locked,
}

pthread_mutex_lock-free :
    (i : ℕ) (l : MutexLock) {m : MutexLock}
    → pthread_mutex_lock i l ≡ some m
    → (l.mutex ≡ none) × (record { mutex = some i; holder = l.holder } ≡ m)
unfolding pthread_mutex_lock
pthread_mutex_lock-free i l e =
    let run = λ (o : Option ℕ). elim o as (λ x. Option MutexLock) [
      | none ↦ some (record l { mutex = some i })
      | some j ↦ none
    ] in
    elim (Option-cases l.mutex) [
      | inl n ↦ (n, some-injective (ap run (sym n) ∙ e))
      | inr (j, n) ↦ absurd (none-some (ap run (sym n) ∙ e))
    ]

module _ {T : Type 0} where
  Alone-moved : (ps : List (Place T)) (i : ℕ) (p : Place T) → Alone i ps → Alone i (set ps i p)
  Alone-moved ps i p h j q n e = h j q n (sym (get_elem?-set_ne ps p (λ k. n (sym k))) ∙ e)

  -- What is known of the thread that runs a statement between the lock and the unlock.
  pub record Runs (tid : ℕ → ℕ) (s : SharedQueue T) (a : BlockingQueue T) (i : ℕ) (p : Place T)
      : Type 0 where
    pub has_mutex : s.lock.mutex ≡ some i
    pub holds : Holds p (tid i) s.lock.holder (shared_contents s) (contents a)
    pub alone : Alone i s.places

  pub InTurn-Runs :
      (tid : ℕ → ℕ) (s : SharedQueue T) (a : BlockingQueue T) {i : ℕ} {p : Place T}
      → InTurn tid s a
      → At s i p
      → inside p ≡ true
      → Runs tid s a i p
  InTurn-Runs tid s a {i = i} (free m h c out) e k = absurd (grind (arith, out i _ e, k))
  InTurn-Runs tid s a {i = i} {p = p} (locked j q m e' k' h al) e k = elim (Bool-cases (j == i)) [
    | inl same ↦
        let n : j ≡ i = ground arith in
        let r : q ≡ p = some-injective (sym e' ∙ subst (λ l. At s l p) (sym n) e) in
        record {
          has_mutex = subst (λ l. s.lock.mutex ≡ some l) n m;
          holds =
              subst (λ l. Holds p (tid l) s.lock.holder (shared_contents s) (contents a)) n
                (subst (λ z. Holds z (tid j) s.lock.holder (shared_contents s) (contents a)) r h);
          alone = subst (λ l. Alone l s.places) n al;
        }
    | inr other ↦ absurd (grind (arith, al i p (ground arith) e, k))
  ]

  -- The thread that has the mutex goes on to a place where it has it still.
  pub stays :
      (tid : ℕ → ℕ) (s : SharedQueue T) (a : BlockingQueue T) (i : ℕ) (p p' : Place T)
      → At s i p
      → Alone i s.places
      → inside p' ≡ true
      → (t : SharedQueue T) (b : BlockingQueue T) → t.lock.mutex ≡ some i
      → t.places ≡ set s.places i p'
      → Holds p' (tid i) t.lock.holder (shared_contents t) (contents b)
      → InTurn tid t b
  stays tid s a i p p' e al k t b m ps h =
      locked i p' m (ap (λ l. get_elem? l i) ps ∙ get_elem?-moved s.places i p' e) k h
        (subst (Alone i) (sym ps) (Alone-moved s.places i p' al))

  -- It goes on to a place where it does not have it.
  pub leaves :
      (tid : ℕ → ℕ) (s : SharedQueue T) (a : BlockingQueue T) (i : ℕ) (p p' : Place T)
      → At s i p
      → Alone i s.places
      → inside p' ≡ false
      → (m : MutexLock) → m.mutex ≡ none
      → m.holder ≡ 0
      → shared_contents s ≡ contents a
      → InTurn tid (record (go s i p') { lock = m }) a
  leaves tid s a i p p' e al k m free_now h c = free free_now h c λ j q e'.
      elim (moved-cases s.places i p' j q e e') [
        | inl (n, r) ↦ ap inside r ∙ k
        | inr (n, r) ↦ al j q n r
      ]

  -- A thread that does not have the mutex goes on to such a place.
  pub passes :
      (tid : ℕ → ℕ) (s : SharedQueue T) (a b : BlockingQueue T) (i : ℕ) (p p' : Place T)
      → contents a ≡ contents b
      → At s i p
      → inside p ≡ false
      → inside p' ≡ false
      → InTurn tid s a
      → InTurn tid (go s i p') b
  passes tid s a b i p p' c e k k' (free m h d out) = free m h (d ∙ c) λ j q e'.
      elim (moved-cases s.places i p' j q e e') [
        | inl (n, r) ↦ ap inside r ∙ k'
        | inr (n, r) ↦ out j q r
      ]
  passes tid s a b i p p' c e k k' (locked l q m e' in' h al) =
      let n : i ≢ l = λ z. grind (arith, e, e', z, k, in', some-injective) in
      locked l q m (get_elem?-set_ne s.places p' n ∙ e') in'
        (subst (Holds q (tid l) s.lock.holder (shared_contents s)) c h)
        λ j r o x. elim (moved-cases s.places i p' j r e x) [
          | inl (w, y) ↦ ap inside y ∙ k'
          | inr (w, y) ↦ al j r o y
        ]

  -- A thread gets the mutex.
  locks :
      (tid : ℕ → ℕ) (s : SharedQueue T) (a : BlockingQueue T) (i : ℕ) (p p' : Place T)
      (m : MutexLock)
      → At s i p
      → inside p' ≡ true
      → (s.lock.holder ≡ 0
          → shared_contents s ≡ contents a
          → Holds p' (tid i) s.lock.holder (shared_contents s) (contents a))
      → pthread_mutex_lock i s.lock ≡ some m
      → InTurn tid s a
      → InTurn tid (record (go s i p') { lock = m }) a
  locks tid s a i p p' m e k h l (free f z c out) =
      subst (λ m. InTurn tid (record (go s i p') { lock = m }) a)
        (pthread_mutex_lock-free i s.lock l).1
        (locked i p' refl (get_elem?-moved s.places i p' e) k (h z c)
          λ j q n e'. out j q (sym (get_elem?-set_ne s.places p' (λ w. n (sym w))) ∙ e'))
  locks tid s a i p p' m e k h l (locked j q o e' in' h' al) =
      absurd (none-some (sym (pthread_mutex_lock-free i s.lock l).0 ∙ o))

  pub get_mutex-InTurn :
      (tid : ℕ → ℕ) (s : SharedQueue T) (a : BlockingQueue T) (i : ℕ) {p p' : Place T}
      (m : MutexLock)
      → At s i p
      → AfterLock p p'
      → pthread_mutex_lock i s.lock ≡ some m
      → InTurn tid s a
      → InTurn tid (record (go s i p') { lock = m }) a
  unfolding Holds inside
  get_mutex-InTurn tid s a i m e (put_locked x) l = locks tid s a i _ _ m e refl (λ h c. (h, c)) l
  get_mutex-InTurn tid s a i m e take_locked l = locks tid s a i _ _ m e refl (λ h c. (h, c)) l
  get_mutex-InTurn tid s a i m e wait_locked l = locks tid s a i _ _ m e refl (λ h c. (h, c)) l

  pub assign-InTurn :
      (tid : ℕ → ℕ) (s : SharedQueue T) (a : BlockingQueue T) (i : ℕ) {p p' : Place T}
      → At s i p
      → AfterAssign p p'
      → InTurn tid s a
      → InTurn tid (record (go s i p') { lock = assign_holder (tid i) s.lock }) a
  unfolding Holds inside assign_holder
  assign-InTurn tid s a i e (put_assigned x) t =
      let r = InTurn-Runs tid s a t e refl in
      stays tid s a i _ _ e r.alone refl _ a r.has_mutex refl (refl, r.holds.1)
  assign-InTurn tid s a i e take_assigned t =
      let r = InTurn-Runs tid s a t e refl in
      stays tid s a i _ _ e r.alone refl _ a r.has_mutex refl (refl, r.holds.1)
  assign-InTurn tid s a i e wait_assigned t =
      let r = InTurn-Runs tid s a t e refl in
      stays tid s a i _ _ e r.alone refl _ a r.has_mutex refl (refl, r.holds.1)

  pub unassign-InTurn :
      (tid : ℕ → ℕ) (s : SharedQueue T) (a : BlockingQueue T) (i : ℕ) {p p' : Place T}
      → At s i p
      → AfterUnassign p p'
      → InTurn tid s a
      → InTurn tid (record (go s i p') { lock = unassign_holder s.lock }) a
  unfolding Holds inside unassign_holder
  unassign-InTurn tid s a i e put_unassigned t =
      let r = InTurn-Runs tid s a t e refl in
      stays tid s a i _ _ e r.alone refl _ a r.has_mutex refl (refl, r.holds.1)
  unassign-InTurn tid s a i e take_unassigned t =
      let r = InTurn-Runs tid s a t e refl in
      stays tid s a i _ _ e r.alone refl _ a r.has_mutex refl (refl, r.holds.1)
  unassign-InTurn tid s a i e wait_unassigned t =
      let r = InTurn-Runs tid s a t e refl in
      stays tid s a i _ _ e r.alone refl _ a r.has_mutex refl (refl, r.holds.1, r.holds.2)
