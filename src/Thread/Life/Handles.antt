-- ===== src/Thread/Life/Handles.antt =====
-- The thread of the system behind base/Thread.cc is joined or detached once, and its number is told.
use naive_net.Common.{
  ℕ, ◌≡◌, ◌≢◌, refl, ap, subst, inl, inr, List, Option, none, some, Bool, true, false, Bool-cases,
  arith,
}
use naive_net.Common.Int.{ℤ, pos}
use naive_net.Thread.Life.{
  Thread, Handle, Run, Life, new_life, join_handle, detach_handle, store_tid, destroyed, LifeStep,
  LifeSteps,
}

-- Whether the thread of the system has begun with `runInThread`.
abbrev pub begun : Run → Bool
begun r = elim r [
  | Run.not_there ↦ false
  | Run.created n ↦ false
  | Run.running n m ↦ true
  | Run.finished ↦ true
  | Run.crashed ↦ true
]

-- What an object says of its thread: made on `start`, let go of on `join`, with the number 0 until it
-- has begun. Without the object, no thread of the system is left that nobody joins or detaches.
abbrev pub Says : Option Thread → Handle → Run → Type 0
Says none h r = (h ≢ Handle.live) × (h ≢ Handle.misused)
Says (some o) h r =
    ((o.started ≡ false) → (h ≡ Handle.unmade) × (o.joined ≡ false) × (r ≡ Run.not_there))
    × ((o.started ≡ true) → (o.joined ≡ false) → h ≡ Handle.live)
    × ((o.started ≡ true) → (o.joined ≡ true) → h ≡ Handle.was_joined)
    × ((begun r ≡ false) → o.tid ≡ pos 0)

apart {ℓ} : {A : Type ℓ} {b : Bool} → b ≡ true → b ≡ false → A
apart h k = absurd (grind (arith, h, k))

-- After `runInThread` has begun, what the object says does not depend on how it goes on.
begun-Says :
    (x : Option Thread) (h : Handle) (r r' : Run)
    → begun r ≡ true
    → begun r' ≡ true
    → Says x h r
    → Says x h r'
begun-Says none h r r' b b' v = v
begun-Says (some o) h r r' b b' v = (λ n. apart b (ap begun (v.0 n).2), v.1, v.2, λ n. apart b' n)

begin-Says :
    (x : Option Thread) (h : Handle) (r : Run) (name name' shown : List ℕ) (tid : ℤ)
    → r ≡ Run.created name
    → Says x h r
    → Says (store_tid tid x) h (Run.running name' shown)
unfolding store_tid
begin-Says none h r name name' shown tid e v = v
begin-Says (some o) h r name name' shown tid e v =
    (λ n. absurd (grind (arith, e, (v.0 n).2)), v.1, v.2, λ n. apart refl n)

start-Says :
    (o : Thread) (h : Handle) (r : Run) (name : List ℕ)
    → o.started ≡ false
    → Says (some o) h r
    → Says (some (record o { started = true })) Handle.live (Run.created name)
start-Says o h r name n v =
    (λ z. apart refl z, λ a b. refl, λ a b. apart b (v.0 n).1, λ b. v.3 (ap begun (v.0 n).2))

fails-Says :
    (o : Thread) (h : Handle) (r : Run)
    → o.started ≡ false
    → Says (some o) h r
    → Says (some (record o { started = false })) h r
fails-Says o h r n v = (λ z. v.0 n, λ a b. apart a refl, λ a b. apart a refl, v.3)

join-Says :
    (o : Thread) (h : Handle) (r : Run)
    → o.started ≡ true
    → o.joined ≡ false
    → Says (some o) h r
    → Says (some (record o { joined = true })) (join_handle h) r
unfolding join_handle
join-Says o h r a b v = (λ n. apart a n, λ n c. apart refl c, λ n c. ap join_handle (v.1 a b), v.3)

destroy-Says : (o : Thread) (h : Handle) (r : Run) → Says (some o) h r → Says none (destroyed o h) r
unfolding destroyed detach_handle
destroy-Says o h r v = elim (Bool-cases o.started) [
  | inr n ↦ rw (n, (v.0 n).0) (λ z. grind (arith, z), λ z. grind (arith, z))
  | inl a ↦ elim (Bool-cases o.joined) [
    | inr b ↦ rw (a, b, v.1 a b) (λ z. grind (arith, z), λ z. grind (arith, z))
    | inl b ↦ rw (a, b, v.2 a b) (λ z. grind (arith, z), λ z. grind (arith, z))
  ]
]

LifeStep-Says :
    {s t : Life} → LifeStep s t → Says s.object s.handle s.run → Says t.object t.handle t.run
LifeStep-Says {s = s} (LifeStep.start o e n) v =
    start-Says o s.handle s.run o.name n (subst (λ x. Says x s.handle s.run) e v)
LifeStep-Says {s = s} (LifeStep.start_fails o e n) v =
    fails-Says o s.handle s.run n (subst (λ x. Says x s.handle s.run) e v)
LifeStep-Says {s = s} (LifeStep.begin name tid e) v =
    begin-Says s.object s.handle s.run name name _ tid e v
LifeStep-Says {s = s} (LifeStep.end name shown e) v =
    begun-Says s.object s.handle s.run Run.finished (ap begun e) refl v
LifeStep-Says {s = s} (LifeStep.throws name shown o e f) v =
    begun-Says s.object s.handle s.run Run.crashed (ap begun e) refl v
LifeStep-Says {s = s} (LifeStep.join o e a b f) v =
    join-Says o s.handle s.run a b (subst (λ x. Says x s.handle s.run) e v)
LifeStep-Says {s = s} (LifeStep.destroy o e) v =
    destroy-Says o s.handle s.run (subst (λ x. Says x s.handle s.run) e v)

-- In every life of a `Thread` the thread of the system is joined or detached at most once, and only where
-- there is one; after the destructor none is left that is neither. Until `runInThread` has begun, which
-- may be after `start` has returned, `tid` gives 0.
pub LifeSteps-Says :
    (num : ℤ) (name : List ℕ) {s : Life}
    → LifeSteps (new_life num name) s
    → Says s.object s.handle s.run
unfolding new_life
LifeSteps-Says num name LifeSteps.done =
    (λ n. (refl, refl, refl), λ a b. apart a refl, λ a b. apart a refl, λ b. refl)
LifeSteps-Says num name (LifeSteps.next h a k) = LifeStep-Says k (LifeSteps-Says num name h)
