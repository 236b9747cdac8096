-- ===== src/Thread/Queue/Locking/Seen.antt =====
-- The threads of base/BlockingQueue.h as the critical sections see them, before and after one moves.
use naive_net.Common.{
  ℕ, zero, suc, ◌≡◌, ◌≢◌, refl, sym, ap, subst, ◌∙◌, ◌⊎◌, inl, inr, List, [], ◌∷◌, map, some,
  none-some, some-injective, Bool-cases, ◌==◌, true, false, get_elem?, set, arith, get_elem?-set_ne,
  replicate,
}
use naive_net.Thread.Wait.{Notified, nobody, somebody}
use naive_net.Thread.Queue.{Taker, taker_sleeper}
use naive_net.Thread.Queue.Statements.{
  Place, place_sleeper, AfterLock, put_locked, take_locked, wait_locked, AfterAssign, put_assigned,
  take_assigned, wait_assigned, AfterUnassign, put_unassigned, take_unassigned, wait_unassigned,
}
use naive_net.Thread.Queue.Locking.{seen, inside, Alone}

pub map-outside :
    (T : Type 0) (n : ℕ)
    → replicate n Taker.outside ≡ map (seen {T = T}) (replicate n Place.outside)
unfolding seen
map-outside T zero = refl
map-outside T (suc n) = ap (◌∷◌ Taker.outside) (map-outside T n)

module _ {T : Type 0} where
  pub map-set :
      (ps : List (Place T)) (i : ℕ) (p : Place T)
      → map seen (set ps i p) ≡ set (map seen ps) i (seen p)
  map-set [] i p = refl
  map-set (q ∷ ps) zero p = refl
  map-set (q ∷ ps) (suc i) p = ap (◌∷◌ (seen q)) (map-set ps i p)

  -- A thread that moves between places that are seen alike.
  pub map-set_same :
      (ps : List (Place T)) (i : ℕ) {p : Place T} (p' : Place T)
      → get_elem? ps i ≡ some p
      → seen p ≡ seen p'
      → map seen (set ps i p') ≡ map seen ps
  map-set_same [] i p' e h = refl
  map-set_same (q ∷ ps) zero p' e h =
      ap (λ t. t ∷ map seen ps) (sym h ∙ ap seen (sym (some-injective e)))
  map-set_same (q ∷ ps) (suc i) p' e h = ap (◌∷◌ (seen q)) (map-set_same ps i p' e h)

  pub get_elem?-map :
      (ps : List (Place T)) (i : ℕ) {p : Place T}
      → get_elem? ps i ≡ some p
      → get_elem? (map seen ps) i ≡ some (seen p)
  get_elem?-map [] i e = absurd (none-some e)
  get_elem?-map (q ∷ ps) zero e = ap (λ o. some (seen o)) (some-injective e)
  get_elem?-map (q ∷ ps) (suc i) e = get_elem?-map ps i e

  pub get_elem?-moved :
      (ps : List (Place T)) (i : ℕ) {p : Place T} (p' : Place T)
      → get_elem? ps i ≡ some p
      → get_elem? (set ps i p') i ≡ some p'
  get_elem?-moved [] i p' e = absurd (none-some e)
  get_elem?-moved (q ∷ ps) zero p' e = refl
  get_elem?-moved (q ∷ ps) (suc i) p' e = get_elem?-moved ps i p' e

  -- Where a thread is after thread `i` has moved.
  pub moved-cases :
      (ps : List (Place T)) (i : ℕ) {p : Place T} (p' : Place T) (j : ℕ) (q : Place T)
      → get_elem? ps i ≡ some p
      → get_elem? (set ps i p') j ≡ some q
      → ((j ≡ i) × (q ≡ p')) ⊎ ((j ≢ i) × (get_elem? ps j ≡ some q))
  moved-cases ps i p' j q e e' = elim (Bool-cases (j == i)) [
    | inl same ↦
        let n : j ≡ i = ground arith in
        inl
          (n, some-injective (sym e' ∙ ap (get_elem? (set ps i p')) n ∙ get_elem?-moved ps i p' e))
    | inr other ↦ inr (ground arith, sym (get_elem?-set_ne ps p' (ground arith)) ∙ e')
  ]

  pub AfterLock-seen : {p p' : Place T} → AfterLock p p' → seen p ≡ seen p'
  unfolding seen
  AfterLock-seen (put_locked x) = refl
  AfterLock-seen take_locked = refl
  AfterLock-seen wait_locked = refl

  pub AfterAssign-seen : {p p' : Place T} → AfterAssign p p' → seen p ≡ seen p'
  unfolding seen
  AfterAssign-seen (put_assigned x) = refl
  AfterAssign-seen take_assigned = refl
  AfterAssign-seen wait_assigned = refl

  pub AfterUnassign-seen : {p p' : Place T} → AfterUnassign p p' → seen p ≡ seen p'
  unfolding seen
  AfterUnassign-seen put_unassigned = refl
  AfterUnassign-seen take_unassigned = refl
  AfterUnassign-seen wait_unassigned = refl

  pub asleep-seen : (p : Place T) → taker_sleeper.asleep (seen p) ≡ place_sleeper.asleep p
  unfolding seen
  asleep-seen p = elim p as (λ q. taker_sleeper.asleep (seen q) ≡ place_sleeper.asleep q) [
    | Place.sleeping ↦ refl
    | _ ↦ refl
  ]

  pub only_sleeping : (p : Place T) → place_sleeper.asleep p ≡ true → p ≡ Place.sleeping
  only_sleeping p = elim p as (λ q. place_sleeper.asleep q ≡ true → q ≡ Place.sleeping) [
    | Place.sleeping ↦ λ a. refl
    | _ ↦ λ a. grind (arith, a)
  ]

  pub map-at :
      (ps : List (Place T)) (i : ℕ) (t : Taker)
      → get_elem? (map seen ps) i ≡ some t
      → (p : Place T) × (get_elem? ps i ≡ some p) × (seen p ≡ t)
  map-at [] i t e = absurd (none-some e)
  map-at (p ∷ ps) zero t e = (p, refl, some-injective e)
  map-at (p ∷ ps) (suc i) t e = map-at ps i t e

  -- A notification wakes the same thread.
  pub Notified-seen :
      {ps qs : List (Place T)}
      → Notified place_sleeper ps qs
      → Notified taker_sleeper (map seen ps) (map seen qs)
  unfolding seen
  Notified-seen {ps = ps} (nobody h) = nobody λ i t e.
      let r = map-at ps i t e in ap taker_sleeper.asleep (sym r.2) ∙ asleep-seen r.0 ∙ h i r.0 r.1
  Notified-seen {ps = ps} (somebody i p e a) =
      let s = only_sleeping p a in
      subst (Notified taker_sleeper (map seen ps)) (sym (map-set ps i Place.wait_lock))
        (somebody i Taker.waiting (get_elem?-map ps i e ∙ ap (λ q. some (seen q)) s) refl)

  -- The thread that notifies is awake, and stays where it is.
  pub Notified-at :
      {ps qs : List (Place T)} (i : ℕ) (p : Place T)
      → place_sleeper.asleep p ≡ false
      → get_elem? ps i ≡ some p
      → Notified place_sleeper ps qs
      → get_elem? qs i ≡ some p
  Notified-at i p a e (nobody h) = e
  Notified-at {ps = ps} i p a e (somebody j q e' a') = elim (Bool-cases (i == j)) [
    | inl same ↦ absurd (grind (arith, same, a, a', e, e', some-injective))
    | inr other ↦ get_elem?-set_ne ps Place.wait_lock (ground arith) ∙ e
  ]

  pub Notified-Alone :
      {ps qs : List (Place T)} (i : ℕ) → Notified place_sleeper ps qs → Alone i ps → Alone i qs
  unfolding inside
  Notified-Alone i (nobody h) al k r n x = al k r n x
  Notified-Alone {ps = ps} i (somebody j q e a) al k r n x =
      elim (moved-cases ps j Place.wait_lock k r e x) [
        | inl (w, y) ↦ ap inside y
        | inr (w, y) ↦ al k r n y
      ]
