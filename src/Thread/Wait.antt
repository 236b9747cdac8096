-- ===== src/Thread/Wait.antt =====
-- `Condition` of base/Condition.h over the threads that may wait on it, each at a place of its own: a
-- step of the code that holds the mutex is one step here, so only the waiting is left of `MutexLock`.
pub mod Counting
use naive_net.Common.{
  ℕ, zero, suc, refl, sym, ap, ◌∙◌, ◌⊎◌, inl, inr, none-some, some-injective, Bool-cases, ◌≡◌, List,
  [], ◌∷◌, some, Bool, true, false, get_elem?, set,
}

-- What can sleep, and what it is when it is woken up.
pub record Sleeper {ℓ} (A : Type ℓ) : Type ℓ where
  pub asleep : A → Bool
  pub wake : A → A

-- `notify`: one of those that wait is woken up, whichever, if any waits.
pub data Notified {ℓ} {A : Type ℓ} (z : Sleeper A) (xs : List A) : List A → Type ℓ where
  nobody : ((i : ℕ) (x : A) → get_elem? xs i ≡ some x → z.asleep x ≡ false) → Notified z xs xs
  somebody :
      (i : ℕ) (x : A)
      → get_elem? xs i ≡ some x
      → z.asleep x ≡ true
      → Notified z xs (set xs i (z.wake x))

awake_cons {ℓ} :
    {A : Type ℓ} (z : Sleeper A) (y : A) (ys : List A)
    → z.asleep y ≡ false
    → ((i : ℕ) (x : A) → get_elem? ys i ≡ some x → z.asleep x ≡ false)
    → (i : ℕ) (x : A) → get_elem? (y ∷ ys) i ≡ some x
    → z.asleep x ≡ false
awake_cons z y ys a h zero x e = ap z.asleep (sym (some-injective e)) ∙ a
awake_cons z y ys a h (suc i) x e = h i x e

find_asleep {ℓ} :
    {A : Type ℓ} (z : Sleeper A) (xs : List A)
    → ((i : ℕ) × (x : A) × (get_elem? xs i ≡ some x) × (z.asleep x ≡ true))
      ⊎ ((i : ℕ) (x : A) → get_elem? xs i ≡ some x → z.asleep x ≡ false)
find_asleep z [] = inr (λ i x e. absurd (none-some e))
find_asleep z (y ∷ ys) = elim (Bool-cases (z.asleep y)) [
  | inl a ↦ inl (0, y, refl, a)
  | inr a ↦ elim (find_asleep z ys) [
    | inl (i, x, e, b) ↦ inl (suc i, x, e, b)
    | inr h ↦ inr (awake_cons z y ys a h)
  ]
]

-- A `notify` always goes through.
pub can_notify {ℓ} : {A : Type ℓ} (z : Sleeper A) (xs : List A) → (ys : List A) × Notified z xs ys
can_notify z xs = elim (find_asleep z xs) [
  | inl (i, x, e, a) ↦ (set xs i (z.wake x), somebody i x e a)
  | inr h ↦ (xs, nobody h)
]
