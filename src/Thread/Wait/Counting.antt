-- ===== src/Thread/Wait/Counting.antt =====
-- How many threads are at a place, and what `notify` of base/Condition.h makes of the number.
use naive_net.Common.{
  ℕ, zero, suc, ◌+◌, ◌≡◌, refl, ap, List, [], ◌∷◌, some, true, false, get_elem?, set, replicate,
  arith, none-some, some-injective, ◌⊎◌, inl, inr,
}
use naive_net.Thread.Wait.{Sleeper, Notified, nobody, somebody}

module _ {ℓ} {A : Type ℓ} where
  -- How many are of a kind, which `f` says by 1 or 0.
  abbrev pub count : (A → ℕ) → List A → ℕ
  count f [] = 0
  count f (x ∷ xs) = f x + count f xs

  pub count-set :
      (f : A → ℕ) (xs : List A) (i : ℕ) (x y : A)
      → get_elem? xs i ≡ some x
      → count f (set xs i y) + f x ≡ count f xs + f y
  count-set f [] i x y e = absurd (none-some e)
  count-set f (z ∷ xs) zero x y e = omega (arith, ap f (some-injective e))
  count-set f (z ∷ xs) (suc i) x y e = omega (arith, count-set f xs i x y e)

  -- `f` counts those that are woken up, and `g` those that sleep.
  abbrev pub Counts : Sleeper A → (A → ℕ) → (A → ℕ) → Type ℓ
  Counts z f g =
      (x : A)
      → ((z.asleep x ≡ false) × (g x ≡ 0))
        ⊎ ((z.asleep x ≡ true) × (g x ≡ 1) × (f x ≡ 0) × (f (z.wake x) ≡ 1) × (g (z.wake x) ≡ 0))

  nobody_asleep :
      (z : Sleeper A) {f g : A → ℕ} (xs : List A)
      → Counts z f g
      → ((i : ℕ) (x : A) → get_elem? xs i ≡ some x → z.asleep x ≡ false)
      → count g xs ≡ 0
  nobody_asleep z [] c h = refl
  nobody_asleep z (x ∷ xs) c h =
      let rest = nobody_asleep z xs c (λ i y e. h (suc i) y e) in
      elim (c x) [
        | inl (a, g0) ↦ omega (arith, g0, rest)
        | inr (a, g1, f0, f1, g0) ↦ absurd (grind (arith, a, h 0 x refl))
      ]

  -- A `notify` wakes one, where any sleeps.
  pub count-Notified :
      (z : Sleeper A) (f g : A → ℕ) {xs ys : List A}
      → Counts z f g
      → Notified z xs ys
      → ((count g xs ≡ 0) × (ys ≡ xs))
        ⊎ ((count f ys ≡ suc (count f xs)) × (suc (count g ys) ≡ count g xs))
  count-Notified z f g {xs = xs} c (nobody h) = inl (nobody_asleep z xs c h, refl)
  count-Notified z f g {xs = xs} c (somebody i x e a) = elim (c x) [
    | inl (b, g0) ↦ absurd (grind (arith, a, b))
    | inr (b, g1, f0, f1, g0) ↦ inr (
      omega (arith, count-set f xs i x (z.wake x) e, f0, f1),
      omega (arith, count-set g xs i x (z.wake x) e, g0, g1),
    )
  ]

pub count-replicate {ℓ} :
    {A : Type ℓ} (f : A → ℕ) (a : A) (n : ℕ) → f a ≡ 0 → count f (replicate n a) ≡ 0
count-replicate f a zero e = refl
count-replicate f a (suc n) e = omega (arith, e, count-replicate f a n e)
