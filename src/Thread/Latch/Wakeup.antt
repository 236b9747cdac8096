-- ===== src/Thread/Latch/Wakeup.antt =====
-- Who passes `wait` of base/CountDownLatch.cc, and that nobody sleeps on when the count is down.
use naive_net.Common.{
  ℕ, zero, suc, ◌≤◌, ◌≡◌, refl, ap, subst, ◌∙◌, inl, inr, List, [], ◌∷◌, map, Bool-cases, false,
  some, none-some, some-injective, get_elem?, set, replicate, All, arith, ◌≢◌,
}
use naive_net.Common.Int.{
  ℤ, pos, ◌-ℤ◌, ltb_ℤ, ◌≤ℤ◌, ◌<ℤ◌, ◌==ℤ◌, int_laws, -ℤ_parts, eq_of_parts, pos_part, neg_part,
}
use naive_net.Thread.Latch.{
  Waiter, CountDownLatch, new_latch, wake, count_down, test_count, LatchStep, LatchSteps,
}

-- Where a thread may be for a count.
abbrev pub Fits : ℤ → Waiter → Type 0
Fits count Waiter.before = Unit
Fits count Waiter.entering = Unit
Fits count Waiter.sleeping = pos 0 <ℤ count
Fits count Waiter.passed = count ≤ℤ pos 0

-- The count is the first one less the calls of `countDown`; it is above 0 while a thread sleeps, and is
-- not above 0 where a thread has passed.
pub record IsLatch (first : ℤ) (s : CountDownLatch) : Type 0 where
  pub balance : s.count ≡ first -ℤ pos s.downs
  pub fits : All (Fits s.count) s.waiters

All-set :
    (P : Waiter → Type 0) (ws : List Waiter) (i : ℕ) (w : Waiter)
    → P w
    → All P ws
    → All P (set ws i w)
All-set P [] i w p h = tt
All-set P (v ∷ ws) zero w p (q, h) = (p, h)
All-set P (v ∷ ws) (suc i) w p (q, h) = (q, All-set P ws i w p h)

All-get :
    (P : Waiter → Type 0) (ws : List Waiter) (i : ℕ) (w : Waiter)
    → All P ws
    → get_elem? ws i ≡ some w
    → P w
All-get P [] i w h e = absurd (none-some e)
All-get P (v ∷ ws) zero w (q, h) e = subst P (some-injective e) q
All-get P (v ∷ ws) (suc i) w (q, h) e = All-get P ws i w h e

Fits-before : (count : ℤ) (n : ℕ) → All (Fits count) (replicate n Waiter.before)
Fits-before count zero = tt
Fits-before count (suc n) = (tt, Fits-before count n)

Fits-test : (count : ℤ) → Fits count (test_count count)
unfolding test_count
Fits-test count = elim (Bool-cases (ltb_ℤ (pos 0) count)) [
  | inl e ↦ rw e (ground arith)
  | inr e ↦ rw e (ground arith)
]

down_le : (c : ℤ) → c ≤ℤ pos 0 → c -ℤ pos 1 ≤ℤ pos 0
down_le c h = omega (int_laws, -ℤ_parts c (pos 1), h)

down_lt : (c : ℤ) → pos 0 <ℤ c → c -ℤ pos 1 ≢ pos 0 → pos 0 <ℤ c -ℤ pos 1
down_lt c h n = elim (Bool-cases (ltb_ℤ (pos 0) (c -ℤ pos 1))) [
  | inl e ↦ ground arith
  | inr e ↦ absurd (n (eq_of_parts (c -ℤ pos 1) (pos 0) (ground (arith, -ℤ_parts c (pos 1), h, e))))
]

-- All are woken up when the count comes to 0.
Fits-wake :
    (c d : ℤ)
    → (c ≤ℤ pos 0 → d ≤ℤ pos 0)
    → (ws : List Waiter) → All (Fits c) ws
    → All (Fits d) (map wake ws)
Fits-wake c d f [] h = tt
Fits-wake c d f (Waiter.before ∷ ws) (p, h) = (tt, Fits-wake c d f ws h)
Fits-wake c d f (Waiter.entering ∷ ws) (p, h) = (tt, Fits-wake c d f ws h)
Fits-wake c d f (Waiter.sleeping ∷ ws) (p, h) = (tt, Fits-wake c d f ws h)
Fits-wake c d f (Waiter.passed ∷ ws) (p, h) = (f p, Fits-wake c d f ws h)

Fits-down :
    (c d : ℤ)
    → (c ≤ℤ pos 0 → d ≤ℤ pos 0)
    → (pos 0 <ℤ c → pos 0 <ℤ d)
    → (ws : List Waiter) → All (Fits c) ws
    → All (Fits d) ws
Fits-down c d f g [] h = tt
Fits-down c d f g (Waiter.before ∷ ws) (p, h) = (tt, Fits-down c d f g ws h)
Fits-down c d f g (Waiter.entering ∷ ws) (p, h) = (tt, Fits-down c d f g ws h)
Fits-down c d f g (Waiter.sleeping ∷ ws) (p, h) = (g p, Fits-down c d f g ws h)
Fits-down c d f g (Waiter.passed ∷ ws) (p, h) = (f p, Fits-down c d f g ws h)

count_down-IsLatch :
    (first : ℤ) (s : CountDownLatch) → IsLatch first s → IsLatch first (count_down s)
unfolding count_down
count_down-IsLatch first s v =
    let d = s.count -ℤ pos 1 in
    record {
      balance =
          ap (λ c. c -ℤ pos 1) v.balance
          ∙ eq_of_parts ((first -ℤ pos s.downs) -ℤ pos 1) (first -ℤ pos (suc s.downs)) (
              omega (
                arith,
                -ℤ_parts (first -ℤ pos s.downs) (pos 1),
                -ℤ_parts first (pos s.downs),
                -ℤ_parts first (pos (suc s.downs)),
              ));
      fits = elim (Bool-cases (d ==ℤ pos 0)) [
        | inl e ↦ rw e (Fits-wake s.count d (down_le s.count) s.waiters v.fits)
        | inr e ↦ rw e (
            Fits-down s.count d (down_le s.count)
              (λ h. down_lt s.count h (λ z. grind (arith, ap (λ c. c ==ℤ pos 0) z, e))) s.waiters
              v.fits)
      ];
    }

LatchStep-IsLatch :
    (first : ℤ) {s t : CountDownLatch} → LatchStep s t → IsLatch first s → IsLatch first t
LatchStep-IsLatch first {s = s} (LatchStep.call_wait i e) v = record {
  balance = v.balance;
  fits = All-set (Fits s.count) s.waiters i Waiter.entering tt v.fits;
}
LatchStep-IsLatch first {s = s} (LatchStep.test i e) v = record {
  balance = v.balance;
  fits = All-set (Fits s.count) s.waiters i (test_count s.count) (Fits-test s.count) v.fits;
}
LatchStep-IsLatch first {s = s} LatchStep.down v = count_down-IsLatch first s v
LatchStep-IsLatch first {s = s} (LatchStep.wake_up i e) v = record {
  balance = v.balance;
  fits = All-set (Fits s.count) s.waiters i Waiter.entering tt v.fits;
}

-- In every schedule of a new latch the count is the first one less the calls of `countDown`. A thread has
-- passed `wait` only where the count is not above 0, and none sleeps there but where it is.
pub LatchSteps-IsLatch :
    (first : ℤ) (n : ℕ) {s : CountDownLatch} → LatchSteps (new_latch first n) s → IsLatch first s
unfolding new_latch
LatchSteps-IsLatch first n LatchSteps.done = record {
  balance = eq_of_parts first (first -ℤ pos 0) (omega (arith, -ℤ_parts first (pos 0)));
  fits = Fits-before first n;
}
LatchSteps-IsLatch first n (LatchSteps.next h k) =
    LatchStep-IsLatch first k (LatchSteps-IsLatch first n h)

-- Once `countDown` has been called as often as the latch was made for, no thread sleeps in `wait`, and
-- the test there lets each one through.
pub LatchSteps-passes :
    (first n : ℕ) {s : CountDownLatch} (i : ℕ) (w : Waiter)
    → LatchSteps (new_latch (pos first) n) s
    → first ≤ s.downs
    → get_elem? s.waiters i ≡ some w
    → (w ≢ Waiter.sleeping) × (test_count s.count ≡ Waiter.passed)
unfolding test_count
LatchSteps-passes first n {s = s} i w h d e =
    let v = LatchSteps-IsLatch (pos first) n h in
    let p = ap pos_part v.balance in
    let m = ap neg_part v.balance in
    let low : s.count ≤ℤ pos 0 = omega (arith, p, m, d, -ℤ_parts (pos first) (pos s.downs)) in
    let t : ltb_ℤ (pos 0) s.count ≡ false = ground (arith, low) in
    (
      λ z. absurd (
          omega
            (arith, low, subst (Fits s.count) z (All-get (Fits s.count) s.waiters i w v.fits e))),
      rw t refl,
    )
