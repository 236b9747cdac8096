-- ===== src/Atomic/Numbers.antt =====
-- The numbers of base/Atomic.h that Thread::setDefaultName of base/Thread.cc makes names of.
use naive_net.Common.{
  ℕ, zero, suc, ◌+◌, ◌^◌, ◌≤◌, ◌<◌, ◌≡◌, ◌≢◌, refl, sym, ap, ◌∙◌, List, [], length, take, drop,
  take-all, arith,
}
use naive_net.Common.Int.{pos, pos_part, ◌+ℤ◌, +ℤ-pos}
use naive_net.Common.Printf.{signed, read_signed, read_signed-signed, length-decimal}
use naive_net.Atomic.{
  AtomicInteger, new_atomic, low_bits, wrap, get_and_add, add_and_get, increment_and_get, increment,
}
use naive_net.Thread.Life.{set_default_name}

-- The counter of threads after `n` of them.
unfoldable pub counted : ℕ → AtomicInteger
counted zero = new_atomic
counted (suc n) = increment 32 (counted n)

wrap-pos : (n : ℕ) → n < 2 ^ 31 → wrap 32 (pos n) ≡ pos n
unfolding wrap low_bits
wrap-pos n h = ground (arith, h)

value-counted : (n : ℕ) → n < 2 ^ 31 → (counted n).value ≡ pos n
unfolding counted increment increment_and_get add_and_get get_and_add new_atomic
value-counted zero h = refl
value-counted (suc n) h =
    ap (λ v. wrap 32 (v +ℤ pos 1)) (value-counted n (omega arith))
    ∙ ap (wrap 32) (+ℤ-pos n 1)
    ∙ ap (λ k. wrap 32 (pos k)) {x = n + 1} {y = suc n} (omega arith)
    ∙ wrap-pos (suc n) h

-- The default name of the thread after `n` others.
unfoldable pub default_name : ℕ → List ℕ
default_name n = set_default_name (increment_and_get 32 (counted n)).0 []

short : (n : ℕ) → n < 2 ^ 31 → length (signed (pos n)) ≤ 25
unfolding signed
short n h = omega (arith, length-decimal n 9 (omega arith))

read_signed-default_name :
    (n : ℕ) → suc n < 2 ^ 31 → read_signed (drop 6 (default_name n)) ≡ pos (suc n)
unfolding default_name increment_and_get add_and_get get_and_add set_default_name
read_signed-default_name n h =
    let number : (counted n).value +ℤ pos 1 ≡ pos (suc n) =
      ap (λ v. v +ℤ pos 1) (value-counted n (omega arith)) ∙ +ℤ-pos n 1 ∙ ap pos (omega arith) in
    ap (λ v. read_signed (take 25 (signed v))) number
    ∙ ap read_signed (take-all 25 (signed (pos (suc n))) (short (suc n) h))
    ∙ read_signed-signed (pos (suc n))

-- The default names of two different threads differ, as long as there are fewer than 2^31 threads.
pub default_names_differ :
    (n k : ℕ) → suc n < 2 ^ 31 → suc k < 2 ^ 31 → n ≢ k → default_name n ≢ default_name k
default_names_differ n k h h' d e =
    let r =
      sym (read_signed-default_name n h)
      ∙ ap (λ name. read_signed (drop 6 name)) e
      ∙ read_signed-default_name k h' in
    d (omega (arith, ap pos_part r))
