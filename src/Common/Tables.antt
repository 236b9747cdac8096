-- ===== src/Common/Tables.antt =====
-- A test of every number below a bound, by evaluation.
use naive_net.Common.{ℕ, zero, suc, ◌<◌, ◌≡◌, Bool, true, ◌&&◌, arith}

unfoldable pub holds_below : ℕ → (ℕ → Bool) → Bool
holds_below zero test = true
holds_below (suc n) test = holds_below n test && test n

pub holds_below_at : (n k : ℕ) (test : ℕ → Bool) → k < n → holds_below n test ≡ true → test k ≡ true
unfolding holds_below
holds_below_at zero k test h e = elim h [ ]
holds_below_at (suc n) k test h e = ground (arith, holds_below_at n k test)
