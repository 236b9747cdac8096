-- ===== src/Atomic/Examples.antt =====
-- Counters of base/Atomic.h at their bounds.
use naive_net.Common.{◌-◌, ◌^◌, ◌≡◌, ◌≢◌, refl, arith}
use naive_net.Common.Int.{pos, negsuc, ◌+ℤ◌}
use naive_net.Atomic.Numbers.{default_name, default_names_differ}
use naive_net.Atomic.{get_and_add, wrap, low_bits}

-- The integer wraps round where the sum that `addAndGet` returns would not fit.
wraps : (get_and_add 32 (pos 1) (record { value = pos (2 ^ 31 - 1) })).1.value ≡ negsuc (2 ^ 31 - 1)
unfolding get_and_add wrap low_bits ◌+ℤ◌
wraps = refl

default_names_differ_example : default_name 0 ≢ default_name 9
default_names_differ_example =
    default_names_differ 0 9 (omega arith) (omega arith) (λ e. omega (arith, e))
