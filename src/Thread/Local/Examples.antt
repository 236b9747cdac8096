-- ===== src/Thread/Local/Examples.antt =====
-- Two threads that use an object of base/ThreadLocalSingleton.h, of which the first one ends.
use naive_net.Common.{◌≡◌, length, arith, List, [], ◌∷◌, some}
use naive_net.Thread.Local.{ThreadLocalSingleton, new_local, Use, use_all}
use naive_net.Thread.Local.Owners.{IsLocal}
use naive_net.Thread.Local.Ends.{ends, use_all-IsLocal}

abbrev uses : List Use
uses =
    Use.instance_in 0
    ∷ Use.instance_in 1
    ∷ Use.instance_in 0
    ∷ Use.end_in 0
    ∷ Use.instance_in 0
    ∷ []

use_all-IsLocal_example :
    (t : ThreadLocalSingleton) × (use_all (new_local 2) uses ≡ some t)
    × IsLocal t
    × (u : ThreadLocalSingleton) × (use_all t (ends 2) ≡ some u)
    × IsLocal u
    × (length u.deleted ≡ u.made)
use_all-IsLocal_example =
    use_all-IsLocal 2 uses
      (omega arith, (omega arith, (omega arith, (omega arith, (omega arith, tt)))))
