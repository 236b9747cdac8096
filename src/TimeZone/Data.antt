-- ===== src/TimeZone/Data.antt =====
-- `TimeZone::Data`, and the search for the local time in force: `Comp` and `findLocaltime` of
-- base/TimeZone.cc, with the binary search of `std::lower_bound`.
pub mod Search
use naive_net.Common.{
  ℕ, zero, suc, ◌+◌, ◌-◌, ◌/◌, List, [], ◌∷◌, Option, none, some, Bool, true, false, ltb, ◌==◌,
  if◌then◌else◌, length, get_elem?,
}
use naive_net.Common.Int.{ℤ, pos, ltb_ℤ, ◌==ℤ◌}

-- `detail::Transition`
pub record Transition : Type 0 where
  pub gmttime : ℤ
  pub localtime : ℤ
  pub localtime_idx : ℕ

-- `detail::Localtime`
pub record Localtime : Type 0 where
  pub gmt_offset : ℤ
  pub is_dst : Bool
  pub arrb_idx : ℕ

-- `TimeZone::Data`; `names` is never used.
pub record Data : Type 0 where
  pub transitions : List Transition
  pub localtimes : List Localtime
  pub abbreviation : List ℕ

abbrev pub empty_data : Data
empty_data = record { transitions = []; localtimes = []; abbreviation = [] }

-- `detail::Comp`, by its member `compareGmt`.
unfoldable pub comp : Bool → Transition → Transition → Bool
comp true lhs rhs = ltb_ℤ lhs.gmttime rhs.gmttime
comp false lhs rhs = ltb_ℤ lhs.localtime rhs.localtime

unfoldable pub comp_equal : Bool → Transition → Transition → Bool
comp_equal true lhs rhs = lhs.gmttime ==ℤ rhs.gmttime
comp_equal false lhs rhs = lhs.localtime ==ℤ rhs.localtime

-- `std::lower_bound` between the positions `first` and `first + len`, where `below i` says that the
-- element at position `i` compares below the value.
unfoldable pub lower_bound_loop : (ℕ → Bool) → ℕ → ℕ → ℕ → ℕ
lower_bound_loop below zero first len = first
lower_bound_loop below (suc fuel) first zero = first
lower_bound_loop below (suc fuel) first (suc n) =
    let half = suc n / 2 in
    let right = lower_bound_loop below fuel (first + half + 1) (suc n - half - 1) in
    let left = lower_bound_loop below fuel first half in
    if below (first + half) then right else left

abbrev pub test_at : (Transition → Bool) → List Transition → ℕ → Bool
test_at test [] i = false
test_at test (t ∷ ts) zero = test t
test_at test (t ∷ ts) (suc i) = test_at test ts i

-- The range shrinks in each round, so its length is enough fuel.
unfoldable pub lower_bound : Bool → Transition → List Transition → ℕ
lower_bound gmt sentry ts =
    lower_bound_loop (test_at (λ t. comp gmt t sentry) ts) (length ts) 0 (length ts)

abbrev pub get_last? : List Transition → Option Transition
get_last? [] = none
get_last? (t ∷ []) = some t
get_last? (t ∷ u ∷ ts) = get_last? (u ∷ ts)

-- The element of `localtimes` that a transition names; `none` is an access out of bounds.
abbrev pub localtime_of : Data → Option Transition → Option Localtime
localtime_of zone none = none
localtime_of zone (some t) = get_elem? zone.localtimes t.localtime_idx

-- The choice after `lower_bound` has found position `i`; `none` also stands for the assertion that
-- it is not the first.
unfoldable pub choose : Bool → Transition → Data → ℕ → Option Transition → Option Localtime
choose gmt sentry zone i none = localtime_of zone (get_last? zone.transitions)
choose gmt sentry zone i (some t) =
    if comp_equal gmt sentry t
    then localtime_of zone (some t)
    else if i == 0
    then none
    else localtime_of zone (get_elem? zone.transitions (i - 1))

unfoldable pub search_from : Bool → Transition → Data → List Transition → Option Localtime
search_from gmt sentry zone [] = get_elem? zone.localtimes 0
search_from gmt sentry zone (t ∷ ts) =
    if comp gmt sentry t
    then get_elem? zone.localtimes 0
    else choose gmt sentry zone (lower_bound gmt sentry zone.transitions)
        (get_elem? zone.transitions (lower_bound gmt sentry zone.transitions))

-- `findLocaltime`; `none` is an access out of bounds, which C++ leaves undefined.
unfoldable pub find_localtime : Bool → Transition → Data → Option Localtime
find_localtime gmt sentry zone = search_from gmt sentry zone zone.transitions
