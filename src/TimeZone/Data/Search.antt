-- ===== src/TimeZone/Data/Search.antt =====
-- What the search of base/TimeZone.cc finds: the transition in force.
use naive_net.Common.{
  ℕ, zero, suc, ◌+◌, ◌-◌, ◌/◌, ◌≤◌, ◌<◌, ◌≡◌, refl, sym, ap, ◌∙◌, List, [], ◌∷◌, ◌++◌, Option, some,
  Bool, true, false, ltb, ◌==◌, length, get_elem?, ◌⊎◌, arith, Bool-cases, inl, inr, length-append,
  append_assoc, append-nil, All, get_elem?-length, get_elem?-past,
}
use naive_net.Common.Int.{
  ℤ, pos_part, neg_part, ltb_ℤ, ◌==ℤ◌, ◌<ℤ◌, ◌≤ℤ◌, ==ℤ_refl, ==ℤ-eq, lt-not-==ℤ,
}
use naive_net.TimeZone.Data.{
  Transition, Localtime, Data, comp, comp_equal, lower_bound_loop, lower_bound, test_at, get_last?,
  choose, search_from, find_localtime,
}

-- Where exactly the positions before `p` are below, the loop ends at `p`.
pub lower_bound_loop_lem :
    (below : ℕ → Bool) (p fuel first len : ℕ)
    → ((i : ℕ) → i < first + len → below i ≡ ltb i p)
    → first ≤ p
    → p ≤ first + len
    → len ≤ fuel
    → lower_bound_loop below fuel first len ≡ p
unfolding lower_bound_loop
lower_bound_loop_lem below p zero first len h lo hi e = omega arith
lower_bound_loop_lem below p (suc fuel) first zero h lo hi e = omega arith
lower_bound_loop_lem below p (suc fuel) first (suc n) h lo hi e = ground (
  arith,
  h (first + suc n / 2),
  lower_bound_loop_lem below p fuel (first + suc n / 2 + 1) (suc n - suc n / 2 - 1),
  lower_bound_loop_lem below p fuel first (suc n / 2),
)

-- The time that a comparison looks at.
unfoldable pub key : Bool → Transition → ℤ
key true t = t.gmttime
key false t = t.localtime

comp-key : (gmt : Bool) (s t : Transition) → comp gmt s t ≡ ltb_ℤ (key gmt s) (key gmt t)
unfolding comp key
comp-key true s t = refl
comp-key false s t = refl

comp_equal-key : (gmt : Bool) (s t : Transition) → comp_equal gmt s t ≡ (key gmt s ==ℤ key gmt t)
unfolding comp_equal key
comp_equal-key true s t = refl
comp_equal-key false s t = refl

abbrev AllBelow : Bool → ℤ → List Transition → Type 0
AllBelow gmt z = All (λ t. key gmt t <ℤ z)

abbrev AllAbove : Bool → ℤ → List Transition → Type 0
AllAbove gmt z = All (λ t. z ≤ℤ key gmt t)

test_at-split :
    (gmt : Bool) (s : Transition) (xs ys : List Transition) (i : ℕ)
    → AllBelow gmt (key gmt s) xs
    → AllAbove gmt (key gmt s) ys
    → test_at (λ t. comp gmt t s) (xs ++ ys) i ≡ ltb i (length xs)
test_at-split gmt s [] [] i p q = ground arith
test_at-split gmt s [] (y ∷ ys) zero p q = rw (comp-key gmt y s) (ground (arith, q.0))
test_at-split gmt s [] (y ∷ ys) (suc i) p q = test_at-split gmt s [] ys i p q.1 ∙ ground arith
test_at-split gmt s (x ∷ xs) ys zero p q = rw (comp-key gmt x s) (ground (arith, p.0))
test_at-split gmt s (x ∷ xs) ys (suc i) p q = ground (arith, test_at-split gmt s xs ys i p.1 q)

lower_bound-split :
    (gmt : Bool) (s : Transition) (xs ys : List Transition)
    → AllBelow gmt (key gmt s) xs
    → AllAbove gmt (key gmt s) ys
    → lower_bound gmt s (xs ++ ys) ≡ length xs
unfolding lower_bound
lower_bound-split gmt s xs ys p q =
    lower_bound_loop_lem _ (length xs) _ 0 _ (λ i h. test_at-split gmt s xs ys i p q) (omega arith)
      (omega (arith, length-append xs ys)) (omega arith)

get_last?-append : (xs : List Transition) (t : Transition) → get_last? (xs ++ t ∷ []) ≡ some t
get_last?-append [] t = refl
get_last?-append (x ∷ []) t = refl
get_last?-append (x ∷ y ∷ xs) t = get_last?-append (y ∷ xs) t

AllBelow-append :
    (gmt : Bool) (z : ℤ) (xs : List Transition) (t : Transition)
    → AllBelow gmt z xs
    → key gmt t <ℤ z
    → AllBelow gmt z (xs ++ t ∷ [])
AllBelow-append gmt z [] t p h = (h, tt)
AllBelow-append gmt z (x ∷ xs) t p h = (p.0, AllBelow-append gmt z xs t p.1 h)

AllBelow-mono :
    (gmt : Bool) (y z : ℤ) (xs : List Transition) → y ≤ℤ z → AllBelow gmt y xs → AllBelow gmt z xs
AllBelow-mono gmt y z [] h p = tt
AllBelow-mono gmt y z (x ∷ xs) h p = (omega (arith, p.0), AllBelow-mono gmt y z xs h p.1)

-- Of the transitions `before`, `t` and `after`, in order, `t` is in force at the time of `s`.
pub record InForce (gmt : Bool) (s : Transition) (before : List Transition) (t : Transition)
    (after : List Transition) : Type 0 where
  pub earlier : All (λ u. key gmt u <ℤ key gmt t) before
  pub begun : key gmt t ≤ℤ key gmt s
  pub later : All (λ u. key gmt s <ℤ key gmt u) after

abbrev with_transitions : Data → List Transition → Data
with_transitions zone ts = record zone { transitions = ts }

-- The choice at the position that the binary search finds.
abbrev chosen : Bool → Transition → Data → Option Localtime
chosen gmt s zone =
    choose gmt s zone (lower_bound gmt s zone.transitions)
      (get_elem? zone.transitions (lower_bound gmt s zone.transitions))

-- The transition that is in force begins at that time.
chosen_exact :
    (gmt : Bool) (s : Transition) (zone : Data) (before : List Transition) (t : Transition)
    (after : List Transition)
    → key gmt s ≡ key gmt t
    → AllBelow gmt (key gmt s) before
    → AllAbove gmt (key gmt s) (t ∷ after)
    → chosen gmt s (with_transitions zone (before ++ t ∷ after))
      ≡ get_elem? zone.localtimes t.localtime_idx
unfolding choose
chosen_exact gmt s zone before t after same p q =
    let hit : comp_equal gmt s t ≡ true =
      rw (comp_equal-key gmt s t, same) (==ℤ_refl (key gmt t)) in
    rw (lower_bound-split gmt s before (t ∷ after) p q, get_elem?-length before t after, hit)

-- It began before, and it is the last one, or another one follows.
chosen_last :
    (gmt : Bool) (s : Transition) (zone : Data) (before : List Transition) (t : Transition)
    → AllBelow gmt (key gmt s) (before ++ t ∷ [])
    → chosen gmt s (with_transitions zone (before ++ t ∷ []))
      ≡ get_elem? zone.localtimes t.localtime_idx
unfolding choose
chosen_last gmt s zone before t p =
    let found : lower_bound gmt s (before ++ t ∷ []) ≡ length (before ++ t ∷ []) =
      ap (lower_bound gmt s) (sym (append-nil (before ++ t ∷ [])))
      ∙ lower_bound-split gmt s (before ++ t ∷ []) [] p tt in
    rw (found, get_elem?-past (before ++ t ∷ []), get_last?-append before t)

chosen_between :
    (gmt : Bool) (s : Transition) (zone : Data) (before : List Transition) (t u : Transition)
    (after : List Transition)
    → AllBelow gmt (key gmt s) (before ++ t ∷ [])
    → AllAbove gmt (key gmt s) (u ∷ after)
    → key gmt s <ℤ key gmt u
    → chosen gmt s (with_transitions zone (before ++ t ∷ u ∷ after))
      ≡ get_elem? zone.localtimes t.localtime_idx
unfolding choose
chosen_between gmt s zone before t u after p q h =
    let regroup : before ++ t ∷ u ∷ after ≡ (before ++ t ∷ []) ++ u ∷ after =
      sym (append_assoc before (t ∷ []) (u ∷ after)) in
    let found : lower_bound gmt s (before ++ t ∷ u ∷ after) ≡ length (before ++ t ∷ []) =
      ap (lower_bound gmt s) regroup ∙ lower_bound-split gmt s (before ++ t ∷ []) (u ∷ after) p q in
    let at_u : get_elem? (before ++ t ∷ u ∷ after) (length (before ++ t ∷ [])) ≡ some u =
      ap (λ l. get_elem? l (length (before ++ t ∷ []))) regroup
      ∙ get_elem?-length (before ++ t ∷ []) u after in
    let miss : comp_equal gmt s u ≡ false =
      rw (comp_equal-key gmt s u) (lt-not-==ℤ (key gmt s) (key gmt u) h) in
    let before_u : length (before ++ t ∷ []) - 1 ≡ length before =
      omega (arith, length-append before (t ∷ [])) in
    let not_first : (length (before ++ t ∷ []) == 0) ≡ false =
      ground (arith, length-append before (t ∷ [])) in
    rw (found, at_u, miss, not_first, before_u, get_elem?-length before t (u ∷ after))

-- The order of the transitions, from the facts of `InForce`.
begun_cases : (a b : ℤ) → a ≤ℤ b → (b ≡ a) ⊎ (a <ℤ b)
begun_cases a b h = elim (Bool-cases (b ==ℤ a)) [
  | inl e ↦ inl (==ℤ-eq b a e)
  | inr e ↦ inr (ground arith)
]

AllAbove-of_later :
    (gmt : Bool) (z : ℤ) (ts : List Transition) → All (λ u. z <ℤ key gmt u) ts → AllAbove gmt z ts
AllAbove-of_later gmt z [] p = tt
AllAbove-of_later gmt z (t ∷ ts) p = (omega (arith, p.0), AllAbove-of_later gmt z ts p.1)

chosen-InForce :
    (gmt : Bool) (s : Transition) (zone : Data) (before : List Transition) (t : Transition)
    (after : List Transition)
    → InForce gmt s before t after
    → chosen gmt s (with_transitions zone (before ++ t ∷ after))
      ≡ get_elem? zone.localtimes t.localtime_idx
chosen-InForce gmt s zone before t after f = by_case after f (begun_cases _ _ f.begun)
  where
    begun_before :
        {after : List Transition}
        → InForce gmt s before t after
        → key gmt t <ℤ key gmt s
        → AllBelow gmt (key gmt s) (before ++ t ∷ [])
    begun_before f h =
        AllBelow-append gmt (key gmt s) before t
          (AllBelow-mono gmt (key gmt t) (key gmt s) before f.begun f.earlier) h

    by_case :
        (after : List Transition)
        → InForce gmt s before t after
        → (key gmt s ≡ key gmt t) ⊎ (key gmt t <ℤ key gmt s)
        → chosen gmt s (with_transitions zone (before ++ t ∷ after))
          ≡ get_elem? zone.localtimes t.localtime_idx
    by_case after f (inl e) =
        chosen_exact gmt s zone before t after e
          (AllBelow-mono gmt (key gmt t) (key gmt s) before f.begun f.earlier)
          (
            omega (arith, ap pos_part e, ap neg_part e),
            AllAbove-of_later gmt (key gmt s) after f.later,
          )
    by_case [] f (inr h) = chosen_last gmt s zone before t (begun_before f h)
    by_case (u ∷ after) f (inr h) =
        chosen_between gmt s zone before t u after (begun_before f h)
          (AllAbove-of_later gmt (key gmt s) (u ∷ after) f.later) f.later.0

front_test :
    (gmt : Bool) (s : Transition) (zone : Data) (before : List Transition) (t : Transition)
    (after : List Transition)
    → InForce gmt s before t after
    → find_localtime gmt s (with_transitions zone (before ++ t ∷ after))
      ≡ chosen gmt s (with_transitions zone (before ++ t ∷ after))
unfolding find_localtime search_from
front_test gmt s zone [] t after f =
    let not_before : comp gmt s t ≡ false = rw (comp-key gmt s t) (ground (arith, f.begun)) in
    rw not_before
front_test gmt s zone (x ∷ xs) t after f =
    let not_before : comp gmt s x ≡ false =
      rw (comp-key gmt s x) (ground (arith, f.begun, f.earlier.0)) in
    rw not_before

-- At a time not before the first of the transitions, in order, the local time is that of the last
-- transition that has begun.
pub find_localtime-InForce :
    (gmt : Bool) (s : Transition) (zone : Data) (before : List Transition) (t : Transition)
    (after : List Transition)
    → zone.transitions ≡ before ++ t ∷ after
    → InForce gmt s before t after
    → find_localtime gmt s zone ≡ get_elem? zone.localtimes t.localtime_idx
find_localtime-InForce gmt s zone before t after e f =
    ap (λ ts. find_localtime gmt s (with_transitions zone ts)) e
    ∙ front_test gmt s zone before t after f
    ∙ chosen-InForce gmt s zone before t after f
