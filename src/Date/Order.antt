-- ===== src/Date/Order.antt =====
-- The order of dates, and the day after: `operator<` and `weekDay` of base/Date.h.
use naive_net.Common.{ℕ, ◌+◌, ◌-◌, ◌≤◌, ◌<◌, ◌≡◌, refl, sym, ap, arith, true, ◌↔◌, ◌⊎◌, inl, inr}
use naive_net.Common.Int.{pos, ◌+ℤ◌, rem, pos_laws}
use naive_net.Date.{Date, of_ymd, lt, week_day, days_per_week}
use naive_net.Date.Calendar.{IsCivil, Civil, days_of_month, next_day}
use naive_net.Date.RoundTrip.{count, IsMarch-of_civil, julian-count}

count_by_year :
    (y m d y' m' d' : ℕ) → IsCivil y m d → IsCivil y' m' d' → y < y' → count y m d < count y' m' d'
unfolding count
count_by_year y m d y' m' d' v v' h =
    omega (arith, IsMarch-of_civil y m d v, IsMarch-of_civil y' m' d' v')

count_by_month :
    (y m d y' m' d' : ℕ)
    → IsCivil y m d
    → IsCivil y' m' d'
    → y ≡ y'
    → m < m'
    → count y m d < count y' m' d'
unfolding count
count_by_month y m d y' m' d' v v' e h =
    omega (arith, IsMarch-of_civil y m d v, IsMarch-of_civil y' m' d' v')

count_by_day :
    (y m d y' m' d' : ℕ)
    → IsCivil y m d
    → IsCivil y' m' d'
    → y ≡ y'
    → m ≡ m'
    → d < d'
    → count y m d < count y' m' d'
unfolding count
count_by_day y m d y' m' d' v v' e f h = omega arith

count_same_month : (y m d : ℕ) → 1 ≤ d → count y m (d + 1) ≡ count y m d + 1
unfolding count
count_same_month y m d h = omega arith

count_month_end : (y m : ℕ) → 1 ≤ m → m < 12 → count y (m + 1) 1 ≡ count y m (days_of_month y m) + 1
unfolding days_of_month count
count_month_end y m h h' = ground arith

count_year_end : (y : ℕ) → count (y + 1) 1 1 ≡ count y 12 31 + 1
unfolding count
count_year_end y = omega arith

december : (y : ℕ) → days_of_month y 12 ≡ 31
unfolding days_of_month
december y = refl

abbrev IsCivil' : Civil → Type 0
IsCivil' t = IsCivil t.year t.month t.day

abbrev count' : Civil → ℕ
count' t = count t.year t.month t.day

next_day-IsCivil : (t : Civil) → IsCivil' t → IsCivil' (next_day t)
unfolding next_day days_of_month
next_day-IsCivil t v = ground arith

count-next_day : (t : Civil) → IsCivil' t → count' (next_day t) ≡ count' t + 1
unfolding next_day
count-next_day t v = ground (
  arith,
  count_same_month t.year t.month t.day,
  count_month_end t.year t.month,
  count_year_end t.year,
  december t.year,
)

count-ge : (y m d : ℕ) → IsCivil y m d → 32045 ≤ count y m d
unfolding count
count-ge y m d v = omega arith

abbrev pub of_civil : Civil → Date
of_civil t = of_ymd (pos t.year) (pos t.month) (pos t.day)

julian_of_civil : (t : Civil) → IsCivil' t → (of_civil t).julian_day_number ≡ pos (count' t - 32044)
unfolding of_ymd
julian_of_civil t v = julian-count t.year t.month t.day v

-- The day after a day of the calendar is one too; its day number is the next, and its day of the
-- week is the next, from Saturday (6) round to Sunday (0).
pub of_civil-next_day :
    (t : Civil)
    → IsCivil t.year t.month t.day
    → IsCivil (next_day t).year (next_day t).month (next_day t).day
      × ((of_civil (next_day t)).julian_day_number ≡ (of_civil t).julian_day_number +ℤ pos 1)
      × (week_day (of_civil (next_day t)) ≡ rem (week_day (of_civil t) +ℤ pos 1) days_per_week)
unfolding week_day
of_civil-next_day t v =
    let v' = next_day-IsCivil t v in
    rw (julian_of_civil t v, julian_of_civil (next_day t) v', count-next_day t v)
      (simp pos_laws
        (v', ap pos (omega (arith, count-ge _ _ _ v)), ap pos (omega (arith, count-ge _ _ _ v))))

-- `a` comes before `b` by year, month and day.
pub Before : Civil → Civil → Type 0
Before a b =
    (a.year < b.year)
    ⊎ ((a.year ≡ b.year) × (a.month < b.month))
    ⊎ ((a.year ≡ b.year) × (a.month ≡ b.month) × (a.day < b.day))

count-Before : (a b : Civil) → IsCivil' a → IsCivil' b → Before a b → count' a < count' b
unfolding Before
count-Before a b v w (inl h) = count_by_year _ _ _ _ _ _ v w h
count-Before a b v w (inr (inl h)) = count_by_month _ _ _ _ _ _ v w h.0 h.1
count-Before a b v w (inr (inr h)) = count_by_day _ _ _ _ _ _ v w h.0 h.1 h.2

order_cases : (x y : ℕ) → (x < y) ⊎ ((y < x) ⊎ (x ≡ y))
order_cases x y = ground arith

-- Either day comes first, or they are the same.
Before-total : (a b : Civil) → Before a b ⊎ (Before b a ⊎ (count' a ≡ count' b))
unfolding Before
Before-total a b = elim (order_cases a.year b.year) [
  | inl h ↦ inl (inl h)
  | inr (inl h) ↦ inr (inl (inl h))
  | inr (inr e) ↦ elim (order_cases a.month b.month) [
    | inl h ↦ inl (inr (inl (e, h)))
    | inr (inl h) ↦ inr (inl (inr (inl (sym e, h))))
    | inr (inr f) ↦ elim (order_cases a.day b.day) [
      | inl h ↦ inl (inr (inr (e, f, h)))
      | inr (inl h) ↦ inr (inl (inr (inr (sym e, sym f, h))))
      | inr (inr g) ↦ inr (inr (cc))
    ]
  ]
]

lt-count :
    (a b : Civil)
    → IsCivil' a
    → IsCivil' b
    → (lt (of_civil a) (of_civil b) ≡ true) ↔ (count' a < count' b)
unfolding lt
lt-count a b v w =
    rw (julian_of_civil a v, julian_of_civil b w)
      (ground (arith, count-ge _ _ _ v, count-ge _ _ _ w))

-- `operator<` orders days of the calendar by year, then month, then day.
pub lt-Before :
    (a b : Civil)
    → IsCivil a.year a.month a.day
    → IsCivil b.year b.month b.day
    → (lt (of_civil a) (of_civil b) ≡ true) ↔ Before a b
lt-Before a b v w = (
  λ e. elim (Before-total a b) [
    | inl h ↦ h
    | inr (inl h) ↦ absurd (omega (arith, count-Before b a w v h, (lt-count a b v w).0 e))
    | inr (inr h) ↦ absurd (omega (arith, (lt-count a b v w).0 e))
  ],
  λ h. (lt-count a b v w).1 (count-Before a b v w h),
)
