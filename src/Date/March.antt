-- ===== src/Date/March.antt =====
-- The two conversions over the native numbers, by years that begin in March: `B` centuries and `D`
-- years since -4800, month `M` from March and day `k` of the month, all from 0.
use naive_net.Common.{ℕ, ◌+◌, ◌-◌, ◌*◌, ◌/◌, ◌%◌, ◌≤◌, ◌<◌, ◌≡◌, ap, ◌∙◌, arith}
use naive_net.Common.Int.{pos, ◌+ℤ◌, ◌-ℤ◌, ◌*ℤ◌, quot, -ℤ-pos, pos_laws, int_laws}
use naive_net.Date.{get_julian_day_number, get_year_month_day}

-- The days before a month of a year that begins in March.
abbrev pub month_start : ℕ → ℕ
month_start M = (153 * M + 2) / 5

-- The days of the centuries before, and of the years before in the century.
abbrev pub day_count : ℕ → ℕ → ℕ → ℕ
day_count B D E = 36524 * B + B / 4 + (365 * D + D / 4 + E)

pub record IsMarch (B D M k : ℕ) : Type 0 where
  pub year_in : D < 100
  pub month_in : M < 12
  pub day_in : month_start M + k < month_start (M + 1)
  pub fits_year : 4 * (month_start M + k) + 3 < 1461 + D % 4
  pub fits_century : 4 * (365 * D + D / 4 + (month_start M + k)) + 3 < 146097 + B % 4

leap_terms :
    (p q r : ℕ)
    → q ≤ p
    → 32045 ≤ p - q + r
    → pos p -ℤ pos q +ℤ pos r -ℤ pos 32045 ≡ pos (p - q + r - 32045)
leap_terms p q r h k = omega int_laws

year_days :
    (y m d : ℕ) (B D M k : ℕ)
    → D < 100
    → y ≡ 100 * B + D
    → m ≡ M
    → d ≡ k + 1
    → 32045 ≤ d + (153 * m + 2) / 5 + 365 * y + y / 4 - y / 100 + y / 400
    → d + (153 * m + 2) / 5 + 365 * y + y / 4 - y / 100 + y / 400 - 32045
      ≡ day_count B D (month_start M + k) - 32044
year_days y m d B D M k h e f g r = rw (e, f, g) (omega arith)

julian-pos :
    (y m d : ℕ)
    → 1 ≤ m
    → m ≤ 12
    → 1 ≤ d
    → let a = (14 - m) / 12 in
      let y' = y + 4800 - a in
      get_julian_day_number (pos y) (pos m) (pos d)
      ≡ pos (d + (153 * (m + 12 * a - 3) + 2) / 5 + 365 * y' + y' / 4 - y' / 100 + y' / 400 - 32045)
unfolding get_julian_day_number
julian-pos y m d h1 h2 h3 = rw (-ℤ-pos 14 m (omega arith)) (
    simp pos_laws (
      rw
        (
          -ℤ-pos (y + 4800) ((14 - m) / 12) (omega arith),
          -ℤ-pos (m + 12 * ((14 - m) / 12)) 3 (omega arith),
        )
        (simp pos_laws (leap_terms _ _ _ (omega arith) (omega arith)))))

-- The day number of the day with these parts.
pub julian_of_march :
    (y m d B D M k : ℕ)
    → IsMarch B D M k
    → y + 4800 ≡ 100 * B + D + M / 10
    → m + 12 * (M / 10) ≡ M + 3
    → d ≡ k + 1
    → get_julian_day_number (pos y) (pos m) (pos d)
      ≡ pos (day_count B D (month_start M + k) - 32044)
julian_of_march y m d B D M k v e f g =
    let hM : M < 12 = v.month_in in
    let hD : D < 100 = v.year_in in
    julian-pos y m d (omega arith) (omega arith) (omega arith)
    ∙ ap pos (year_days _ _ d B D M k hD (omega arith) (omega arith) g (omega arith))

-- The steps of the inverse, one for each variable of the code.
b_lem :
    (j B D E : ℕ)
    → j + 32044 ≡ day_count B D E
    → 4 * (365 * D + D / 4 + E) + 3 < 146097 + B % 4
    → quot (4 *ℤ (pos j +ℤ pos 32044) +ℤ pos 3) 146097 ≡ pos B
b_lem j B D E e h = simp pos_laws (ap pos (omega arith))

c_lem :
    (j B D E : ℕ)
    → j + 32044 ≡ day_count B D E
    → pos j +ℤ pos 32044 -ℤ quot (146097 *ℤ pos B) 4 ≡ pos (365 * D + D / 4 + E)
c_lem j B D E e = simp pos_laws (omega int_laws)

d_lem :
    (D E : ℕ)
    → 4 * E + 3 < 1461 + D % 4
    → quot (4 *ℤ pos (365 * D + D / 4 + E) +ℤ pos 3) 1461 ≡ pos D
d_lem D E h = simp pos_laws (ap pos (omega arith))

e_lem : (D E : ℕ) → pos (365 * D + D / 4 + E) -ℤ quot (1461 *ℤ pos D) 4 ≡ pos E
e_lem D E = simp pos_laws (omega int_laws)

m_lem :
    (M E : ℕ) → month_start M ≤ E → E < month_start (M + 1) → quot (5 *ℤ pos E +ℤ pos 2) 153 ≡ pos M
m_lem M E h h' = simp pos_laws (ap pos (omega arith))

day_lem :
    (M k : ℕ) → pos (month_start M + k) -ℤ quot (153 *ℤ pos M +ℤ pos 2) 5 +ℤ pos 1 ≡ pos (k + 1)
day_lem M k = simp pos_laws (omega int_laws)

month_lem : (M : ℕ) → M < 12 → pos M +ℤ pos 3 -ℤ 12 *ℤ quot (pos M) 10 ≡ pos (M + 3 - 12 * (M / 10))
month_lem M h = simp pos_laws (-ℤ-pos _ _ (omega arith))

year_lem :
    (B D M : ℕ)
    → 4800 ≤ 100 * B + D + M / 10
    → 100 *ℤ pos B +ℤ pos D -ℤ pos 4800 +ℤ quot (pos M) 10 ≡ pos (100 * B + D + M / 10 - 4800)
year_lem B D M h = simp pos_laws (omega int_laws)

-- The parts are what the code computes back.
pub march_of_julian :
    (j B D M k : ℕ)
    → IsMarch B D M k
    → j + 32044 ≡ day_count B D (month_start M + k)
    → 4800 ≤ 100 * B + D + M / 10
    → get_year_month_day (pos j) ≡ record {
      year = pos (100 * B + D + M / 10 - 4800);
      month = pos (M + 3 - 12 * (M / 10));
      day = pos (k + 1);
    }
unfolding get_year_month_day
march_of_julian j B D M k v e h = rw (
  b_lem j B D (month_start M + k) e v.fits_century,
  c_lem j B D (month_start M + k) e,
  d_lem D (month_start M + k) v.fits_year,
  e_lem D (month_start M + k),
  m_lem M (month_start M + k) (omega arith) v.day_in,
  day_lem M k,
  month_lem M v.month_in,
  year_lem B D M h,
)
