-- ===== src/Log/Logging/Time.antt =====
-- The time cached by `formatTime` of base/log/Logging.cc.
use naive_net.Common.{
  ◌⊎◌, false, ◌≡◌, refl, sym, ap, ◌∙◌, inl, inr, Option, none, some, ◌>>=◌, Bool-cases,
}
use naive_net.Common.Int.{ℤ, pos, quot, rem, ◌==ℤ◌, ==ℤ-eq}
use naive_net.TimeZone.Utc.{Tm}
use naive_net.TimeZone.Local.{TimeZone}
use naive_net.Timestamp.{Timestamp, micro_seconds_per_second}
use naive_net.Log.Logging.{TimeCache, new_cache, date_17, refresh, micros_text, format_time}

bind_some :
    {A B C : Type 0} (o : Option A) (f : A → B) (g : B → Option C)
    → (o >>= λ a. some (f a)) >>= g ≡ (o >>= λ a. g (f a))
bind_some none f g = refl
bind_some (some a) f g = refl

module _ (gmtime_r : ℤ → Tm) where
  -- The text is that of the second, by the time zone.
  abbrev pub IsCurrent : TimeZone → TimeCache → Type 0
  IsCurrent tz cache = date_17 gmtime_r tz cache.last_second ≡ some cache.time_text

  refresh-IsCurrent :
      (tz : TimeZone) (cache : TimeCache) (s : ℤ)
      → IsCurrent tz cache
      → refresh gmtime_r tz cache s
        ≡ (date_17 gmtime_r tz s >>= λ text. some (record { last_second = s; time_text = text }))
  unfolding refresh
  refresh-IsCurrent tz cache s h = elim (Bool-cases (s ==ℤ cache.last_second)) [
    | inl e ↦ rw e (
        sym (
          ap
            (λ z.
              date_17 gmtime_r tz z >>= λ text. some (record { last_second = z; time_text = text }))
            (==ℤ-eq s cache.last_second e)
          ∙ ap
              (λ o.
                o >>= λ text. some (record { last_second = cache.last_second; time_text = text }))
              h))
    | inr e ↦ rw e refl
  ]

  -- The text is that of the second, or the thread has not put a time yet.
  abbrev pub IsKept : TimeZone → TimeCache → Type 0
  IsKept tz cache = IsCurrent tz cache ⊎ (cache ≡ new_cache)

  refresh-IsKept :
      (tz : TimeZone) (cache : TimeCache) (s : ℤ)
      → IsKept tz cache
      → (s ==ℤ pos 0) ≡ false
      → refresh gmtime_r tz cache s
        ≡ (date_17 gmtime_r tz s >>= λ text. some (record { last_second = s; time_text = text }))
  unfolding refresh new_cache
  refresh-IsKept tz cache s (inl h) later = refresh-IsCurrent tz cache s h
  refresh-IsKept tz cache s (inr e) later =
      let k : (s ==ℤ cache.last_second) ≡ false = ap (λ c. s ==ℤ c.last_second) e ∙ later in
      rw k refl

  -- As long as the time zone stays the same, `formatTime` puts the texts that it would put if it kept
  -- none, but for a time in the second 0 in a new thread.
  pub format_time-IsKept :
      (tz : TimeZone) (cache : TimeCache) (t : Timestamp)
      → IsKept tz cache
      → (quot t.micro_seconds_since_epoch micro_seconds_per_second ==ℤ pos 0) ≡ false
      → (format_time gmtime_r tz cache t ≡ (
          date_17 gmtime_r tz (quot t.micro_seconds_since_epoch micro_seconds_per_second)
          >>= λ text.
              micros_text gmtime_r tz (rem t.micro_seconds_since_epoch micro_seconds_per_second)
              >>= λ us. some (
                record {
                  last_second = quot t.micro_seconds_since_epoch micro_seconds_per_second;
                  time_text = text;
                },
                text,
                us,
              )))
  unfolding format_time
  format_time-IsKept tz cache t h later =
      rw
        (refresh-IsKept tz cache (quot t.micro_seconds_since_epoch micro_seconds_per_second) h
          later)
        (bind_some (date_17 gmtime_r tz (quot t.micro_seconds_since_epoch micro_seconds_per_second))
          _ _)
