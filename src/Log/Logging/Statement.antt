-- ===== src/Log/Logging/Statement.antt =====
-- The logging statements of base/log/Logging.h in one thread: the macros, the constructors of `Logger`
-- and what they keep in the variables of the thread.
use naive_net.Common.{
  ℕ, ◌<◌, ◌≡◌, ◌^◌, refl, sym, ap, ◌∙◌, none-some, some-injective, length, ◌==◌, ◌&&◌, Bool, none,
  arith, ◌⊎◌, inl, inr, List, [], ◌∷◌, ◌++◌, Option, some, ◌>>=◌, true, false, Bool-cases,
  if◌then◌else◌,
}
use naive_net.Common.Int.{ℤ, pos, quot, rem, ◌==ℤ◌}
use naive_net.Timestamp.{Timestamp, micro_seconds_per_second, date_text}
use naive_net.TimeZone.Utc.{Tm}
use naive_net.TimeZone.Local.{TimeZone}
use naive_net.Log.Stream.{Item}
use naive_net.Log.Logging.{
  LogLevel, TimeCache, new_cache, Effect, is_logged, sys_level, log_level_name, log_date, date_17,
  micros_text, format_time, log_line,
}
use naive_net.Log.Logging.Time.{IsKept, format_time-IsKept}
use naive_net.Thread.CurrentThread.{CurrentThread, new_thread, tid}
use naive_net.Thread.CurrentThread.Text.{IsCached, IsKnown, tid-IsKnown}

-- The macros; `LOG_TRACE` and `LOG_DEBUG` hand over the name of the function.
pub data Site : Type 0 where
  log_trace log_debug : List ℕ → Site
  log_info log_warn log_error log_fatal log_syserr log_sysfatal : Site

unfoldable pub site_level : Site → LogLevel
unfolding sys_level
site_level (log_trace func) = LogLevel.trace
site_level (log_debug func) = LogLevel.debug
site_level log_info = LogLevel.info
site_level log_warn = LogLevel.warn
site_level log_error = LogLevel.error
site_level log_fatal = LogLevel.fatal
site_level log_syserr = sys_level false
site_level log_sysfatal = sys_level true

-- The `savedErrno` of `Impl`.
unfoldable pub site_errno : Site → ℤ → ℤ
site_errno site errno = elim site [ log_syserr ↦ errno | log_sysfatal ↦ errno | _ ↦ pos 0 ]

-- `impl_.stream_ << func << ' '`
unfoldable pub site_items : {D : Type 0} → Site → List (Item D)
site_items (log_trace func) = Item.c_str (some func) ∷ Item.char b' ' ∷ []
site_items (log_debug func) = Item.c_str (some func) ∷ Item.char b' ' ∷ []
site_items _ = []

pub record LogThread : Type 0 where
  pub cache : TimeCache
  pub current : CurrentThread

-- The variables of a thread before its first statement.
unfoldable pub new_log_thread : LogThread
unfolding new_cache new_thread
new_log_thread = record { cache = new_cache; current = new_thread }

-- The texts of a thread's variables are those of its last second and of its number `n`, or it has not put them yet.
abbrev pub IsReady : (ℤ → Tm) → TimeZone → ℕ → LogThread → Type 0
IsReady gmtime_r tz n th = IsKept gmtime_r tz th.cache × IsKnown n th.current

-- `T` asserts that a text has the length that it is said to have: the date, the number of the thread and
-- the name of the level.
unfoldable pub are_known : List ℕ → CurrentThread → LogLevel → Bool
are_known date current level =
    (length date == 17)
    && (length current.tid_string == current.tid_string_length)
    && (length (log_level_name level) == 6)

known_date :
    (o : Option Tm) {date : List ℕ}
    → (o >>= λ tm. if length (date_text tm) == 17 then some (date_text tm) else none) ≡ some date
    → (length date == 17) ≡ true
known_date none e = absurd (none-some e)
known_date (some tm) e = elim (Bool-cases (length (date_text tm) == 17)) [
  | inl h ↦ ap (λ d. length d == 17) (sym (some-injective (rw h at e))) ∙ h
  | inr h ↦ absurd (none-some (rw h at e))
]

date_17-are_known :
    (gmtime_r : ℤ → Tm) (tz : TimeZone) (second : ℤ) (n : ℕ) (current : CurrentThread)
    (level : LogLevel) {date : List ℕ}
    → date_17 gmtime_r tz second ≡ some date
    → IsCached n current
    → are_known date current level ≡ true
unfolding are_known date_17 log_level_name
date_17-are_known gmtime_r tz second n current level e k =
    let d = known_date (log_date gmtime_r tz second) e in
    let t : (length current.tid_string == current.tid_string_length) ≡ true =
      ground (arith, k.long) in
    rw (d, t) (six level)
  where
    six : (level : LogLevel) → (length (log_level_name level) == 6) ≡ true
    six LogLevel.trace = refl
    six LogLevel.debug = refl
    six LogLevel.info = refl
    six LogLevel.warn = refl
    six LogLevel.error = refl
    six LogLevel.fatal = refl

-- `now`, `gettid` and `errno` are what the system gives at the statement.
module _ {D : Type 0} (print_g12 : D → List ℕ) (strerror_tl : ℤ → List ℕ) (memory : List ℕ)
    (gmtime_r : ℤ → Tm) (log_level : LogLevel) (tz : TimeZone) where
  -- A statement that is logged, with the texts of the time.
  unfoldable pub logged :
      LogThread
      → Site
      → ℤ
      → ℤ
      → List (Item D)
      → List ℕ
      → ℤ
      → TimeCache × List ℕ × List ℕ
      → List Effect × LogThread
  logged th site gettid errno items filename line texts =
      let current = (tid gettid th.current).1 in
      (
        log_line print_g12 strerror_tl memory current.tid_string texts.1 texts.2 (site_level site)
            (site_errno site errno) (site_items site ++ items) filename line,
        record { cache = texts.0; current = current },
      )

  unfoldable pub log_statement :
      LogThread
      → Site
      → Timestamp
      → ℤ
      → ℤ
      → List (Item D)
      → List ℕ
      → ℤ
      → Option (List Effect × LogThread)
  log_statement th site now gettid errno items filename line =
      if is_logged log_level (site_level site)
      then (format_time gmtime_r tz th.cache now >>= λ texts.
          if are_known texts.1 (tid gettid th.current).1 (site_level site)
          then some (logged th site gettid errno items filename line texts)
          else none)
      else some ([], th)

  -- In a thread with the number `n`, above 0 and within an `int`, whose variables hold no other number
  -- and the date of their second or none, a statement whose time has a text, and is not in the first
  -- second of 1970, ends with no failed assertion and keeps the variables so. Below the level it does nothing; else it makes the line of its own time and
  -- level, with the text of the number.
  pub log_statement-IsReady :
      (n : ℕ) (th : LogThread) (site : Site) (now : Timestamp) (errno : ℤ) (items : List (Item D))
      (filename : List ℕ) (line : ℤ) (date us : List ℕ)
      → 0 < n
      → n < 2 ^ 31
      → IsReady gmtime_r tz n th
      → (quot now.micro_seconds_since_epoch micro_seconds_per_second ==ℤ pos 0) ≡ false
      → date_17 gmtime_r tz (quot now.micro_seconds_since_epoch micro_seconds_per_second)
        ≡ some date
      → micros_text gmtime_r tz (rem now.micro_seconds_since_epoch micro_seconds_per_second)
        ≡ some us
      → (effects : List Effect) × (after : LogThread) × (log_statement th site now
            (pos n)
            errno
            items
            filename
            line
          ≡ some (effects, after))
        × IsReady gmtime_r tz n after
        × (((is_logged log_level (site_level site) ≡ false) × (effects ≡ []) × (after ≡ th))
            ⊎ ((is_logged log_level (site_level site) ≡ true)
                × IsCached n after.current
                × (effects
                    ≡ log_line print_g12 strerror_tl memory after.current.tid_string date us
                        (site_level site)
                        (site_errno site errno)
                        (site_items site ++ items)
                        filename
                        line)))
  unfolding log_statement logged
  log_statement-IsReady n th site now errno items filename line date us p h ready later d m =
      let second = quot now.micro_seconds_since_epoch micro_seconds_per_second in
      let texts : TimeCache × List ℕ × List ℕ =
        (record { last_second = second; time_text = date }, date, us) in
      let time : format_time gmtime_r tz th.cache now ≡ some texts =
        format_time-IsKept gmtime_r tz th.cache now ready.0 later ∙ rw (d, m) refl in
      let k = tid-IsKnown n th.current p h ready.1 in
      let a =
        date_17-are_known gmtime_r tz second n (tid (pos n) th.current).1 (site_level site) d k in
      let r = logged th site (pos n) errno items filename line texts in
      elim (Bool-cases (is_logged log_level (site_level site))) [
        | inl e ↦ (r.0, r.1, rw (e, time) (rw a refl), (inl d, inr k), inr (e, k, refl))
        | inr e ↦ ([], th, rw e refl, ready, inl (e, refl, refl))
      ]
