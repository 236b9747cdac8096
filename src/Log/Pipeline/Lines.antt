-- ===== src/Log/Pipeline/Lines.antt =====
-- From the logging statements of base/log/Logging.h to the files of base/log/LogFile.cc.
use naive_net.Common.{
  ℕ, ◌<◌, ◌≡◌, ◌^◌, refl, ap, ◌∙◌, subst, List, [], ◌∷◌, ◌++◌, some, Bool, true, false, ◌&&◌, ◌==◌,
  if◌then◌else◌, length, arith, inl, inr, Bool-cases,
}
use naive_net.Common.Int.{ℤ, pos, quot, rem, ◌==ℤ◌}
use naive_net.Timestamp.{micro_seconds_per_second}
use naive_net.TimeZone.Utc.{Tm}
use naive_net.TimeZone.Local.{TimeZone}
use naive_net.Log.Buffer.{create, avail, as_string}
use naive_net.Log.Stream.{Item}
use naive_net.Log.Stream.Items.{texts_of, room_for_all, AreItems}
use naive_net.Log.Stream.Laws.{as_string-put_all}
use naive_net.Log.Async.{Event}
use naive_net.Log.Async.Output.{fit}
use naive_net.Log.Async.Texts.{text_of_events}
use naive_net.Log.Logging.{
  LogLevel, Effect, is_logged, date_17, micros_text, header_items, finish_items, log_line,
}
use naive_net.Log.Logging.Statement.{
  site_level, site_errno, site_items, LogThread, IsReady, log_statement, log_statement-IsReady,
}
use naive_net.Thread.CurrentThread.Text.{tid_text}
use naive_net.Log.Pipeline.Statements.{
  Statement, Act, says, backend, stop, lines_of, aborts, set_thread, schedule,
}

abbrev pub is_fatal : LogLevel → Bool
is_fatal LogLevel.fatal = true
is_fatal LogLevel.trace = false
is_fatal LogLevel.debug = false
is_fatal LogLevel.info = false
is_fatal LogLevel.warn = false
is_fatal LogLevel.error = false

abbrev after_line : LogLevel → List Effect
after_line level = elim level [ LogLevel.fatal ↦ Effect.flush ∷ Effect.abort ∷ [] | _ ↦ [] ]

line_effects :
    (level : LogLevel) (text : List ℕ)
    → (lines_of (Effect.output text ∷ after_line level) ≡ Event.log text ∷ [])
      × (aborts (Effect.output text ∷ after_line level) ≡ is_fatal level)
unfolding lines_of aborts
line_effects LogLevel.fatal text = (refl, refl)
line_effects LogLevel.trace text = (refl, refl)
line_effects LogLevel.debug text = (refl, refl)
line_effects LogLevel.info text = (refl, refl)
line_effects LogLevel.warn text = (refl, refl)
line_effects LogLevel.error text = (refl, refl)

-- `large` is the memory of a buffer of `AsyncLogging`; `date` and `us` are the texts of the seconds and
-- of the microseconds.
module _ {D : Type 0} (print_g12 : D → List ℕ) (strerror_tl : ℤ → List ℕ) (memory : List ℕ)
    (gmtime_r : ℤ → Tm) (log_level : LogLevel) (tz : TimeZone) (number : ℕ → ℕ) (large : List ℕ)
    (date us : ℤ → List ℕ) where
  abbrev second : Statement D → ℤ
  second s = quot s.now.micro_seconds_since_epoch micro_seconds_per_second

  abbrev micro : Statement D → ℤ
  micro s = rem s.now.micro_seconds_since_epoch micro_seconds_per_second

  -- What a statement puts into its stream.
  abbrev pub line_items : Statement D → List (Item D)
  line_items s =
      header_items strerror_tl (tid_text (number s.thread)) (date (second s)) (us (micro s))
        (site_level s.site) (site_errno s.site s.errno)
      ++ ((site_items s.site ++ s.items) ++ finish_items s.filename s.line)

  -- The time of a statement is not in the first second of 1970 and has its texts, and its line has room in a stream and in a buffer.
  pub record IsFine (s : Statement D) : Type 0 where
    pub later : (second s ==ℤ pos 0) ≡ false
    pub has_date : date_17 gmtime_r tz (second s) ≡ some (date (second s))
    pub has_micros : micros_text gmtime_r tz (micro s) ≡ some (us (micro s))
    pub items : AreItems print_g12 (line_items s)
    pub room : room_for_all print_g12 (line_items s) < length memory
    pub short : length (texts_of print_g12 (line_items s)) < length large

  abbrev pub AreFine : List (Act D) → Type 0
  AreFine [] = Unit
  AreFine (says s ∷ acts) = IsFine s × AreFine acts
  AreFine (backend ∷ acts) = AreFine acts
  AreFine (stop ∷ acts) = AreFine acts

  -- The lines of the statements that are logged, up to the first fatal one.
  abbrev pub lines : List (Act D) → List ℕ
  lines [] = []
  lines (backend ∷ acts) = lines acts
  lines (stop ∷ acts) = lines acts
  lines (says s ∷ acts) =
      let rest = lines acts in
      if is_logged log_level (site_level s.site)
      then texts_of print_g12 (line_items s) ++ (if is_fatal (site_level s.site) then [] else rest)
      else rest

  log_line-texts :
      (s : Statement D)
      → IsFine s
      → log_line print_g12 strerror_tl memory
          (tid_text (number s.thread))
          (date (second s))
          (us (micro s))
          (site_level s.site)
          (site_errno s.site s.errno)
          (site_items s.site ++ s.items)
          s.filename
          s.line
        ≡ Effect.output (texts_of print_g12 (line_items s)) ∷ after_line (site_level s.site)
  unfolding log_line create as_string avail
  log_line-texts s f =
      ap (λ text. Effect.output text ∷ after_line (site_level s.site))
        (as_string-put_all print_g12 (record { buffer = create memory }) (line_items s)
          (record { sized = refl; room = omega arith }) f.items (omega (arith, f.room)))

  abbrev event_of : Statement D → List Event
  event_of s =
      if is_logged log_level (site_level s.site)
      then Event.log (texts_of print_g12 (line_items s)) ∷ []
      else []

  statement_events :
      (th : LogThread) (s : Statement D)
      → 0 < number s.thread
      → number s.thread < 2 ^ 31
      → IsReady gmtime_r tz (number s.thread) th
      → IsFine s
      → (effects : List Effect) × (after : LogThread) × (log_statement print_g12 strerror_tl memory
            gmtime_r log_level tz th s.site s.now
            (pos (number s.thread))
            s.errno
            s.items
            s.filename
            s.line
          ≡ some (effects, after))
        × IsReady gmtime_r tz (number s.thread) after
        × (lines_of effects ≡ event_of s)
        × (aborts effects
            ≡ (is_logged log_level (site_level s.site) && is_fatal (site_level s.site)))
  unfolding lines_of aborts
  statement_events th s p h ready f =
      let (effects, after, e, r, c) =
        log_statement-IsReady print_g12 strerror_tl memory gmtime_r log_level tz (number s.thread)
          th s.site s.now s.errno s.items s.filename s.line (date (second s)) (us (micro s)) p h
          ready f.later f.has_date f.has_micros in
      elim c [
        | inl (off, none_made, same) ↦
            (effects, after, e, r, rw (none_made, off) refl, rw (none_made, off) refl)
        | inr (on, known, made) ↦
            let line : effects
                ≡ Effect.output (texts_of print_g12 (line_items s))
                  ∷ after_line (site_level s.site) =
              made
              ∙ ap
                  (λ tid.
                    log_line print_g12 strerror_tl memory tid (date (second s)) (us (micro s))
                      (site_level s.site) (site_errno s.site s.errno) (site_items s.site ++ s.items)
                      s.filename s.line)
                  known.text
              ∙ log_line-texts s f in
            let (l, a) = line_effects (site_level s.site) (texts_of print_g12 (line_items s)) in
            (
              effects,
              after,
              e,
              r,
              ap lines_of line ∙ l ∙ rw on refl,
              ap aborts line ∙ a ∙ rw on refl,
            )
      ]

  set_thread-IsReady :
      (threads : ℕ → LogThread) (i : ℕ) (th : LogThread)
      → ((j : ℕ) → IsReady gmtime_r tz (number j) (threads j))
      → IsReady gmtime_r tz (number i) th
      → (j : ℕ) → IsReady gmtime_r tz (number j) (set_thread threads i th j)
  unfolding set_thread
  set_thread-IsReady threads i th all h j = elim (Bool-cases (j == i)) [
    | inl e ↦
        let z : i ≡ j = ground arith in rw e (subst (λ k. IsReady gmtime_r tz (number k) th) z h)
    | inr e ↦ rw e (all j)
  ]

  -- What `schedule` makes of the acts.
  abbrev pub Made : (ℕ → LogThread) → List (Act D) → Type 0
  Made threads acts =
      (es : List Event) × (schedule print_g12 strerror_tl memory gmtime_r log_level tz number
          threads acts
        ≡ some es)
      × (text_of_events es ≡ lines acts)
      × (fit large es ≡ true)

  pub schedule-Made :
      (threads : ℕ → LogThread) (acts : List (Act D))
      → 0 < length large
      → ((i : ℕ) → (0 < number i) × (number i < 2 ^ 31))
      → ((i : ℕ) → IsReady gmtime_r tz (number i) (threads i))
      → AreFine acts
      → Made threads acts
  unfolding schedule text_of_events fit
  schedule-Made threads [] room n r f = ([], refl, refl, refl)
  schedule-Made threads (backend ∷ acts) room n r f =
      let (es, e, t, h) = schedule-Made threads acts room n r f in
      (Event.backend ∷ es, rw e refl, t, ground arith)
  schedule-Made threads (stop ∷ acts) room n r f =
      let (es, e, t, h) = schedule-Made threads acts room n r f in
      (Event.stop ∷ es, rw e refl, t, ground arith)
  schedule-Made threads (says s ∷ acts) room n r f =
      let (effects, after, e, k, l, a) =
        statement_events (threads s.thread) s (n s.thread).0 (n s.thread).1 (r s.thread) f.0 in
      let (es, e', t, h) =
        schedule-Made (set_thread threads s.thread after) acts room n
          (set_thread-IsReady threads s.thread after r k) f.1 in
      let short = f.0.short in
      elim (Bool-cases (is_logged log_level (site_level s.site))) [
        | inl on ↦ elim (Bool-cases (is_fatal (site_level s.site))) [
          | inl last ↦ (
            Event.log (texts_of print_g12 (line_items s)) ∷ [],
            rw e (rw (l, a) (rw (on, last) refl)),
            rw (on, last) refl,
            ground arith,
          )
          | inr more ↦ (
            Event.log (texts_of print_g12 (line_items s)) ∷ es,
            rw e (rw (l, a) (rw (on, more, e') refl)),
            rw (on, more) (ap (λ x. texts_of print_g12 (line_items s) ++ x) t),
            ground arith,
          )
        ]
        | inr off ↦ (es, rw e (rw (l, a) (rw (off, e') refl)), rw off t, h)
      ]
