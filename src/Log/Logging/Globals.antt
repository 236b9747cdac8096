-- ===== src/Log/Logging/Globals.antt =====
-- The variables of the whole program in base/log/Logging.cc, what sets them, and `CheckNotNull` of
-- base/log/Logging.h.
use naive_net.Common.{
  ℕ, ◌≡◌, sym, ap, ◌∙◌, List, [], ◌∷◌, ◌++◌, append-nil, append_assoc, Bool, Option, none, some,
  length, take, take-all, arith,
}
use naive_net.File.{Stdio}
use naive_net.Common.Int.{ℤ}
use naive_net.TimeZone.Utc.{Tm}
use naive_net.TimeZone.Local.{TimeZone, invalid_zone}
use naive_net.Timestamp.{Timestamp}
use naive_net.Log.Stream.{Item}
use naive_net.Log.Logging.{LogLevel, Effect, init_log_level}
use naive_net.Log.Logging.Statement.{Site, LogThread, log_statement}

-- `F` and `G` are the types of the output and of the flush functions.
pub record Globals (F G : Type 0) : Type 0 where
  pub log_level : LogLevel
  pub output : F
  pub flush : G
  pub time_zone : TimeZone

module _ {F G : Type 0} where
  unfoldable pub initial : Bool → Bool → F → G → Globals F G
  initial set_trace set_debug default_output default_flush = record {
    log_level = init_log_level set_trace set_debug;
    output = default_output;
    flush = default_flush;
    time_zone = invalid_zone;
  }

  unfoldable pub set_log_level : Globals F G → LogLevel → Globals F G
  set_log_level g level = record g { log_level = level }

  unfoldable pub set_output : Globals F G → F → Globals F G
  set_output g out = record g { output = out }

  unfoldable pub set_flush : Globals F G → G → Globals F G
  set_flush g flush = record g { flush = flush }

  unfoldable pub set_time_zone : Globals F G → TimeZone → Globals F G
  set_time_zone g tz = record g { time_zone = tz }

  -- A logging statement with the level and the time zone that are set.
  unfoldable pub log_with :
      {D : Type 0}
      → (D → List ℕ)
      → (ℤ → List ℕ)
      → List ℕ
      → (ℤ → Tm)
      → Globals F G
      → LogThread
      → Site
      → Timestamp
      → ℤ
      → ℤ
      → List (Item D)
      → List ℕ
      → ℤ
      → Option (List Effect × LogThread)
  log_with print_g12 strerror_tl memory gmtime_r g =
      log_statement print_g12 strerror_tl memory gmtime_r g.log_level g.time_zone

-- `defaultOutput` and `defaultFlush` on `stdout`, whose number of bytes written is not looked at.
module _ {W : Type 0} (io : Stdio W) where
  unfoldable pub default_output : W → List ℕ → W
  default_output stdout msg = (io.fwrite stdout msg).1

  unfoldable pub default_flush : W → W
  default_flush stdout = io.fflush stdout

-- What the destructor calls, on what the output and flush functions work on; after `abort` nothing is
-- done.
module _ {W : Type 0} (g : Globals (W → List ℕ → W) (W → W)) where
  unfoldable pub perform : W → List Effect → W
  perform w [] = w
  perform w (Effect.output text ∷ effects) = perform (g.output w text) effects
  perform w (Effect.flush ∷ effects) = perform (g.flush w) effects
  perform w (Effect.abort ∷ effects) = w

-- The texts that are put out before an `abort`.
abbrev put_out : List Effect → List ℕ
put_out [] = []
put_out (Effect.output text ∷ effects) = text ++ put_out effects
put_out (Effect.flush ∷ effects) = put_out effects
put_out (Effect.abort ∷ effects) = []

-- As the variables are at first, and where `fwrite` takes all, `stdout` gets all that is put out.
perform-initial :
    {W : Type 0} (io : Stdio W) (set_trace set_debug : Bool)
    → ((w : W) (bytes : List ℕ) → (io.fwrite w bytes).0 ≡ length bytes)
    → (w : W) (effects : List Effect)
    → io.contents
        (perform (initial set_trace set_debug (default_output io) (default_flush io)) w effects)
      ≡ io.contents w ++ put_out effects
unfolding perform initial default_output default_flush
perform-initial io t d whole w [] = sym (append-nil (io.contents w))
perform-initial io t d whole w (Effect.output text ∷ effects) =
    perform-initial io t d whole (io.fwrite w text).1 effects
    ∙ ap (λ l. l ++ put_out effects)
        (io.contents_fwrite w text
          ∙ ap (λ n. io.contents w ++ take n text) (whole w text)
          ∙ ap (λ l. io.contents w ++ l) (take-all (length text) text (omega arith)))
    ∙ append_assoc (io.contents w) text (put_out effects)
perform-initial io t d whole w (Effect.flush ∷ effects) =
    perform-initial io t d whole (io.fflush w) effects
    ∙ ap (λ l. l ++ put_out effects) (io.contents_fflush w)
perform-initial io t d whole w (Effect.abort ∷ effects) = sym (append-nil (io.contents w))

-- `CheckNotNull`: the pointer, and the fatal statement with its text where that is null.
unfoldable pub check_not_null :
    {A D : Type 0} → List ℕ → Option A → Option A × Option (Site × List (Item D))
check_not_null names none = (none, some (Site.log_fatal, Item.c_str (some names) ∷ []))
check_not_null names (some ptr) = (some ptr, none)
