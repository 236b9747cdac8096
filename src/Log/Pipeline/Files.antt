-- ===== src/Log/Pipeline/Files.antt =====
-- The lines that threads log through base/log/AsyncLogging.cc are in the files of base/log/LogFile.cc.
use naive_net.Common.{
  ℕ, suc, ◌<◌, ◌≡◌, sym, ap, ◌∙◌, List, [], ◌∷◌, ◌++◌, append_assoc, append-nil, some, none-some,
  some-injective, Bool-cases, true, inl, inr, ltb, length,
}
use naive_net.Common.Int.{ℤ}
use naive_net.File.{Stdio, open_file}
use naive_net.Log.Async.{AsyncLogging, Call, append_call, flush_call, Event, start, run}
use naive_net.Log.Async.Invariant.{start-IsWorking, run-IsWorking}
use naive_net.Log.Async.Output.{fit, is_never_full, total-start, run-total}
use naive_net.Log.Async.Texts.{text_of_calls, held, total, text_of_events}
use naive_net.Log.LogFile
use naive_net.Log.LogFile.{LogFile, contains}
use naive_net.Log.LogFile.Rolling.{all_text, text_of_files, append_unlocked-text, flush_file-text}
use naive_net.Log.Pipeline.{output_file, call_file, call_files}

module _ {W : Type 0} (io : Stdio W) (time_text : ℕ → List ℕ) (hostname : List ℕ) (pid : ℤ)
    (contents_fopen : (name : List ℕ) → io.contents (io.fopen name) ≡ [])
    (fwrite_whole : (w : W) (bytes : List ℕ) → (io.fwrite w bytes).0 ≡ length bytes) where
  pub call_files-text :
      (clock : ℕ → ℕ × ℕ) (n : ℕ) (f : LogFile W) (cs : List Call)
      → all_text io (call_files io time_text hostname pid clock n f cs)
        ≡ all_text io f ++ text_of_calls cs
  unfolding call_files call_file text_of_calls
  call_files-text clock n f [] = sym (append-nil (all_text io f))
  call_files-text clock n f (append_call text ∷ cs) =
      call_files-text clock (suc n) _ cs
      ∙ ap (λ l. l ++ text_of_calls cs)
          (append_unlocked-text io time_text hostname pid contents_fopen fwrite_whole f text
            (clock n).0 (clock n).1)
      ∙ append_assoc (all_text io f) text (text_of_calls cs)
  call_files-text clock n f (flush_call ∷ cs) =
      call_files-text clock (suc n) _ cs
      ∙ ap (λ l. l ++ text_of_calls cs)
          (flush_file-text io time_text hostname pid contents_fopen fwrite_whole f)

  pub output_file-text :
      (basename : List ℕ) (roll_size now : ℕ) {f : LogFile W}
      → output_file io time_text hostname pid basename roll_size now ≡ some f
      → all_text io f ≡ []
  unfolding output_file naive_net.Log.LogFile.create all_text open_file text_of_files
  output_file-text basename roll_size now e = elim (Bool-cases (contains b'/' basename)) [
    | inl c ↦ absurd (none-some (rw c at e))
    | inr c ↦ elim (Bool-cases (ltb 0 now)) [
      | inl p ↦ ap (all_text io) (sym (some-injective (rw (c, p) at e))) ∙ contents_fopen _
      | inr p ↦ absurd (none-some (rw (c, p) at e))
    ]
  ]

  -- Where a new file is empty and `fwrite` takes all, the `LogFile` can be made, a buffer has a byte at
  -- least, the lines are shorter than it and the buffers to write are never more than 25: every
  -- schedule of a new `AsyncLogging` runs without a failed assertion, and the texts of all files of its
  -- `LogFile`, rolled or not, with what the buffers hold behind them, are the lines that were logged,
  -- in order.
  pub run-files :
      (memory : List ℕ) (now : ℕ → List ℕ) (es : List Event) (clock : ℕ → ℕ × ℕ) (basename : List ℕ)
      (roll_size opened : ℕ) {f : LogFile W}
      → 0 < length memory
      → fit memory es ≡ true
      → is_never_full memory now (start memory now) es ≡ true
      → output_file io time_text hostname pid basename roll_size opened ≡ some f
      → (t : AsyncLogging) × (run memory now (start memory now) es ≡ some t)
        × (all_text io (call_files io time_text hostname pid clock 0 f t.output) ++ held t
            ≡ text_of_events es)
  unfolding total
  run-files memory now es clock basename roll_size opened {f} room h k o =
      let v = start-IsWorking memory now room in
      let r = run-IsWorking memory now (start memory now) es room v in
      (
        r.0,
        r.1,
        ap (λ l. l ++ held r.0)
              (call_files-text clock 0 f r.0.output
                ∙ ap (λ l. l ++ text_of_calls r.0.output)
                    (output_file-text basename roll_size opened o))
            ∙ run-total memory now (start memory now) r.0 es v h k r.1
            ∙ ap (λ l. l ++ text_of_events es) (total-start memory now),
      )
