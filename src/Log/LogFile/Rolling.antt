-- ===== src/Log/LogFile/Rolling.antt =====
-- What the files of base/log/LogFile.cc hold together.
use naive_net.Common.{
  ℕ, ◌+◌, ◌≡◌, refl, sym, ap, ◌∙◌, inl, inr, List, [], ◌∷◌, ◌++◌, append_assoc, append-nil, ltb,
  leb, ◌==◌, length, Bool-cases,
}
use naive_net.Common.Int.{ℤ}
use naive_net.File.{Stdio, open_file, append, flush}
use naive_net.File.Append.{append-whole}
use naive_net.Log.LogFile.{LogFile, period_of, roll_file, flush_file, check_file, append_unlocked}

module _ {W : Type 0} (io : Stdio W) where
  unfoldable pub text_of_files : List W → List ℕ
  text_of_files [] = []
  text_of_files (w ∷ ws) = io.contents w ++ text_of_files ws

  -- The texts of all files, one behind the other.
  unfoldable pub all_text : LogFile W → List ℕ
  all_text t = text_of_files t.closed ++ io.contents t.file.fp

  text_of_files-snoc :
      (ws : List W) (w : W) → text_of_files (ws ++ w ∷ []) ≡ text_of_files ws ++ io.contents w
  unfolding text_of_files
  text_of_files-snoc [] w = append-nil _
  text_of_files-snoc (v ∷ ws) w =
      ap (λ l. io.contents v ++ l) (text_of_files-snoc ws w)
      ∙ sym (append_assoc (io.contents v) _ _)

module _ {W : Type 0} (io : Stdio W) (time_text : ℕ → List ℕ) (hostname : List ℕ) (pid : ℤ)
    (contents_fopen : (name : List ℕ) → io.contents (io.fopen name) ≡ [])
    (fwrite_whole : (w : W) (bytes : List ℕ) → (io.fwrite w bytes).0 ≡ length bytes) where
  roll_file-text :
      (t : LogFile W) (now : ℕ)
      → all_text io (roll_file io time_text hostname pid t now).0 ≡ all_text io t
  unfolding all_text roll_file open_file
  roll_file-text t now = elim (Bool-cases (ltb t.last_roll now)) [
    | inl e ↦ rw (e, text_of_files-snoc io t.closed t.file.fp, contents_fopen _) (append-nil _)
    | inr e ↦ rw e refl
  ]

  pub flush_file-text :
      (t : LogFile W) → all_text io (flush_file io time_text hostname pid t) ≡ all_text io t
  unfolding all_text flush_file flush
  flush_file-text t = ap (λ l. text_of_files io t.closed ++ l) (io.contents_fflush t.file.fp)

  added :
      (t : LogFile W) (line : List ℕ)
      → all_text io (record t { file = append io t.file line }) ≡ all_text io t ++ line
  unfolding all_text
  added t line =
      ap (λ l. text_of_files io t.closed ++ l) (append-whole io t.file line (fwrite_whole _ _)).0
      ∙ sym (append_assoc (text_of_files io t.closed) _ _)

  check_file-text :
      (t : LogFile W) (now later : ℕ)
      → all_text io (check_file io time_text hostname pid t now later) ≡ all_text io t
  unfolding check_file all_text
  check_file-text t now later =
      elim (Bool-cases (period_of io time_text hostname pid now == t.start_of_period)) [
        | inl e ↦ rw e (elim (Bool-cases (ltb (t.last_flush + t.flush_interval) now)) [
          | inl h ↦ rw h (flush_file-text (record t { last_flush = now }))
          | inr h ↦ rw h refl
        ])
        | inr e ↦ rw e (roll_file-text t later)
      ]

  -- Where `fwrite` takes all and a new file is empty, a line is added behind the texts of all files,
  -- whether the file is rolled, flushed or neither.
  pub append_unlocked-text :
      (t : LogFile W) (line : List ℕ) (now later : ℕ)
      → all_text io (append_unlocked io time_text hostname pid t line now later)
        ≡ all_text io t ++ line
  unfolding append_unlocked all_text
  append_unlocked-text t line now later =
      let t' = record t { file = append io t.file line } in
      elim (Bool-cases (ltb t.roll_size t'.file.written_bytes)) [
        | inl e ↦ rw e (roll_file-text t' later ∙ added t line)
        | inr e ↦ rw e (elim (Bool-cases (leb t.check_every_n (t.count + 1))) [
          | inl h ↦ rw h (check_file-text (record t' { count = 0 }) now later ∙ added t line)
          | inr h ↦ rw h (added t line)
        ])
      ]
