-- ===== src/ProcessInfo/Names.antt =====
-- `procname`, `hostname` and `numThreads` of base/ProcessInfo.cc.
use naive_net.Common.{
  ℕ, zero, suc, ◌+◌, ◌≤◌, ◌<◌, ◌≡◌, refl, sym, ap, ◌∙◌, ◌⊎◌, inl, inr, List, [], ◌∷◌, ◌++◌,
  append_assoc, append-nil, some, ◌>>=◌, true, ltb, length, length-append, length-take, take, drop,
  All, arith, lt→ltb, set, Option-cases,
}
use naive_net.Common.Int.{ℤ, pos, ltb_ℤ}
use naive_net.Common.Printf.{decimal}
use naive_net.File.Small.{Outcome, open_small, read_file}
use naive_net.File.Small.Reading.{Gives, read_to_string-Reads}
use naive_net.StringPiece.{as_string, set_range, strlen}
use naive_net.ProcessInfo.{
  System, procname_of, hostname, read_proc, proc_status, num_threads, count_in, is_space, atoi,
  find, rfind, threads_word, status_path, only_text, empty_content,
}
use naive_net.ProcessInfo.Text.{
  Without, find-first, rfind-last, take-front, drop-past, NotBefore, find_text-first, EndsNumber,
  atoi-decimal,
}

-- Of the text "pid (name) state ...", `procname` gives the name, where no parenthesis opens before
-- it and none closes after it: it may hold parentheses itself.
pub procname_of-name :
    (front name back : List ℕ)
    → Without b'(' front
    → Without b')' back
    → as_string (procname_of (front ++ b'(' ∷ (name ++ b')' ∷ back))) ≡ name
unfolding procname_of as_string set_range
procname_of-name front name back f b =
    let stat = front ++ b'(' ∷ (name ++ b')' ∷ back) in
    let l : find b'(' stat ≡ some (length front) = find-first b'(' front (name ++ b')' ∷ back) f in
    let assoc : (front ++ b'(' ∷ name) ++ b')' ∷ back ≡ stat =
      append_assoc front (b'(' ∷ name) (b')' ∷ back) in
    let n = length (front ++ b'(' ∷ name) in
    let r : rfind b')' stat ≡ some n =
      ap (rfind b')') (sym assoc) ∙ rfind-last b')' (front ++ b'(' ∷ name) back b in
    let len : n ≡ length front + suc (length name) = length-append front (b'(' ∷ name) in
    let t : ltb (length front) n ≡ true = lt→ltb (length front) n (omega (arith, len)) in
    rw (procname_of, l, r, t)
      (ap (λ k. take k (drop (length front + 1) stat)) {y = length name} (omega (arith, len))
        ∙ ap (take (length name)) (drop-past front 1 (b'(' ∷ (name ++ b')' ∷ back)))
        ∙ take-front name (b')' ∷ back))

-- A 0 stops `strlen`.
strlen-set : (buf : List ℕ) (i : ℕ) → i < length buf → strlen (set buf i 0) ≤ i
unfolding strlen
strlen-set [] i h = absurd (omega arith)
strlen-set (x ∷ buf) zero h = omega arith
strlen-set (x ∷ buf) (suc i) h = ground (arith, strlen-set buf i (omega arith))

-- The number behind the first "Threads:".
count_in-first :
    (front blanks : List ℕ) (n : ℕ) (back : List ℕ)
    → NotBefore threads_word front (threads_word ++ (blanks ++ (decimal n ++ back)))
    → All (λ c. is_space c ≡ true) blanks
    → EndsNumber back
    → count_in (front ++ (threads_word ++ (blanks ++ (decimal n ++ back)))) ≡ pos n
unfolding count_in
count_in-first front blanks n back first b ends =
    let back' = blanks ++ (decimal n ++ back) in
    rw (count_in, find_text-first threads_word front back' first)
      (ap atoi (drop-past front 8 (threads_word ++ back')) ∙ atoi-decimal blanks n back b ends)

module _ {W : Type 0} (sys : System W) where
  -- The host's name has 255 bytes at most, also where `gethostname` fills the whole buffer.
  pub hostname-ends :
      ((n : ℕ) (buf : List ℕ) → sys.gethostname n ≡ some buf → length buf ≡ n)
      → length (hostname sys) ≤ 255
  unfolding hostname
  hostname-ends h = elim (Option-cases (sys.gethostname 256)) [
    | inl e ↦ rw (hostname, e) (omega arith)
    | inr (buf, e) ↦
        rw (hostname, e)
          (omega (
            arith,
            h 256 buf e,
            strlen-set buf 255 (omega (arith, h 256 buf e)),
            length-take (strlen (set buf 255 0)) (set buf 255 0),
          ))
  ]

module _ {W : Type 0} (sys : System W) (rest : W → List ℕ)
    (read_Gives : (w : W) (n : ℕ) → Gives rest w n (sys.files.read w n))
    (never_fails : (w : W) (n : ℕ) (e : ℤ) → ¬ ((sys.files.read w n).0 ≡ Outcome.failed e)) where
  no_bytes : (l : List ℕ) → length l ≡ 0 → l ≡ []
  no_bytes [] h = refl
  no_bytes (x ∷ l) h = absurd (omega (arith, h))

  all_read :
      (file after : W) (text : List ℕ)
      → rest file ≡ text ++ rest after
      → length (rest file) ≤ 65536
      → (length text ≡ 65536) ⊎ (rest after ≡ [])
      → text ≡ rest file
  all_read file after text e fits (inr n) = sym (e ∙ ap (λ l. text ++ l) n ∙ append-nil text)
  all_read file after text e fits (inl full) =
      let n = ap length e ∙ length-append text (rest after) in
      sym (e ∙ ap (λ l. text ++ l) (no_bytes (rest after) (omega (arith, n))) ∙ append-nil text)

  -- `readFile` of a file that can be read gives all of it, up to the size asked for.
  pub read_proc-whole :
      (path : List ℕ)
      → ltb_ℤ (pos 0) (sys.files.open_read path).0 ≡ true
      → length (rest (sys.files.open_read path).2) ≤ 65536
      → read_proc sys path ≡ some (rest (sys.files.open_read path).2)
  unfolding read_proc read_file open_small
  read_proc-whole path opened fits =
      let f = open_small sys.files path in
      let r =
        read_to_string-Reads sys.files rest read_Gives f 65536 only_text empty_content opened in
      let whole =
        all_read f.file r.0.after r.0.content.text
          (r.2.from_file ∙ ap (λ l. l ++ rest r.0.after) (sym r.2.adds)) fits
          (elim r.2.why [
            | inl (e, ends) ↦ ends
            | inr (v, n, e) ↦ absurd (never_fails v n r.0.error e)
          ]) in
      ap (λ o. o >>= λ a. some a.content.text) r.1 ∙ ap some whole

  -- `numThreads` is the number that follows the first "Threads:" of the status after blanks and
  -- ends before a byte that is no digit, where the file is opened, no read fails and the file has 65536
  -- bytes at most.
  pub num_threads-status :
      (front blanks : List ℕ) (n : ℕ) (back : List ℕ)
      → ltb_ℤ (pos 0) (sys.files.open_read status_path).0 ≡ true
      → rest (sys.files.open_read status_path).2
        ≡ front ++ (threads_word ++ (blanks ++ (decimal n ++ back)))
      → length (rest (sys.files.open_read status_path).2) ≤ 65536
      → NotBefore threads_word front (threads_word ++ (blanks ++ (decimal n ++ back)))
      → All (λ c. is_space c ≡ true) blanks
      → EndsNumber back
      → num_threads sys ≡ some (pos n)
  unfolding num_threads proc_status
  num_threads-status front blanks n back opened e fits first b ends =
      ap (λ o. o >>= λ status. some (count_in status))
        (read_proc-whole status_path opened fits ∙ ap some e)
      ∙ ap some (count_in-first front blanks n back first b ends)
