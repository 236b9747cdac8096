-- ===== src/File/Append.antt =====
-- What `AppendFile::append` of base/FileUtil.cc leaves in the file, and how much it drops.
use naive_net.Common.{
  if◌then◌else◌, ℕ, zero, suc, ◌+◌, ◌-◌, ◌*◌, ◌≤◌, ◌<◌, ◌≡◌, refl, sym, ap, subst, ◌∙◌, ◌⊎◌, inl,
  inr, List, [], ◌∷◌, ◌++◌, append_assoc, append-nil, false, ltb, ◌==◌, length, length-drop, take,
  drop, arith, Bool-cases,
}
use naive_net.File.{Stdio, AppendFile, report, append_loop, append}

take_none : (n : ℕ) → take {A = ℕ} n [] ≡ []
take_none zero = refl
take_none (suc n) = refl

take-add : (n x : ℕ) (xs : List ℕ) → take (n + x) xs ≡ take n xs ++ take x (drop n xs)
take-add zero x xs = ap (λ k. take k xs) {x = 0 + x} {y = x} (omega arith)
take-add (suc n) x [] = take_none (suc n + x) ∙ sym (take_none x)
take-add (suc n) x (y ∷ ys) =
    ap (λ k. take k (y ∷ ys)) {x = suc n + x} {y = suc (n + x)} (omega arith)
    ∙ ap (◌∷◌ y) (take-add n x ys)

take_whole : (xs : List ℕ) → take (length xs) xs ≡ xs
take_whole [] = refl
take_whole (x ∷ xs) = ap (◌∷◌ x) (take_whole xs)

module _ {W : Type 0} (io : Stdio W) where
  -- Of the line, some bytes have been added to the file: half of it at least, and nothing is reported; or
  -- a call of `fwrite` with the rest has taken none, which is reported where `ferror` tells an error.
  pub record Takes (w : W) (reports : ℕ) (line : List ℕ) (w' : W) (reports' : ℕ) : Type 0 where
    pub taken : ℕ
    pub taken_le : taken ≤ length line
    pub adds : io.contents w' ≡ io.contents w ++ take taken line
    pub why :
        ((length line ≤ 2 * taken) × (reports' ≡ reports))
        ⊎ ((v : W) × (io.fwrite v (drop taken line) ≡ (0, w'))
            × (reports' ≡ (if io.ferror w' then reports + 1 else reports)))

  fp-report : (f : AppendFile W) → (report io f).fp ≡ f.fp
  unfolding report
  fp-report f = ground arith

  reports-report :
      (f : AppendFile W)
      → (report io f).reports ≡ (if io.ferror f.fp then f.reports + 1 else f.reports)
  unfolding report
  reports-report f = ground arith

  written_bytes-loop :
      (fuel : ℕ) (f : AppendFile W) (line : List ℕ) (n : ℕ)
      → (append_loop io fuel f line n).written_bytes ≡ f.written_bytes
  unfolding append_loop report
  written_bytes-loop zero f line n = refl
  written_bytes-loop (suc fuel) f line n = ground (
    arith,
    written_bytes-loop fuel (record f { fp = (io.fwrite f.fp (drop n line)).1 }) line
        (n + (io.fwrite f.fp (drop n line)).0),
  )

  append_loop-Takes :
      (fuel : ℕ) (w : W) (k : ℕ) (f : AppendFile W) (line : List ℕ) (n : ℕ)
      → f.reports ≡ k
      → n ≤ length line
      → length line < n + fuel
      → io.contents f.fp ≡ io.contents w ++ take n line
      → Takes w k line (append_loop io fuel f line n).fp (append_loop io fuel f line n).reports
  unfolding append_loop
  append_loop-Takes zero w k f line n q h l e = absurd (omega arith)
  append_loop-Takes (suc fuel) w k f line n q h l e = elim (Bool-cases (ltb n (length line - n))) [
    | inr r ↦ rw r (record { taken = n; taken_le = h; adds = e; why = inl (ground arith, q) })
    | inl r ↦
        let rest = drop n line in
        let x = (io.fwrite f.fp rest).0 in
        let f' = record f { fp = (io.fwrite f.fp rest).1 } in
        elim (Bool-cases (x == 0)) [
          | inl z ↦
              rw (r, z)
                (subst (λ v. Takes w k line v (report io f').reports) (sym (fp-report f'))
                  (record {
                    taken = n;
                    taken_le = h;
                    adds =
                        io.contents_fwrite f.fp rest
                        ∙ ap (λ k. io.contents f.fp ++ take k rest) {y = 0} (ground (arith, z))
                        ∙ append-nil _
                        ∙ e;
                    why = inr (
                      f.fp,
                      ap (λ k. (k, (io.fwrite f.fp rest).1)) {y = 0} (ground (arith, z)),
                      reports-report f' ∙ ap (λ r. if io.ferror f'.fp then r + 1 else r) q,
                    );
                  }))
          | inr z ↦
              rw (r, z)
                (append_loop-Takes fuel w k (record f { fp = (io.fwrite f.fp (drop n line)).1 })
                  line (n + x) q (omega (arith, io.fwrite_le f.fp rest, length-drop n line))
                  (ground arith)
                  (io.contents_fwrite f.fp rest
                    ∙ ap (λ l. l ++ take x rest) e
                    ∙ append_assoc (io.contents w) (take n line) (take x rest)
                    ∙ ap (λ l. io.contents w ++ l) (sym (take-add n x line))))
        ]
  ]

  -- `append` adds the front of the line to the file, and all of its length to `written_bytes`. Half of
  -- the line at least is added, and nothing is reported, or else a call of `fwrite` with the rest has
  -- taken none, which is reported once where `ferror` tells an error after it, and not else.
  pub append-Takes :
      (f : AppendFile W) (line : List ℕ)
      → Takes f.fp f.reports line (append io f line).fp (append io f line).reports
        × ((append io f line).written_bytes ≡ f.written_bytes + length line)
  unfolding append
  append-Takes f line = (
    append_loop-Takes (suc (length line)) f.fp f.reports (record f { fp = (io.fwrite f.fp line).1 })
        line (io.fwrite f.fp line).0 refl (io.fwrite_le f.fp line) (omega arith)
        (io.contents_fwrite f.fp line),
    ap (λ k. k + length line) (written_bytes-loop (suc (length line)) _ line _),
  )

  -- Where the first `fwrite` takes half of the line or more, the rest is not written and nothing is
  -- reported, though `written_bytes` counts the whole line.
  pub append-short :
      (f : AppendFile W) (line : List ℕ)
      → length line ≤ 2 * (io.fwrite f.fp line).0
      → (io.contents (append io f line).fp ≡ io.contents f.fp ++ take (io.fwrite f.fp line).0 line)
        × ((append io f line).written_bytes ≡ f.written_bytes + length line)
        × ((append io f line).reports ≡ f.reports)
  unfolding append append_loop
  append-short f line h =
      let t : ltb (io.fwrite f.fp line).0 (length line - (io.fwrite f.fp line).0) ≡ false =
        ground arith in
      rw t (io.contents_fwrite f.fp line, refl, refl)

  -- Where `fwrite` takes all, the whole line is added and nothing is reported.
  pub append-whole :
      (f : AppendFile W) (line : List ℕ)
      → (io.fwrite f.fp line).0 ≡ length line
      → (io.contents (append io f line).fp ≡ io.contents f.fp ++ line)
        × ((append io f line).written_bytes ≡ f.written_bytes + length line)
        × ((append io f line).reports ≡ f.reports)
  append-whole f line e =
      let (adds, counts, quiet) = append-short f line (omega (arith, e)) in
      (
        adds ∙ ap (λ l. io.contents f.fp ++ l) (ap (λ k. take k line) e ∙ take_whole line),
        counts,
        quiet,
      )
