-- ===== src/File/Small/Reading.antt =====
-- What `readToString` of base/FileUtil.cc reads, and that it ends.
use naive_net.Common.{
  ℕ, zero, suc, ◌+◌, ◌-◌, ◌≤◌, ◌<◌, ◌≡◌, refl, sym, ap, subst, ◌∙◌, ◌⊎◌, inl, inr, List, [], ◌∷◌,
  ◌++◌, append_assoc, append-nil, some, true, Bool-cases, ltb, length, length-append, min, arith,
}
use naive_net.Common.Int.{ℤ, pos, ltb_ℤ}
use naive_net.File.Small.{
  Outcome, Files, ReadSmallFile, Wanted, Content, Answer, buffer_size, stat_first, read_loop,
  read_to_string,
}

-- What `read` of the system does on a file with the bytes `rest` from its position on: it gives at most
-- as many of them as it is asked for, and gives none only where none is left or none is asked for.
abbrev pub Gives : {W : Type 0} (rest : W → List ℕ) → W → ℕ → Outcome × W → Type 0
Gives rest w n (Outcome.got bytes, w') =
    (length bytes ≤ n) × (rest w ≡ bytes ++ rest w') × ((bytes ≡ []) → (n ≡ 0) ⊎ (rest w ≡ []))
Gives rest w n (Outcome.failed e, w') = rest w' ≡ rest w

Outcome-cases :
    (o : Outcome)
    → (o ≡ Outcome.got [])
      ⊎ ((b : ℕ) × (bytes : List ℕ) × (o ≡ Outcome.got (b ∷ bytes)))
      ⊎ ((e : ℤ) × (o ≡ Outcome.failed e))
Outcome-cases (Outcome.got []) = inl refl
Outcome-cases (Outcome.got (b ∷ bytes)) = inr (inl (b, bytes, refl))
Outcome-cases (Outcome.failed e) = inr (inr (e, refl))

module _ {W : Type 0} (io : Files W) (rest : W → List ℕ) where
  -- The loop has added `more` to the text: as much as there is room for, or all that is left, or else a
  -- read has failed.
  pub record Reads (max_size : ℕ) (w : W) (err : ℤ) (text : List ℕ) (r : ℤ × List ℕ × W)
      : Type 0 where
    pub more : List ℕ
    pub adds : r.1 ≡ text ++ more
    pub from_file : rest w ≡ more ++ rest r.2
    pub fits : length r.1 ≤ max_size
    pub why :
        ((r.0 ≡ err) × ((length r.1 ≡ max_size) ⊎ (rest r.2 ≡ [])))
        ⊎ ((v : W) × (n : ℕ) × ((io.read v n).0 ≡ Outcome.failed r.0))

module _ {W : Type 0} (io : Files W) (rest : W → List ℕ)
    (read_Gives : (w : W) (n : ℕ) → Gives rest w n (io.read w n)) where
  gives : (w : W) (n : ℕ) {o : Outcome} → (io.read w n).0 ≡ o → Gives rest w n (o, (io.read w n).1)
  gives w n e = subst (λ o. Gives rest w n (o, (io.read w n).1)) e (read_Gives w n)

  -- What the rest of the loop adds comes after the bytes of this read.
  Reads-more :
      {max_size : ℕ} {w : W} {err : ℤ} {text : List ℕ} {r : ℤ × List ℕ × W} (bytes : List ℕ)
      (w' : W)
      → rest w ≡ bytes ++ rest w'
      → Reads io rest max_size w' err (text ++ bytes) r
      → Reads io rest max_size w err text r
  Reads-more {text = text} {r = r} bytes w' e s = record {
    more = bytes ++ s.more;
    adds = s.adds ∙ append_assoc text bytes s.more;
    from_file = e ∙ ap (λ l. bytes ++ l) s.from_file ∙ sym (append_assoc bytes s.more (rest r.2));
    fits = s.fits;
    why = s.why;
  }

  -- The loop ends, and the fuel does not run out.
  pub read_loop-Reads :
      (fuel max_size : ℕ) (w : W) (err : ℤ) (text : List ℕ)
      → length text ≤ max_size
      → max_size < length text + fuel
      → (r : ℤ × List ℕ × W) × (read_loop io fuel max_size w err text ≡ some r)
        × Reads io rest max_size w err text r
  unfolding read_loop
  read_loop-Reads zero max_size w err text h k = absurd (omega arith)
  read_loop-Reads (suc fuel) max_size w err text h k =
      let n = min (max_size - length text) buffer_size in
      let w' = (io.read w n).1 in
      elim (Bool-cases (ltb (length text) max_size)) [
        | inr e ↦ (
          (err, text, w),
          rw e refl,
          record {
            more = [];
            adds = sym (append-nil text);
            from_file = refl;
            fits = h;
            why = inl (refl, inl (ground arith));
          },
        )
        | inl e ↦ elim (Outcome-cases (io.read w n).0) [
          | inl z ↦ (
            (err, text, w'),
            rw (e, z) refl,
            record {
              more = [];
              adds = sym (append-nil text);
              from_file = (gives w n z).1;
              fits = h;
              why = inl (
                refl,
                inr (elim ((gives w n z).2 refl) [
                  | inl none_asked ↦ absurd (ground (arith, e, none_asked))
                  | inr r ↦ sym (gives w n z).1 ∙ r
                ]),
              );
            },
          )
          | inr (inl (b, bytes, z)) ↦
              let e' : length text < max_size = ground arith in
              let ih =
                read_loop-Reads fuel max_size w' err (text ++ b ∷ bytes)
                  (omega (arith, (gives w n z).0, length-append text (b ∷ bytes), e'))
                  (omega (arith, length-append text (b ∷ bytes))) in
              (ih.0, rw (e, z) ih.1, Reads-more (b ∷ bytes) w' (gives w n z).1 ih.2)
          | inr (inr (er, z)) ↦ (
            (er, text, w'),
            rw (e, z) refl,
            record {
              more = [];
              adds = sym (append-nil text);
              from_file = sym (gives w n z);
              fits = h;
              why = inr (w, n, z);
            },
          )
        ]
      ]

  -- `readToString` of an open file, whose descriptor is above 0, ends. The text then holds at most
  -- `maxSize` bytes and is the front of what was left of the file; either it holds `maxSize` bytes or
  -- all that was left, and the error is the one there was before the first read, or else a read has
  -- failed and its error is returned.
  pub read_to_string-Reads :
      (f : ReadSmallFile W) (max_size : ℕ) (want : Wanted) (c : Content)
      → ltb_ℤ (pos 0) f.fd ≡ true
      → (a : Answer W) × (read_to_string io f max_size want c ≡ some a)
        × Reads io rest max_size f.file
            (stat_first io f want c).0
            []
            (a.error, a.content.text, a.after)
  unfolding read_to_string
  read_to_string-Reads f max_size want c e =
      let filled = stat_first io f want c in
      let r =
        read_loop-Reads (suc max_size) max_size f.file filled.0 [] (omega arith) (omega arith) in
      (
        record { error = r.0.0; content = record filled.1 { text = r.0.1 }; after = r.0.2 },
        rw (e, r.1) refl,
        r.2,
      )
