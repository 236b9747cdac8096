-- ===== src/File/Examples.antt =====
-- Files of base/FileUtil.cc over a C library whose `fwrite` takes a number of bytes at most.
use naive_net.Common.{
  ℕ, ◌+◌, ◌≡◌, refl, List, [], ◌∷◌, ◌++◌, zero, suc, sym, ◌⊎◌, inl, inr, some, false, min, length,
  take, drop, take-append-drop, length-take, arith,
}
use naive_net.Common.Int.{pos}
use naive_net.File.{Stdio, AppendFile, append}
use naive_net.File.Small.{
  Outcome, StatOutcome, Files, ReadSmallFile, Wanted, Content, Answer, stat_first, read_to_string,
}
use naive_net.File.Small.Reading.{Gives, Reads, read_to_string-Reads}
use naive_net.File.Append.{Takes, append-Takes}

abbrev least : ℕ → List ℕ → ℕ
least k bytes = min k (length bytes)

-- A file is its contents; each call takes `k` bytes at most.
abbrev pub at_most : ℕ → Stdio (List ℕ)
at_most k = record {
  fopen = λ name. [];
  fwrite = λ w bytes. (least k bytes, w ++ take (least k bytes) bytes);
  fflush = λ w. w;
  ferror = λ w. false;
  contents = λ w. w;
  fwrite_le = λ w bytes. omega arith;
  contents_fwrite = λ w bytes. refl;
  contents_fflush = λ w. refl;
}

abbrev new_file : AppendFile (List ℕ)
new_file = record { fp = []; written_bytes = 0; reports = 0 }

abbrev five : List ℕ
five = 1 ∷ 2 ∷ 3 ∷ 4 ∷ 5 ∷ []

append-Takes_example :
    Takes
      (at_most 2)
      []
      0
      five
      (append (at_most 2) new_file five).fp
      (append (at_most 2) new_file five).reports
    × ((append (at_most 2) new_file five).written_bytes ≡ 0 + length five)
append-Takes_example = append-Takes (at_most 2) new_file five

-- A file for reading is what is left of it, and a read gives `k + 1` bytes at most.
abbrev pub reads_at_most : ℕ → Files (List ℕ)
reads_at_most k = record {
  open_read = λ name. (pos 3, pos 0, name);
  read = λ w n. (Outcome.got (take (min n (suc k)) w), drop (min n (suc k)) w);
  pread = λ w n. Outcome.got (take n w);
  fstat = λ w. StatOutcome.stat_failed (pos 1);
  eisdir = pos 21;
}

take-none : (m : ℕ) (w : List ℕ) → take m w ≡ [] → (m ≡ 0) ⊎ (w ≡ [])
take-none zero w h = inl refl
take-none (suc m) [] h = inr refl
take-none (suc m) (x ∷ w) h = grind (arith, h)

pub reads_at_most-Gives :
    (k : ℕ) (w : List ℕ) (n : ℕ) → Gives (λ v. v) w n ((reads_at_most k).read w n)
reads_at_most-Gives k w n = (
  omega (arith, length-take (min n (suc k)) w),
  sym (take-append-drop (min n (suc k)) w),
  λ h. elim (take-none (min n (suc k)) w h) [ inl z ↦ inl (omega arith) | inr z ↦ inr z ],
)

abbrev five_file : ReadSmallFile (List ℕ)
five_file = record { fd = pos 3; err = pos 0; buf = 0 ∷ []; file = five }

abbrev only_text : Wanted
only_text = record { size = false; modified = false; created = false }

abbrev no_content : Content
no_content = record { text = 9 ∷ []; file_size = pos 0; modify_time = pos 0; create_time = pos 0 }

read_to_string-Reads_example :
    (a : Answer (List ℕ)) × (read_to_string (reads_at_most 1) five_file 4 only_text no_content
      ≡ some a)
    × Reads
        (reads_at_most 1)
        (λ v. v)
        4
        five
        (stat_first (reads_at_most 1) five_file only_text no_content).0
        []
        (a.error, a.content.text, a.after)
read_to_string-Reads_example =
    read_to_string-Reads (reads_at_most 1) (λ v. v) (reads_at_most-Gives 1) five_file 4 only_text
      no_content refl
