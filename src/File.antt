-- ===== src/File.antt =====
-- `FileUtil::AppendFile` of base/FileUtil.h and base/FileUtil.cc, over the files of the C library.
pub mod Append
pub mod Small
pub mod Examples
use naive_net.Common.{
  ℕ, zero, suc, ◌+◌, ◌-◌, ◌≤◌, ◌≡◌, List, [], ◌∷◌, ◌++◌, Bool, true, false, ltb, ◌==◌,
  if◌then◌else◌, length, take, drop,
}

-- What the code uses of the C library, and what it relies on: `fwrite` says how many bytes it has
-- taken, from the front, and these are what the file gets.
pub record Stdio (W : Type 0) : Type 0 where
  pub fopen : List ℕ → W
  pub fwrite : W → List ℕ → ℕ × W
  pub fflush : W → W
  pub ferror : W → Bool
  pub contents : W → List ℕ
  pub fwrite_le : (w : W) (bytes : List ℕ) → (fwrite w bytes).0 ≤ length bytes
  pub contents_fwrite :
      (w : W) (bytes : List ℕ)
      → contents (fwrite w bytes).1 ≡ contents w ++ take (fwrite w bytes).0 bytes
  pub contents_fflush : (w : W) → contents (fflush w) ≡ contents w

-- `reports` counts the messages to `stderr`.
pub record AppendFile (W : Type 0) : Type 0 where
  pub fp : W
  pub written_bytes : ℕ
  pub reports : ℕ

module _ {W : Type 0} (io : Stdio W) where
  unfoldable pub open_file : List ℕ → AppendFile W
  open_file name = record { fp = io.fopen name; written_bytes = 0; reports = 0 }

  -- What is done when `fwrite` has taken no byte.
  unfoldable pub report : AppendFile W → AppendFile W
  report f = if io.ferror f.fp then record f { reports = f.reports + 1 } else f

  -- The `while` loop of `append`, with `n` bytes taken before: it goes on while what remains is more
  -- than what is taken.
  unfoldable pub append_loop : ℕ → AppendFile W → List ℕ → ℕ → AppendFile W
  append_loop zero f line n = f
  append_loop (suc fuel) f line n =
      let x = (io.fwrite f.fp (drop n line)).0 in
      let f' = record f { fp = (io.fwrite f.fp (drop n line)).1 } in
      let rest = append_loop fuel f' line (n + x) in
      if ltb n (length line - n) then (if x == 0 then report f' else rest) else f

  -- `append`; each round of the loop takes a byte at least, so the length of the line is enough fuel.
  unfoldable pub append : AppendFile W → List ℕ → AppendFile W
  append f line =
      let n = (io.fwrite f.fp line).0 in
      let f' = record f { fp = (io.fwrite f.fp line).1 } in
      let f'' = append_loop (suc (length line)) f' line n in
      record f'' { written_bytes = f''.written_bytes + length line }

  unfoldable pub flush : AppendFile W → AppendFile W
  flush f = record f { fp = io.fflush f.fp }
