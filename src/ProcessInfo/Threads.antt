-- ===== src/ProcessInfo/Threads.antt =====
-- `threads` and `openedFiles` of base/ProcessInfo.cc.
use naive_net.Common.{
  ℕ, suc, ◌+◌, ◌≡◌, refl, sym, ap, subst, ◌∙◌, List, [], ◌∷◌, ◌++◌, append_assoc, append-nil, false,
  Bool-cases, inl, inr, length, map, arith,
}
use naive_net.Common.Int.{ℤ, pos, leb_ℤ, ◌≤ℤ◌}
use naive_net.Common.Printf.{decimal}
use mathlib.Core.List.{Perm, Pairwise, Mem, forall_mem-cons, not-mem-nil}
use mathlib.Core.List.Perm
use native.Mathlib.Bridge.{le_prop}
use naive_net.ProcessInfo.{
  System, starts_with_digit, fd_dir_filter, task_dir_filter, scan_dir, insert, sort, threads,
  opened_files, task_dir, fd_dir, atoi,
}
use naive_net.ProcessInfo.Text.{starts_with_digit-decimal, atoi-decimal}

-- A directory whose entries are the numbers `ns`, with others between them whose names do not begin with
-- a digit, as "." and ".." are.
pub data Entries : List (List ℕ) → List ℕ → Type 0 where
  none_left : Entries [] []
  number :
      {names : List (List ℕ)} {ns : List ℕ} (n : ℕ)
      → Entries names ns
      → Entries (decimal n ∷ names) (n ∷ ns)
  other :
      {names : List (List ℕ)} {ns : List ℕ} (name : List ℕ)
      → starts_with_digit name ≡ false
      → Entries names ns
      → Entries (name ∷ names) ns

-- In order, each before or at every later one.
abbrev pub IsSorted : List ℤ → Type 0
IsSorted = Pairwise (λ a b. a ≤ℤ b)

insert-Perm : (p : ℤ) (ps : List ℤ) → Perm (insert p ps) (p ∷ ps)
unfolding insert
insert-Perm p [] = Perm.rfl
insert-Perm p (q ∷ qs) = elim (Bool-cases (leb_ℤ p q)) [
  | inl e ↦ rw e Perm.rfl
  | inr e ↦ rw e (Perm.trans (Perm.cons q (insert-Perm p qs)) (Perm.swap p q qs))
]

pub sort-Perm : (ps : List ℤ) → Perm (sort ps) ps
unfolding sort
sort-Perm [] = Perm.rfl
sort-Perm (p ∷ ps) = Perm.trans (insert-Perm p (sort ps)) (Perm.cons p (sort-Perm ps))

abbrev Below : ℤ → List ℤ → Type 0
Below p l = (q : ℤ) → Mem q l → p ≤ℤ q

Below-cons : (p : ℤ) {q : ℤ} {l : List ℤ} → p ≤ℤ q → Below p l → Below p (q ∷ l)
Below-cons p h b = (forall_mem-cons (λ q. le_prop)).1 (h, b)

insert-IsSorted : (p : ℤ) {ps : List ℤ} → IsSorted ps → IsSorted (insert p ps)
unfolding insert
insert-IsSorted p Pairwise.nil = Pairwise.cons (λ q m. absurd (not-mem-nil m)) Pairwise.nil
insert-IsSorted p (Pairwise.cons {a = q} {l = qs} below s) = elim (Bool-cases (leb_ℤ p q)) [
  | inl e ↦ rw e (
      Pairwise.cons (Below-cons _ (ground arith) (λ r m. ground (arith, below r m)))
        (Pairwise.cons below s))
  | inr e ↦ rw e (
      Pairwise.cons
        (λ r m. Below-cons _ (ground arith) below r ((Perm.mem_iff (insert-Perm p qs)).0 m))
        (insert-IsSorted p s))
]

sort-IsSorted : (ps : List ℤ) → IsSorted (sort ps)
unfolding sort
sort-IsSorted [] = Pairwise.nil
sort-IsSorted (p ∷ ps) = insert-IsSorted p (sort-IsSorted ps)

scan_dir-task :
    {names : List (List ℕ)} {ns : List ℕ} (pids : List ℤ)
    → Entries names ns
    → scan_dir task_dir_filter names pids ≡ pids ++ map pos ns
unfolding scan_dir task_dir_filter
scan_dir-task pids none_left = sym (append-nil pids)
scan_dir-task pids (number {ns = ns} n es) =
    let d = starts_with_digit-decimal n in
    let a : atoi (decimal n) ≡ pos n =
      ap atoi (sym (append-nil (decimal n))) ∙ atoi-decimal [] n [] tt refl in
    rw (task_dir_filter, d, a)
      (scan_dir-task (pids ++ pos n ∷ []) es ∙ append_assoc pids (pos n ∷ []) (map pos ns))
scan_dir-task pids (other name h es) = rw h (scan_dir-task pids es)

scan_dir-fd :
    {names : List (List ℕ)} {ns : List ℕ} (n : ℕ)
    → Entries names ns
    → scan_dir fd_dir_filter names n ≡ n + length ns
unfolding scan_dir fd_dir_filter
scan_dir-fd n none_left = omega arith
scan_dir-fd n (number k es) =
    rw (fd_dir_filter, starts_with_digit-decimal k) (omega (arith, scan_dir-fd (suc n) es))
scan_dir-fd n (other name h es) = rw h (scan_dir-fd n es)

module _ {W : Type 0} (sys : System W) where
  -- `threads` gives the numbers in the directory of the threads, each once for each entry, in ascending
  -- order; other entries, as "." and "..", are left out.
  pub threads-IsSorted :
      (ns : List ℕ)
      → Entries (sys.scandir task_dir) ns
      → IsSorted (threads sys) × Perm (threads sys) (map pos ns)
  unfolding threads
  threads-IsSorted ns es =
      let e = scan_dir-task [] es in
      (sort-IsSorted _, subst (λ l. Perm (sort l) (map pos ns)) (sym e) (sort-Perm (map pos ns)))

  -- `openedFiles` is how many numbers are in the directory of the descriptors.
  pub opened_files-count :
      (ns : List ℕ) → Entries (sys.scandir fd_dir) ns → opened_files sys ≡ length ns
  unfolding opened_files
  opened_files-count ns es = scan_dir-fd 0 es ∙ omega arith
