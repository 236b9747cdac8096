-- ===== src/ProcessInfo/Examples.antt =====
-- A process of base/ProcessInfo.cc with twelve threads, of which two are listed.
use naive_net.Common.{
  ℕ, ◌≤◌, ◌≡◌, refl, List, [], ◌∷◌, ◌++◌, none, some, none-some, ◌^◌, ◌-◌, length, map, arith,
}
use naive_net.Common.Int.{pos, negsuc}
use naive_net.Common.Printf.{decimal, decimal_onto}
use mathlib.Core.List.{Perm}
use naive_net.File.Examples.{reads_at_most, reads_at_most-Gives}
use naive_net.StringPiece.{as_string}
use naive_net.ProcessInfo.{
  System, procname_of, hostname, num_threads, threads, opened_files, threads_word, max_open_files,
  to_int32, is_prefix,
}
use naive_net.ProcessInfo.Names.{procname_of-name, hostname-ends, num_threads-status}
use naive_net.ProcessInfo.Threads.{
  Entries, none_left, number, other, IsSorted, threads-IsSorted, opened_files-count,
}

abbrev front : List ℕ
front = b'P' ∷ b'i' ∷ b'd' ∷ b':' ∷ 9 ∷ b'7' ∷ 10 ∷ []

abbrev back : List ℕ
back = 10 ∷ b'V' ∷ []

abbrev status : List ℕ
status = front ++ (threads_word ++ ((9 ∷ []) ++ (decimal 12 ++ back)))

abbrev dot : List ℕ
dot = b'.' ∷ []

abbrev sys : System (List ℕ)
sys = record {
  getpid = pos 7;
  getuid = 0;
  geteuid = 0;
  getpwuid = λ uid. none;
  gethostname = λ n. none;
  readlink = λ path n. (negsuc 0, []);
  scandir = λ path. dot ∷ decimal 42 ∷ decimal 7 ∷ [];
  getrlimit = some (2 ^ 64 - 1);
  files = record (reads_at_most 6) { open_read = λ path. (pos 3, pos 0, status) };
}

-- Of "7 (a)(b) S" the name is "a)(b".
procname_of-name_example :
    as_string (
      procname_of
        (b'7' ∷ b' ' ∷ b'(' ∷ ((b'a' ∷ b')' ∷ b'(' ∷ b'b' ∷ []) ++ b')' ∷ b' ' ∷ b'S' ∷ [])))
    ≡ b'a' ∷ b')' ∷ b'(' ∷ b'b' ∷ []
procname_of-name_example =
    procname_of-name (b'7' ∷ b' ' ∷ []) (b'a' ∷ b')' ∷ b'(' ∷ b'b' ∷ []) (b' ' ∷ b'S' ∷ [])
      (refl, (refl, tt)) (refl, (refl, tt))

hostname-ends_example : length (hostname sys) ≤ 255
hostname-ends_example = hostname-ends sys (λ n buf e. absurd (none-some e))

num_threads-status_example : num_threads sys ≡ some (pos 12)
unfolding decimal decimal_onto is_prefix
num_threads-status_example =
    num_threads-status sys (λ w. w) (reads_at_most-Gives 6) (λ w n e h. grind (arith, h)) front
      (9 ∷ []) 12 back refl refl (omega arith)
      (refl, (refl, (refl, (refl, (refl, (refl, (refl, tt))))))) (refl, tt) refl

entries : Entries (dot ∷ decimal 42 ∷ decimal 7 ∷ []) (42 ∷ 7 ∷ [])
entries = other dot refl (number 42 (number 7 none_left))

threads-IsSorted_example : IsSorted (threads sys) × Perm (threads sys) (map pos (42 ∷ 7 ∷ []))
threads-IsSorted_example = threads-IsSorted sys (42 ∷ 7 ∷ []) entries

opened_files-count_example : opened_files sys ≡ 2
opened_files-count_example = opened_files-count sys (42 ∷ 7 ∷ []) entries

-- With no limit on open files, `maxOpenFiles` says -1.
unlimited : max_open_files sys ≡ negsuc 0
unfolding max_open_files to_int32
unlimited = refl
