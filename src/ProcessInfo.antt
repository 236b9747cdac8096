-- ===== src/ProcessInfo.antt =====
-- `ProcessInfo` of base/ProcessInfo.h and base/ProcessInfo.cc, over what the system tells of the process.
-- A text is the list of its bytes.
pub mod Text
pub mod Names
pub mod Threads
pub mod Usage
pub mod Globals
mod Examples
use naive_net.Common.{
  ℕ, zero, suc, ◌+◌, ◌-◌, ◌*◌, ◌%◌, ◌^◌, ◌≡◌, List, [], ◌∷◌, ◌++◌, Option, none, some, ◌>>=◌, Bool,
  true, false, ◌&&◌, ◌||◌, ltb, leb, ◌==◌, if◌then◌else◌, length, set, take, drop,
}
use naive_net.Common.Int.{ℤ, pos, negsuc, sub_ℕ, ltb_ℤ, leb_ℤ}
use naive_net.Common.Printf.{signed}
use naive_net.File.Small.{Files, Wanted, Content, read_file}
use naive_net.StringPiece.{StringPiece, empty_piece, set_range, as_string, strlen}

-- What the calls of the system give: `getpwuid_r` a name or no entry, `gethostname` the buffer or a
-- failure, `readlink` its number and the bytes, `scandir` the entries that it hands to the filter in
-- turn, `getrlimit` the limit or a failure. `files` stands for the calls on files.
pub record System (W : Type 0) : Type 0 where
  pub getpid : ℤ
  pub getuid : ℕ
  pub geteuid : ℕ
  pub getpwuid : ℕ → Option (List ℕ)
  pub gethostname : ℕ → Option (List ℕ)
  pub readlink : List ℕ → ℕ → ℤ × List ℕ
  pub scandir : List ℕ → List (List ℕ)
  pub getrlimit : Option ℕ
  pub files : Files W

-- `isdigit`, `isspace`
abbrev pub is_digit : ℕ → Bool
is_digit c = leb b'0' c && leb c b'9'

abbrev pub is_space : ℕ → Bool
is_space c = (c == b' ') || (leb 9 c && leb c 13)

-- `atoi` of the C library: blanks, a sign and digits, up to the first byte that is none.
unfoldable pub atoi_digits : ℕ → List ℕ → ℕ
atoi_digits acc [] = acc
atoi_digits acc (c ∷ cs) =
    let n = atoi_digits (acc * 10 + (c - b'0')) cs in if is_digit c then n else acc

unfoldable pub skip_space : List ℕ → List ℕ
skip_space [] = []
skip_space (c ∷ cs) = if is_space c then skip_space cs else c ∷ cs

unfoldable pub atoi_sign : List ℕ → ℤ
atoi_sign [] = pos 0
atoi_sign (c ∷ cs) =
    if c == b'-'
    then sub_ℕ 0 (atoi_digits 0 cs)
    else if c == b'+'
    then pos (atoi_digits 0 cs)
    else pos (atoi_digits 0 (c ∷ cs))

unfoldable pub atoi : List ℕ → ℤ
atoi text = atoi_sign (skip_space text)

-- The first digit of an entry's name says that it is a number.
abbrev pub starts_with_digit : List ℕ → Bool
starts_with_digit [] = false
starts_with_digit (c ∷ cs) = is_digit c

-- `fdDirFilter` with the count, and `taskDirFilter` with the vector; the entry is not kept.
unfoldable pub fd_dir_filter : List ℕ → ℕ → ℕ
fd_dir_filter name num_opened_files =
    if starts_with_digit name then suc num_opened_files else num_opened_files

unfoldable pub task_dir_filter : List ℕ → List ℤ → List ℤ
unfolding atoi
task_dir_filter name pids = if starts_with_digit name then pids ++ atoi name ∷ [] else pids

-- `scanDir`: the filter is called with each entry.
unfoldable pub scan_dir : {A : Type 0} → (List ℕ → A → A) → List (List ℕ) → A → A
scan_dir filter [] state = state
scan_dir filter (name ∷ names) state = scan_dir filter names (filter name state)

-- `std::string::find` and `rfind` of a byte, and `find` of a text.
unfoldable pub find : ℕ → List ℕ → Option ℕ
find c [] = none
find c (x ∷ xs) = let rest = find c xs in if x == c then some 0 else rest >>= λ i. some (suc i)

unfoldable pub rfind : ℕ → List ℕ → Option ℕ
rfind c [] = none
rfind c (x ∷ xs) = elim (rfind c xs) [
  | some i ↦ some (suc i)
  | none ↦ if x == c then some 0 else none
]

unfoldable pub is_prefix : List ℕ → List ℕ → Bool
is_prefix [] text = true
is_prefix (c ∷ cs) [] = false
is_prefix (c ∷ cs) (x ∷ xs) = (c == x) && is_prefix cs xs

unfoldable pub find_text : List ℕ → List ℕ → Option ℕ
find_text word [] = if is_prefix word [] then some 0 else none
find_text word (x ∷ xs) =
    let rest = find_text word xs in
    if is_prefix word (x ∷ xs) then some 0 else rest >>= λ i. some (suc i)

-- `std::sort` of the thread numbers.
unfoldable pub insert : ℤ → List ℤ → List ℤ
insert p [] = p ∷ []
insert p (q ∷ qs) = let rest = insert p qs in if leb_ℤ p q then p ∷ q ∷ qs else q ∷ rest

unfoldable pub sort : List ℤ → List ℤ
sort [] = []
sort (p ∷ ps) = insert p (sort ps)

-- A C text in a buffer of `n` bytes, which `snprintf` cuts.
abbrev pub cut : ℕ → List ℕ → List ℕ
cut n text = take (n - 1) text

-- `procname` with the text of `/proc/self/stat`
unfoldable pub procname_of : List ℕ → StringPiece
unfolding find rfind
procname_of stat = elim (find b'(' stat) [
  | none ↦ empty_piece
  | some lp ↦ elim (rfind b')' stat) [
    | none ↦ empty_piece
    | some rp ↦
        if ltb lp rp then set_range empty_piece (drop (lp + 1) stat) (rp - lp - 1) else empty_piece
  ]
]

-- The `static_cast<int>` of a 64-bit number.
unfoldable pub to_int32 : ℕ → ℤ
to_int32 n = let m = n % 2 ^ 32 in if ltb m (2 ^ 31) then pos m else negsuc (2 ^ 32 - 1 - m)

-- The texts of the source.
abbrev pub unknown_user : List ℕ
unknown_user = b'u' ∷ b'n' ∷ b'k' ∷ b'n' ∷ b'o' ∷ b'w' ∷ b'n' ∷ b'u' ∷ b's' ∷ b'e' ∷ b'r' ∷ []

abbrev pub unknown_host : List ℕ
unknown_host = b'u' ∷ b'n' ∷ b'k' ∷ b'n' ∷ b'o' ∷ b'w' ∷ b'n' ∷ b'h' ∷ b'o' ∷ b's' ∷ b't' ∷ []

abbrev pub status_path : List ℕ
status_path =
    b'/' ∷ b'p' ∷ b'r' ∷ b'o' ∷ b'c' ∷ b'/' ∷ b's' ∷ b'e' ∷ b'l' ∷ b'f' ∷ b'/' ∷ b's' ∷ b't' ∷ b'a'
    ∷ b't' ∷ b'u' ∷ b's' ∷ []

abbrev pub stat_path : List ℕ
stat_path =
    b'/' ∷ b'p' ∷ b'r' ∷ b'o' ∷ b'c' ∷ b'/' ∷ b's' ∷ b'e' ∷ b'l' ∷ b'f' ∷ b'/' ∷ b's' ∷ b't' ∷ b'a'
    ∷ b't' ∷ []

abbrev pub task_prefix : List ℕ
task_prefix =
    b'/' ∷ b'p' ∷ b'r' ∷ b'o' ∷ b'c' ∷ b'/' ∷ b's' ∷ b'e' ∷ b'l' ∷ b'f' ∷ b'/' ∷ b't' ∷ b'a' ∷ b's'
    ∷ b'k' ∷ b'/' ∷ []

abbrev pub stat_suffix : List ℕ
stat_suffix = b'/' ∷ b's' ∷ b't' ∷ b'a' ∷ b't' ∷ []

abbrev pub exe_link : List ℕ
exe_link =
    b'/' ∷ b'p' ∷ b'r' ∷ b'o' ∷ b'c' ∷ b'/' ∷ b's' ∷ b'e' ∷ b'l' ∷ b'f' ∷ b'/' ∷ b'e' ∷ b'x' ∷ b'e'
    ∷ []

abbrev pub fd_dir : List ℕ
fd_dir =
    b'/' ∷ b'p' ∷ b'r' ∷ b'o' ∷ b'c' ∷ b'/' ∷ b's' ∷ b'e' ∷ b'l' ∷ b'f' ∷ b'/' ∷ b'f' ∷ b'd' ∷ []

abbrev pub threads_word : List ℕ
threads_word = b'T' ∷ b'h' ∷ b'r' ∷ b'e' ∷ b'a' ∷ b'd' ∷ b's' ∷ b':' ∷ []

abbrev pub task_dir : List ℕ
task_dir =
    b'/' ∷ b'p' ∷ b'r' ∷ b'o' ∷ b'c' ∷ b'/' ∷ b's' ∷ b'e' ∷ b'l' ∷ b'f' ∷ b'/' ∷ b't' ∷ b'a' ∷ b's'
    ∷ b'k' ∷ []

abbrev pub only_text : Wanted
only_text = record { size = false; modified = false; created = false }

abbrev pub empty_content : Content
empty_content = record { text = []; file_size = pos 0; modify_time = pos 0; create_time = pos 0 }

unfoldable pub count_in : List ℕ → ℤ
unfolding find_text atoi
count_in status = elim (find_text threads_word status) [
  | none ↦ pos 0
  | some at ↦ atoi (drop (at + 8) status)
]

module _ {W : Type 0} (sys : System W) where
  unfoldable pub pid_string : List ℕ
  pid_string = cut 32 (signed sys.getpid)

  unfoldable pub username : List ℕ
  username = elim (sys.getpwuid sys.getuid) [ some name ↦ name | none ↦ unknown_user ]

  -- The last byte of the buffer is set to 0, and the name ends at the first 0.
  unfoldable pub hostname : List ℕ
  unfolding strlen
  hostname = elim (sys.gethostname 256) [
    | some buf ↦ let buf' = set buf (256 - 1) 0 in take (strlen buf') buf'
    | none ↦ unknown_host
  ]

  -- `readFile` into a new text: `none` would mean that a loop has run out of fuel.
  unfoldable pub read_proc : List ℕ → Option (List ℕ)
  read_proc path =
      read_file sys.files path 65536 only_text empty_content >>= λ a. some a.content.text

  unfoldable pub proc_status : Option (List ℕ)
  proc_status = read_proc status_path

  unfoldable pub proc_stat : Option (List ℕ)
  proc_stat = read_proc stat_path

  unfoldable pub thread_stat : ℤ → Option (List ℕ)
  thread_stat tid = read_proc (cut 64 (task_prefix ++ signed tid ++ stat_suffix))

  unfoldable pub procname : Option (List ℕ)
  procname = proc_stat >>= λ stat. some (as_string (procname_of stat))

  unfoldable pub exe_path : List ℕ
  exe_path = let r = sys.readlink exe_link 1024 in if ltb_ℤ (pos 0) r.0 then r.1 else []

  unfoldable pub opened_files : ℕ
  opened_files = scan_dir fd_dir_filter (sys.scandir fd_dir) 0

  unfoldable pub max_open_files : ℤ
  max_open_files = elim sys.getrlimit [
    | none ↦ pos opened_files
    | some rlim_cur ↦ to_int32 rlim_cur
  ]

  -- What stands behind "Threads:" in the status.
  unfoldable pub num_threads : Option ℤ
  unfolding count_in
  num_threads = proc_status >>= λ status. some (count_in status)

  unfoldable pub threads : List ℤ
  threads = sort (scan_dir task_dir_filter (sys.scandir task_dir) [])
