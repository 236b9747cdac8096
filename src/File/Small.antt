-- ===== src/File/Small.antt =====
-- `FileUtil::ReadSmallFile` and `readFile` of base/FileUtil.h and base/FileUtil.cc, over the files of
-- the system.
pub mod Reading
use naive_net.Common.{
  ℕ, zero, suc, ◌+◌, ◌-◌, ◌*◌, ◌≤◌, ◌≡◌, List, [], ◌∷◌, ◌++◌, Option, none, some, ◌>>=◌, Bool, true,
  false, ltb, ◌==◌, if◌then◌else◌, length, take, min,
}
use naive_net.Common.Int.{ℤ, pos, ltb_ℤ}

-- What `read` and `pread` return: bytes, or -1 with `errno`.
pub data Outcome : Type 0 where
  got : List ℕ → Outcome
  failed : ℤ → Outcome

pub data Kind : Type 0 where
  regular directory other : Kind

-- The fields of a `struct stat` that are used, and what `fstat` returns.
pub record Stat : Type 0 where
  pub kind : Kind
  pub st_size : ℤ
  pub st_mtime : ℤ
  pub st_ctime : ℤ

pub data StatOutcome : Type 0 where
  stat_ok : Stat → StatOutcome
  stat_failed : ℤ → StatOutcome

-- The calls of the system, on the state `W` of the open file: `open` gives a descriptor, which is
-- negative with an `errno`, and `EISDIR` is the number of that error.
pub record Files (W : Type 0) : Type 0 where
  pub open_read : List ℕ → ℤ × ℤ × W
  pub read : W → ℕ → Outcome × W
  pub pread : W → ℕ → Outcome
  pub fstat : W → StatOutcome
  pub eisdir : ℤ

abbrev pub buffer_size : ℕ
buffer_size = 64 * 1024

-- `ReadSmallFile`, with the file behind `fd_`.
pub record ReadSmallFile (W : Type 0) : Type 0 where
  pub fd : ℤ
  pub err : ℤ
  pub buf : List ℕ
  pub file : W

-- Which of the pointers are not null, and what they point to.
pub record Wanted : Type 0 where
  pub size : Bool
  pub modified : Bool
  pub created : Bool

pub record Content : Type 0 where
  pub text : List ℕ
  pub file_size : ℤ
  pub modify_time : ℤ
  pub create_time : ℤ

-- What is returned beside it, with the file afterwards.
pub record Answer (W : Type 0) : Type 0 where
  pub error : ℤ
  pub content : Content
  pub after : W

module _ {W : Type 0} (io : Files W) where
  -- The constructor: `buf_[0] = '\0'`, the rest of the buffer not being initialised.
  unfoldable pub open_small : List ℕ → ReadSmallFile W
  open_small filename =
      let fd = (io.open_read filename).0 in
      record {
        fd = fd;
        err = if ltb_ℤ fd (pos 0) then (io.open_read filename).1 else pos 0;
        buf = 0 ∷ [];
        file = (io.open_read filename).2;
      }

  -- What `fstat` fills in.
  unfoldable pub stat_size : Stat → ℤ → Content → ℤ × Content
  stat_size s err c = elim s.kind [
    | regular ↦ (err, record c { file_size = s.st_size })
    | directory ↦ (io.eisdir, c)
    | other ↦ (err, c)
  ]

  unfoldable pub stat_times : Wanted → Stat → Content → Content
  stat_times want s c = record c {
    modify_time = if want.modified then s.st_mtime else c.modify_time;
    create_time = if want.created then s.st_ctime else c.create_time;
  }

  unfoldable pub fill_stat : Wanted → StatOutcome → ℤ → Content → ℤ × Content
  unfolding stat_size stat_times
  fill_stat want (stat_ok s) err c =
      ((stat_size s err c).0, stat_times want s (stat_size s err c).1)
  fill_stat want (stat_failed e) err c = (e, c)

  -- The `while` loop of `readToString`; `none` means that the fuel has run out. A read of no byte ends
  -- the loop.
  unfoldable pub read_loop : ℕ → ℕ → W → ℤ → List ℕ → Option (ℤ × List ℕ × W)
  read_loop zero max_size w err text = none
  read_loop (suc fuel) max_size w err text =
      let to_read = min (max_size - length text) buffer_size in
      let w' = (io.read w to_read).1 in
      let again = λ (bytes : List ℕ). read_loop fuel max_size w' err (text ++ bytes) in
      if ltb (length text) max_size
      then elim (io.read w to_read).0 [
        | got [] ↦ some (err, text, w')
        | got (b ∷ bytes) ↦ again (b ∷ bytes)
        | failed e ↦ some (e, text, w')
      ]
      else some (err, text, w)

  -- The text is cleared, and the sizes and times are asked for where `fileSize` is not null.
  unfoldable pub stat_first : ReadSmallFile W → Wanted → Content → ℤ × Content
  unfolding fill_stat
  stat_first f want c =
      let c' = record c { text = [] } in
      if want.size then fill_stat want (io.fstat f.file) f.err c' else (f.err, c')

  -- `readToString`
  unfoldable pub read_to_string : ReadSmallFile W → ℕ → Wanted → Content → Option (Answer W)
  read_to_string f max_size want c =
      let filled = stat_first f want c in
      if ltb_ℤ (pos 0) f.fd
      then (read_loop (suc max_size) max_size f.file filled.0 [] >>= λ r.
          some (record { error = r.0; content = record filled.1 { text = r.1 }; after = r.2 }))
      else some (record { error = f.err; content = c; after = f.file })

  -- `readToBuffer`, with whether `size` is not null; the size goes out where it is set.
  unfoldable pub read_to_buffer : ReadSmallFile W → Bool → ℤ × Option ℕ × ReadSmallFile W
  read_to_buffer f want_size =
      if ltb_ℤ (pos 0) f.fd
      then elim (io.pread f.file (buffer_size - 1)) [
        | got bytes ↦ (
          f.err,
          if want_size then some (length bytes) else none,
          record f { buf = bytes ++ 0 ∷ [] },
        )
        | failed e ↦ (e, none, f)
      ]
      else (f.err, none, f)

  -- `readFile`
  unfoldable pub read_file : List ℕ → ℕ → Wanted → Content → Option (Answer W)
  unfolding open_small read_to_string
  read_file filename max_size want c = read_to_string (open_small filename) max_size want c
