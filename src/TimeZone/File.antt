-- ===== src/TimeZone/File.antt =====
-- `detail::File` and `readTimeZoneFile` of base/TimeZone.cc. A step reads from the bytes that are left
-- of the file and writes to the `Data` that the caller owns, which keeps what was written when an
-- exception is thrown.
pub mod Encode
pub mod RoundTrip
use naive_net.Common.{
  ℕ, zero, suc, ◌+◌, ◌-◌, ◌*◌, ◌^◌, List, [], ◌∷◌, ◌++◌, Option, none, some, Bool, true, false, not,
  ltb, leb, ◌==◌, if◌then◌else◌, length, get_elem?, take, drop,
}
use naive_net.Common.Int.{ℤ, pos, negsuc, ◌+ℤ◌}
use naive_net.TimeZone.Data.{Transition, Localtime, Data, empty_data}
use naive_net.TimeZone.Local.{TimeZone}

-- The exceptions, all of which `catch (logic_error&)` takes; `reserve` throws the last one.
pub data Problem : Type 0 where
  no_enough_data bad_int32 bad_uint8 bad_head length_error : Problem

-- `undefined` is an access out of bounds, or an array of negative size.
pub data Step (A : Type 0) : Type 0 where
  got : A → List ℕ → Data → Step A
  threw : Problem → Data → Step A
  undefined : Step A

abbrev pub Reader : Type 0 → Type 0
Reader A = List ℕ → Data → Step A

infixl 5 ◌>>=◌ ◌>>◌
abbrev pub ◌>>=◌ : {A B : Type 0} → Reader A → (A → Reader B) → Reader B
◌>>=◌ m f bytes d = elim (m bytes d) [
  | got a rest d' ↦ f a rest d'
  | threw p d' ↦ threw p d'
  | undefined ↦ undefined
]

abbrev pub ◌>>◌ : {B : Type 0} → Reader (Unit {0}) → Reader B → Reader B
m >> k = m >>= λ _. k

abbrev return : {A : Type 0} → A → Reader A
return a bytes d = got a bytes d

abbrev throw : {A : Type 0} → Problem → Reader A
throw p bytes d = threw p d

abbrev modify : (Data → Data) → Reader (Unit {0})
modify f bytes d = got tt bytes (f d)

abbrev data_of : Reader Data
data_of bytes d = got d bytes d

-- `readBytes(n)`
pub read_bytes : ℕ → Reader (List ℕ)
read_bytes n bytes d =
    if leb n (length bytes) then got (take n bytes) (drop n bytes) d else threw no_enough_data d

abbrev pub read_signed_bytes : ℤ → Reader (List ℕ)
read_signed_bytes (pos n) = read_bytes n
read_signed_bytes (negsuc n) = λ bytes d. undefined

-- `be32toh`, as a signed number.
pub int32_of : ℕ → ℕ → ℕ → ℕ → ℤ
int32_of a b c e =
    let u = ((a * 256 + b) * 256 + c) * 256 + e in
    if ltb u (2 ^ 31) then pos u else negsuc (2 ^ 32 - 1 - u)

-- `readInt32` and `readUInt8`
pub read_int32 : Reader ℤ
read_int32 (a ∷ b ∷ c ∷ e ∷ rest) d = got (int32_of a b c e) rest d
read_int32 bytes d = threw bad_int32 d

pub read_uint8 : Reader ℕ
read_uint8 (a ∷ rest) d = got a rest d
read_uint8 [] d = threw bad_uint8 d

-- `for (int i = 0; i < n; ++i)` with a body that reads, and a body for each of the results.
pub repeat : {A : Type 0} → ℕ → Reader A → Reader (List A)
repeat zero body = return []
repeat (suc n) body = do a ← body; rest ← repeat n body; return (a ∷ rest)

-- A loop bound of type `int32_t`.
abbrev rounds : ℤ → ℕ
rounds (pos n) = n
rounds (negsuc n) = 0

-- `reserve(n)`, for a number that may be negative.
abbrev pub reserve : ℤ → Reader (Unit {0})
reserve (pos n) = return tt
reserve (negsuc n) = throw length_error

-- One round of the loop that reads the local times.
pub read_localtime : Reader (Unit {0})
unfolding read_int32 read_uint8
read_localtime = do
  gmtoff ← read_int32
  isdst ← read_uint8
  abbrind ← read_uint8
  modify λ d. record d {
    localtimes =
        d.localtimes
        ++ record { gmt_offset = gmtoff; is_dst = not (isdst == 0); arrb_idx = abbrind } ∷ [];
  }

-- The loop that makes the transitions.
pub push_transitions : List ℤ → List ℕ → Reader (Unit {0})
push_transitions [] idxs = return tt
push_transitions (t ∷ ts) [] = λ bytes d. undefined
push_transitions (t ∷ ts) (i ∷ idxs) = λ bytes d. elim (get_elem? d.localtimes i) [
  | none ↦ undefined
  | some local ↦ push_transitions ts idxs bytes (record d {
    transitions =
        d.transitions
        ++ record { gmttime = t; localtime = t +ℤ local.gmt_offset; localtime_idx = i } ∷ [];
  })
]

abbrev pub is_head : List ℕ → Bool
is_head (a ∷ b ∷ c ∷ e ∷ []) =
    if a == b'T'
    then (if b == b'Z' then (if c == b'i' then e == b'f' else false) else false)
    else false
is_head bytes = false

-- The body of the `try` block. The leap seconds are not read.
unfoldable pub read_body : Reader (Unit {0})
read_body = do
  head ← read_bytes 4
  if is_head head then return tt else throw bad_head
  version ← read_bytes 1
  reserved ← read_bytes 15
  isgmtcnt ← read_int32
  isstdcnt ← read_int32
  leapcnt ← read_int32
  timecnt ← read_int32
  typecnt ← read_int32
  charcnt ← read_int32
  reserve timecnt
  trans ← repeat (rounds timecnt) read_int32
  localtimes ← repeat (rounds timecnt) read_uint8
  types ← repeat (rounds typecnt) read_localtime
  push_transitions trans localtimes
  abbreviation ← read_signed_bytes charcnt
  modify λ d. record d { abbreviation = abbreviation }

-- `readTimeZoneFile` on the bytes of the file, if it could be opened: the `Data` afterwards, and the
-- result, which is `true` on every path. `none` is undefined behaviour.
unfoldable pub read_time_zone_file : Option (List ℕ) → Data → Option (Data × Bool)
unfolding read_body
read_time_zone_file none d = some (d, true)
read_time_zone_file (some bytes) d = elim (read_body bytes d) [
  | got u rest d' ↦ some (d', true)
  | threw p d' ↦ some (d', true)
  | undefined ↦ none
]

-- `TimeZone(const char* zonefile)`
abbrev zone_of : Data × Bool → TimeZone
zone_of (d, true) = record { zone = some d }
zone_of (d, false) = record { zone = none }

unfoldable pub file_zone : Option (List ℕ) → Option TimeZone
unfolding read_time_zone_file
file_zone file = elim (read_time_zone_file file empty_data) [
  | none ↦ none
  | some r ↦ some (zone_of r)
]
