-- ===== src/TimeZone/File/Encode.antt =====
-- The bytes of a time zone file, and what base/TimeZone.cc reads from them.
use naive_net.Common.{
  ℕ, ◌-◌, ◌/◌, ◌%◌, ◌^◌, ◌<◌, ◌≡◌, refl, sym, ap, ◌∙◌, List, [], ◌∷◌, ◌++◌, map, append_assoc,
  append-nil, some, Bool, true, false, not, leb, ◌==◌, if◌then◌else◌, length, get_elem?, take, drop,
  All, arith, length-append,
}
use naive_net.Common.Int.{ℤ, pos, negsuc, ◌+ℤ◌}
use naive_net.TimeZone.Data.{Transition, Localtime, Data}
use naive_net.TimeZone.File.{
  Step, got, Reader, ◌>>=◌, int32_of, read_bytes, read_int32, read_uint8, repeat, read_localtime,
  push_transitions,
}

abbrev pub IsInt32 : ℤ → Type 0
IsInt32 (pos n) = n < 2 ^ 31
IsInt32 (negsuc n) = n < 2 ^ 31

unfoldable pub bytes_of_word : ℕ → List ℕ
bytes_of_word u = u / 2 ^ 24 ∷ u / 2 ^ 16 % 256 ∷ u / 2 ^ 8 % 256 ∷ u % 256 ∷ []

unfoldable pub bytes_of_int32 : ℤ → List ℕ
unfolding bytes_of_word
bytes_of_int32 (pos n) = bytes_of_word n
bytes_of_int32 (negsuc n) = bytes_of_word (2 ^ 32 - 1 - n)

-- A step that reads, and then the next one.
pub >>=-got :
    {A B : Type 0} (m : Reader A) (f : A → Reader B) {bytes rest : List ℕ} {d d' : Data} {a : A}
    → m bytes d ≡ got a rest d'
    → (m >>= f) bytes d ≡ f a rest d'
>>=-got m f e = rw (e, ◌>>=◌)

pub after_got :
    {A B : Type 0} (m : Reader A) (f : A → Reader B) {bytes rest : List ℕ} {d d' : Data} {a : A}
    {r : Step B}
    → m bytes d ≡ got a rest d'
    → f a rest d' ≡ r
    → (m >>= f) bytes d ≡ r
after_got m f e k = >>=-got m f e ∙ k

pub read_int32-bytes :
    (z : ℤ) (rest : List ℕ) (d : Data)
    → IsInt32 z
    → read_int32 (bytes_of_int32 z ++ rest) d ≡ got z rest d
unfolding read_int32 bytes_of_int32 int32_of
read_int32-bytes (pos n) rest d h = ground arith
read_int32-bytes (negsuc n) rest d h = ground arith

take-length : (xs rest : List ℕ) → take (length xs) (xs ++ rest) ≡ xs
take-length [] rest = refl
take-length (x ∷ xs) rest = ap (◌∷◌ x) (take-length xs rest)

drop-length : (xs rest : List ℕ) → drop (length xs) (xs ++ rest) ≡ rest
drop-length [] rest = refl
drop-length (x ∷ xs) rest = drop-length xs rest

pub read_bytes-length :
    (n : ℕ) (xs rest : List ℕ) (d : Data)
    → n ≡ length xs
    → read_bytes n (xs ++ rest) d ≡ got xs rest d
unfolding read_bytes
read_bytes-length n xs rest d e =
    let fits : leb (length xs) (length (xs ++ rest)) ≡ true =
      ground (arith, length-append xs rest) in
    rw (e, fits, take-length xs rest, drop-length xs rest)

-- The texts of the elements, one behind the other.
unfoldable pub flat {ℓ} : {A : Type ℓ} → (A → List ℕ) → List A → List ℕ
flat text [] = []
flat text (x ∷ xs) = text x ++ flat text xs

unfoldable pub bytes_of_localtime : Localtime → List ℕ
unfolding bytes_of_int32
bytes_of_localtime l = bytes_of_int32 l.gmt_offset ++ (if l.is_dst then 1 else 0) ∷ l.arrb_idx ∷ []

pub repeat-int32 :
    (ts : List Transition) (rest : List ℕ) (d : Data)
    → All (λ t. IsInt32 t.gmttime) ts
    → repeat (length ts) read_int32 (flat (λ t. bytes_of_int32 t.gmttime) ts ++ rest) d
      ≡ got (map (λ t. t.gmttime) ts) rest d
unfolding repeat flat
repeat-int32 [] rest d h = refl
repeat-int32 (t ∷ ts) rest d h =
    rw (append_assoc (bytes_of_int32 t.gmttime) (flat (λ t. bytes_of_int32 t.gmttime) ts) rest) (
      >>=-got read_int32 _ (read_int32-bytes t.gmttime _ d h.0)
      ∙ >>=-got (repeat (length ts) read_int32) _ (repeat-int32 ts rest d h.1))

pub repeat-uint8 :
    (ts : List Transition) (rest : List ℕ) (d : Data)
    → repeat (length ts) read_uint8 (map (λ t. t.localtime_idx) ts ++ rest) d
      ≡ got (map (λ t. t.localtime_idx) ts) rest d
unfolding repeat read_uint8
repeat-uint8 [] rest d = refl
repeat-uint8 (t ∷ ts) rest d = >>=-got (repeat (length ts) read_uint8) _ (repeat-uint8 ts rest d)

is_dst_byte : (b : Bool) → not ((if b then 1 else 0) == 0) ≡ b
is_dst_byte true = refl
is_dst_byte false = refl

read_localtime-bytes :
    (l : Localtime) (rest : List ℕ) (d : Data)
    → IsInt32 l.gmt_offset
    → read_localtime (bytes_of_localtime l ++ rest) d
      ≡ got tt rest (record d { localtimes = d.localtimes ++ l ∷ [] })
unfolding read_localtime bytes_of_localtime read_uint8
read_localtime-bytes l rest d h =
    rw
      (append_assoc (bytes_of_int32 l.gmt_offset) ((if l.is_dst then 1 else 0) ∷ l.arrb_idx ∷ [])
        rest)
      (>>=-got read_int32 _ (read_int32-bytes l.gmt_offset _ d h)
        ∙ ap
            (λ b. got tt rest (record d {
              localtimes =
                  d.localtimes
                  ++ record { gmt_offset = l.gmt_offset; is_dst = b; arrb_idx = l.arrb_idx } ∷ [];
            }))
            (is_dst_byte l.is_dst))

pub repeat-localtime :
    (ls : List Localtime) (rest : List ℕ) (d : Data)
    → All (λ l. IsInt32 l.gmt_offset) ls
    → repeat (length ls) read_localtime (flat bytes_of_localtime ls ++ rest) d
      ≡ got (map (λ l. tt) ls) rest (record d { localtimes = d.localtimes ++ ls })
unfolding repeat flat
repeat-localtime [] rest d h =
    ap (λ l. got [] rest (record d { localtimes = l })) (sym (append-nil d.localtimes))
repeat-localtime (l ∷ ls) rest d h =
    rw (append_assoc (bytes_of_localtime l) (flat bytes_of_localtime ls) rest) (
      >>=-got read_localtime _ (read_localtime-bytes l _ d h.0)
      ∙ >>=-got (repeat (length ls) read_localtime) _
          (repeat-localtime ls rest (record d { localtimes = d.localtimes ++ l ∷ [] }) h.1)
      ∙ ap (λ x. got (map (λ l. tt) (l ∷ ls)) rest (record d { localtimes = x }))
          (append_assoc d.localtimes (l ∷ []) ls))

-- A transition that the file can hold: its local time is the one in force after it.
pub record IsTransition (locals : List Localtime) (t : Transition) : Type 0 where
  pub in_range : IsInt32 t.gmttime
  pub local : Localtime
  pub named : get_elem? locals t.localtime_idx ≡ some local
  pub shifted : t.localtime ≡ t.gmttime +ℤ local.gmt_offset

push_transition :
    (t : Transition) (ts : List ℤ) (idxs : List ℕ) (rest : List ℕ) (d : Data)
    → IsTransition d.localtimes t
    → push_transitions (t.gmttime ∷ ts) (t.localtime_idx ∷ idxs) rest d
      ≡ push_transitions ts idxs rest (record d { transitions = d.transitions ++ t ∷ [] })
unfolding push_transitions
push_transition t ts idxs rest d h =
    rw (h.named, push_transitions)
      (ap
        (λ z. push_transitions ts idxs rest (record d {
          transitions =
              d.transitions
              ++ record { gmttime = t.gmttime; localtime = z; localtime_idx = t.localtime_idx }
                ∷ [];
        }))
        (sym h.shifted))

pub push_transitions_lem :
    (ts : List Transition) (rest : List ℕ) (d : Data)
    → All (IsTransition d.localtimes) ts
    → push_transitions (map (λ t. t.gmttime) ts) (map (λ t. t.localtime_idx) ts) rest d
      ≡ got tt rest (record d { transitions = d.transitions ++ ts })
unfolding push_transitions
push_transitions_lem [] rest d h =
    ap (λ l. got tt rest (record d { transitions = l })) (sym (append-nil d.transitions))
push_transitions_lem (t ∷ ts) rest d h =
    push_transition t _ _ rest d h.0
    ∙ push_transitions_lem ts rest (record d { transitions = d.transitions ++ t ∷ [] }) h.1
    ∙ ap (λ l. got tt rest (record d { transitions = l })) (append_assoc d.transitions (t ∷ []) ts)
