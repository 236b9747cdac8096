-- ===== src/Thread/CurrentThread/Text.antt =====
-- The number of a thread and its text in base/CurrentThread.h.
use naive_net.Common.{
  ℕ, zero, suc, ◌-◌, ◌^◌, ◌≤◌, ◌<◌, ◌≡◌, refl, ap, ◌∙◌, List, [], ◌∷◌, ◌++◌, append_assoc, true,
  false, length, length-append, length-replicate, take, replicate, All, take-all, arith, ◌⊎◌, inl,
  inr,
}
use naive_net.Common.Int.{ℤ, pos, ◌==ℤ◌}
use naive_net.Common.Printf.{blank_padded, signed, decimal, length-decimal}
use naive_net.ProcessInfo.{atoi, is_space}
use naive_net.ProcessInfo.Text.{atoi-decimal}
use naive_net.Thread.CurrentThread.{CurrentThread, new_thread, cache_tid, tid, after_fork}

pub blanks : (n : ℕ) → All (λ c. is_space c ≡ true) (replicate n b' ')
blanks zero = tt
blanks (suc n) = (refl, blanks n)

-- "%5d " with the number.
unfoldable pub tid_text : ℕ → List ℕ
tid_text n = blank_padded 5 (pos n) ++ b' ' ∷ []

-- The number and its text belong together: the text is not cut, its length is the one noted, and it reads
-- as the number.
pub record IsCached (n : ℕ) (t : CurrentThread) : Type 0 where
  pub number : t.cached_tid ≡ pos n
  pub text : t.tid_string ≡ tid_text n
  pub long : length t.tid_string ≡ t.tid_string_length
  pub reads : atoi t.tid_string ≡ pos n

length-tid_text : (n : ℕ) → n < 2 ^ 31 → length (tid_text n) ≤ 31
unfolding tid_text blank_padded signed
length-tid_text n h = omega (
  arith,
  length-append (replicate (5 - length (decimal n)) b' ' ++ decimal n) (b' ' ∷ []),
  length-append (replicate (5 - length (decimal n)) b' ') (decimal n),
  length-replicate {A = ℕ} (5 - length (decimal n)) b' ',
  length-decimal n 9 (omega arith),
)

atoi-tid_text : (n : ℕ) → atoi (tid_text n) ≡ pos n
unfolding tid_text blank_padded signed
atoi-tid_text n =
    let front = replicate (5 - length (decimal n)) b' ' in
    ap atoi (append_assoc front (decimal n) (b' ' ∷ []))
    ∙ atoi-decimal front n (b' ' ∷ []) (blanks (5 - length (decimal n))) refl

cached :
    (n : ℕ) (name : List ℕ)
    → n < 2 ^ 31
    → IsCached n (record {
      cached_tid = pos n;
      tid_string = take 31 (tid_text n);
      tid_string_length = length (tid_text n);
      thread_name = name;
    })
cached n name h =
    let whole = take-all 31 (tid_text n) (length-tid_text n h) in
    record {
      number = refl;
      text = whole;
      long = ap length whole;
      reads = ap atoi whole ∙ atoi-tid_text n;
    }

-- The first call of `tid` in a thread asks the system for the number, which is above 0 and fits an
-- `int`, and keeps it with its text; each later call gives the number kept, whatever the system says.
-- In the child of a fork the number of the child is kept in place of what there was.
pub tid-IsCached :
    (n : ℕ) (later : ℤ) (parent : CurrentThread)
    → 0 < n
    → n < 2 ^ 31
    → ((tid (pos n) new_thread).0 ≡ pos n)
      × IsCached n (tid (pos n) new_thread).1
      × (tid later (tid (pos n) new_thread).1 ≡ tid (pos n) new_thread)
      × IsCached n (after_fork (pos n) parent)
unfolding tid new_thread cache_tid after_fork tid_text
tid-IsCached n later parent p h =
    let c : (pos n ==ℤ pos 0) ≡ false = ground arith in
    (refl, cached n _ h, rw c refl, cached n _ h)

-- A thread with the number `n` has kept nothing yet, or that number.
abbrev pub IsKnown : ℕ → CurrentThread → Type 0
IsKnown n t = (t.cached_tid ≡ pos 0) ⊎ IsCached n t

-- After `tid` the number is kept.
pub tid-IsKnown :
    (n : ℕ) (t : CurrentThread) → 0 < n → n < 2 ^ 31 → IsKnown n t → IsCached n (tid (pos n) t).1
unfolding tid cache_tid tid_text
tid-IsKnown n t p h (inl z) =
    let c : (t.cached_tid ==ℤ pos 0) ≡ true = ap (λ v. v ==ℤ pos 0) z in
    rw c (cached n t.thread_name h)
tid-IsKnown n t p h (inr k) =
    let c : (t.cached_tid ==ℤ pos 0) ≡ false = ap (λ v. v ==ℤ pos 0) k.number ∙ ground arith in
    rw c k
