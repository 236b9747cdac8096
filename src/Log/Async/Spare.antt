-- ===== src/Log/Async/Spare.antt =====
-- The buffers of base/log/AsyncLogging.cc: which are well formed, which are empty, and what is taken
-- from those that have been written.
use naive_net.Common.{
  ℕ, ◌+◌, ◌≤◌, ◌≡◌, refl, ◌∙◌, List, [], ◌∷◌, ◌++◌, Option, none, some, true, ltb, ◌==◌, length,
  take, arith, All, Bool-cases, inl, inr,
}
use naive_net.Log.Buffer.{FixedBuffer, length_of, append, reset}
use naive_net.Log.Buffer.Contents.{IsBuffer, as_string-append}
use naive_net.Log.Async.{AsyncLogging, Phase, assert_empty, pop_back, refill, refill_next, resize2}

-- How many buffers the thread is short of.
abbrev pub missing : Option FixedBuffer → ℕ
missing none = 1
missing (some b) = 0

-- A buffer of `size` bytes, and one that is empty.
pub record IsOurs (size : ℕ) (b : FixedBuffer) : Type 0 where
  pub is_buffer : IsBuffer b
  pub size_is : b.size ≡ size

pub record IsFresh (size : ℕ) (b : FixedBuffer) : Type 0 where
  pub ours : IsOurs size b
  pub empty : b.cur ≡ 0

abbrev pub IsSpare : ℕ → Option FixedBuffer → Type 0
IsSpare size none = Unit
IsSpare size (some b) = IsFresh size b

-- The buffers that the thread is short of are among those that it writes.
abbrev pub IsPhase : Phase → List FixedBuffer → Option FixedBuffer → Option FixedBuffer → Type 0
IsPhase Phase.loop_test bs b1 b2 = (length bs ≡ 0) × (missing b1 ≡ 0) × (missing b2 ≡ 0)
IsPhase Phase.writing bs b1 b2 = (1 ≤ length bs) × (missing b1 + missing b2 ≤ length bs)
IsPhase Phase.ended bs b1 b2 = Unit

-- Where `next_buffer` is taken, a full buffer waits to be written.
pub record IsWorking (size : ℕ) (t : AsyncLogging) : Type 0 where
  pub in_phase : IsPhase t.phase t.buffers_to_write t.new_buffer1 t.new_buffer2
  pub taken : missing t.next_buffer ≤ length t.buffers
  pub current : IsOurs size t.current_buffer
  pub next : IsSpare size t.next_buffer
  pub new1 : IsSpare size t.new_buffer1
  pub new2 : IsSpare size t.new_buffer2
  pub full : All (IsOurs size) t.buffers
  pub to_write : All (IsOurs size) t.buffers_to_write

pub size-append : (b : FixedBuffer) (line : List ℕ) → (append b line).size ≡ b.size
unfolding append
size-append b line = ground arith

pub append-IsOurs :
    (size : ℕ) (b : FixedBuffer) (line : List ℕ) → IsOurs size b → IsOurs size (append b line)
append-IsOurs size b line v = record {
  is_buffer = (as_string-append b line v.is_buffer).0;
  size_is = size-append b line ∙ v.size_is;
}

pub reset-IsFresh : (size : ℕ) (b : FixedBuffer) → IsOurs size b → IsFresh size (reset b)
unfolding reset
reset-IsFresh size b v = record {
  ours = record {
    is_buffer = record { sized = v.is_buffer.sized; room = omega (arith, v.is_buffer.room) };
    size_is = v.size_is;
  };
  empty = refl;
}

pub All-snoc :
    {size : ℕ} (xs : List FixedBuffer) (x : FixedBuffer)
    → All (IsOurs size) xs
    → IsOurs size x
    → All (IsOurs size) (xs ++ x ∷ [])
All-snoc [] x h p = (p, tt)
All-snoc (y ∷ ys) x h p = (h.0, All-snoc ys x h.1 p)

pub pop_back-length :
    (size : ℕ) (b : FixedBuffer) (bs : List FixedBuffer)
    → All (IsOurs size) (b ∷ bs)
    → (p : FixedBuffer × List FixedBuffer) × (pop_back (b ∷ bs) ≡ some p)
      × (length p.1 ≡ length bs)
      × IsOurs size p.0
      × All (IsOurs size) p.1
unfolding pop_back
pop_back-length size b [] h = ((b, []), refl, refl, h.0, tt)
pop_back-length size b (c ∷ bs) h =
    let (p, e, l, o, a) = pop_back-length size c bs h.1 in
    ((p.0, b ∷ p.1), rw e refl, omega (arith, l), o, (h.0, a))

pub refill-IsFresh :
    (size : ℕ) (o : Option FixedBuffer) (bs : List FixedBuffer)
    → IsSpare size o
    → missing o ≤ length bs
    → All (IsOurs size) bs
    → (p : Option FixedBuffer × List FixedBuffer) × (refill o bs ≡ some p)
      × IsSpare size p.0
      × (missing p.0 ≡ 0)
      × (length p.1 + missing o ≡ length bs)
      × All (IsOurs size) p.1
unfolding refill
refill-IsFresh size (some b) bs s h a = ((some b, bs), refl, s, refl, omega arith, a)
refill-IsFresh size none [] s h a = absurd (omega arith)
refill-IsFresh size none (b ∷ bs) s h a =
    let (p, e, l, o, a') = pop_back-length size b bs a in
    ((some (reset p.0), p.1), rw e refl, reset-IsFresh size p.0 o, refl, omega (arith, l), a')

pub take2-All :
    (size : ℕ) (bs : List FixedBuffer) → All (IsOurs size) bs → All (IsOurs size) (take 2 bs)
take2-All size [] a = tt
take2-All size (b ∷ []) a = (a.0, tt)
take2-All size (b ∷ c ∷ bs) a = (a.0, (a.1.0, tt))

pub resize2-All :
    (size : ℕ) (bs : List FixedBuffer) → All (IsOurs size) bs → All (IsOurs size) (resize2 bs)
unfolding resize2
resize2-All size bs a = elim (Bool-cases (ltb 2 (length bs))) [
  | inl e ↦ rw e (take2-All size bs a)
  | inr e ↦ rw e a
]

pub length-take2 : (bs : List FixedBuffer) → 2 ≤ length bs → length (take 2 bs) ≡ 2
length-take2 [] h = absurd (omega arith)
length-take2 (b ∷ []) h = absurd (omega arith)
length-take2 (b ∷ c ∷ bs) h = refl

pub assert_empty-IsFresh :
    (size : ℕ) (o : Option FixedBuffer)
    → IsSpare size o
    → missing o ≡ 0
    → (b : FixedBuffer) × (assert_empty o ≡ some b) × IsFresh size b
unfolding assert_empty length_of
assert_empty-IsFresh size none s m = absurd (omega arith)
assert_empty-IsFresh size (some b) s m =
    let e : (b.cur == 0) ≡ true = ground (arith, s.empty) in (b, rw e refl, s)

pub refill_next-IsFresh :
    (size : ℕ) (o : Option FixedBuffer) (b : FixedBuffer)
    → IsSpare size o
    → IsFresh size b
    → IsSpare size (refill_next o b).0
      × IsSpare size (refill_next o b).1
      × (missing (refill_next o b).0 ≡ 0)
      × (missing (refill_next o b).1 ≡ missing o)
unfolding refill_next
refill_next-IsFresh size none b s f = (f, tt, refl, refl)
refill_next-IsFresh size (some n) b s f = (s, f, refl, refl)
