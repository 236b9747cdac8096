-- ===== src/Thread/Local/Ends.antt =====
-- What the uses of base/ThreadLocalSingleton.h and the ends of threads come to.
use native.Mathlib.Decide.{dec_lt}
use naive_net.Common.{
  ◌≤◌, subst, length, length-set, ℕ, zero, suc, ◌<◌, ◌≡◌, refl, sym, ap, ◌∙◌, ◌⊎◌, inl, inr, List,
  [], ◌∷◌, Option, none, some, none-some, Option-cases, ◌>>=◌, ◌==◌, set, get_or, replicate, All,
  arith, true,
}
use naive_net.Thread.Local.{
  ThreadLocalSingleton, new_local, set_deleter, instance_of, end_of, Use, use_local, use_all,
}
use naive_net.Thread.Local.Owners.{
  Has, holders, IsLocal, set-cases, made_in, deleted_in, made_in-IsLocal, deleted_in-IsLocal,
}

abbrev pub thread_of : Use → ℕ
thread_of (Use.instance_in i) = i
thread_of (Use.end_in i) = i

-- The end of a thread fails no assertion, and leaves it with no object.
end_in-IsLocal :
    (s : ThreadLocalSingleton) (i : ℕ)
    → IsLocal s
    → (t : ThreadLocalSingleton) × (use_local s (Use.end_in i) ≡ some t)
      × IsLocal t
      × (length t.t_value ≡ length s.t_value)
      × ((j : ℕ) → (j ≡ i) ⊎ (get_or s.t_value j none ≡ none) → get_or t.t_value j none ≡ none)
unfolding use_local end_of deleted_in
end_in-IsLocal s i v = elim (Option-cases (get_or s.t_value i none)) [
  | inl e ↦
      let e' = ap (λ l. get_or l i none) v.same ∙ e in
      (
        s,
        rw e' refl,
        v,
        refl,
        λ j c. elim c [ inl k ↦ ap (λ x. get_or s.t_value x none) k ∙ e | inr k ↦ k ],
      )
  | inr (obj, e) ↦
      let e' = ap (λ l. get_or l i none) v.same ∙ e in
      let k : (obj == obj) ≡ true = ground arith in
      (
        deleted_in i obj s,
        rw (e, e', k) refl,
        deleted_in-IsLocal i obj s e v,
        length-set s.t_value i none,
        λ j c. elim (Option-cases (get_or (set s.t_value i none) j none)) [
          | inl f ↦ f
          | inr (o, f) ↦ elim (set-cases s.t_value i j o none f) [
            | inl (a, r) ↦ absurd (none-some r)
            | inr (a, r) ↦ elim c [ inl m ↦ absurd (a m) | inr m ↦ absurd (none-some (sym m ∙ r)) ]
          ]
        ],
      )
]

-- No assertion fails in a use, and after its end a thread has no object.
use_local-IsLocal :
    (s : ThreadLocalSingleton) (u : Use)
    → thread_of u < length s.t_value
    → IsLocal s
    → (t : ThreadLocalSingleton) × (use_local s u ≡ some t)
      × IsLocal t
      × (length t.t_value ≡ length s.t_value)
unfolding use_local instance_of end_of set_deleter made_in deleted_in
use_local-IsLocal s (Use.instance_in i) p v = elim (Option-cases (get_or s.t_value i none)) [
  | inl e ↦
      let e' = ap (λ l. get_or l i none) v.same ∙ e in
      (made_in i s, rw (e, e') refl, made_in-IsLocal i s p e v, length-set s.t_value i _)
  | inr (obj, e) ↦ (s, rw e refl, v, refl)
]
use_local-IsLocal s (Use.end_in i) p v = let (t, e, w, n, f) = end_in-IsLocal s i v in (t, e, w, n)

run_all :
    (s : ThreadLocalSingleton) (us : List Use)
    → All (λ u. thread_of u < length s.t_value) us
    → IsLocal s
    → (t : ThreadLocalSingleton) × (use_all s us ≡ some t)
      × IsLocal t
      × (length t.t_value ≡ length s.t_value)
unfolding use_all
run_all s [] p v = (s, refl, v, refl)
run_all s (u ∷ us) p v =
    let (a, e, w, n) = use_local-IsLocal s u p.0 v in
    let (b, e', w', n') = run_all a us (subst (λ k. All (λ x. thread_of x < k) us) (sym n) p.1) w in
    (b, ap (λ o. o >>= λ t. use_all t us) e ∙ e', w', n' ∙ n)

-- The ends of the threads below `n`.
abbrev pub ends : ℕ → List Use
ends zero = []
ends (suc n) = Use.end_in n ∷ ends n

all_end :
    (n : ℕ) (s : ThreadLocalSingleton)
    → IsLocal s
    → ((j : ℕ) → n ≤ j → get_or s.t_value j none ≡ none)
    → (t : ThreadLocalSingleton) × (use_all s (ends n) ≡ some t)
      × IsLocal t
      × ((j : ℕ) → get_or t.t_value j none ≡ none)
unfolding use_all use_local
all_end zero s v h = (s, refl, v, λ j. h j (omega arith))
all_end (suc n) s v h =
    let (a, e, w, k, f) = end_in-IsLocal s n v in
    let (t, e', w', h') = all_end n a w (λ j l. elim (dec_lt n j) [
      | yes m ↦ f j (inr (h j (omega (arith, m))))
      | no m ↦ let z : j ≡ n = omega (arith, l, m) in f j (inl z)
    ]) in
    (t, ap (λ o. o >>= λ x. use_all x (ends n)) e ∙ e', w', h')

no_holders : (vs : List (Option ℕ)) → ((j : ℕ) → get_or vs j none ≡ none) → holders vs ≡ 0
no_holders [] h = refl
no_holders (none ∷ vs) h = no_holders vs (λ j. h (suc j))
no_holders (some obj ∷ vs) h = absurd (none-some (sym (h 0)))

outside : (vs : List (Option ℕ)) (j : ℕ) → length vs ≤ j → get_or vs j none ≡ none
outside [] j h = refl
outside (v ∷ vs) zero h = absurd (omega arith)
outside (v ∷ vs) (suc j) h = outside vs j (omega arith)

nothing : (n j obj : ℕ) → ¬ Has (replicate n none) j obj
nothing zero j obj h = none-some h
nothing (suc n) zero obj h = none-some h
nothing (suc n) (suc j) obj h = nothing n j obj h

new-counted :
    (n : ℕ) → (length {A = Option ℕ} (replicate n none) ≡ n) × (holders (replicate n none) ≡ 0)
new-counted zero = (refl, refl)
new-counted (suc n) = let (l, h) = new-counted n in (ap suc l, h)

-- In every schedule of `instance` and of the ends of `n` threads no assertion fails; different threads have
-- different objects, no object is deleted twice or while its thread has it, and the objects made are as
-- many as those deleted and those that threads have. When all threads end behind it, as many are deleted
-- as were made, so that each is deleted once.
pub use_all-IsLocal :
    (n : ℕ) (us : List Use)
    → All (λ u. thread_of u < n) us
    → (t : ThreadLocalSingleton) × (use_all (new_local n) us ≡ some t)
      × IsLocal t
      × (u : ThreadLocalSingleton) × (use_all t (ends n) ≡ some u)
      × IsLocal u
      × (length u.deleted ≡ u.made)
unfolding new_local
use_all-IsLocal n us p =
    let (l, z) = new-counted n in
    let (t, e, v, k) =
      run_all (new_local n) us (subst (λ m. All (λ u. thread_of u < m) us) (sym l) p) (record {
        same = refl;
        apart = λ i j obj h. absurd (nothing n i obj h);
        older = λ i obj h. absurd (nothing n i obj h);
        there = λ i obj h. absurd (nothing n i obj h);
        were_made = tt;
        once = tt;
        counted = omega (arith, z);
      }) in
    let (u, e', w, h) = all_end n t v (λ j m. outside t.t_value j (omega (arith, k, l, m))) in
    (t, e, v, u, e', w, omega (arith, w.counted, no_holders u.t_value h))
