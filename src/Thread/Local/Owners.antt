-- ===== src/Thread/Local/Owners.antt =====
-- Each thread has an object of its own in base/ThreadLocalSingleton.h, and none is deleted twice.
use naive_net.Common.{
  ◌+◌, length, length-append, ℕ, zero, suc, ◌<◌, ◌≡◌, ◌≢◌, refl, sym, ap, ◌∙◌, ◌⊎◌, inl, inr, List,
  [], ◌∷◌, ◌++◌, Option, none, some, none-some, some-injective, set, get_or, All, arith,
}
use naive_net.Thread.Local.{ThreadLocalSingleton}

-- The object of thread `i`.
abbrev pub Has : List (Option ℕ) → ℕ → ℕ → Type 0
Has vs i obj = get_or vs i none ≡ some obj

-- No object is in the list twice.
abbrev pub Once : List ℕ → Type 0
Once [] = Unit
Once (d ∷ ds) = All (λ e. e ≢ d) ds × Once ds

-- How many threads have an object.
abbrev pub holders : List (Option ℕ) → ℕ
holders [] = 0
holders (none ∷ vs) = holders vs
holders (some obj ∷ vs) = suc (holders vs)

-- Both places of a thread hold the same object; different threads have different objects; an object that
-- a thread has is not deleted, and none is deleted twice; the objects made are those deleted and those
-- that threads have.
pub record IsLocal (s : ThreadLocalSingleton) : Type 0 where
  pub same : s.specific ≡ s.t_value
  pub apart : (i j obj : ℕ) → Has s.t_value i obj → Has s.t_value j obj → i ≡ j
  pub older : (i obj : ℕ) → Has s.t_value i obj → obj < s.made
  pub there : (i obj : ℕ) → Has s.t_value i obj → All (λ d. d ≢ obj) s.deleted
  pub were_made : All (λ d. d < s.made) s.deleted
  pub once : Once s.deleted
  pub counted : length s.deleted + holders s.t_value ≡ s.made

-- What a thread has after thread `i` has got or lost an object.
pub set-cases :
    (vs : List (Option ℕ)) (i j obj : ℕ) (v : Option ℕ)
    → Has (set vs i v) j obj
    → ((j ≡ i) × (v ≡ some obj)) ⊎ ((j ≢ i) × Has vs j obj)
set-cases [] i j obj v h = absurd (none-some h)
set-cases (w ∷ vs) zero zero obj v h = inl (refl, h)
set-cases (w ∷ vs) zero (suc j) obj v h = inr (λ e. omega (arith, e), h)
set-cases (w ∷ vs) (suc i) zero obj v h = inr (λ e. omega (arith, e), h)
set-cases (w ∷ vs) (suc i) (suc j) obj v h = elim (set-cases vs i j obj v h) [
  | inl (e, r) ↦ inl (ap suc e, r)
  | inr (n, r) ↦ inr (λ e. n (omega (arith, e)), r)
]

All-weaker : {P Q : ℕ → Type 0} → ((d : ℕ) → P d → Q d) → (ds : List ℕ) → All P ds → All Q ds
All-weaker f [] h = tt
All-weaker f (d ∷ ds) (h, t) = (f d h, All-weaker f ds t)

All-snoc : (P : ℕ → Type 0) (ds : List ℕ) (d : ℕ) → All P ds → P d → All P (ds ++ d ∷ [])
All-snoc P [] d h p = (p, tt)
All-snoc P (e ∷ ds) d (h, t) p = (h, All-snoc P ds d t p)

Once-snoc : (ds : List ℕ) (d : ℕ) → Once ds → All (λ e. e ≢ d) ds → Once (ds ++ d ∷ [])
Once-snoc [] d o h = (tt, tt)
Once-snoc (e ∷ ds) d (a, o) (n, t) =
    (All-snoc (λ x. x ≢ e) ds d a (λ z. n (sym z)), Once-snoc ds d o t)

holders-get :
    (vs : List (Option ℕ)) (i : ℕ)
    → i < length vs
    → get_or vs i none ≡ none
    → (obj : ℕ) → holders (set vs i (some obj)) ≡ suc (holders vs)
holders-get [] i h e obj = absurd (omega arith)
holders-get (none ∷ vs) zero h e obj = refl
holders-get (some o ∷ vs) zero h e obj = absurd (none-some (sym e))
holders-get (none ∷ vs) (suc i) h e obj = holders-get vs i (omega arith) e obj
holders-get (some o ∷ vs) (suc i) h e obj = ap suc (holders-get vs i (omega arith) e obj)

holders-lose :
    (vs : List (Option ℕ)) (i obj : ℕ) → Has vs i obj → suc (holders (set vs i none)) ≡ holders vs
holders-lose [] i obj e = absurd (none-some e)
holders-lose (none ∷ vs) zero obj e = absurd (none-some e)
holders-lose (some o ∷ vs) zero obj e = refl
holders-lose (none ∷ vs) (suc i) obj e = holders-lose vs i obj e
holders-lose (some o ∷ vs) (suc i) obj e = ap suc (holders-lose vs i obj e)

-- The state after thread `i` has made an object, and after its object has been deleted.
unfoldable pub made_in : ℕ → ThreadLocalSingleton → ThreadLocalSingleton
made_in i s = record s {
  t_value = set s.t_value i (some s.made);
  specific = set s.specific i (some s.made);
  made = suc s.made;
}

unfoldable pub deleted_in : ℕ → ℕ → ThreadLocalSingleton → ThreadLocalSingleton
deleted_in i obj s = record s {
  t_value = set s.t_value i none;
  specific = set s.specific i none;
  deleted = s.deleted ++ obj ∷ [];
}

pub made_in-IsLocal :
    (i : ℕ) (s : ThreadLocalSingleton)
    → i < length s.t_value
    → get_or s.t_value i none ≡ none
    → IsLocal s
    → IsLocal (made_in i s)
unfolding made_in
made_in-IsLocal i s p free v = record {
  same = ap (λ l. set l i (some s.made)) v.same;
  apart = λ j k obj h h'. elim (set-cases s.t_value i j obj (some s.made) h) [
    | inl (e, r) ↦ elim (set-cases s.t_value i k obj (some s.made) h') [
      | inl (e', r') ↦ e ∙ sym e'
      | inr (n, r') ↦ absurd (omega (arith, v.older k obj r', some-injective r))
    ]
    | inr (n, r) ↦ elim (set-cases s.t_value i k obj (some s.made) h') [
      | inl (e', r') ↦ absurd (omega (arith, v.older j obj r, some-injective r'))
      | inr (n', r') ↦ v.apart j k obj r r'
    ]
  ];
  older = λ j obj h. elim (set-cases s.t_value i j obj (some s.made) h) [
    | inl (e, r) ↦ omega (arith, some-injective r)
    | inr (n, r) ↦ omega (arith, v.older j obj r)
  ];
  there = λ j obj h. elim (set-cases s.t_value i j obj (some s.made) h) [
    | inl (e, r) ↦ All-weaker (λ d l z. omega (arith, l, z, some-injective r)) s.deleted v.were_made
    | inr (n, r) ↦ v.there j obj r
  ];
  were_made = All-weaker (λ d l. omega (arith, l)) s.deleted v.were_made;
  once = v.once;
  counted = omega (arith, holders-get s.t_value i p free s.made, v.counted);
}

pub deleted_in-IsLocal :
    (i obj : ℕ) (s : ThreadLocalSingleton)
    → Has s.t_value i obj
    → IsLocal s
    → IsLocal (deleted_in i obj s)
unfolding deleted_in
deleted_in-IsLocal i obj s has v = record {
  same = ap (λ l. set l i none) v.same;
  apart = λ j k o h h'. elim (set-cases s.t_value i j o none h) [
    | inl (e, r) ↦ absurd (none-some r)
    | inr (n, r) ↦ elim (set-cases s.t_value i k o none h') [
      | inl (e', r') ↦ absurd (none-some r')
      | inr (n', r') ↦ v.apart j k o r r'
    ]
  ];
  older = λ j o h. elim (set-cases s.t_value i j o none h) [
    | inl (e, r) ↦ absurd (none-some r)
    | inr (n, r) ↦ v.older j o r
  ];
  there = λ j o h. elim (set-cases s.t_value i j o none h) [
    | inl (e, r) ↦ absurd (none-some r)
    | inr (n, r) ↦
        All-snoc (λ d. d ≢ o) s.deleted obj (v.there j o r)
          (λ z. n (v.apart j i o r (has ∙ ap some z)))
  ];
  were_made = All-snoc (λ d. d < s.made) s.deleted obj v.were_made (v.older i obj has);
  once = Once-snoc s.deleted obj v.once (v.there i obj has);
  counted =
      omega
        (arith, holders-lose s.t_value i obj has, length-append s.deleted (obj ∷ []), v.counted);
}
