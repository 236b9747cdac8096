-- ===== src/Exception/Lines.antt =====
-- The stack trace of base/Exception.cc has a line for each frame.
use naive_net.Common.{
  ℕ, ◌≡◌, refl, sym, ap, ◌∙◌, List, [], ◌∷◌, ◌++◌, append_assoc, append-nil, Option, none, some,
  false, ◌==◌, if◌then◌else◌, All,
}
use naive_net.Exception.{
  Exception, append_frames, make_exception, fill_stack_trace, what, stack_trace,
}

-- A byte before the lines of a text.
unfoldable pub onto_first : ℕ → List (List ℕ) → List (List ℕ)
onto_first c [] = (c ∷ []) ∷ []
onto_first c (l ∷ ls) = (c ∷ l) ∷ ls

-- The lines of a text, each with its end cut off; what stands behind the last end is one as well, if
-- there is anything.
unfoldable pub lines : List ℕ → List (List ℕ)
unfolding onto_first
lines [] = []
lines (c ∷ cs) = let rest = lines cs in if c == 10 then [] ∷ rest else onto_first c rest

-- The text has no line end.
abbrev pub IsLine : List ℕ → Type 0
IsLine = All (λ c. (c == 10) ≡ false)

lines-line : (l rest : List ℕ) → IsLine l → lines (l ++ 10 ∷ rest) ≡ l ∷ lines rest
unfolding lines onto_first
lines-line [] rest h = refl
lines-line (c ∷ cs) rest (h, t) = rw (h, lines-line cs rest t) refl

-- The text that the loop adds.
trace : List (List ℕ) → List ℕ
trace [] = []
trace (f ∷ fs) = f ++ 10 ∷ trace fs

append_frames-trace :
    (stack : List ℕ) (frames : List (List ℕ)) → append_frames stack frames ≡ stack ++ trace frames
unfolding append_frames trace
append_frames-trace stack [] = sym (append-nil stack)
append_frames-trace stack (f ∷ fs) =
    append_frames-trace ((stack ++ f) ++ 10 ∷ []) fs
    ∙ append_assoc (stack ++ f) (10 ∷ []) (trace fs)
    ∙ append_assoc stack f (10 ∷ trace fs)

lines-trace : (frames : List (List ℕ)) → All IsLine frames → lines (trace frames) ≡ frames
unfolding trace lines
lines-trace [] h = refl
lines-trace (f ∷ fs) (h, t) = lines-line f (trace fs) h ∙ ap (◌∷◌ f) (lines-trace fs t)

-- An exception has the message that it was made with, and its stack trace has the texts of the frames
-- as its lines, where those have no line end.
pub lines-stack_trace :
    {A : Type 0} (backtrace : ℕ → List A) (backtrace_symbols : List A → Option (List (List ℕ)))
    (msg : List ℕ) (frames : List (List ℕ))
    → backtrace_symbols (backtrace 200) ≡ some frames
    → All IsLine frames
    → (what (make_exception backtrace backtrace_symbols msg) ≡ msg)
      × (lines (stack_trace (make_exception backtrace backtrace_symbols msg)) ≡ frames)
unfolding what make_exception fill_stack_trace stack_trace
lines-stack_trace backtrace backtrace_symbols msg frames e h =
    let fill = λ (o : Option (List (List ℕ))). elim o as (λ x. Exception) [
      | none ↦ record { message = msg; stack = [] }
      | some strings ↦ record { message = msg; stack = append_frames [] strings }
    ] in
    let made : make_exception backtrace backtrace_symbols msg ≡ fill (some frames) = ap fill e in
    (
      ap what made,
      ap (λ x. lines (stack_trace x)) made
          ∙ ap lines (append_frames-trace [] frames)
          ∙ lines-trace frames h,
    )
