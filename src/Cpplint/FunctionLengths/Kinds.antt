-- ===== src/Cpplint/FunctionLengths/Kinds.antt =====
-- The kinds of the lines in a function's body, for CheckForFunctionLengths.
use adv_database_implementat.Base.{
  ℕ, Bool, true, false, ◌&&◌, some, none, [], ◌∷◌, ◌++◌, Text, codes, ◌==◌, if◌then◌else◌, is_some,
  is_space, all, arith, ◌≡◌, refl, ap, ◌∙◌, sym, subst,
}
use adv_database_implementat.Regex.{
  is_word, space, star, match_at_start, run, start, Kont, at_end, to_match, repeat,
}
use adv_database_implementat.Regex.Laws.{AllIn, Stops, at, run-star, run-star_fails_before}
use adv_database_implementat.Regex.Classes.{cut}
use adv_database_implementat.Regex.Substring.{is_some-map}
use adv_database_implementat.Cpplint.FunctionLengths.{
  starting_func, starts_with_name, declaration, function_end, blank_line, kind_of, skipped, counted,
  ends,
}

all-cut :
    (p : ℕ → Bool) (pre : Text) (c : ℕ) (tail : Text)
    → p c ≡ false
    → all p (pre ++ c ∷ tail) ≡ false
all-cut p [] c tail h = rw h refl
all-cut p (x ∷ pre) c tail h = rw (all-cut p pre c tail h) (and_false (p x))
  where
    and_false : (b : Bool) → (b && false) ≡ false
    and_false true = refl
    and_false false = refl

all-in : (p : ℕ → Bool) (pre : Text) → AllIn p pre → all p (pre ++ []) ≡ true
all-in p [] h = refl
all-in p (x ∷ pre) h = rw (h.0, all-in p pre h.1) refl

abbrev at_end_only : Kont
at_end_only d = if at_end d.rest then some d else none

not_at_end : (t : Text) (c : ℕ) (tail : Text) → is_space c ≡ false → at_end (t ++ c ∷ tail) ≡ false
unfolding is_space
not_at_end [] c [] h = ground arith
not_at_end [] c (d ∷ tail) h = refl
not_at_end (x ∷ []) c tail h = refl
not_at_end (x ∷ y ∷ t) c tail h = refl

run-blank :
    (pre tail : Text)
    → AllIn is_space pre
    → Stops is_space tail
    → is_some (run (star space) (at [] (pre ++ tail) []) at_end_only) ≡ all is_space (pre ++ tail)
run-blank pre [] inside stop =
    ap is_some (run-star is_space pre [] [] [] at_end_only inside tt refl)
    ∙ sym (all-in is_space pre inside)
run-blank pre (c ∷ tail) inside stop =
    ap is_some (
      run-star_fails_before is_space pre [] (c ∷ tail) [] at_end_only inside stop
        (λ b' t inside_t. rw (not_at_end t c tail stop) refl))
    ∙ sym (all-cut is_space pre c tail stop)

-- ^\s*$ matches the lines of white space.
match-blank : (line : Text) → is_some (match_at_start blank_line line) ≡ all is_space line
unfolding match_at_start blank_line run
match-blank line =
    let (pre, tail, e, inside, stop) = cut is_space line in
    is_some-map (to_match (start line)) (run blank_line (start line) some)
    ∙ subst (λ t. is_some (run (star space) (at [] t []) at_end_only) ≡ all is_space t) (sym e)
        (run-blank pre tail inside stop)

abbrev pub is_indented : Text → Bool
is_indented [] = true
is_indented (c ∷ s) = is_space c

space-not_word : (c : ℕ) → is_space c ≡ true → is_word c ≡ false
unfolding is_space is_word
space-not_word c h = ground arith

space-not_brace : (c : ℕ) → is_space c ≡ true → c == b'}' ≡ false
unfolding is_space
space-not_brace c h = ground arith

starting_func-indented : (line : Text) → is_indented line ≡ true → starting_func line ≡ false
unfolding starting_func starts_with_name match_at_start declaration run
starting_func-indented [] h = refl
starting_func-indented (c ∷ s) h = rw (space-not_word c h) refl

function_end-indented :
    (line : Text) → is_indented line ≡ true → is_some (match_at_start function_end line) ≡ false
unfolding match_at_start function_end run
function_end-indented [] h = refl
function_end-indented (c ∷ s) h = rw (space-not_brace c h) refl

pub kind_of-indented :
    (line : Text)
    → is_indented line ≡ true
    → kind_of line ≡ (if all is_space line then skipped else counted)
unfolding kind_of
kind_of-indented line h =
    rw (starting_func-indented line h, function_end-indented line h, match-blank line) refl

pub kind_of-brace : kind_of (codes "}") ≡ ends
unfolding kind_of starting_func starts_with_name match_at_start declaration run is_word function_end
    repeat
kind_of-brace = refl
