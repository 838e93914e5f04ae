-- ===== src/Regex/Laws.antt =====
-- What a greedy repetition of one class of characters matches, the text of a group, and where a
-- search goes on.
use adv_database_implementat.Base.{
  ℕ, zero, suc, ◌+◌, ◌-◌, ◌≤◌, Bool, true, false, not, none, some, List, [], ◌∷◌, ◌++◌, reverse,
  reverse_aux, reverse-reverse, Text, length, take, ltb, if◌then◌else◌, All, all, Bool-cases, inl,
  inr, arith, ◌≡◌, refl, ap, ap₂, sym, ◌∙◌, length-reverse, length-reverse_aux, take-append, ◌==◌,
  subst, append-nil,
}
use mathlib.Core.List.{reverse_aux-eq}
use adv_database_implementat.Regex.{
  set, star, group, seq, eol, any_char, Cursor, Kont, run, repeat, or_else, span, search_from,
  sub_from, Matched, Re, at_end,
}

abbrev pub AllIn : (ℕ → Bool) → Text → Type 0
AllIn p = All (λ c. p c ≡ true)

-- A class, checked by evaluation.
pub AllIn-all : (p : ℕ → Bool) (s : Text) → all p s ≡ true → AllIn p s
AllIn-all p [] e = tt
AllIn-all p (c ∷ s) e = elim (Bool-cases (p c)) [
  | inl holds ↦ (holds, AllIn-all p s (rw holds at e))
  | inr fails ↦ absurd (cc (rw fails at e))
]

abbrev pub no_newline : ℕ → Bool
no_newline c = not (c == b'\n')

-- The text that follows is empty, or begins with a character outside the class.
abbrev pub Stops : (ℕ → Bool) → Text → Type 0
Stops p [] = Unit
Stops p (c ∷ s) = p c ≡ false

abbrev pub at : Text → Text → List (ℕ × Text) → Cursor
at b s g = record { before = b; rest = s; groups = g }

pub ltb-suc : (n : ℕ) → ltb n (suc n) ≡ true
ltb-suc n = ground arith

repeat-greedy :
    (p : ℕ → Bool) (fuel : ℕ) (pre b tail : Text) (g : List (ℕ × Text)) (k : Kont) {r : Cursor}
    → length pre ≤ fuel
    → AllIn p pre
    → Stops p tail
    → k (at (reverse_aux pre b) tail g) ≡ some r
    → repeat fuel (λ d k'. run (set p) d k') (at b (pre ++ tail) g) k ≡ some r
unfolding repeat run or_else
repeat-greedy p zero [] b tail g k le h st e = e
repeat-greedy p (suc f) [] b [] g k le h st e = e
repeat-greedy p (suc f) [] b (c ∷ tail) g k le h st e = rw st e
repeat-greedy p zero (c ∷ pre) b tail g k le h st e = absurd (omega arith)
repeat-greedy p (suc f) (c ∷ pre) b tail g k le h st e = rw (
  h.0,
  ltb-suc (length (pre ++ tail)),
  repeat-greedy p f pre (c ∷ b) tail g k (omega arith) h.1 st e,
)

-- r* for a class takes the longest prefix, if the rest of the pattern matches behind it.
pub run-star :
    (p : ℕ → Bool) (pre b tail : Text) (g : List (ℕ × Text)) (k : Kont) {r : Cursor}
    → AllIn p pre
    → Stops p tail
    → k (at (reverse_aux pre b) tail g) ≡ some r
    → run (star (set p)) (at b (pre ++ tail) g) k ≡ some r
unfolding run
run-star p pre b tail g k h st e =
    repeat-greedy p (length (pre ++ tail)) pre b tail g k (length-le pre tail) h st e
  where
    length-le : (xs ys : Text) → length xs ≤ length (xs ++ ys)
    length-le [] ys = omega arith
    length-le (x ∷ xs) ys = omega (arith, length-le xs ys)

-- A repetition fails if the rest of the pattern fails wherever it may end.
repeat-fails :
    (p : ℕ → Bool) (fuel : ℕ) (s b : Text) (g : List (ℕ × Text)) (k : Kont)
    → AllIn p s
    → ((b' t : Text) → AllIn p t → k (at b' t g) ≡ none)
    → repeat fuel (λ d k'. run (set p) d k') (at b s g) k ≡ none
unfolding repeat run or_else
repeat-fails p zero s b g k h fails = fails b s h
repeat-fails p (suc f) [] b g k h fails = fails b [] tt
repeat-fails p (suc f) (c ∷ s) b g k h fails =
    rw (h.0, ltb-suc (length s), repeat-fails p f s (c ∷ b) g k h.1 fails) (fails b (c ∷ s) h)

pub run-star_fails :
    (p : ℕ → Bool) (s b : Text) (g : List (ℕ × Text)) (k : Kont)
    → AllIn p s
    → ((b' t : Text) → AllIn p t → k (at b' t g) ≡ none)
    → run (star (set p)) (at b s g) k ≡ none
unfolding run
run-star_fails p s b g k h fails = repeat-fails p (length s) s b g k h fails

-- The same, with a text behind the characters of the class.
repeat-fails_before :
    (p : ℕ → Bool) (fuel : ℕ) (pre b tail : Text) (g : List (ℕ × Text)) (k : Kont)
    → AllIn p pre
    → Stops p tail
    → ((b' t : Text) → AllIn p t → k (at b' (t ++ tail) g) ≡ none)
    → repeat fuel (λ d k'. run (set p) d k') (at b (pre ++ tail) g) k ≡ none
unfolding repeat run or_else
repeat-fails_before p zero pre b tail g k h st fails = fails b pre h
repeat-fails_before p (suc f) [] b [] g k h st fails = fails b [] tt
repeat-fails_before p (suc f) [] b (c ∷ tail) g k h st fails = rw st (fails b [] tt)
repeat-fails_before p (suc f) (c ∷ pre) b tail g k h st fails =
    rw
      (
        h.0,
        ltb-suc (length (pre ++ tail)),
        repeat-fails_before p f pre (c ∷ b) tail g k h.1 st fails,
      )
      (fails b (c ∷ pre) h)

pub run-star_fails_before :
    (p : ℕ → Bool) (pre b tail : Text) (g : List (ℕ × Text)) (k : Kont)
    → AllIn p pre
    → Stops p tail
    → ((b' t : Text) → AllIn p t → k (at b' (t ++ tail) g) ≡ none)
    → run (star (set p)) (at b (pre ++ tail) g) k ≡ none
unfolding run
run-star_fails_before p pre b tail g k h st fails =
    repeat-fails_before p (length (pre ++ tail)) pre b tail g k h st fails

-- The text between a place and the one behind `s`.
pub span-reverse_aux :
    (s b t u : Text) (g g' : List (ℕ × Text)) → span (at b t g) (at (reverse_aux s b) u g') ≡ s
unfolding span
span-reverse_aux s b t u g g' =
    ap reverse (
      ap₂ take
        (ap (λ n. n - length b) (length-reverse_aux s b)
          ∙ minus (length s) (length b)
          ∙ sym (length-reverse s))
        (reverse_aux-eq s b)
      ∙ take-append (reverse s) b)
    ∙ reverse-reverse s
  where
    minus : (n m : ℕ) → n + m - m ≡ n
    minus n m = omega arith

-- (.*)$ takes all that is left of a line.
pub run-rest_of_line :
    (n : ℕ) (s b : Text) (g : List (ℕ × Text))
    → AllIn (λ x. not (x == b'\n')) s
    → run (seq (group n (star any_char)) eol) (at b s g) some
      ≡ some (at (reverse_aux s b) [] ((n, s) ∷ g))
unfolding run
run-rest_of_line n s b g h =
    let any : ℕ → Bool = λ x. not (x == b'\n') in
    let k : Kont = λ d.
      if at_end d.rest
      then some (record d { groups = (n, span (at b s g) d) ∷ d.groups })
      else none in
    subst (λ t. run (star (set any)) (at b t g) k ≡ some (at (reverse_aux s b) [] ((n, s) ∷ g)))
      (append-nil s)
      (run-star any s b [] g k h tt
        (ap (λ t. some (at (reverse_aux s b) [] ((n, t) ∷ g))) (span-reverse_aux s b s [] g g)))

-- A search goes on where the pattern does not match.
pub search_from-skip :
    (r : Re) (c : ℕ) (s b : Text)
    → run r (at b (c ∷ s) []) some ≡ none
    → search_from r b (c ∷ s) ≡ search_from r (c ∷ b) s
unfolding search_from
search_from-skip r c s b e = rw (e, search_from) refl

pub search_from-end :
    (r : Re) (b : Text) → run r (at b [] []) some ≡ none → search_from r b [] ≡ none
unfolding search_from
search_from-end r b e = rw e refl

-- Nothing is replaced where nothing is found.
pub sub_from-none :
    (fuel : ℕ) (r : Re) (f : Matched → Text) (b s : Text)
    → search_from r b s ≡ none
    → sub_from fuel r f b s ≡ s
unfolding sub_from
sub_from-none zero r f b s e = refl
sub_from-none (suc fuel) r f b s e = rw (e, sub_from) refl
