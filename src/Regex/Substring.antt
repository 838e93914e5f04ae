-- ===== src/Regex/Substring.antt =====
-- A pattern that begins with `.*`, and a text that it looks for.
use adv_database_implementat.Base.{
  ℕ, zero, suc, ◌≤◌, Bool, true, false, ◌||◌, Option, none, some, List, [], ◌∷◌, Text, length, ◌==◌,
  is_some, find, starts_with, arith, ◌≡◌, refl, ap₂, ◌∙◌, sym, Bool-cases, inl, inr,
}
use mathlib.Core.Option
use adv_database_implementat.Regex.{
  set, star, seq, any_char, chars, Cursor, Kont, run, repeat, or_else, match_at_start, to_match,
  start,
}
use adv_database_implementat.Regex.Laws.{AllIn, no_newline, at, ltb-suc}

-- Whether some end of a text, the text and the empty one with them, passes a test.
unfoldable pub some_end : (Text → Bool) → Text → Bool
some_end test [] = test []
some_end test (c ∷ s) = some_end test s || test (c ∷ s)

or_true : (b : Bool) → (b || true) ≡ true
or_true true = refl
or_true false = refl

or_false : (b : Bool) → (b || false) ≡ b
or_false true = refl
or_false false = refl

is_some-or_else : (o o' : Option Cursor) → is_some (or_else o o') ≡ (is_some o || is_some o')
unfolding or_else
is_some-or_else none o' = refl
is_some-or_else (some d) o' = refl

repeat-some_end :
    (p : ℕ → Bool) (fuel : ℕ) (s b : Text) (g : List (ℕ × Text)) (k : Kont) (test : Text → Bool)
    → length s ≤ fuel
    → AllIn p s
    → ((b' t : Text) → is_some (k (at b' t g)) ≡ test t)
    → is_some (repeat fuel (λ d k'. run (set p) d k') (at b s g) k) ≡ some_end test s
unfolding repeat run some_end
repeat-some_end p zero [] b g k test le h fits = fits b []
repeat-some_end p (suc f) [] b g k test le h fits = is_some-or_else none (k (at b [] g)) ∙ fits b []
repeat-some_end p zero (c ∷ s) b g k test le h fits = absurd (omega arith)
repeat-some_end p (suc f) (c ∷ s) b g k test le h fits =
    rw (h.0, ltb-suc (length s))
      (is_some-or_else (repeat f (λ d k'. run (set p) d k') (at (c ∷ b) s g) k) (k (at b (c ∷ s) g))
        ∙ ap₂ (λ x y. x || y) (repeat-some_end p f s (c ∷ b) g k test (omega arith) h.1 fits)
            (fits b (c ∷ s)))

pub run-some_end :
    (p : ℕ → Bool) (s b : Text) (g : List (ℕ × Text)) (k : Kont) (test : Text → Bool)
    → AllIn p s
    → ((b' t : Text) → is_some (k (at b' t g)) ≡ test t)
    → is_some (run (star (set p)) (at b s g) k) ≡ some_end test s
unfolding run
run-some_end p s b g k test h fits = repeat-some_end p (length s) s b g k test (omega arith) h fits

-- A repetition may always end where it begins.
repeat-always :
    (fuel : ℕ) (body : Cursor → Kont → Option Cursor) (c : Cursor) (k : Kont)
    → ((d : Cursor) → is_some (k d) ≡ true)
    → is_some (repeat fuel body c k) ≡ true
unfolding repeat
repeat-always zero body c k h = h c
repeat-always (suc f) body c k h = is_some-or_else _ (k c) ∙ rw (h c) (or_true _)

-- The characters of a text, one after the other.
run-chars :
    (p t b : Text) (g : List (ℕ × Text)) (k : Kont)
    → ((d : Cursor) → is_some (k d) ≡ true)
    → is_some (run (chars p) (at b t g) k) ≡ starts_with t p
unfolding run starts_with
run-chars [] t b g k h = h (at b t g)
run-chars (c ∷ []) [] b g k h = refl
run-chars (c ∷ []) (x ∷ t) b g k h = elim (Bool-cases (x == c)) [
  | inl same ↦ rw same (h (at (x ∷ b) t g))
  | inr other ↦ rw other refl
]
run-chars (c ∷ d ∷ p) [] b g k h = refl
run-chars (c ∷ d ∷ p) (x ∷ t) b g k h = elim (Bool-cases (x == c)) [
  | inl same ↦ rw same (run-chars (d ∷ p) t (x ∷ b) g k h)
  | inr other ↦ rw other refl
]

pub is_some-map {ℓ κ} :
    {A : Type ℓ} {B : Type κ} (f : A → B) (o : Option A) → is_some (Option.map f o) ≡ is_some o
is_some-map f none = refl
is_some-map f (some x) = refl

find-some_end : (s p : Text) → is_some (find s p) ≡ some_end (λ t. starts_with t p) s
unfolding find some_end
find-some_end [] p = elim (Bool-cases (starts_with [] p)) [
  | inl hit ↦ rw hit refl
  | inr miss ↦ rw miss refl
]
find-some_end (c ∷ s) p = elim (Bool-cases (starts_with (c ∷ s) p)) [
  | inl hit ↦ rw hit (sym (or_true _))
  | inr miss ↦ rw miss (is_some-map suc (find s p) ∙ find-some_end s p ∙ sym (or_false _))
]

-- `.*p.*` matches at the start of a line exactly if `p` occurs in it.
pub match-find :
    (p s : Text)
    → AllIn no_newline s
    → is_some (match_at_start (seq (star any_char) (seq (chars p) (star any_char))) s)
      ≡ is_some (find s p)
unfolding match_at_start run
match-find p s clean =
    is_some-map (to_match (start s))
      (run (seq (star any_char) (seq (chars p) (star any_char))) (start s) some)
    ∙ run-some_end no_newline s [] [] (λ d. run (chars p) d (λ d'. run (star any_char) d' some))
        (λ t. starts_with t p) clean
        (λ b t.
          run-chars p t b [] (λ d. run (star any_char) d some)
            (λ d. repeat-always (length d.rest) (λ d' k'. run any_char d' k') d some (λ d'. refl)))
    ∙ sym (find-some_end s p)
