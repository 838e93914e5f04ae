-- ===== src/Cpplint/CleansedLines/Strings.antt =====
-- What _CollapseStrings does with the strings of a line.
use adv_database_implementat.Base.{
  ℕ, zero, suc, ◌+◌, ◌≤◌, ◌<◌, Bool, true, false, not, none, some, List, [], ◌∷◌, ◌++◌, Text, codes,
  length, drop, ◌==◌, char_mem, find, starts_with, arith, ◌≡◌, refl, ap, ◌∙◌, is_some, All,
  Bool-cases, inl, inr, reverse_aux,
}
use mathlib.Core.Option
use adv_database_implementat.Regex.{
  Matched, Kont, match_at_start, run, group_of, any_char, star, seq, group, eol, one_of, span,
  to_match, start, search_from, sub,
}
use adv_database_implementat.Regex.Laws.{
  no_newline, AllIn, at, run-star, run-star_fails, run-rest_of_line, span-reverse_aux,
  search_from-end, search_from-skip, sub_from-none,
}
use adv_database_implementat.Cpplint.CleansedLines.{
  include_line, cleanse_line_escapes, collapse_strings, first_quote, collapse, collapse_round,
  group_text,
}

unfoldable pub is_quote : ℕ → Bool
unfolding char_mem
is_quote c = char_mem c (codes "'\"")

abbrev pub plain_char : ℕ → Bool
plain_char c = not (is_quote c)

-- What is matched behind the characters that are no quotes.
abbrev behind : Text → Kont
behind text d =
    run (seq (group 2 (one_of "'\"")) (seq (group 3 (star any_char)) eol))
      (record d { groups = (1, span (start text) d) ∷ d.groups }) some

behind-quote :
    (text b rest : Text) (q : ℕ)
    → is_quote q ≡ true
    → AllIn no_newline rest
    → behind text (at b (q ∷ rest) [])
      ≡ some (
          at
            (reverse_aux rest (q ∷ b))
            []
            ((3, rest) ∷ (2, q ∷ []) ∷ (1, span (start text) (at b (q ∷ rest) [])) ∷ []))
unfolding run is_quote
behind-quote text b rest q quote clean =
    let head = span (start text) (at b (q ∷ rest) []) in
    rw quote (
      run-rest_of_line 3 rest (q ∷ b)
        ((2, span (at b (q ∷ rest) ((1, head) ∷ [])) (at (q ∷ b) rest ((1, head) ∷ [])))
          ∷ (1, head)
          ∷ [])
        clean
      ∙ ap (λ x. some (at (reverse_aux rest (q ∷ b)) [] ((3, rest) ∷ (2, x) ∷ (1, head) ∷ [])))
          (span-reverse_aux (q ∷ []) b (q ∷ rest) rest ((1, head) ∷ []) ((1, head) ∷ [])))

behind-fails : (text b s : Text) → AllIn plain_char s → behind text (at b s []) ≡ none
unfolding run is_quote
behind-fails text b [] h = refl
behind-fails text b (c ∷ s) h = elim (Bool-cases (is_quote c)) [
  | inl quote ↦ absurd (cc)
  | inr other ↦ rw other refl
]

quote_match :
    (pre rest : Text) (q : ℕ)
    → AllIn plain_char pre
    → is_quote q ≡ true
    → AllIn no_newline rest
    → (m : Matched) × (match_at_start first_quote (pre ++ q ∷ rest) ≡ some m)
      × (group_text m 1 ≡ pre)
      × (group_text m 2 ≡ q ∷ [])
      × (group_text m 3 ≡ rest)
unfolding match_at_start run group_of is_quote first_quote
quote_match pre rest q before quote clean =
    let text = pre ++ q ∷ rest in
    (
      _,
      ap (Option.map (to_match (start text))) (
          run-star plain_char pre [] (q ∷ rest) [] (behind text) before (ap not quote)
            (behind-quote text (reverse_aux pre []) rest q quote clean)),
      span-reverse_aux pre [] text (q ∷ rest) [] [],
      refl,
      refl,
    )

quote_match-none : (s : Text) → AllIn plain_char s → match_at_start first_quote s ≡ none
unfolding match_at_start run group_of is_quote first_quote
quote_match-none s h =
    ap (Option.map (to_match (start s)))
      (run-star_fails plain_char s [] [] (behind s) h (λ b t ht. behind-fails s b t ht))

find-quote :
    (mid rest : Text)
    → AllIn (λ c. not (c == b'"')) mid
    → find (mid ++ b'"' ∷ rest) (codes "\"") ≡ some (length mid)
unfolding find starts_with
find-quote [] rest h = refl
find-quote (c ∷ mid) rest h = elim (Bool-cases (c == b'"')) [
  | inl quote ↦ absurd (cc)
  | inr other ↦ rw (other, find-quote mid rest h.1) refl
]

drop-past : (mid rest : Text) (q : ℕ) → drop (length mid + 1) (mid ++ q ∷ rest) ≡ rest
drop-past [] rest q = refl
drop-past (c ∷ mid) rest q =
    let e : suc (length mid) + 1 ≡ suc (length mid + 1) = omega arith in
    ap (λ n. drop n (c ∷ (mid ++ q ∷ rest))) e ∙ drop-past mid rest q

double_quote : is_quote b'"' ≡ true
unfolding is_quote
double_quote = refl

collapse-step :
    (fuel : ℕ) (pre mid rest : Text)
    → AllIn plain_char pre
    → AllIn (λ c. not (c == b'"')) mid
    → AllIn no_newline (mid ++ b'"' ∷ rest)
    → collapse (suc fuel) (pre ++ b'"' ∷ (mid ++ b'"' ∷ rest))
      ≡ pre ++ (b'"' ∷ b'"' ∷ collapse fuel rest)
unfolding collapse collapse_round
collapse-step fuel pre mid rest before inside clean =
    let (m, found, g1, g2, g3) =
      quote_match pre (mid ++ b'"' ∷ rest) b'"' before double_quote clean in
    rw (found, g2, g3, g1, find-quote mid rest inside, drop-past mid rest b'"') refl

abbrev pub no_backslash : ℕ → Bool
no_backslash c = not (c == b'\\')

run-no_escape :
    (c : ℕ) (s before : Text)
    → (c == b'\\') ≡ false
    → run cleanse_line_escapes (at before (c ∷ s) []) some ≡ none
unfolding run cleanse_line_escapes
run-no_escape c s before other = rw other refl

run-at_end : (before : Text) → run cleanse_line_escapes (at before [] []) some ≡ none
unfolding run cleanse_line_escapes
run-at_end before = refl

search_from-no_escape :
    (s before : Text) → AllIn no_backslash s → search_from cleanse_line_escapes before s ≡ none
search_from-no_escape [] before h = search_from-end cleanse_line_escapes before (run-at_end before)
search_from-no_escape (c ∷ s) before h = elim (Bool-cases (c == b'\\')) [
  | inl escape ↦ absurd (cc)
  | inr other ↦
      search_from-skip cleanse_line_escapes c s before (run-no_escape c s before other)
      ∙ search_from-no_escape s (c ∷ before) h.1
]

sub-no_escape : (s : Text) → AllIn no_backslash s → sub cleanse_line_escapes (λ m. []) s ≡ s
unfolding sub
sub-no_escape s h =
    sub_from-none (suc (length s)) cleanse_line_escapes (λ m. []) [] s
      (search_from-no_escape s [] h)

-- A line of strings in double quotes, each with the text before it, and the text behind the last.
unfoldable pub with_strings : List (Text × Text) → Text → Text
with_strings [] last = last
with_strings ((before, inside) ∷ rest) last =
    before ++ b'"' ∷ (inside ++ b'"' ∷ with_strings rest last)

-- The same line with empty strings.
unfoldable pub with_empty_strings : List (Text × Text) → Text → Text
with_empty_strings [] last = last
with_empty_strings ((before, inside) ∷ rest) last =
    before ++ (b'"' ∷ b'"' ∷ with_empty_strings rest last)

-- The text before a string holds no quote, and that inside no double quote.
abbrev pub Pieces : List (Text × Text) → Type 0
Pieces = All (λ p. AllIn plain_char p.0 × AllIn (λ c. not (c == b'"')) p.1)

All-behind : (pre rest : Text) → AllIn no_newline (pre ++ rest) → AllIn no_newline rest
All-behind [] rest h = h
All-behind (c ∷ pre) rest h = All-behind pre rest h.1

length-behind : (pre rest : Text) → length rest ≤ length (pre ++ rest)
length-behind [] rest = omega arith
length-behind (c ∷ pre) rest = omega (arith, length-behind pre rest)

collapse-with_strings :
    (fuel : ℕ) (pieces : List (Text × Text)) (last : Text)
    → length (with_strings pieces last) < fuel
    → Pieces pieces
    → AllIn plain_char last
    → AllIn no_newline (with_strings pieces last)
    → collapse fuel (with_strings pieces last) ≡ with_empty_strings pieces last
unfolding collapse collapse_round with_strings with_empty_strings
collapse-with_strings zero pieces last enough ok plain clean = absurd (omega arith)
collapse-with_strings (suc fuel) [] last enough ok plain clean =
    rw (quote_match-none last plain) refl
collapse-with_strings (suc fuel) ((pre, mid) ∷ rest) last enough ok plain clean =
    let line = with_strings rest last in
    let inner = mid ++ b'"' ∷ line in
    let behind_pre = length-behind pre (b'"' ∷ inner) in
    let behind_mid = length-behind mid (b'"' ∷ line) in
    let inner_clean = (All-behind pre (b'"' ∷ inner) clean).1 in
    collapse-step fuel pre mid line ok.0.0 ok.0.1 inner_clean
    ∙ ap (λ x. pre ++ (b'"' ∷ b'"' ∷ x))
        (collapse-with_strings fuel rest last (omega (arith, behind_pre, behind_mid, enough)) ok.1
          plain (All-behind mid (b'"' ∷ line) inner_clean).1)

-- On a line that is no include, without a backslash or a newline, whose quotes are those of
-- strings in double quotes (with single quotes inside them or not), _CollapseStrings empties each
-- string and leaves the rest as it is.
pub collapse_strings-with_strings :
    (pieces : List (Text × Text)) (last : Text)
    → is_some (match_at_start include_line (with_strings pieces last)) ≡ false
    → AllIn no_backslash (with_strings pieces last)
    → Pieces pieces
    → AllIn plain_char last
    → AllIn no_newline (with_strings pieces last)
    → collapse_strings (with_strings pieces last) ≡ with_empty_strings pieces last
unfolding collapse_strings
collapse_strings-with_strings pieces last no_include no_escape ok plain clean =
    let line = with_strings pieces last in
    rw (no_include, sub-no_escape line no_escape)
      (collapse-with_strings (suc (length line)) pieces last (omega arith) ok plain clean)
