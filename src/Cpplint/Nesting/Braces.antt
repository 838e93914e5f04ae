-- ===== src/Cpplint/Nesting/Braces.antt =====
-- The loop of Update over the braces, semicolons and closing parentheses of a line, and a reading
-- of the same line by characters.
use adv_database_implementat.Base.{
  ℕ, zero, suc, ◌<◌, Bool, true, not, none, some, List, [], ◌∷◌, ◌++◌, Text, codes, length,
  if◌then◌else◌, char_mem, arith, ◌≡◌, refl, ap, ap₂, sym, ◌∙◌, ◌⊎◌, subst, Bool-cases, inl, inr,
  reverse_aux,
}
use mathlib.Core.Option
use adv_database_implementat.Regex.{
  Matched, match_at_start, run, group_of, Kont, any_char, star, seq, group, eol, one_of, span,
  to_match, start,
}
use adv_database_implementat.Regex.Laws.{
  no_newline, AllIn, at, run-star, run-star_fails, run-rest_of_line, span-reverse_aux,
}
use adv_database_implementat.Cpplint.Report.{Report}
use adv_database_implementat.Cpplint.CleansedLines.{CleansedLines}
use adv_database_implementat.Cpplint.Nesting.{Stack}
use adv_database_implementat.Cpplint.Nesting.Update.{
  brace_pattern, brace_token, consume_braces, with_reports, group_text,
}

-- The characters that the loop stops at.
unfoldable pub is_token : ℕ → Bool
unfolding char_mem
is_token c = char_mem c (codes "{;)}")

-- What is matched behind the characters that are no tokens.
abbrev behind : Kont
behind d = run (seq (group 1 (one_of "{;)}")) (seq (group 2 (star any_char)) eol)) d some

behind-token :
    (t : ℕ) (b rest : Text)
    → is_token t ≡ true
    → AllIn no_newline rest
    → behind (at b (t ∷ rest) [])
      ≡ some (at (reverse_aux rest (t ∷ b)) [] ((2, rest) ∷ (1, t ∷ []) ∷ []))
unfolding run is_token
behind-token t b rest tok clean = rw tok (
    run-rest_of_line 2 rest (t ∷ b) ((1, span (at b (t ∷ rest) []) (at (t ∷ b) rest [])) ∷ []) clean
    ∙ ap (λ x. some (at (reverse_aux rest (t ∷ b)) [] ((2, rest) ∷ (1, x) ∷ [])))
        (span-reverse_aux (t ∷ []) b (t ∷ rest) rest [] []))

behind-fails : (b s : Text) → AllIn (λ c. not (is_token c)) s → behind (at b s []) ≡ none
unfolding run is_token
behind-fails b [] h = refl
behind-fails b (c ∷ s) h = elim (Bool-cases (is_token c)) [
  | inl tok ↦ absurd (cc)
  | inr other ↦ rw other refl
]

-- The pattern on a text with a token behind characters that are none.
brace_match :
    (pre rest : Text) (t : ℕ)
    → AllIn (λ c. not (is_token c)) pre
    → is_token t ≡ true
    → AllIn no_newline rest
    → (m : Matched) × (match_at_start brace_pattern (pre ++ t ∷ rest) ≡ some m)
      × (group_text m 1 ≡ t ∷ [])
      × (group_text m 2 ≡ rest)
unfolding match_at_start run group_of is_token brace_pattern
brace_match pre rest t before tok clean = (
  _,
  ap (Option.map (to_match (start (pre ++ t ∷ rest)))) (
      run-star (λ c. not (is_token c)) pre [] (t ∷ rest) [] behind before (ap not tok)
        (behind-token t (reverse_aux pre []) rest tok clean)),
  refl,
  refl,
)

brace_match-none :
    (s : Text) → AllIn (λ c. not (is_token c)) s → match_at_start brace_pattern s ≡ none
unfolding match_at_start run group_of is_token brace_pattern
brace_match-none s h =
    ap (Option.map (to_match (start s)))
      (run-star_fails (λ c. not (is_token c)) s [] [] behind h (λ b t ht. behind-fails b t ht))

-- The tokens of a line one character after the other: `line` is what is behind the last one, and
-- what is still to be read of it follows.
unfoldable pub scan : CleansedLines → ℕ → Text → Text → Stack → Stack × List Report
scan clean_lines linenum line [] stack = (stack, [])
scan clean_lines linenum line (c ∷ s) stack =
    let done = brace_token clean_lines linenum line (c ∷ []) stack in
    let behind_token = with_reports done.1 (scan clean_lines linenum s s done.0) in
    let on_line = scan clean_lines linenum line s stack in
    if is_token c then behind_token else on_line

module _ (clean_lines : CleansedLines) (linenum : ℕ) where
  scan-append :
      (pre rest line : Text) (stack : Stack)
      → AllIn (λ c. not (is_token c)) pre
      → scan clean_lines linenum line (pre ++ rest) stack ≡ scan clean_lines linenum line rest stack
  unfolding scan
  scan-append [] rest line stack h = refl
  scan-append (c ∷ pre) rest line stack h = elim (Bool-cases (is_token c)) [
    | inl tok ↦ absurd (cc)
    | inr other ↦ rw other (scan-append pre rest line stack h.1)
  ]

  scan-none :
      (s line : Text) (stack : Stack)
      → AllIn (λ c. not (is_token c)) s
      → scan clean_lines linenum line s stack ≡ (stack, [])
  unfolding scan
  scan-none [] line stack h = refl
  scan-none (c ∷ s) line stack h = elim (Bool-cases (is_token c)) [
    | inl tok ↦ absurd (cc)
    | inr other ↦ rw other (scan-none s line stack h.1)
  ]

  -- The text up to the first token, if there is one.
  first_token :
      (s : Text)
      → AllIn (λ c. not (is_token c)) s
        ⊎ ((pre : Text) × (t : ℕ) × (rest : Text) × (s ≡ pre ++ t ∷ rest)
            × AllIn (λ c. not (is_token c)) pre
            × (is_token t ≡ true))
  first_token [] = inl tt
  first_token (c ∷ s) = elim (Bool-cases (is_token c)) [
    | inl tok ↦ inr ([], c, s, refl, tt, tok)
    | inr other ↦ elim (first_token s) [
      | inl rest_plain ↦ inl (ap not other, rest_plain)
      | inr (pre, t, rest, e, before, tok) ↦
          inr (c ∷ pre, t, rest, ap (c ∷◌) e, (ap not other, before), tok)
    ]
  ]

  consume_braces-step :
      (fuel : ℕ) (pre rest : Text) (t : ℕ) (stack : Stack)
      → AllIn (λ c. not (is_token c)) pre
      → is_token t ≡ true
      → AllIn no_newline rest
      → (let done = brace_token clean_lines linenum (pre ++ t ∷ rest) (t ∷ []) stack in
          consume_braces (suc fuel) clean_lines linenum (pre ++ t ∷ rest) stack
          ≡ with_reports done.1 (consume_braces fuel clean_lines linenum rest done.0))
  unfolding consume_braces
  consume_braces-step fuel pre rest t stack before tok clean =
      let (m, found, token, left) = brace_match pre rest t before tok clean in
      rw found (
        ap₂
          (λ x y.
            let done = brace_token clean_lines linenum (pre ++ t ∷ rest) x stack in
            with_reports done.1 (consume_braces fuel clean_lines linenum y done.0))
          token left)

  All-behind : (pre rest : Text) → AllIn no_newline (pre ++ rest) → AllIn no_newline rest
  All-behind [] rest h = h
  All-behind (c ∷ pre) rest h = All-behind pre rest h.1

  length-behind : (pre rest : Text) (t : ℕ) → length rest < length (pre ++ t ∷ rest)
  length-behind [] rest t = omega arith
  length-behind (c ∷ pre) rest t = omega (arith, length-behind pre rest t)

  scan-token :
      (line rest : Text) (t : ℕ) (stack : Stack)
      → is_token t ≡ true
      → (let done = brace_token clean_lines linenum line (t ∷ []) stack in
          scan clean_lines linenum line (t ∷ rest) stack
          ≡ with_reports done.1 (scan clean_lines linenum rest rest done.0))
  unfolding scan
  scan-token line rest t stack tok = rw tok refl

  -- With more fuel than the line has characters, and no newline in it, the loop over the matches of
  -- the pattern handles each `{`, `;`, `)` and `}` of the line once, from left to right, with the
  -- text behind the one before it as its line.
  pub consume_braces-scan :
      (fuel : ℕ) (line : Text) (stack : Stack)
      → length line < fuel
      → AllIn no_newline line
      → consume_braces fuel clean_lines linenum line stack
        ≡ scan clean_lines linenum line line stack
  unfolding consume_braces
  consume_braces-scan zero line stack enough clean = absurd (omega arith)
  consume_braces-scan (suc fuel) line stack enough clean = elim (first_token line) [
    | inl plain ↦ rw (brace_match-none line plain) (sym (scan-none line line stack plain))
    | inr (pre, t, rest, e, before, tok) ↦
        let done = brace_token clean_lines linenum (pre ++ t ∷ rest) (t ∷ []) stack in
        let rest_clean = (All-behind pre (t ∷ rest) (subst (AllIn no_newline) e clean)).1 in
        let shorter = length-behind pre rest t in
        let same = ap length e in
        subst
          (λ l.
            consume_braces (suc fuel) clean_lines linenum l stack
            ≡ scan clean_lines linenum l l stack)
          (sym e)
          (consume_braces-step fuel pre rest t stack before tok rest_clean
            ∙ ap (with_reports done.1) (
                consume_braces-scan fuel rest done.0 (omega (arith, shorter, same, enough))
                  rest_clean)
            ∙ sym (scan-token (pre ++ t ∷ rest) rest t stack tok)
            ∙ sym (scan-append pre (t ∷ rest) (pre ++ t ∷ rest) stack before))
  ]
