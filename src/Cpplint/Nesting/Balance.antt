-- ===== src/Cpplint/Nesting/Balance.antt =====
-- A line whose braces are balanced, for the loop of Update over its braces.
use adv_database_implementat.Base.{
  ℕ, zero, suc, ◌<◌, Bool, true, false, List, [], ◌∷◌, ◌++◌, Text, length, ◌==◌, if◌then◌else◌,
  char_mem, All, arith, ◌≡◌, refl, ap, sym, ◌∙◌, Bool-cases, inl, inr, subst, is_some,
}
use adv_database_implementat.Regex.{match_at_start}
use adv_database_implementat.Regex.Laws.{AllIn, no_newline}
use adv_database_implementat.Cpplint.Report.{Report}
use adv_database_implementat.Cpplint.CleansedLines.{CleansedLines}
use adv_database_implementat.Cpplint.Nesting.{Stack, BlockInfo, seen_open_brace}
use adv_database_implementat.Cpplint.Nesting.Blocks.{
  new_block, new_extern_c, check_end, check_end_kind,
}
use adv_database_implementat.Cpplint.Nesting.Update.{
  brace_token, consume_braces, with_reports, open_brace, pop_unseen, close_brace, extern_pattern,
}
use adv_database_implementat.Cpplint.Nesting.Braces.{is_token, scan, consume_braces-scan}

-- Behind `n` open braces, the text closes them all, and no more than are open at any place.
unfoldable pub balanced : ℕ → Text → Bool
balanced zero [] = true
balanced (suc n) [] = false
balanced zero (c ∷ s) =
    let inside = balanced 1 s in
    let other = balanced zero s in if c == b'{' then inside else if c == b'}' then false else other
balanced (suc n) (c ∷ s) =
    let inside = balanced (suc (suc n)) s in
    let outside = balanced n s in
    let other = balanced (suc n) s in
    if c == b'{' then inside else if c == b'}' then outside else other

balanced-open : (n c : ℕ) (s : Text) → (c == b'{') ≡ true → balanced n (c ∷ s) ≡ balanced (suc n) s
unfolding balanced
balanced-open zero c s e = rw e refl
balanced-open (suc n) c s e = rw e refl

balanced-other :
    (n c : ℕ) (s : Text)
    → (c == b'{') ≡ false
    → (c == b'}') ≡ false
    → balanced n (c ∷ s) ≡ balanced n s
unfolding balanced
balanced-other zero c s e d = rw (e, d) refl
balanced-other (suc n) c s e d = rw (e, d) refl

-- A block that has begun and whose end reports nothing.
abbrev pub Quiet : CleansedLines → ℕ → BlockInfo → Type 0
Quiet clean_lines linenum b = (b.seen_open_brace ≡ true) × (check_end clean_lines linenum b ≡ [])

module _ (clean_lines : CleansedLines) (linenum : ℕ) where
  open_brace-Quiet :
      (line : Text) (stack : Stack)
      → seen_open_brace stack ≡ true
      → (b : BlockInfo) × (open_brace line linenum stack ≡ b ∷ stack) × Quiet clean_lines linenum b
  unfolding open_brace new_block new_extern_c check_end check_end_kind
  open_brace-Quiet line stack seen =
      elim (Bool-cases (is_some (match_at_start extern_pattern line))) [
        | inl is_extern ↦ rw (seen, is_extern) (_, refl, (refl, refl))
        | inr plain ↦ rw (seen, plain) (_, refl, (refl, refl))
      ]

  seen-append :
      (pushed stack : Stack)
      → All (Quiet clean_lines linenum) pushed
      → seen_open_brace stack ≡ true
      → seen_open_brace (pushed ++ stack) ≡ true
  unfolding seen_open_brace
  seen-append [] stack quiet seen = seen
  seen-append (b ∷ pushed) stack quiet seen = quiet.0.0

  -- A token that is no brace leaves a stack whose top has begun.
  other_token :
      (c : ℕ) (line : Text) (stack : Stack)
      → (c == b'{') ≡ false
      → (c == b'}') ≡ false
      → is_token c ≡ true
      → seen_open_brace stack ≡ true
      → brace_token clean_lines linenum line (c ∷ []) stack ≡ (stack, [])
  unfolding brace_token pop_unseen is_token char_mem
  other_token c line stack not_open not_close tok seen = rw (seen, not_open) (ground arith)

  scan-open :
      (s line : Text) (stack : Stack)
      → scan clean_lines linenum line (b'{' ∷ s) stack
        ≡ scan clean_lines linenum s s (open_brace line linenum stack)
  unfolding scan brace_token is_token char_mem
  scan-open s line stack = refl

  scan-close :
      (s line : Text) (b : BlockInfo) (stack : Stack)
      → check_end clean_lines linenum b ≡ []
      → scan clean_lines linenum line (b'}' ∷ s) (b ∷ stack) ≡ scan clean_lines linenum s s stack
  unfolding scan brace_token is_token char_mem close_brace
  scan-close s line b stack quiet =
      ap (λ rs. with_reports rs (scan clean_lines linenum s s stack)) quiet

  scan-other :
      (c : ℕ) (s line : Text) (stack : Stack) {r : Stack × List Report}
      → (c == b'{') ≡ false
      → (c == b'}') ≡ false
      → seen_open_brace stack ≡ true
      → ((l : Text) → scan clean_lines linenum l s stack ≡ r)
      → scan clean_lines linenum line (c ∷ s) stack ≡ r
  unfolding scan
  scan-other c s line stack not_open not_close seen rest = elim (Bool-cases (is_token c)) [
    | inl tok ↦ rw (tok, other_token c line stack not_open not_close tok seen) (rest s)
    | inr plain ↦ rw plain (rest line)
  ]

  close_case :
      (s line : Text) (pushed stack : Stack)
      → balanced (length pushed) (b'}' ∷ s) ≡ true
      → All (Quiet clean_lines linenum) pushed
      → ((left : Stack)
          → balanced (length left) s ≡ true
          → All (Quiet clean_lines linenum) left
          → scan clean_lines linenum s s (left ++ stack) ≡ (stack, []))
      → scan clean_lines linenum line (b'}' ∷ s) (pushed ++ stack) ≡ (stack, [])
  unfolding balanced
  close_case s line [] stack bal quiet rest = absurd (cc)
  close_case s line (b ∷ pushed) stack bal quiet rest =
      scan-close s line b (pushed ++ stack) quiet.0.1 ∙ rest pushed bal quiet.1

  scan-balanced :
      (s line : Text) (pushed stack : Stack)
      → balanced (length pushed) s ≡ true
      → All (Quiet clean_lines linenum) pushed
      → seen_open_brace stack ≡ true
      → scan clean_lines linenum line s (pushed ++ stack) ≡ (stack, [])
  unfolding scan balanced
  scan-balanced [] line [] stack bal quiet seen = refl
  scan-balanced [] line (b ∷ pushed) stack bal quiet seen = absurd (cc)
  scan-balanced (c ∷ s) line pushed stack bal quiet seen = elim (Bool-cases (c == b'{')) [
    | inl opens ↦
        let e : c ≡ b'{' = ground arith in
        let (b, pushes, b_quiet) =
          open_brace-Quiet line (pushed ++ stack) (seen-append pushed stack quiet seen) in
        subst (λ x. scan clean_lines linenum line (x ∷ s) (pushed ++ stack) ≡ (stack, [])) (sym e)
          (scan-open s line (pushed ++ stack)
            ∙ ap (scan clean_lines linenum s s) pushes
            ∙ scan-balanced s s (b ∷ pushed) stack
                (sym (balanced-open (length pushed) c s opens) ∙ bal) (b_quiet, quiet) seen)
    | inr not_open ↦ elim (Bool-cases (c == b'}')) [
      | inl closes ↦
          let e : c ≡ b'}' = ground arith in
          subst (λ x. scan clean_lines linenum line (x ∷ s) (pushed ++ stack) ≡ (stack, [])) (sym e)
            (close_case s line pushed stack
              (subst (λ x. balanced (length pushed) (x ∷ s) ≡ true) e bal) quiet
              (λ left left_bal left_quiet. scan-balanced s s left stack left_bal left_quiet seen))
      | inr not_close ↦
          scan-other c s line (pushed ++ stack) not_open not_close
            (seen-append pushed stack quiet seen)
            (λ l.
              scan-balanced s l pushed stack
                (sym (balanced-other (length pushed) c s not_open not_close) ∙ bal) quiet seen)
    ]
  ]

  -- A line without a newline whose braces are balanced, on a stack whose top has begun, leaves the
  -- stack as it is and reports nothing, with any fuel above its length.
  pub consume_braces-balanced :
      (fuel : ℕ) (line : Text) (stack : Stack)
      → length line < fuel
      → AllIn no_newline line
      → balanced 0 line ≡ true
      → seen_open_brace stack ≡ true
      → consume_braces fuel clean_lines linenum line stack ≡ (stack, [])
  consume_braces-balanced fuel line stack enough clean bal seen =
      consume_braces-scan clean_lines linenum fuel line stack enough clean
      ∙ scan-balanced line line [] stack bal tt seen
