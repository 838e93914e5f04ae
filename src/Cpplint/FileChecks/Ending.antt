-- ===== src/Cpplint/FileChecks/Ending.antt =====
-- CheckForNewlineAtEOF on the lines that ProcessFile makes of a text.
use adv_database_implementat.Base.{
  zero, some, get_elem?, of_some, strip, rstrip, lstrip, ends_with, starts_with, is_space, ℕ, suc,
  ◌-◌, Bool, true, false, List, [], ◌∷◌, ◌++◌, Text, codes, length, get_or, ltb, ◌==◌, ◌=t=◌, split,
  arith, ◌≡◌, refl, ap, ◌∙◌, sym, ◌↔◌, Bool-cases, inl, inr, length-append,
}
use native.Mathlib.Decide.{dec_lt}
use adv_database_implementat.Cpplint.Report.{Report}
use adv_database_implementat.Cpplint.Comments.{closes_comment, remove_multi_line_comments}
use adv_database_implementat.Cpplint.Comments.MultiLine.{
  IsCleaned, get_elem?-lt, remove_multi_line_comments-IsCleaned,
}
use adv_database_implementat.Cpplint.Comments.Untouched.{
  NoneClose, remove_multi_line_comments-untouched,
}
use adv_database_implementat.Cpplint.FileChecks.{check_for_newline_at_eof}
use adv_database_implementat.Cpplint.ProcessFile.{
  LineEnds, strip_line_ends, read_lines, with_markers, add_line, ends_in_cr, rstrip_cr,
}
use adv_database_implementat.Cpplint.ProcessFile.Uniform.{split-nonempty}

get_or-at :
    (lines : List Text) (i : ℕ) (x : Text) → get_elem? lines i ≡ some x → get_or lines i [] ≡ x
get_or-at [] i x h = absurd (cc h)
get_or-at (line ∷ lines) zero x h = of_some h
get_or-at (line ∷ lines) (suc i) x h = get_or-at lines i x h

-- Whether a text is empty or ends in a newline.
unfoldable pub is_terminated : Text → Bool
is_terminated [] = true
is_terminated (c ∷ []) = c == b'\n'
is_terminated (c ∷ d ∷ s) = is_terminated (d ∷ s)

unfoldable last_of : List Text → Text
last_of [] = []
last_of (line ∷ []) = line
last_of (line ∷ next ∷ rest) = last_of (next ∷ rest)

add_line-lines :
    (n : ℕ) (line : Text) (r : LineEnds) → (x : Text) × ((add_line n line r).lines ≡ x ∷ r.lines)
add_line-lines n line r = elim (Bool-cases (ends_in_cr line)) [
  | inl cr ↦ (rstrip_cr line, rw cr refl)
  | inr other ↦ (line, rw other refl)
]

length-strip : (n : ℕ) (lines : List Text) → length (strip_line_ends n lines).lines ≡ length lines
unfolding strip_line_ends
length-strip n [] = refl
length-strip n (line ∷ []) = refl
length-strip n (line ∷ next ∷ rest) =
    ap length (add_line-lines n line (strip_line_ends (suc n) (next ∷ rest))).1
    ∙ ap suc (length-strip (suc n) (next ∷ rest))

last_of-cons :
    (x : Text) (lines : List Text) (n : ℕ)
    → length lines ≡ suc n
    → last_of (x ∷ lines) ≡ last_of lines
unfolding last_of
last_of-cons x [] n h = absurd (omega arith)
last_of-cons x (line ∷ lines) n h = refl

last_of-strip :
    (n : ℕ) (lines : List Text) → last_of (strip_line_ends n lines).lines ≡ last_of lines
unfolding strip_line_ends last_of
last_of-strip n [] = refl
last_of-strip n (line ∷ []) = refl
last_of-strip n (line ∷ next ∷ rest) =
    let r = strip_line_ends (suc n) (next ∷ rest) in
    let (x, e) = add_line-lines n line r in
    ap last_of e
    ∙ last_of-cons x r.lines (length rest) (length-strip (suc n) (next ∷ rest))
    ∙ last_of-strip (suc n) (next ∷ rest)

split-newline : (c : ℕ) (s : Text) → c == b'\n' ≡ true → split b'\n' (c ∷ s) ≡ [] ∷ split b'\n' s
unfolding split
split-newline c s h = rw h refl

split-other :
    (c : ℕ) (s p : Text) (ps : List Text)
    → c == b'\n' ≡ false
    → split b'\n' s ≡ p ∷ ps
    → split b'\n' (c ∷ s) ≡ (c ∷ p) ∷ ps
unfolding split
split-other c s p ps h e = rw (h, e) refl

-- The only piece of a text without a newline begins with its first character.
split-single : (c : ℕ) (s p : Text) → split b'\n' (c ∷ s) ≡ p ∷ [] → (q : Text) × (p ≡ c ∷ q)
split-single c s p h =
    let (q, qs, e) = split-nonempty s in
    elim (Bool-cases (c == b'\n')) as (λ x. (q : Text) × (p ≡ c ∷ q)) [
      | inl newline ↦ absurd (cc (h, e, split-newline c s newline))
      | inr other ↦ (q, cc (h, split-other c s q qs other e))
    ]

last_of-extended :
    (c d : ℕ) (s p : Text) (ps : List Text)
    → split b'\n' (d ∷ s) ≡ p ∷ ps
    → (last_of ((c ∷ p) ∷ ps) =t= []) ≡ (last_of (p ∷ ps) =t= [])
unfolding last_of
last_of-extended c d s p [] e = let (q, starts) = split-single d s p e in rw starts refl
last_of-extended c d s p (x ∷ ps) e = refl

last_of-split : (s : Text) → (last_of (split b'\n' s) =t= []) ≡ is_terminated s
unfolding last_of is_terminated split
last_of-split [] = refl
last_of-split (c ∷ []) = elim (Bool-cases (c == b'\n')) [
  | inl newline ↦ ap (λ l. last_of l =t= []) (split-newline c [] newline) ∙ sym newline
  | inr other ↦ ap (λ l. last_of l =t= []) (split-other c [] [] [] other refl) ∙ sym other
]
last_of-split (c ∷ d ∷ s) =
    let (p, ps, e) = split-nonempty (d ∷ s) in
    elim (Bool-cases (c == b'\n'))
      as (λ x. (last_of (split b'\n' (c ∷ d ∷ s)) =t= []) ≡ is_terminated (d ∷ s)) [
        | inl newline ↦
            ap (λ l. last_of l =t= []) (split-newline c (d ∷ s) newline ∙ ap (λ l. [] ∷ l) e)
            ∙ ap (λ l. last_of l =t= []) (sym e)
            ∙ last_of-split (d ∷ s)
        | inr other ↦
            ap (λ l. last_of l =t= []) (split-other c (d ∷ s) p ps other e)
            ∙ last_of-extended c d s p ps e
            ∙ ap (λ l. last_of l =t= []) (sym e)
            ∙ last_of-split (d ∷ s)
      ]

abbrev opening_marker : Text
opening_marker = codes "// marker so line numbers and indices both start at 1"

abbrev closing_marker : Text
closing_marker = codes "// marker so line numbers end in a known way"

-- The last lines, with the marker lines.
before_last :
    (first marker line : Text) (lines : List Text)
    → get_elem? (first ∷ ((line ∷ lines) ++ marker ∷ [])) (suc (length lines))
      ≡ some (last_of (line ∷ lines))
unfolding last_of
before_last first marker line [] = refl
before_last first marker line (next ∷ rest) = before_last line marker next rest

last_marker :
    (marker : Text) (lines : List Text)
    → get_elem? (lines ++ marker ∷ []) (length lines) ≡ some marker
last_marker marker [] = refl
last_marker marker (line ∷ lines) = last_marker marker lines

-- The check looks at the last line but one.
check-at :
    (lines : List Text) (last : Text)
    → ltb (length lines) 3 ≡ false
    → get_elem? lines (length lines - 2) ≡ some last
    → (check_for_newline_at_eof lines ≡ []) ↔ ((last =t= []) ≡ true)
unfolding check_for_newline_at_eof
check-at lines [] len at = rw (len, get_or-at lines (length lines - 2) [] at) (λ _. refl, λ _. refl)
check-at lines (c ∷ last) len at =
    rw (len, get_or-at lines (length lines - 2) (c ∷ last) at)
      (λ h. absurd (cc h), λ h. absurd (cc h))

empty_open : closes_comment [] ≡ false
unfolding closes_comment strip rstrip lstrip ends_with starts_with
empty_open = refl

closing_open : closes_comment closing_marker ≡ false
unfolding closes_comment strip rstrip lstrip ends_with starts_with is_space
closing_open = refl

-- Behind the empty line at the end, no line closes a comment.
NoneClose-empty :
    (line : Text) (lines : List Text)
    → last_of (line ∷ lines) ≡ []
    → NoneClose (with_markers (line ∷ lines)) (suc (length lines))
unfolding with_markers
NoneClose-empty line lines empty i found from at =
    let all = opening_marker ∷ ((line ∷ lines) ++ closing_marker ∷ []) in
    let len = length-append lines (closing_marker ∷ []) in
    let within = get_elem?-lt all i found at in
    elim (dec_lt (suc (length lines)) i) [
      | no around ↦
          let here : i ≡ suc (length lines) = omega (arith, from, around) in
          let e : found ≡ [] = of_some (
            sym at
            ∙ ap (get_elem? all) here
            ∙ before_last opening_marker closing_marker line lines
            ∙ ap some empty) in
          ap closes_comment e ∙ empty_open
      | yes behind ↦
          let place : i ≡ suc (suc (length lines)) = omega (arith, len, within, from, behind) in
          let e : found ≡ closing_marker =
            of_some (sym at ∙ ap (get_elem? all) place ∙ last_marker closing_marker lines) in
          ap closes_comment e ∙ closing_open
    ]

check-removed :
    (line : Text) (lines : List Text) (out : List Text) (reports : List Report)
    → remove_multi_line_comments (with_markers (line ∷ lines)) ≡ some (out, reports)
    → IsCleaned (with_markers (line ∷ lines)) out reports
    → (check_for_newline_at_eof out ≡ []) ↔ ((last_of (line ∷ lines) =t= []) ≡ true)
unfolding with_markers
check-removed line lines out reports e cleaned = by_last (last_of (line ∷ lines)) refl
  where
    long_enough : length out ≡ suc (suc (suc (length lines)))
    long_enough = omega (arith, cleaned.same_length, length-append lines (closing_marker ∷ []))

    place : length out - 2 ≡ suc (length lines)
    place = omega (arith, long_enough)

    stood :
        get_elem? (with_markers (line ∷ lines)) (suc (length lines)) ≡ some (last_of (line ∷ lines))
    stood = before_last opening_marker closing_marker line lines

    by_last :
        (last : Text)
        → last_of (line ∷ lines) ≡ last
        → (check_for_newline_at_eof out ≡ []) ↔ ((last =t= []) ≡ true)
    by_last [] is = check-at out [] (ground (arith, long_enough)) (
        ap (get_elem? out) place
        ∙ remove_multi_line_comments-untouched (with_markers (line ∷ lines)) (suc (length lines))
            out reports (NoneClose-empty line lines is) e (suc (length lines)) (omega arith)
        ∙ stood
        ∙ ap some is)
    by_last (c ∷ last) is = elim (cleaned.cleared (suc (length lines))) [
      | inl same ↦
          check-at out (c ∷ last) (ground (arith, long_enough))
            (ap (get_elem? out) place ∙ same ∙ stood ∙ ap some is)
      | inr placeholder ↦
          let (there, back) =
            check-at out (codes "/**/") (ground (arith, long_enough))
              (ap (get_elem? out) place ∙ placeholder) in
          (λ h. absurd (cc (there h)), λ h. absurd (cc h))
    ]

-- On the lines that ProcessFile reads from a text, with the markers around them and as
-- RemoveMultiLineComments, which ends, leaves them, CheckForNewlineAtEOF reports nothing exactly
-- when the text is empty or ends in a newline, whatever the line ends are.
pub check_for_newline_at_eof-exact :
    (text : Text)
    → (out : List Text) × (reports : List Report) × (remove_multi_line_comments
          (with_markers (read_lines text).lines)
        ≡ some (out, reports))
      × ((check_for_newline_at_eof out ≡ []) ↔ (is_terminated text ≡ true))
unfolding read_lines
check_for_newline_at_eof-exact text = by_lines (strip_line_ends 1 (split b'\n' text)).lines refl
  where
    by_lines :
        (lines : List Text)
        → (strip_line_ends 1 (split b'\n' text)).lines ≡ lines
        → (out : List Text) × (reports : List Report) × (remove_multi_line_comments
              (with_markers lines)
            ≡ some (out, reports))
          × ((check_for_newline_at_eof out ≡ []) ↔ (is_terminated text ≡ true))
    by_lines [] e =
        let (p, ps, nonempty) = split-nonempty text in
        absurd (omega (arith, ap length e, length-strip 1 (split b'\n' text), ap length nonempty))
    by_lines (line ∷ lines) e =
        let (out, reports, removed, cleaned) =
          remove_multi_line_comments-IsCleaned (with_markers (line ∷ lines)) in
        let (there, back) = check-removed line lines out reports removed cleaned in
        let same : (last_of (line ∷ lines) =t= []) ≡ is_terminated text =
          ap (λ l. last_of l =t= []) (sym e)
          ∙ ap (λ l. l =t= []) (last_of-strip 1 (split b'\n' text))
          ∙ last_of-split text in
        (out, reports, removed, (λ h. sym same ∙ there h, λ h. back (same ∙ h)))
