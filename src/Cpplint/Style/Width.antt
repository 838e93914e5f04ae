-- ===== src/Cpplint/Style/Width.antt =====
-- The length of the lines that are code.
use mathlib.Core.Option
use adv_database_implementat.Base.{
  char_mem, ℕ, ltb, pos, true, false, Option, some, none, [], ◌∷◌, ◌++◌, Text, codes, length,
  is_space, starts_with, ◌==◌, arith, ◌≡◌, refl, ap, All,
}
use adv_database_implementat.Regex.{
  Re, chr, bol, star, space, run, match_at_start, to_match, start, ◌⨾◌,
}
use adv_database_implementat.Regex.Laws.{AllIn, at, run-star_fails_before}
use adv_database_implementat.Cpplint.FileChecks.{report_if}
use adv_database_implementat.Cpplint.Style.{
  Unicode, char_width, width_of, get_line_width, is_header_guard, url_comment, word_comment,
  id_comment, id_rest, doc_comment, may_be_long, exceeds, check_line_length, length_report,
}

-- The first character that is no white space is neither of a comment nor of a directive.
abbrev pub BeginsCode : ℕ → Type 0
BeginsCode c = (is_space c ≡ false) × (c == b'/' ≡ false) × (c == b'#' ≡ false)

space-other : (x : ℕ) → is_space x ≡ true → (x == b'/' ≡ false) × (x == b'#' ≡ false)
unfolding is_space char_mem
space-other x h = (ground (arith, h), ground (arith, h))

slash-fails :
    (r : Re) (b pre s : Text) (c : ℕ)
    → AllIn is_space pre
    → BeginsCode c
    → run (chr b'/' ⨾ r) (at b (pre ++ c ∷ s) []) some ≡ none
unfolding run
slash-fails r b [] s c h code = rw code.1 refl
slash-fails r b (x ∷ pre) s c h code = rw (space-other x h.0).0 refl

comment-fails :
    (r : Re) (pre s : Text) (c : ℕ)
    → AllIn is_space pre
    → BeginsCode c
    → match_at_start (bol ⨾ star space ⨾ chr b'/' ⨾ r) (pre ++ c ∷ s) ≡ none
unfolding match_at_start run
comment-fails r pre s c h code = ap (Option.map (to_match (start (pre ++ c ∷ s)))) (
    run-star_fails_before is_space pre [] (c ∷ s) [] _ h code.0
      (λ b t spaces. slash-fails r b t s c spaces code))

id_comment-fails :
    (pre s : Text) (c : ℕ)
    → AllIn is_space pre
    → BeginsCode c
    → match_at_start id_comment (pre ++ c ∷ s) ≡ none
unfolding match_at_start run id_comment
id_comment-fails pre s c h code =
    ap (Option.map (to_match (start (pre ++ c ∷ s)))) (slash-fails id_rest [] pre s c h code)

no_directive :
    (pre s rest : Text) (c : ℕ)
    → AllIn is_space pre
    → BeginsCode c
    → starts_with (pre ++ c ∷ s) (b'#' ∷ rest) ≡ false
unfolding starts_with
no_directive [] s rest c h code = rw code.2 refl
no_directive (x ∷ pre) s rest c h code = rw (space-other x h.0).1 refl

no_guard :
    (cppvar : Option Text) (pre s : Text) (c : ℕ)
    → AllIn is_space pre
    → BeginsCode c
    → is_header_guard cppvar (pre ++ c ∷ s) ≡ false
no_guard none pre s c h code = refl
no_guard (some cppvar) pre s c h code =
    let none_of = λ (rest : Text). no_directive pre s rest c h code in
    rw
      (
        none_of (codes "ifndef " ++ cppvar),
        none_of (codes "define " ++ cppvar),
        none_of (codes "endif  // " ++ cppvar),
      )
      refl

code-may_be_long :
    (cppvar : Option Text) (pre s : Text) (c : ℕ)
    → AllIn is_space pre
    → BeginsCode c
    → may_be_long cppvar (pre ++ c ∷ s) ≡ false
unfolding may_be_long url_comment word_comment doc_comment
code-may_be_long cppvar pre s c h code =
    rw
      (
        no_directive pre s (codes "include") c h code,
        no_guard cppvar pre s c h code,
        comment-fails _ pre s c h code,
        id_comment-fails pre s c h code,
        comment-fails _ pre s c h code,
        comment-fails _ pre s c h code,
      )
      refl

-- A character that stands in one column.
abbrev pub IsNarrow : Unicode → ℕ → Type 0
IsNarrow u c = (u.is_wide c ≡ false) × (u.is_combining c ≡ false)

width-narrow : (u : Unicode) (line : Text) → All (IsNarrow u) line → width_of u line ≡ length line
unfolding width_of char_width
width-narrow u [] h = refl
width-narrow u (c ∷ s) h = rw (h.0.0, h.0.1, width-narrow u s h.1) (omega arith)

-- Let the first character of a line that is no white space be neither `/` nor `#`, let normalizing
-- leave the line as it is, and let each of its characters stand in one column: whatever the file
-- is, CheckStyle complains of the length of the line exactly if the line length that is set, a
-- number that is not negative, is less than the number of its characters.
pub check_line_length-code :
    (u : Unicode) (limit : ℕ) (cppvar : Option Text) (pre s : Text) (c linenum : ℕ)
    → AllIn is_space pre
    → BeginsCode c
    → u.normalize (pre ++ c ∷ s) ≡ pre ++ c ∷ s
    → All (IsNarrow u) (pre ++ c ∷ s)
    → check_line_length u (pos limit) cppvar (pre ++ c ∷ s) linenum
      ≡ report_if (ltb limit (length (pre ++ c ∷ s))) (length_report (pos limit) linenum) []
unfolding check_line_length get_line_width exceeds
check_line_length-code u limit cppvar pre s c linenum h code same narrow =
    rw (code-may_be_long cppvar pre s c h code, same, width-narrow u (pre ++ c ∷ s) narrow) refl
