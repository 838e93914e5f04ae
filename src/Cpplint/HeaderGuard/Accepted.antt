-- ===== src/Cpplint/HeaderGuard/Accepted.antt =====
-- A header whose guard CheckForHeaderGuard accepts.
use adv_database_implementat.Base.{
  ℕ, suc, ◌+◌, true, false, some, List, [], ◌∷◌, ◌++◌, Text, codes, length, get_or, starts_with,
  =t=_refl, is_space, arith, ◌≡◌, refl, ap, ap₂, ◌∙◌, sym, map, append_assoc, length-append,
  get_or-drop, drop-append, drop,
}
use adv_database_implementat.Regex.{is_word}
use adv_database_implementat.Regex.Laws.{AllIn}
use adv_database_implementat.Cpplint.FunctionLengths.{words}
use adv_database_implementat.Cpplint.HeaderGuard.{
  nolint, no_guard, guard_line, guard_lines, check_guard,
}
use adv_database_implementat.Cpplint.CleansedLines.{CleansedLines}
use adv_database_implementat.Cpplint.FileChecks.{any_found}
use adv_database_implementat.Cpplint.FileInfo.{Files}
use adv_database_implementat.Cpplint.HeaderGuard.{
  get_header_guard_cpp_variable, check_for_header_guard, nolint_guard, pragma_once,
}
use adv_database_implementat.Cpplint.HeaderGuard.Variable.{
  guard_char, is_guard_char, get_header_guard_cpp_variable-class,
}
use adv_database_implementat.Cpplint.HeaderGuard.Scan.{
  Neutral, guard_lines-Neutral, guard_lines-Neutral_all, words-word,
}
use adv_database_implementat.Cpplint.HeaderGuard.Endif.{match-endif}

guard_line-ifndef :
    (n c : ℕ) (v : Text)
    → AllIn is_word (c ∷ v)
    → guard_line n (codes "#ifndef " ++ c ∷ v) no_guard
      ≡ record no_guard { ifndef = c ∷ v; ifndef_linenum = n }
unfolding guard_line words is_space starts_with
guard_line-ifndef n c v h = rw (words-word c v h) refl

guard_line-define :
    (n m c : ℕ) (v : Text)
    → AllIn is_word (c ∷ v)
    → guard_line n
        (codes "#define " ++ c ∷ v)
        (record no_guard { ifndef = c ∷ v; ifndef_linenum = m })
      ≡ record no_guard { ifndef = c ∷ v; ifndef_linenum = m; define = c ∷ v }
unfolding guard_line words is_space starts_with
guard_line-define n m c v h = rw (words-word c v h) refl

guard_line-endif :
    (n m c : ℕ) (v : Text)
    → AllIn is_word (c ∷ v)
    → guard_line n
        (codes "#endif  // " ++ c ∷ v)
        (record no_guard { ifndef = c ∷ v; ifndef_linenum = m; define = c ∷ v })
      ≡ record {
        ifndef = c ∷ v;
        ifndef_linenum = m;
        define = c ∷ v;
        endif = codes "#endif  // " ++ c ∷ v;
        endif_linenum = n;
      }
unfolding guard_line words is_space starts_with
guard_line-endif n m c v h = rw (words-word c v h) refl

-- A header with a guard for `v`.
unfoldable pub guarded : Text → List Text → List Text → List Text → List Text
guarded v before body after =
    before
    ++ (codes "#ifndef " ++ v)
      ∷ (codes "#define " ++ v)
      ∷ (body ++ (codes "#endif  // " ++ v) ∷ after)

guard_lines-guarded :
    (c : ℕ) (v : Text) (before body after : List Text)
    → AllIn is_word (c ∷ v)
    → Neutral before
    → Neutral body
    → Neutral after
    → guard_lines 0 (guarded (c ∷ v) before body after) no_guard ≡ record {
      ifndef = c ∷ v;
      ifndef_linenum = length before;
      define = c ∷ v;
      endif = codes "#endif  // " ++ c ∷ v;
      endif_linenum = length before + 2 + length body;
    }
unfolding guarded guard_lines
guard_lines-guarded c v before body after h neutral_before neutral_body neutral_after =
    let n = length before in
    let rest = (codes "#endif  // " ++ c ∷ v) ∷ after in
    guard_lines-Neutral 0 before
      ((codes "#ifndef " ++ c ∷ v) ∷ (codes "#define " ++ c ∷ v) ∷ (body ++ rest)) no_guard
      neutral_before
    ∙ ap
        (λ g.
          guard_lines (suc (suc (0 + n))) (body ++ rest)
            (guard_line (suc (0 + n)) (codes "#define " ++ c ∷ v) g))
        (guard_line-ifndef (0 + n) c v h)
    ∙ ap (guard_lines (suc (suc (0 + n))) (body ++ rest))
        (guard_line-define (suc (0 + n)) (0 + n) c v h)
    ∙ guard_lines-Neutral (suc (suc (0 + n))) body rest _ neutral_body
    ∙ ap (guard_lines (suc (suc (suc (0 + n)) + length body)) after)
        (guard_line-endif (suc (suc (0 + n)) + length body) (0 + n) c v h)
    ∙ guard_lines-Neutral_all (suc (suc (suc (0 + n)) + length body)) after _ neutral_after
    ∙ ap₂
        (λ i j. record {
          ifndef = c ∷ v;
          ifndef_linenum = i;
          define = c ∷ v;
          endif = codes "#endif  // " ++ c ∷ v;
          endif_linenum = j;
        })
        (omega arith) (omega arith)

-- The line of the comment stands where the scan found it.
endif-place :
    (v : Text) (before body after : List Text)
    → get_or (guarded v before body after) (length before + 2 + length body) []
      ≡ codes "#endif  // " ++ v
unfolding guarded
endif-place v before body after =
    let line = codes "#endif  // " ++ v in
    let head = (codes "#ifndef " ++ v) ∷ (codes "#define " ++ v) ∷ body in
    let place : length before + 2 + length body ≡ length (before ++ head) =
      omega (arith, length-append before head) in
    get_or-drop (length before + 2 + length body) (before ++ (head ++ line ∷ after)) line after [] (
      ap₂ drop place (sym (append_assoc before head (line ∷ after)))
      ∙ drop-append (before ++ head) (line ∷ after))

check_guard-accepted :
    (c : ℕ) (v : Text) (before body after : List Text)
    → AllIn is_word (c ∷ v)
    → Neutral before
    → Neutral body
    → Neutral after
    → check_guard
        (guarded (c ∷ v) before body after)
        (c ∷ v)
        (guard_lines 0 (guarded (c ∷ v) before body after) no_guard)
      ≡ nolint (codes "#endif  // " ++ c ∷ v) (length before + 2 + length body) ∷ []
unfolding check_guard
check_guard-accepted c v before body after h neutral_before neutral_body neutral_after =
    let (m, e, no_group) = match-endif c v h in
    rw
      (
        guard_lines-guarded c v before body after h neutral_before neutral_body neutral_after,
        =t=_refl (c ∷ v),
        e,
        no_group,
      )
      (ap (λ line. nolint line (length before + 2 + length body) ∷ [])
        (endif-place (c ∷ v) before body after))

guard-word : (c : ℕ) → is_guard_char c ≡ true → is_word c ≡ true
unfolding is_guard_char is_word
guard-word c h = ground arith

guard-words : (v : Text) → AllIn is_guard_char v → AllIn is_word v
guard-words [] h = tt
guard-words (c ∷ v) h = (guard-word c h.0, guard-words v h.1)

check_guard-accepted_variable :
    (v path : Text) (before body after : List Text)
    → v ≡ map guard_char path ++ b'_' ∷ []
    → AllIn is_guard_char v
    → Neutral before
    → Neutral body
    → Neutral after
    → check_guard
        (guarded v before body after)
        v
        (guard_lines 0 (guarded v before body after) no_guard)
      ≡ nolint (codes "#endif  // " ++ v) (length before + 2 + length body) ∷ []
check_guard-accepted_variable [] path before body after e h =
    absurd (omega (arith, ap length e, length-append (map guard_char path) (b'_' ∷ [])))
check_guard-accepted_variable (c ∷ v) path before body after e h =
    check_guard-accepted c v before body after (guard-words (c ∷ v) h)

-- CheckForHeaderGuard accepts a header with `#ifndef` and `#define` of the variable that
-- GetHeaderGuardCPPVariable gives on two successive lines and `#endif  // ` with the variable
-- further down, if its other lines neither begin with #endif nor have #ifndef or #define for their
-- first word, and no line has `#pragma once` or suppresses the check: no error is reported, only the comment
-- behind #endif is read for NOLINT.
pub check_for_header_guard-accepted :
    (f : Files) (root filename : Text) (clean_lines : CleansedLines) (v : Text)
    (before body after : List Text)
    → get_header_guard_cpp_variable f root filename ≡ some v
    → clean_lines.lines_without_raw_strings ≡ guarded v before body after
    → any_found nolint_guard (guarded v before body after) ≡ false
    → any_found pragma_once (guarded v before body after) ≡ false
    → Neutral before
    → Neutral body
    → Neutral after
    → check_for_header_guard f root filename clean_lines
      ≡ some (nolint (codes "#endif  // " ++ v) (length before + 2 + length body) ∷ [])
unfolding check_for_header_guard
check_for_header_guard-accepted f root filename clean_lines v before body after variable lines
      no_nolint no_pragma neutral_before neutral_body neutral_after =
    let (path, fixed, found, fixes, e, letters) =
      get_header_guard_cpp_variable-class f root filename v variable in
    rw (lines, no_nolint, no_pragma, variable)
      (ap some (
        check_guard-accepted_variable v fixed before body after e letters neutral_before
          neutral_body neutral_after))
