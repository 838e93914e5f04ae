-- ===== src/Cpplint/Tests/Lines.antt =====
-- The copies of the lines, the size of functions and the open blocks at concrete inputs.
use adv_database_implementat.Base.{
  ℕ, zero, suc, ◌*◌, ◌^◌, ◌≤◌, ◌<◌, true, List, [], ◌∷◌, Text, codes, ltb, leb, if◌then◌else◌, All,
  some, arith, ◌≡◌, refl, is_space, not, ◌==◌, Bool-cases, inl, inr, subst, false,
}
use adv_database_implementat.Regex.{match_at_start}
use adv_database_implementat.Regex.Laws.{AllIn-all, no_newline}
use adv_database_implementat.Cpplint.Report.{Report}
use adv_database_implementat.Cpplint.Comments.{remove_multi_line_comments}
use adv_database_implementat.Cpplint.Comments.MultiLine.{
  remove_multi_line_comments-IsCleaned, IsCleaned,
}
use adv_database_implementat.Cpplint.CleansedLines.{CleansedLines, cleansed_lines}
use adv_database_implementat.Cpplint.CleansedLines.{collapse_strings, include_line}
use adv_database_implementat.Cpplint.CleansedLines.Strings.{
  collapse_strings-with_strings, with_strings, with_empty_strings, no_backslash, plain_char,
  is_quote,
}
use adv_database_implementat.Cpplint.FunctionState
use adv_database_implementat.Cpplint.FunctionState.{FunctionState, begin, check, base_trigger}
use adv_database_implementat.Cpplint.FunctionState.Size.{
  check-size, count_lines, of_function, reports_any,
}
use adv_database_implementat.Cpplint.Nesting
use adv_database_implementat.Cpplint.Nesting.{
  seen_open_brace, Stack, BlockInfo, NestingState, update_preprocessor, directive_of, if_pattern,
  else_pattern, endif_pattern,
}
use adv_database_implementat.Cpplint.Nesting.Braces.{consume_braces-scan, scan}
use adv_database_implementat.Cpplint.Nesting.Balance.{consume_braces-balanced, balanced}
use adv_database_implementat.Cpplint.Nesting.Update.{consume_braces}
use adv_database_implementat.Cpplint.Nesting.Indent.{get_indent_level-exact, begins_visible}
use adv_database_implementat.Cpplint.Nesting.Blocks.{get_indent_level, new_block}
use adv_database_implementat.Cpplint.Nesting.Branches.{branches-first, run_branches, within}

abbrev commented : List Text
commented = codes "int a;" ∷ codes "/* one" ∷ codes "two */" ∷ codes "int b;" ∷ []

remove_multi_line_comments-IsCleaned_example :
    (out : List Text) × (reports : List Report) × (remove_multi_line_comments commented
      ≡ some (out, reports))
    × IsCleaned commented out reports
remove_multi_line_comments-IsCleaned_example = remove_multi_line_comments-IsCleaned commented

abbrev quoted : List Text
quoted = codes "x = R\"(a" ∷ codes "b)\" + \"// c\";  // d" ∷ []

-- The greatest exponent, up to a bound, with which a multiple of a power of two stays below.
unfoldable log_up_to : ℕ → ℕ → ℕ → ℕ
log_up_to zero a b = 0
log_up_to (suc n) a b = let less = log_up_to n a b in if leb (b * 2 ^ suc n) a then suc n else less

abbrev log_ratio : ℕ → ℕ → ℕ
log_ratio a b = log_up_to a a b

log_up_to-greatest : (n a b v : ℕ) → v ≤ n → b * 2 ^ v ≤ a → v ≤ log_up_to n a b
unfolding log_up_to
log_up_to-greatest zero a b v le h = le
log_up_to-greatest (suc n) a b v le h = elim (Bool-cases (leb (b * 2 ^ suc n) a)) [
  | inl fits ↦ rw fits le
  | inr over ↦ rw over (log_up_to-greatest n a b v (below over) h)
]
  where
    below : leb (b * 2 ^ suc n) a ≡ false → v ≤ n
    below over = elim (Bool-cases (leb v n)) [
      | inl lower ↦ ground arith
      | inr top ↦
          let at_top : v ≡ suc n = ground arith in
          absurd (ground (arith, over, subst (λ w. b * 2 ^ w ≤ a) at_top h))
    ]

exponent-less : (v : ℕ) → v < 2 ^ v
exponent-less zero = omega arith
exponent-less (suc v) = omega (arith, exponent-less v)

exponent-bound : (a b v : ℕ) → 0 < b → b * 2 ^ v < a → v ≤ a
exponent-bound a zero v pos h = absurd (omega arith)
exponent-bound a (suc b) v pos h = omega (arith, h, exponent-less v)

abbrev long_name : Text
long_name = codes "TEST(LogManager, Recovers)"

check-size_example :
    (reports_any (check log_ratio 1 9 (count_lines 801 (begin long_name FunctionState.init)))
      ≡ ltb (base_trigger (of_function long_name) * 2 ^ 1) 801)
    × All
        (λ r. (1 ≤ r.confidence) × (r.confidence ≤ 5))
        (check log_ratio 1 9 (count_lines 801 (begin long_name FunctionState.init)))
check-size_example =
    check-size log_ratio 1 9 801 long_name FunctionState.init
      (λ a b v level pos h.
        log_up_to-greatest a a b v (exponent-bound a b v pos h) (omega (arith, h)))
      (ground arith)

abbrev a_block : BlockInfo
a_block = new_block 4 true

branches-first_example :
    update_preprocessor (codes "#endif  // X") (
      run_branches
        ((codes "# else", []) ∷ [])
        (within (a_block ∷ []) (update_preprocessor (codes "#ifdef X") Nesting.init)))
    ≡ within (a_block ∷ []) Nesting.init
unfolding directive_of if_pattern else_pattern endif_pattern match_at_start is_space
branches-first_example =
    branches-first (codes "#ifdef X") (codes "#endif  // X") (a_block ∷ [])
      ((codes "# else", []) ∷ []) Nesting.init refl (refl, tt) refl

abbrev a_file : CleansedLines
a_file = cleansed_lines (codes "if (a) { b(); } else { c(); }" ∷ [])

consume_braces-scan_example :
    consume_braces 30 a_file 0 (codes "if (a) { b(); }") (a_block ∷ [])
    ≡ scan a_file 0 (codes "if (a) { b(); }") (codes "if (a) { b(); }") (a_block ∷ [])
consume_braces-scan_example =
    consume_braces-scan a_file 0 30 (codes "if (a) { b(); }") (a_block ∷ []) (ground arith)
      (AllIn-all no_newline (codes "if (a) { b(); }") refl)

consume_braces-balanced_example :
    consume_braces 30 a_file 0 (codes "a {{b;} (c) {}}") (a_block ∷ []) ≡ (a_block ∷ [], [])
unfolding balanced new_block seen_open_brace
consume_braces-balanced_example =
    consume_braces-balanced a_file 0 30 (codes "a {{b;} (c) {}}") (a_block ∷ []) (ground arith)
      (AllIn-all no_newline (codes "a {{b;} (c) {}}") refl) refl refl

get_indent_level-exact_example : get_indent_level (codes "  int x;") ≡ 2
unfolding begins_visible is_space
get_indent_level-exact_example = get_indent_level-exact 2 (codes "int x;") refl

abbrev strings : List (Text × Text)
strings = (codes "f(", codes "it's") ∷ (codes " + ", codes "// {") ∷ []

abbrev string_line : Text
string_line = codes "f(\"it's\" + \"// {\");"

collapse_strings-with_strings_example : collapse_strings string_line ≡ codes "f(\"\" + \"\");"
unfolding with_strings with_empty_strings include_line match_at_start is_space is_quote
collapse_strings-with_strings_example =
    collapse_strings-with_strings strings (codes ");") refl
      (AllIn-all no_backslash string_line refl)
      (
        (
          AllIn-all plain_char (codes "f(") refl,
          AllIn-all (λ c. not (c == b'"')) (codes "it's") refl,
        ),
        (
          (
            AllIn-all plain_char (codes " + ") refl,
            AllIn-all (λ c. not (c == b'"')) (codes "// {") refl,
          ),
          tt,
        ),
      )
      (AllIn-all plain_char (codes ");") refl) (AllIn-all no_newline string_line refl)

abbrev in_block : NestingState
in_block = record Nesting.init { stack = a_block ∷ [] }

abbrev ordinary_file : CleansedLines
ordinary_file = record {
  elided = codes "if (a) { b(); }" ∷ [];
  lines = codes "if (a) { b(); }" ∷ [];
  raw_lines = codes "if (a) { b(); }" ∷ [];
  num_lines = 1;
  lines_without_raw_strings = codes "if (a) { b(); }" ∷ [];
}
