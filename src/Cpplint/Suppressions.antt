-- ===== src/Cpplint/Suppressions.antt =====
-- The suppression of errors by comments in cpplint.py: ParseNolintSuppressions,
-- ProcessGlobalSuppresions, ResetNolintSuppressions and IsErrorSuppressedByNolint, over the two
-- module variables `_error_suppressions` and `_global_error_suppressions`.
pub mod Scope
use adv_database_implementat.Base.{
  ℕ, ◌+◌, ◌-◌, Bool, true, false, ◌&&◌, ◌||◌, Option, none, some, List, [], ◌∷◌, ◌++◌, Text, codes,
  length, take, drop, ◌==◌, ◌=t=◌, if◌then◌else◌, starts_with, ends_with, text_mem, dict_get,
  dict_put, text_key, option_key, is_some,
}
use adv_database_implementat.Regex.{
  Re, Matched, alt, star, group, eol, word_boundary, lit, opt, plus, chr, none_of, any_char, space,
  ◌⨾◌, search_text, group_of,
}
use adv_database_implementat.Cpplint.Categories.{
  error_categories, legacy_error_categories, default_c_suppressed_categories,
  default_kernel_suppressed_categories,
}
use adv_database_implementat.Cpplint.Report.{Report}

-- A set of line numbers is a list; a value of the second table is never False.
pub record Suppressions : Type 0 where
  pub error_suppressions : List (Option Text × List ℕ)
  pub global_error_suppressions : List (Text × Bool)

unfoldable pub line_mem : ℕ → List ℕ → Bool
line_mem n [] = false
line_mem n (m ∷ ms) = n == m || line_mem n ms

abbrev lines_of : Option (List ℕ) → List ℕ
lines_of none = []
lines_of (some ns) = ns

-- _error_suppressions.setdefault(category, set()).add(linenum)
unfoldable pub add_suppression : Option Text → ℕ → Suppressions → Suppressions
unfolding dict_get dict_put
add_suppression category n s = record s {
  error_suppressions =
      dict_put s.error_suppressions category
        (n ∷ lines_of (dict_get s.error_suppressions category));
}

-- \bNOLINT(NEXTLINE)?\b(\([^)]+\))?
unfoldable pub nolint_pattern : Re
nolint_pattern =
    word_boundary
    ⨾ lit "NOLINT"
    ⨾ opt (group 1 (lit "NEXTLINE"))
    ⨾ word_boundary
    ⨾ opt (group 2 (chr b'(' ⨾ plus (none_of ")") ⨾ chr b')'))

abbrev unknown_category : ℕ → Text → Report
unknown_category linenum category = record {
  linenum = linenum;
  category = codes "readability/nolint";
  confidence = 5;
  message = codes "Unknown NOLINT error category: " ++ category;
}

-- category[1:-1]
unfoldable pub inner : Text → Text
inner s = take (length s - 2) (drop 1 s)

-- The `else` branch: a category in parentheses.
unfoldable pub nolint_category : Text → ℕ → ℕ → Suppressions → Suppressions × List Report
nolint_category category suppressed_line linenum s =
    if starts_with category (codes "(") && ends_with category (codes ")")
    then (if text_mem (inner category) error_categories
        then (add_suppression (some (inner category)) suppressed_line s, [])
        else if text_mem (inner category) legacy_error_categories
        then (s, [])
        else (s, unknown_category linenum (inner category) ∷ []))
    else (s, [])

-- `category in (None, '(*)')`
unfoldable pub nolint_group : Option Text → ℕ → ℕ → Suppressions → Suppressions × List Report
nolint_group none suppressed_line linenum s = (add_suppression none suppressed_line s, [])
nolint_group (some category) suppressed_line linenum s =
    if category =t= codes "(*)"
    then (add_suppression none suppressed_line s, [])
    else nolint_category category suppressed_line linenum s

-- Group 1 of the match says which line is meant.
unfoldable pub suppressed_line : Matched → ℕ → ℕ
unfolding group_of
suppressed_line m linenum = if is_some (group_of m 1) then linenum + 1 else linenum

unfoldable pub nolint_matched : Option Matched → ℕ → Suppressions → Suppressions × List Report
nolint_matched none linenum s = (s, [])
nolint_matched (some m) linenum s =
    nolint_group (group_of m 2) (suppressed_line m linenum) linenum s

unfoldable pub parse_nolint_suppressions : Text → ℕ → Suppressions → Suppressions × List Report
parse_nolint_suppressions raw_line linenum s =
    nolint_matched (search_text nolint_pattern raw_line) linenum s

-- \b(?:LINT_C_FILE|vim?:\s*.*(\s*|:)filetype=c(\s*|:|$))
unfoldable pub search_c_file : Re
search_c_file =
    word_boundary
    ⨾ alt (lit "LINT_C_FILE") (
        lit "vi"
        ⨾ opt (chr b'm')
        ⨾ chr b':'
        ⨾ star space
        ⨾ star any_char
        ⨾ group 1 (alt (star space) (chr b':'))
        ⨾ lit "filetype=c"
        ⨾ group 2 (alt (star space) (alt (chr b':') eol)))

-- \b(?:LINT_KERNEL_FILE)
unfoldable pub search_kernel_file : Re
search_kernel_file = word_boundary ⨾ lit "LINT_KERNEL_FILE"

-- for category in categories: _global_error_suppressions[category] = True
unfoldable pub suppress_globally : List Text → Suppressions → Suppressions
unfolding dict_put
suppress_globally [] s = s
suppress_globally (category ∷ rest) s =
    suppress_globally rest
      (record s { global_error_suppressions = dict_put s.global_error_suppressions category true })

unfoldable pub process_global_line : Text → Suppressions → Suppressions
process_global_line line s =
    let c =
      if is_some (search_text search_c_file line)
      then suppress_globally default_c_suppressed_categories s
      else s in
    if is_some (search_text search_kernel_file line)
    then suppress_globally default_kernel_suppressed_categories c
    else c

unfoldable pub process_global_suppressions : List Text → Suppressions → Suppressions
process_global_suppressions [] s = s
process_global_suppressions (line ∷ lines) s =
    process_global_suppressions lines (process_global_line line s)

unfoldable pub reset_nolint_suppressions : Suppressions → Suppressions
reset_nolint_suppressions s = record { error_suppressions = []; global_error_suppressions = [] }

abbrev or_false : Option Bool → Bool
or_false none = false
or_false (some b) = b

unfoldable pub is_error_suppressed_by_nolint : Suppressions → Text → ℕ → Bool
unfolding dict_get line_mem
is_error_suppressed_by_nolint s category linenum =
    or_false (dict_get s.global_error_suppressions category)
    || (line_mem linenum (lines_of (dict_get s.error_suppressions (some category)))
        || line_mem linenum (lines_of (dict_get s.error_suppressions none)))
