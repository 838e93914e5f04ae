-- ===== src/Cpplint/FileChecks/Features.antt =====
-- FlagCxx11Features and FlagCxx14Features of cpplint.py.
use adv_database_implementat.Base.{
  ℕ, ◌&&◌, not, Option, none, some, List, [], ◌∷◌, ◌++◌, Text, codes, get_or, if◌then◌else◌,
  is_some, starts_with, text_mem, String,
}
use adv_database_implementat.Regex.{
  Re, Matched, star, plus, word_boundary, space, chr, none_of, one_of, group, lit, ◌⨾◌,
  match_at_start, search_text, group_of,
}
use adv_database_implementat.Cpplint.Report.{Report}
use adv_database_implementat.Cpplint.CleansedLines.{CleansedLines}
use adv_database_implementat.Cpplint.FileChecks.{report, report_if}

-- \s*#\s*include\s+[<"]([^<"]+)[">]
unfoldable pub included_pattern : Re
included_pattern =
    star space
    ⨾ chr b'#'
    ⨾ star space
    ⨾ lit "include"
    ⨾ plus space
    ⨾ one_of "<\""
    ⨾ group 1 (plus (none_of "<\""))
    ⨾ one_of "\">"

abbrev pub included_header : Option Matched → Option Text
included_header none = none
included_header (some m) = group_of m 1

unfoldable pub cxx11_headers : List Text
cxx11_headers =
    codes "cfenv"
    ∷ codes "condition_variable"
    ∷ codes "fenv.h"
    ∷ codes "future"
    ∷ codes "mutex"
    ∷ codes "thread"
    ∷ codes "chrono"
    ∷ codes "ratio"
    ∷ codes "regex"
    ∷ codes "system_error"
    ∷ []

abbrev if_header : (Text → List Report) → Option Text → List Report
if_header f none = []
if_header f (some header) = f header

unfoldable pub flag_headers : ℕ → Text → List Report
flag_headers linenum header =
    report_if (starts_with header (codes "tr1/"))
      (report linenum "build/c++tr1" 5
        (codes "C++ TR1 headers such as <" ++ (header ++ codes "> are unapproved.")))
      (report_if (text_mem header cxx11_headers)
        (report linenum "build/c++11" 5
          (codes "<" ++ (header ++ codes "> is an unapproved C++11 header.")))
        [])

-- \s*# and \s*#\s*define\b
unfoldable pub directive_start : Re
directive_start = star space ⨾ chr b'#'

unfoldable pub define_start : Re
define_start = star space ⨾ chr b'#' ⨾ star space ⨾ lit "define" ⨾ word_boundary

unfoldable pub flag_std : ℕ → Text → List String → List Report
flag_std linenum line [] = []
flag_std linenum line (top_name ∷ names) =
    report_if
      (is_some (search_text (word_boundary ⨾ lit "std::" ⨾ lit top_name ⨾ word_boundary) line))
      (report linenum "build/c++11" 5 (
        codes "std::"
        ++ (codes top_name
            ++ codes
                " is an unapproved C++11 class or function.  Send c-style an example of where it would make your code more readable, and they may let you use it.")))
      (flag_std linenum line names)

unfoldable pub flag_cxx11_features : CleansedLines → ℕ → List Report
flag_cxx11_features clean_lines linenum =
    let line = get_or clean_lines.elided linenum [] in
    if_header (flag_headers linenum) (included_header (match_at_start included_pattern line))
    ++ (if is_some (match_at_start directive_start line)
          && not (is_some (match_at_start define_start line))
        then []
        else flag_std linenum line ("alignment_of" ∷ "aligned_union" ∷ []))

unfoldable pub flag_cxx14_features : CleansedLines → ℕ → List Report
flag_cxx14_features clean_lines linenum =
    if_header
      (λ header.
        report_if (text_mem header (codes "scoped_allocator" ∷ codes "shared_mutex" ∷ []))
          (report linenum "build/c++14" 5
            (codes "<" ++ (header ++ codes "> is an unapproved C++14 header.")))
          [])
      (included_header (match_at_start included_pattern (get_or clean_lines.elided linenum [])))
