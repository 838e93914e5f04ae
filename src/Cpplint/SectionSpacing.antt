-- ===== src/Cpplint/SectionSpacing.antt =====
-- CheckSectionSpacing of cpplint.py.
use adv_database_implementat.Base.{
  ℕ, zero, suc, ◌+◌, ◌-◌, ◌&&◌, ◌||◌, not, Option, none, some, List, [], ◌∷◌, ◌++◌, Text, codes,
  get_or, ltb, leb, if◌then◌else◌, is_some,
}
use adv_database_implementat.Regex.{
  Re, Matched, star, eol, word_boundary, group, space, chr, first_of_lits, ◌⨾◌, match_at_start,
  search_text, group_of, or_empty,
}
use adv_database_implementat.Cpplint.Report.{Report}
use adv_database_implementat.Cpplint.CleansedLines.{CleansedLines}
use adv_database_implementat.Cpplint.FileChecks.{report, report_if}
use adv_database_implementat.Cpplint.Nesting.{BlockInfo, ClassInfo}
use adv_database_implementat.Cpplint.Style.{is_blank_line}

-- \s*(public|protected|private):
unfoldable pub access_label : Re
access_label =
    star space ⨾ group 1 (first_of_lits ("public" ∷ "protected" ∷ "private" ∷ [])) ⨾ chr b':'

-- \b(class|struct)\b
unfoldable pub class_word : Re
class_word = word_boundary ⨾ group 1 (first_of_lits ("class" ∷ "struct" ∷ [])) ⨾ word_boundary

-- \\$
unfoldable pub ends_in_backslash : Re
ends_in_backslash = chr b'\\' ⨾ eol

-- \{\s*$
unfoldable pub opens_block : Re
opens_block = chr b'{' ⨾ star space ⨾ eol

-- The first of so many lines from a number on that ends with `{`, or else the given one.
unfoldable pub end_of_class_head : List Text → ℕ → ℕ → ℕ → ℕ
end_of_class_head lines starting_linenum i zero = starting_linenum
end_of_class_head lines starting_linenum i (suc n) =
    let further = end_of_class_head lines starting_linenum (suc i) n in
    if is_some (search_text opens_block (get_or lines i [])) then i else further

abbrev check_label : List Text → ℕ → ℕ → Option Matched → List Report
check_label lines starting_linenum linenum none = []
check_label lines starting_linenum linenum (some m) =
    let prev_line = get_or lines (linenum - 1) [] in
    report_if
      (not (is_blank_line prev_line)
        && (not (is_some (search_text class_word prev_line))
            && (not (is_some (search_text ends_in_backslash prev_line))
                && ltb
                    (end_of_class_head lines starting_linenum starting_linenum
                      (linenum - starting_linenum))
                    (linenum - 1))))
      (report linenum "whitespace/blank_line" 3
        (b'"' ∷ (or_empty (group_of m 1) ++ codes ":\" should be preceded by a blank line")))
      []

unfoldable pub check_section_spacing : CleansedLines → BlockInfo → ClassInfo → ℕ → List Report
check_section_spacing clean_lines b class_info linenum =
    if leb class_info.last_line (b.starting_linenum + 24) || leb linenum b.starting_linenum
    then []
    else check_label clean_lines.lines b.starting_linenum linenum
        (match_at_start access_label (get_or clean_lines.lines linenum []))
