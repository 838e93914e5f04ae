-- ===== src/Cpplint/Style.antt =====
-- CheckStyle of cpplint.py up to its calls of other checks, with GetLineWidth, IsBlankLine and
-- GetPreviousNonBlankLine.
pub mod Previous
pub mod Width
use adv_database_implementat.Base.{
  ℕ, zero, suc, ◌+◌, ◌-◌, ℤ, pos, negsuc, Bool, true, false, ◌&&◌, ◌||◌, not, Option, none, some,
  List, [], ◌∷◌, ◌++◌, map, String, Text, codes, reverse, length, drop, take, get_or, ◌==◌, ltb,
  leb, ◌=t=◌, if◌then◌else◌, is_some, all, is_space, starts_with, find, count, char_mem,
}
use adv_database_implementat.Regex.{
  Re, Matched, set, star, opt, plus, bol, eol, word_boundary, ahead, alt, group, space, not_space,
  any_char, word, is_digit, chr, none_of, one_of, lit, first_of_lits, ◌⨾◌, match_at_start,
  search_text, group_of, or_empty,
}
use adv_database_implementat.Cpplint.Report.{Report, decimal}
use adv_database_implementat.Cpplint.CleansedLines.{CleansedLines}
use adv_database_implementat.Cpplint.FileChecks.{report, report_if}
use adv_database_implementat.Cpplint.Nesting.{BlockInfo, ClassInfo}

unfoldable pub is_blank_line : Text → Bool
is_blank_line line = all is_space line

-- The loop from the line before a number up: the line and its number, or the empty line and -1.
unfoldable pub get_previous_non_blank_line : List Text → ℕ → Text × Option ℕ
get_previous_non_blank_line elided zero = ([], none)
get_previous_non_blank_line elided (suc prevlinenum) =
    let prevline = get_or elided prevlinenum [] in
    let further = get_previous_non_blank_line elided prevlinenum in
    if is_blank_line prevline then further else (prevline, some prevlinenum)

-- unicodedata: normalize('NFC', s), the test for east_asian_width W or F, and combining.
pub record Unicode : Type 0 where
  pub normalize : Text → Text
  pub is_wide : ℕ → Bool
  pub is_combining : ℕ → Bool

unfoldable pub char_width : Unicode → ℕ → ℕ
char_width u uc = if u.is_wide uc then 2 else if u.is_combining uc then 0 else 1

unfoldable pub width_of : Unicode → Text → ℕ
width_of u [] = 0
width_of u (uc ∷ s) = char_width u uc + width_of u s

-- For Python behind 3.2.
unfoldable pub get_line_width : Unicode → Text → ℕ
get_line_width u line = width_of u (u.normalize line)

abbrev has : String → Text → Bool
has s line = is_some (find line (codes s))

unfoldable pub initial_spaces : Text → ℕ
initial_spaces [] = 0
initial_spaces (c ∷ line) = let more = initial_spaces line in if c == b' ' then suc more else 0

-- [",=><] *$
unfoldable pub continued : Re
continued = one_of "\",=><" ⨾ star (chr b' ') ⨾ eol

-- \s*\w+\s*:\s*\\?$
unfoldable pub scope_or_label_pattern : Re
scope_or_label_pattern =
    star space ⨾ plus word ⨾ star space ⨾ chr b':' ⨾ star space ⨾ opt (chr b'\\') ⨾ eol

-- ^\s*""
unfoldable pub emptied_string : Re
emptied_string = bol ⨾ star space ⨾ lit "\"\""

unfoldable pub check_tab : Text → ℕ → List Report
check_tab line linenum =
    report_if (has "\t" line)
      (report linenum "whitespace/tab" 1 (codes "Tab found; better to use spaces")) []

unfoldable pub check_indent : CleansedLines → Text → Text → ℕ → List Report
check_indent clean_lines prev line linenum =
    let spaces = initial_spaces line in
    report_if
      (not (is_some (search_text continued prev))
        && ((spaces == 1 || spaces == 3)
            && (not (
                  is_some
                    (match_at_start scope_or_label_pattern (get_or clean_lines.elided linenum [])))
                && not (
                    not (get_or clean_lines.raw_lines linenum [] =t= line)
                    && is_some (match_at_start emptied_string line)))))
      (report linenum "whitespace/indent" 3
        (codes "Weird number of spaces at line-start.  Are you using a 2-space indent?"))
      []

abbrev begins_with_space : Text → Bool
begins_with_space [] = false
begins_with_space (c ∷ s) = is_space c

unfoldable pub check_end_of_line : Text → ℕ → List Report
check_end_of_line line linenum =
    report_if (begins_with_space (reverse line))
      (report linenum "whitespace/end_of_line" 4
        (codes "Line ends in whitespace.  Consider deleting these extra spaces."))
      []

-- `cppvar` is the variable of the header guard, if the file is a header.
abbrev pub is_header_guard : Option Text → Text → Bool
is_header_guard none line = false
is_header_guard (some cppvar) line =
    starts_with line (codes "#ifndef " ++ cppvar)
    || (starts_with line (codes "#define " ++ cppvar)
        || starts_with line (codes "#endif  // " ++ cppvar))

-- ^\s*//.*http(s?)://\S*$
unfoldable pub url_comment : Re
url_comment =
    bol
    ⨾ star space
    ⨾ chr b'/'
    ⨾ chr b'/'
    ⨾ star any_char
    ⨾ lit "http"
    ⨾ group 1 (opt (chr b's'))
    ⨾ lit "://"
    ⨾ star not_space
    ⨾ eol

-- ^\s*//\s*[^\s]*$
unfoldable pub word_comment : Re
word_comment = bol ⨾ star space ⨾ chr b'/' ⨾ chr b'/' ⨾ star space ⨾ star not_space ⨾ eol

-- / \$Id:.*#[0-9]+ \$$
abbrev pub id_rest : Re
id_rest = lit "/ $Id:" ⨾ star any_char ⨾ chr b'#' ⨾ plus (set is_digit) ⨾ lit " $" ⨾ eol

-- ^// \$Id:.*#[0-9]+ \$$
unfoldable pub id_comment : Re
id_comment = bol ⨾ chr b'/' ⨾ id_rest

-- ^\s*/// [@\\](copydoc|copydetails|copybrief) .*$
unfoldable pub doc_comment : Re
doc_comment =
    bol
    ⨾ star space
    ⨾ chr b'/'
    ⨾ lit "// "
    ⨾ one_of "@\\"
    ⨾ group 1 (first_of_lits ("copydoc" ∷ "copydetails" ∷ "copybrief" ∷ []))
    ⨾ chr b' '
    ⨾ star any_char
    ⨾ eol

unfoldable pub may_be_long : Option Text → Text → Bool
may_be_long cppvar line =
    starts_with line (codes "#include")
    || (is_header_guard cppvar line
        || (is_some (match_at_start url_comment line)
            || (is_some (match_at_start word_comment line)
                || (is_some (match_at_start id_comment line)
                    || is_some (match_at_start doc_comment line)))))

unfoldable pub exceeds : ℕ → ℤ → Bool
exceeds width (pos limit) = ltb limit width
exceeds width (negsuc n) = true

abbrev decimal_of : ℤ → Text
decimal_of (pos n) = decimal n
decimal_of (negsuc n) = b'-' ∷ decimal (suc n)

abbrev pub length_report : ℤ → ℕ → Report
length_report line_length linenum =
    report linenum "whitespace/line_length" 2
      (codes "Lines should be <= " ++ (decimal_of line_length ++ codes " characters long"))

unfoldable pub check_line_length : Unicode → ℤ → Option Text → Text → ℕ → List Report
check_line_length u line_length cppvar line linenum =
    report_if (not (may_be_long cppvar line) && exceeds (get_line_width u line) line_length)
      (length_report line_length linenum) []

-- ^[^{};]*\[[^\[\]]*\][^{}]*\{[^{}\n\r]*\}
unfoldable pub single_line_lambda : Re
single_line_lambda =
    bol
    ⨾ star (none_of "{};")
    ⨾ chr b'['
    ⨾ star (none_of "[]")
    ⨾ chr b']'
    ⨾ star (none_of "{}")
    ⨾ chr b'{'
    ⨾ star (set (λ x. not (x == b'{' || x == b'}' || x == b'\n' || x == 13)))
    ⨾ chr b'}'

unfoldable pub check_commands : CleansedLines → Text → ℕ → List Report
check_commands clean_lines line linenum =
    let cleansed_line = get_or clean_lines.elided linenum [] in
    let previous = (get_previous_non_blank_line clean_lines.elided linenum).0 in
    report_if
      (ltb 1 (count cleansed_line (codes ";"))
        && (not (is_some (match_at_start single_line_lambda line))
            && (not (has "for" cleansed_line)
                && ((not (has "for" previous) || has ";" previous)
                    && not (
                        (has "case " cleansed_line || has "default:" cleansed_line)
                        && has "break;" cleansed_line)))))
      (report linenum "whitespace/newline" 0 (codes "More than one command on the same line")) []

abbrev previous_line : List Text → ℕ → Text
previous_line raw_lines zero = []
previous_line raw_lines (suc n) = get_or raw_lines n []

-- The part of CheckStyle before its calls of other checks. GetHeaderGuardCPPVariable has given `cppvar`
-- for a header.
unfoldable pub check_style_of_line : Unicode → ℤ → Option Text → CleansedLines → ℕ → List Report
check_style_of_line u line_length cppvar clean_lines linenum =
    let raw_lines = clean_lines.lines_without_raw_strings in
    let line = get_or raw_lines linenum [] in
    check_tab line linenum
    ++ (check_indent clean_lines (previous_line raw_lines linenum) line linenum
        ++ (check_end_of_line line linenum
            ++ (check_line_length u line_length cppvar line linenum
                ++ check_commands clean_lines line linenum)))
