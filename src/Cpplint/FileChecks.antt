-- ===== src/Cpplint/FileChecks.antt =====
-- The checks of cpplint.py that look at a file as a whole, CheckForCopyright, CheckForBadCharacters
-- and CheckForNewlineAtEOF, and those that look at one elided line by itself:
-- CheckForMultilineCommentsAndStrings, CheckPosixThreading, CheckVlogArguments and
-- CheckInvalidIncrement.
pub mod Copyright
pub mod Ending
pub mod Features
use adv_database_implementat.Base.{
  ℕ, zero, suc, ◌+◌, ◌-◌, ◌%◌, Bool, true, false, ◌&&◌, ◌||◌, not, Option, none, some, List, [],
  ◌∷◌, ◌++◌, Text, codes, length, take, drop, get_or, ltb, ◌==◌, ◌=t=◌, if◌then◌else◌, is_some,
  count, replace, starts_with, text_mem, char_mem, to_lower, String,
}
use adv_database_implementat.Regex.{
  Re, Matched, eps, set, alt, star, opt, plus, bol, word_boundary, space, word, chr, none_of,
  one_of, group, lit, first_of_lits, ◌⨾◌, match_at_start, search_text, group_of, or_empty,
}
use adv_database_implementat.Cpplint.Report.{Report}
use adv_database_implementat.Cpplint.CleansedLines.{CleansedLines}

abbrev pub report : ℕ → String → ℕ → Text → Report
report linenum category confidence message = record {
  linenum = linenum;
  category = codes category;
  confidence = confidence;
  message = message;
}

abbrev pub report_if : Bool → Report → List Report → List Report
report_if true r rs = r ∷ rs
report_if false r rs = rs

-- The pattern of a text, with re.I.
abbrev pub ignoring_case : Text → Re
ignoring_case [] = eps
ignoring_case (c ∷ []) = set (λ x. to_lower x == to_lower c)
ignoring_case (c ∷ s) = set (λ x. to_lower x == to_lower c) ⨾ ignoring_case s

unfoldable pub copyright_pattern : Re
copyright_pattern = ignoring_case (codes "Copyright")

unfoldable pub any_found : Re → List Text → Bool
any_found r [] = false
any_found r (line ∷ lines) = is_some (search_text r line) || any_found r lines

-- Lines 1 to 10, or as many as there are.
unfoldable pub check_for_copyright : List Text → List Report
check_for_copyright lines =
    if any_found copyright_pattern (take 10 (drop 1 lines))
    then []
    else report 0 "legal/copyright" 5 (
        codes
          "No copyright message found.  You should have a line: \"Copyright [year] <Copyright Owner>\"")
      ∷ []

-- U+FFFD
abbrev pub replacement_character : ℕ
replacement_character = 65533

unfoldable pub bad_characters_from : ℕ → List Text → List Report
bad_characters_from linenum [] = []
bad_characters_from linenum (line ∷ lines) =
    report_if (char_mem replacement_character line)
      (report linenum "readability/utf8" 5
        (codes "Line contains invalid UTF-8 (or Unicode replacement character)."))
      (report_if (char_mem 0 line)
        (report linenum "readability/nul" 5 (codes "Line contains NUL byte."))
        (bad_characters_from (suc linenum) lines))

unfoldable pub check_for_bad_characters : List Text → List Report
check_for_bad_characters lines = bad_characters_from 0 lines

-- len(lines) < 3 or lines[-2]
unfoldable pub check_for_newline_at_eof : List Text → List Report
check_for_newline_at_eof lines =
    if ltb (length lines) 3 || not (get_or lines (length lines - 2) [] =t= [])
    then report (length lines - 2) "whitespace/ending_newline" 5
        (codes "Could not find a newline character at the end of the file.")
      ∷ []
    else []

unfoldable pub check_for_multiline_comments_and_strings : CleansedLines → ℕ → List Report
check_for_multiline_comments_and_strings clean_lines linenum =
    let line = replace (get_or clean_lines.elided linenum []) (codes "\\\\") [] in
    report_if (ltb (count line (codes "*/")) (count line (codes "/*")))
      (report linenum "readability/multiline_comment" 5 (
        codes
          "Complex multi-line /*...*/-style comment found. Lint may give bogus warnings.  Consider replacing these with //-style comments, with #if 0...#endif, or with more clearly structured multi-line comments."))
      (report_if ((count line (codes "\"") + count line (codes "\\\"")) % 2 == 1)
        (report linenum "readability/multiline_string" 5 (
          codes
            "Multi-line string (\"...\") found.  This lint script doesn't do well with such strings, and may give bogus warnings.  Use C++11 raw strings or concatenation instead."))
        [])

-- (?:[-+*/=%^&|(<]\s*|>\s+)
unfoldable pub unsafe_func_prefix : Re
unsafe_func_prefix = alt (one_of "-+*/=%^&|(<" ⨾ star space) (chr b'>' ⨾ plus space)

-- name\([^)]+\) and name\(\), behind the prefix
abbrev with_arguments : String → Re
with_arguments name = unsafe_func_prefix ⨾ lit name ⨾ chr b'(' ⨾ plus (none_of ")") ⨾ chr b')'

abbrev without_arguments : String → Re
without_arguments name = unsafe_func_prefix ⨾ lit name ⨾ lit "()"

-- A function that is not safe for threads, the one that is, and the pattern.
unfoldable pub threading_list : List (Text × Text × Re)
threading_list =
    (codes "asctime(", codes "asctime_r(", with_arguments "asctime")
    ∷ (codes "ctime(", codes "ctime_r(", with_arguments "ctime")
    ∷ (codes "getgrgid(", codes "getgrgid_r(", with_arguments "getgrgid")
    ∷ (codes "getgrnam(", codes "getgrnam_r(", with_arguments "getgrnam")
    ∷ (codes "getlogin(", codes "getlogin_r(", without_arguments "getlogin")
    ∷ (codes "getpwnam(", codes "getpwnam_r(", with_arguments "getpwnam")
    ∷ (codes "getpwuid(", codes "getpwuid_r(", with_arguments "getpwuid")
    ∷ (codes "gmtime(", codes "gmtime_r(", with_arguments "gmtime")
    ∷ (codes "localtime(", codes "localtime_r(", with_arguments "localtime")
    ∷ (codes "rand(", codes "rand_r(", without_arguments "rand")
    ∷ (codes "strtok(", codes "strtok_r(", with_arguments "strtok")
    ∷ (codes "ttyname(", codes "ttyname_r(", with_arguments "ttyname")
    ∷ []

unfoldable pub check_threading : List (Text × Text × Re) → Text → ℕ → List Report
check_threading [] line linenum = []
check_threading ((single_thread_func, multithread_safe_func, pattern_re) ∷ rest) line linenum =
    report_if (is_some (search_text pattern_re line))
      (report linenum "runtime/threadsafe_fn" 2 (
        codes "Consider using "
        ++ (multithread_safe_func
            ++ (codes "...) instead of "
                ++ (single_thread_func ++ codes "...) for improved thread safety.")))))
      (check_threading rest line linenum)

unfoldable pub check_posix_threading : CleansedLines → ℕ → List Report
check_posix_threading clean_lines linenum =
    check_threading threading_list (get_or clean_lines.elided linenum []) linenum

-- \bVLOG\((INFO|ERROR|WARNING|DFATAL|FATAL)\)
unfoldable pub vlog_pattern : Re
vlog_pattern =
    word_boundary
    ⨾ lit "VLOG("
    ⨾ group 1 (first_of_lits ("INFO" ∷ "ERROR" ∷ "WARNING" ∷ "DFATAL" ∷ "FATAL" ∷ []))
    ⨾ chr b')'

unfoldable pub check_vlog_arguments : CleansedLines → ℕ → List Report
check_vlog_arguments clean_lines linenum =
    report_if (is_some (search_text vlog_pattern (get_or clean_lines.elided linenum [])))
      (report linenum "runtime/vlog" 5 (
        codes
          "VLOG() should be used with numeric verbosity level.  Use LOG() if you want symbolic severity levels."))
      []

-- ^\s*\*\w+(\+\+|--);
unfoldable pub invalid_increment : Re
invalid_increment =
    bol ⨾ star space ⨾ chr b'*' ⨾ plus word ⨾ group 1 (alt (lit "++") (lit "--")) ⨾ chr b';'

unfoldable pub check_invalid_increment : CleansedLines → ℕ → List Report
check_invalid_increment clean_lines linenum =
    report_if (is_some (match_at_start invalid_increment (get_or clean_lines.elided linenum [])))
      (report linenum "runtime/invalid_increment" 5
        (codes "Changing pointer instead of value (or unused value of operator*)."))
      []
