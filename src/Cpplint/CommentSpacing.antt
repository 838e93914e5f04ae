-- ===== src/Cpplint/CommentSpacing.antt =====
-- CheckComment of cpplint.py.
pub mod Spaces
use adv_database_implementat.Base.{
  ℕ, ◌-◌, ◌%◌, Bool, true, false, ◌&&◌, ◌||◌, not, Option, none, some, List, [], ◌∷◌, ◌++◌, Text,
  codes, length, drop, take, get_or, ◌==◌, ltb, leb, ◌=t=◌, if◌then◌else◌, is_some, is_space, find,
  count,
}
use adv_database_implementat.Regex.{
  Re, Matched, star, lazy_star, opt, plus, bol, eol, alt, group, space, any_char, word, chr,
  none_of, lit, ◌⨾◌, match_at_start, group_of, or_empty, sub,
}
use adv_database_implementat.Cpplint.Report.{Report}
use adv_database_implementat.Cpplint.FileChecks.{report, report_if}

-- ODO(\(.+?\))?:?(\s|$)?
abbrev pub todo_rest : Re
todo_rest =
    lit "ODO"
    ⨾ opt (group 2 (chr b'(' ⨾ any_char ⨾ lazy_star any_char ⨾ chr b')'))
    ⨾ opt (chr b':')
    ⨾ opt (group 3 (alt space eol))

-- ^//(\s*)TODO(\(.+?\))?:?(\s|$)?
unfoldable pub pattern_todo : Re
pattern_todo = bol ⨾ lit "//" ⨾ group 1 (star space) ⨾ chr b'T' ⨾ todo_rest

-- \\.
unfoldable pub escaped : Re
escaped = chr b'\\' ⨾ any_char

-- ^.*{ *//
unfoldable pub opens_scope : Re
opens_scope = bol ⨾ star any_char ⨾ chr b'{' ⨾ star (chr b' ') ⨾ lit "//"

-- //[^ ]*\w
unfoldable pub no_space : Re
no_space = lit "//" ⨾ star (none_of " ") ⨾ word

-- (///|//\!)(\s+|$)
unfoldable pub doxygen : Re
doxygen = group 1 (alt (lit "///") (lit "//!")) ⨾ group 2 (alt (plus space) eol)

abbrev pub two_spaces : ℕ → Report
two_spaces linenum =
    report linenum "whitespace/comments" 2
      (codes "At least two spaces is best between code and comments")

-- No space at the place before the comment, or none at the one before that.
unfoldable pub is_close : Text → ℕ → Bool
is_close line commentpos =
    (leb 1 commentpos && not (is_space (get_or line (commentpos - 1) 0)))
    || (leb 2 commentpos && not (is_space (get_or line (commentpos - 2) 0)))

abbrev odd_middle : Option Text → Bool
odd_middle none = true
odd_middle (some middle) = not (middle =t= codes " ") && not (middle =t= [])

unfoldable pub check_todo : Option Matched → ℕ → List Report
check_todo none linenum = []
check_todo (some m) linenum =
    report_if (ltb 1 (length (or_empty (group_of m 1))))
      (report linenum "whitespace/todo" 2 (codes "Too many spaces before TODO"))
      (report_if (or_empty (group_of m 2) =t= [])
        (report linenum "readability/todo" 2
          (codes "Missing username in TODO; it should look like \"// TODO(my_username): Stuff.\""))
        (report_if (odd_middle (group_of m 3))
          (report linenum "whitespace/todo" 2
            (codes "TODO(my_username) should be followed by a space"))
          []))

unfoldable pub check_first_space : Text → ℕ → List Report
check_first_space comment linenum =
    report_if
      (is_some (match_at_start no_space comment) && not (is_some (match_at_start doxygen comment)))
      (report linenum "whitespace/comments" 4 (codes "Should have a space between // and comment"))
      []

abbrev pub comment_at : Text → ℕ → ℕ → Option ℕ → List Report
comment_at line linenum next_line_start none = []
comment_at line linenum next_line_start (some commentpos) =
    let comment = drop commentpos line in
    if count (sub escaped (λ m. []) (take commentpos line)) (codes "\"") % 2 == 0
    then report_if
        (not (is_some (match_at_start opens_scope line) && next_line_start == commentpos)
          && is_close line commentpos)
        (two_spaces linenum)
        (check_todo (match_at_start pattern_todo comment) linenum
          ++ check_first_space comment linenum)
    else []

unfoldable pub check_comment : Text → ℕ → ℕ → List Report
check_comment line linenum next_line_start =
    comment_at line linenum next_line_start (find line (codes "//"))
