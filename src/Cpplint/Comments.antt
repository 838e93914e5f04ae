-- ===== src/Cpplint/Comments.antt =====
-- The removal of comments in cpplint.py: IsCppString, FindNextMultiLineCommentStart,
-- FindNextMultiLineCommentEnd, RemoveMultiLineCommentsFromRange, RemoveMultiLineComments and
-- CleanseComments.
pub mod MultiLine
pub mod Untouched
use adv_database_implementat.Base.{
  ℕ, zero, suc, ◌+◌, ◌-◌, ◌*◌, ◌%◌, Bool, true, false, ◌&&◌, not, Option, none, some, List, [], ◌∷◌,
  ◌++◌, Text, codes, length, take, drop, ltb, leb, ◌==◌, if◌then◌else◌, find, replace, count, strip,
  rstrip, starts_with, ends_with, is_some,
}
use adv_database_implementat.Regex.{
  Re, alt, seq, star, ahead, not_ahead, eol, set, space, chr, none_of, word, plus, lit, ◌⨾◌, sub,
  is_word, Matched,
}
use adv_database_implementat.Cpplint.Report.{Report}

-- The difference of the counts as Python's integer: its parity is that of the sum.
unfoldable pub is_cpp_string : Text → Bool
is_cpp_string line =
    let clean = replace line (codes "\\\\") (codes "XX") in
    (count clean (codes "\"") + count clean (codes "\\\"") + count clean (codes "'\"'")) % 2 == 1

-- /\*(?:[^*]|\*(?!/))*\*/
unfoldable pub c_comments : Re
c_comments = lit "/*" ⨾ star (alt (none_of "*") (chr b'*' ⨾ not_ahead (chr b'/'))) ⨾ lit "*/"

-- (\s*C\s*$|C\s+|\s+C(?=\W)|C), for C the pattern of a comment.
unfoldable pub cleanse_line_c_comments : Re
cleanse_line_c_comments = alt (star space ⨾ c_comments ⨾ star space ⨾ eol) (
    alt (c_comments ⨾ plus space)
      (alt (plus space ⨾ c_comments ⨾ ahead (set (λ x. not (is_word x)))) c_comments))

-- The line up to `//`, unless that is in a string.
unfoldable pub cut_line_comment : Text → Option ℕ → Text
cut_line_comment line none = line
cut_line_comment line (some commentpos) =
    if not (is_cpp_string (take commentpos line)) then rstrip (take commentpos line) else line

unfoldable pub cleanse_comments : Text → Text
cleanse_comments line =
    sub cleanse_line_c_comments (λ m. []) (cut_line_comment line (find line (codes "//")))

-- lines[lineix].strip().startswith('/*'), and no `*/` behind that.
unfoldable pub opens_comment : Text → Bool
opens_comment line =
    starts_with (strip line) (codes "/*") && not (is_some (find (drop 2 (strip line)) (codes "*/")))

unfoldable pub closes_comment : Text → Bool
closes_comment line = ends_with (strip line) (codes "*/")

-- The index, from `lineix` on, of the first of the lines that passes the test; behind the last
-- line if none does.
unfoldable pub find_line : (Text → Bool) → List Text → ℕ → ℕ
find_line test [] lineix = lineix
find_line test (line ∷ lines) lineix =
    let later = find_line test lines (suc lineix) in if test line then lineix else later

-- For an index that is at most the number of lines.
unfoldable pub find_next_multi_line_comment_start : List Text → ℕ → ℕ
find_next_multi_line_comment_start lines lineix = find_line opens_comment (drop lineix lines) lineix

unfoldable pub find_next_multi_line_comment_end : List Text → ℕ → ℕ
find_next_multi_line_comment_end lines lineix = find_line closes_comment (drop lineix lines) lineix

unfoldable pub clear_from : ℕ → ℕ → ℕ → List Text → List Text
clear_from i begin end [] = []
clear_from i begin end (line ∷ lines) =
    (if leb begin i && ltb i end then codes "/**/" else line) ∷ clear_from (suc i) begin end lines

unfoldable pub remove_multi_line_comments_from_range : List Text → ℕ → ℕ → List Text
remove_multi_line_comments_from_range lines begin end = clear_from 0 begin end lines

abbrev no_end : ℕ → Report
no_end lineix_begin = record {
  linenum = lineix_begin + 1;
  category = codes "readability/multiline_comment";
  confidence = 5;
  message = codes "Could not find end of multi-line comment";
}

-- The loop of RemoveMultiLineComments, on fuel; `none` means that the fuel ran out. A round ends
-- behind the line where it began, so `length lines + 1` is enough.
unfoldable pub remove_from : ℕ → List Text → ℕ → Option (List Text × List Report)
remove_from zero lines lineix = none
remove_from (suc fuel) lines lineix =
    let lineix_begin = find_next_multi_line_comment_start lines lineix in
    let lineix_end = find_next_multi_line_comment_end lines lineix_begin in
    let next =
      remove_from fuel (remove_multi_line_comments_from_range lines lineix_begin (lineix_end + 1))
        (lineix_end + 1) in
    if not (ltb lineix (length lines))
    then some (lines, [])
    else if leb (length lines) lineix_begin
    then some (lines, [])
    else if leb (length lines) lineix_end
    then some (lines, no_end lineix_begin ∷ [])
    else next

unfoldable pub remove_multi_line_comments : List Text → Option (List Text × List Report)
remove_multi_line_comments lines = remove_from (suc (length lines)) lines 0
