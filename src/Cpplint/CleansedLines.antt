-- ===== src/Cpplint/CleansedLines.antt =====
-- CleanseRawStrings and the class CleansedLines of cpplint.py: the copies of the lines of a file
-- without raw strings, without comments, and without strings.
pub mod Strings
use adv_database_implementat.Base.{
  ℕ, zero, suc, ◌+◌, Bool, true, false, ◌&&◌, not, Option, none, some, List, [], ◌∷◌, ◌++◌, Text,
  codes, length, drop, ◌==◌, ◌=t=◌, if◌then◌else◌, find, replace, is_some,
}
use adv_database_implementat.Regex.{
  Re, Matched, eps, set, alt, star, lazy_star, group, bol, eol, word_boundary, any_char, space,
  not_space, chr, none_of, one_of, lit, plus, opt, first_of_lits, ◌⨾◌, match_at_start, search_text,
  sub, group_of, or_empty, is_word, is_digit,
}
use adv_database_implementat.Cpplint.Comments.{cleanse_comments}

-- ^(\s*)\S
unfoldable pub leading_space : Re
leading_space = bol ⨾ group 1 (star space) ⨾ not_space

-- ^(.*?)\b(?:R|u8R|uR|UR|LR)"([^\s\\()]*)\((.*)$
unfoldable pub raw_string_start : Re
raw_string_start =
    bol
    ⨾ group 1 (lazy_star any_char)
    ⨾ word_boundary
    ⨾ first_of_lits ("R" ∷ "u8R" ∷ "uR" ∷ "UR" ∷ "LR" ∷ [])
    ⨾ chr b'"'
    ⨾ group 2 (star (none_of " \t\n\r\u{b}\u{c}\\()"))
    ⨾ chr b'('
    ⨾ group 3 (star any_char)
    ⨾ eol

-- ^([^'"]|'(\\.|[^'])*'|"(\\.|[^"])*")*//
unfoldable pub in_line_comment : Re
in_line_comment =
    bol
    ⨾ star (
        group 1 (
          alt (none_of "'\"") (
            alt (chr b'\'' ⨾ star (group 2 (alt (chr b'\\' ⨾ any_char) (none_of "'"))) ⨾ chr b'\'')
              (chr b'"' ⨾ star (group 3 (alt (chr b'\\' ⨾ any_char) (none_of "\""))) ⨾ chr b'"'))))
    ⨾ lit "//"

abbrev pub group_text : Matched → ℕ → Text
group_text m n = or_empty (group_of m n)

abbrev closing_delimiter : Matched → Text
closing_delimiter m = codes ")" ++ (group_text m 2 ++ codes "\"")

-- What a line is, and the delimiter of the raw string that goes on behind it.
abbrev pub Cut : Type 0
Cut = Text × Option Text

-- A raw string begins: its end on the same line is looked for.
unfoldable pub begin_raw : Matched → Option ℕ → Cut
begin_raw m none = (group_text m 1 ++ codes "\"\"", some (closing_delimiter m))
begin_raw m (some end) = (
  group_text m 1 ++ (codes "\"\"" ++ drop (end + length (closing_delimiter m)) (group_text m 3)),
  none,
)

unfoldable pub starts_raw : Option Matched → Option Matched
starts_raw none = none
starts_raw (some m) =
    if is_some (match_at_start in_line_comment (group_text m 1)) then none else some m

abbrev again_if_none : (Text → Cut) → Cut → Cut
again_if_none next (line, none) = next line
again_if_none next (line, some delimiter) = (line, some delimiter)

abbrev raw_round : (Text → Cut) → Text → Option Matched → Cut
raw_round next line none = (line, none)
raw_round next line (some m) =
    again_if_none next (begin_raw m (find (group_text m 3) (closing_delimiter m)))

-- The inner loop, `while delimiter is None`, on fuel. A round that goes on puts two quotes in the
-- place of a whole raw string, which has at least five characters.
unfoldable pub find_raw : ℕ → Text → Cut
find_raw zero line = (line, none)
find_raw (suc fuel) line =
    raw_round (λ l. find_raw fuel l) line (starts_raw (match_at_start raw_string_start line))

unfoldable pub without_raw : Text → Cut
without_raw line = find_raw (suc (length line)) line

abbrev group_1 : Option Matched → Option Text
group_1 none = none
group_1 (some m) = group_of m 1

-- A line inside a raw string. It holds the delimiter, so that a character that is no space is
-- there when its leading space is matched.
unfoldable pub end_raw : Text → Text → Option ℕ → Cut
end_raw line delimiter none = (codes "\"\"", some delimiter)
end_raw line delimiter (some end) = without_raw (
    or_empty (group_1 (match_at_start leading_space line))
    ++ (codes "\"\"" ++ drop (end + length delimiter) line))

unfoldable pub raw_line : Text → Option Text → Cut
raw_line line none = without_raw line
raw_line line (some delimiter) = end_raw line delimiter (find line delimiter)

unfoldable pub cleanse_raw_from : Option Text → List Text → List Text
cleanse_raw_from delimiter [] = []
cleanse_raw_from delimiter (line ∷ lines) =
    let cut = raw_line line delimiter in cut.0 ∷ cleanse_raw_from cut.1 lines

unfoldable pub cleanse_raw_strings : List Text → List Text
cleanse_raw_strings raw_lines = cleanse_raw_from none raw_lines

-- ^\s*#\s*include\s*([<"])([^>"]*)[>"].*$
unfoldable pub include_line : Re
include_line =
    bol
    ⨾ star space
    ⨾ chr b'#'
    ⨾ star space
    ⨾ lit "include"
    ⨾ star space
    ⨾ group 1 (one_of "<\"")
    ⨾ group 2 (star (none_of ">\""))
    ⨾ one_of ">\""
    ⨾ star any_char
    ⨾ eol

-- \\([abfnrtv?"\\\']|\d+|x[0-9a-fA-F]+)
unfoldable pub cleanse_line_escapes : Re
cleanse_line_escapes =
    chr b'\\'
    ⨾ group 1 (
        alt (one_of "abfnrtv?\"\\'")
          (alt (plus (set is_digit)) (chr b'x' ⨾ plus (one_of "0123456789abcdefABCDEF"))))

-- ^([^'"]*)(['"])(.*)$
unfoldable pub first_quote : Re
first_quote =
    bol ⨾ group 1 (star (none_of "'\"")) ⨾ group 2 (one_of "'\"") ⨾ group 3 (star any_char) ⨾ eol

-- \b(?:0[bBxX]?|[1-9])[0-9a-fA-F]*$
unfoldable pub digits_at_end : Re
digits_at_end =
    word_boundary
    ⨾ alt (chr b'0' ⨾ opt (one_of "bBxX")) (one_of "123456789")
    ⨾ star (one_of "0123456789abcdefABCDEF")
    ⨾ eol

-- ^((?:'?[0-9a-zA-Z_])*)(.*)$
unfoldable pub separated_literal : Re
separated_literal =
    bol ⨾ group 1 (star (opt (chr b'\'') ⨾ set is_word)) ⨾ group 2 (star any_char) ⨾ eol

abbrev pub second_quote : Text → Text → ℕ → (Text → Text) → Text → Option ℕ → Text
second_quote elided head quote next tail none = elided
second_quote elided head quote next tail (some at) =
    head ++ (quote ∷ quote ∷ next (drop (at + 1) tail))

abbrev separated : Text → (Text → Text) → Option Matched → Text
separated head next none = head
separated head next (some m) =
    head ++ (replace (group_text m 1) (codes "'") [] ++ next (group_text m 2))

-- The text that the rest of the loop appends to `collapsed`, from a match of the first quote on.
unfoldable pub collapse_round : (Text → Text) → Text → Option Matched → Text
collapse_round next elided none = elided
collapse_round next elided (some m) =
    let head = group_text m 1 in
    let tail = group_text m 3 in
    if group_text m 2 =t= codes "\""
    then second_quote elided head b'"' next tail (find tail (codes "\""))
    else if is_some (search_text digits_at_end head)
    then separated head next (match_at_start separated_literal (b'\'' ∷ tail))
    else second_quote elided head b'\'' next tail (find tail (codes "'"))

-- The loop of _CollapseStrings, on fuel: each round leaves a shorter text.
unfoldable pub collapse : ℕ → Text → Text
collapse zero elided = elided
collapse (suc fuel) elided =
    collapse_round (λ rest. collapse fuel rest) elided (match_at_start first_quote elided)

unfoldable pub collapse_strings : Text → Text
collapse_strings elided =
    if is_some (match_at_start include_line elided)
    then elided
    else (let plain = sub cleanse_line_escapes (λ m. []) elided in
        collapse (suc (length plain)) plain)

pub record CleansedLines : Type 0 where
  pub elided : List Text
  pub lines : List Text
  pub raw_lines : List Text
  pub num_lines : ℕ
  pub lines_without_raw_strings : List Text

-- self.lines and self.elided, for the lines without raw strings.
unfoldable pub cleanse_all : List Text → List Text
cleanse_all [] = []
cleanse_all (line ∷ rest) = cleanse_comments line ∷ cleanse_all rest

unfoldable pub elide_all : List Text → List Text
elide_all [] = []
elide_all (line ∷ rest) = cleanse_comments (collapse_strings line) ∷ elide_all rest

-- __init__
unfoldable pub cleansed_lines : List Text → CleansedLines
cleansed_lines lines =
    let without = cleanse_raw_strings lines in
    record {
      elided = elide_all without;
      lines = cleanse_all without;
      raw_lines = lines;
      num_lines = length lines;
      lines_without_raw_strings = without;
    }
