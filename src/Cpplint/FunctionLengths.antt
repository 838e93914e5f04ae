-- ===== src/Cpplint/FunctionLengths.antt =====
-- CheckForFunctionLengths of cpplint.py, which runs `_FunctionState` over the lines of a file.
pub mod Kinds
pub mod Whole
use adv_database_implementat.Base.{
  ℕ, zero, suc, ◌+◌, Bool, true, false, ◌&&◌, ◌||◌, not, Option, none, some, List, [], ◌∷◌, ◌++◌,
  Text, codes, drop, get_or, ◌=t=◌, if◌then◌else◌, is_some, is_space, lstrip, leb, ◌==◌,
}
use adv_database_implementat.Regex.{
  Re, Matched, set, alt, star, plus, bol, eol, space, any_char, word, chr, group, lit, ◌⨾◌, is_word,
  match_at_start, search_text, group_of, or_empty,
}
use adv_database_implementat.Cpplint.Report.{Report}
use adv_database_implementat.Cpplint.CleansedLines.{CleansedLines}
use adv_database_implementat.Cpplint.FunctionState.{FunctionState, begin, count_line, check, end}
use adv_database_implementat.Cpplint.FileChecks.{report}

abbrev ends_here : Text → Bool
ends_here [] = true
ends_here (c ∷ s) = is_space c

abbrev extend_word : ℕ → Bool → List Text → List Text
extend_word c last [] = (c ∷ []) ∷ []
extend_word c true (w ∷ ws) = (c ∷ []) ∷ (w ∷ ws)
extend_word c false (w ∷ ws) = (c ∷ w) ∷ ws

-- s.split(): the pieces between white space, none of them empty.
unfoldable pub words : Text → List Text
words [] = []
words (c ∷ s) = let rest = words s in if is_space c then rest else extend_word c (ends_here s) rest

-- words[-1]
abbrev pub last_word : List Text → Text
last_word [] = []
last_word (w ∷ []) = w
last_word (w ∷ v ∷ ws) = last_word (v ∷ ws)

abbrev pub group_1 : Option Matched → Text
group_1 none = []
group_1 (some m) = or_empty (group_of m 1)

-- (\w(\w|::|\*|\&|\s)*)\(
unfoldable pub declaration : Re
declaration =
    group 1
      (word ⨾ star (group 2 (alt word (alt (lit "::") (alt (chr b'*') (alt (chr b'&') space))))))
    ⨾ chr b'('

-- [A-Z_]+$
unfoldable pub macro_name : Re
macro_name = plus (set (λ c. (leb b'A' c && leb c b'Z') || c == b'_')) ⨾ eol

unfoldable pub starts_with_name : Option Matched → Bool
starts_with_name none = false
starts_with_name (some m) =
    let function_name = last_word (words (or_empty (group_of m 1))) in
    function_name =t= codes "TEST"
    || function_name =t= codes "TEST_F"
    || not (is_some (match_at_start macro_name function_name))

-- starting_func
unfoldable pub starting_func : Text → Bool
starting_func line = starts_with_name (match_at_start declaration line)

-- (;|}) and {
unfoldable pub no_body : Re
no_body = group 1 (alt (chr b';') (chr b'}'))

-- ((\w|:)*)\(
unfoldable pub called_name : Re
called_name = group 1 (star (group 2 (alt word (chr b':')))) ⨾ chr b'('

-- (\(.*\))
unfoldable pub parameters : Re
parameters = group 1 (chr b'(' ⨾ star any_char ⨾ chr b')')

-- The name for the state, from the first line and the lines joined so far.
unfoldable pub function_of : Text → Text → Text
function_of line joined_line =
    let function = group_1 (search_text called_name line) in
    if is_some (match_at_start (lit "TEST") function)
    then function ++ group_1 (search_text parameters joined_line)
    else function ++ codes "()"

-- What the loop over the lines behind the start finds: no body, none of interest, or a body.
pub data Body : Type 0 where
  not_found ignored : Body
  found : Text → Body

unfoldable pub find_body : Text → Text → List Text → Body
find_body line joined [] = not_found
find_body line joined (start_line ∷ lines) =
    let joined_line = joined ++ (b' ' ∷ lstrip start_line) in
    let later = find_body line joined_line lines in
    if is_some (search_text no_body start_line)
    then ignored
    else (if is_some (search_text (chr b'{') start_line)
        then found (function_of line joined_line)
        else later)

abbrev pub begin_body : ℕ → Body → FunctionState → List Report × FunctionState
begin_body linenum not_found s = (
  report linenum "readability/fn_size" 5 (codes "Lint failed to find start of function body.") ∷ [],
  s,
)
begin_body linenum ignored s = ([], s)
begin_body linenum (found function) s = ([], begin function s)

-- ^\}\s*$ and ^\s*$
unfoldable pub function_end : Re
function_end = bol ⨾ chr b'}' ⨾ star space ⨾ eol

unfoldable pub blank_line : Re
blank_line = bol ⨾ star space ⨾ eol

-- The branch that a line takes.
pub data LineKind : Type 0 where
  starts ends counted skipped : LineKind

unfoldable pub kind_of : Text → LineKind
kind_of line =
    if starting_func line
    then starts
    else (if is_some (match_at_start function_end line)
        then ends
        else (if is_some (match_at_start blank_line line) then skipped else counted))

unfoldable pub on_kind :
    (ℕ → ℕ → ℕ) → ℕ → ℕ → List Text → Text → LineKind → FunctionState → List Report × FunctionState
on_kind log_ratio verbose_level linenum lines line starts s =
    begin_body linenum (find_body line [] lines) s
on_kind log_ratio verbose_level linenum lines line ends s =
    (check log_ratio verbose_level linenum s, end s)
on_kind log_ratio verbose_level linenum lines line counted s = ([], count_line s)
on_kind log_ratio verbose_level linenum lines line skipped s = ([], s)

-- The reports and the state behind the line. `log_ratio` is as in `check`.
unfoldable pub check_for_function_lengths :
    (ℕ → ℕ → ℕ) → ℕ → CleansedLines → ℕ → FunctionState → List Report × FunctionState
check_for_function_lengths log_ratio verbose_level clean_lines linenum s =
    let line = get_or clean_lines.lines linenum [] in
    on_kind log_ratio verbose_level linenum (drop linenum clean_lines.lines) line (kind_of line) s
