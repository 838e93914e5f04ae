-- ===== src/Cpplint/Expression.antt =====
-- The bracket matching of cpplint.py: FindEndOfExpressionInLine, CloseExpression,
-- FindStartOfExpressionInLine and ReverseCloseExpression.
-- A stack is a list with its top first; a position is given with the characters before it, the
-- nearest first, in place of the whole line.
pub mod Nest
pub mod Forward
pub mod Backward
pub mod Bounds
use adv_database_implementat.Base.{
  ℕ, zero, suc, ◌+◌, ◌-◌, Bool, true, false, ◌&&◌, ◌||◌, not, Option, none, some, List, [], ◌∷◌,
  ◌++◌, reverse, Text, codes, length, take, drop, get_elem?, ◌==◌, if◌then◌else◌, char_mem, is_some,
}
use adv_database_implementat.Regex.{
  Re, word_boundary, lit, star, space, chr, eol, ◌⨾◌, search_text, match_at_start,
}

abbrev pub Stack : Type 0
Stack = List ℕ

-- One round of a loop over a line: it goes on with a stack, passing over the next character
-- if `skip`, or returns a position, or -1, with None.
pub data Round : Type 0 where
  goes : Stack → Round
  skips : Stack → Round
  returns : Option ℕ → Round

-- \boperator\s*$
unfoldable pub operator_pattern : Re
operator_pattern = word_boundary ⨾ lit "operator" ⨾ star space ⨾ eol

unfoldable pub ends_in_operator : Text → Bool
ends_in_operator before = is_some (search_text operator_pattern (reverse before))

abbrev pub tail_of : Text → Text
tail_of [] = []
tail_of (c ∷ s) = s

-- i > 0 and line[i - 1] == c
abbrev pub follows : Text → ℕ → Bool
follows [] c = false
follows (d ∷ before) c = d == c

-- while stack and stack[-1] == c: stack.pop()
unfoldable pub drop_top : ℕ → Stack → Stack
drop_top c [] = []
drop_top c (d ∷ stack) = let rest = drop_top c stack in if d == c then rest else d ∷ stack

abbrev pub is_pair : ℕ → ℕ → Bool
is_pair opening closing =
    (opening == b'(' && closing == b')')
    || (opening == b'[' && closing == b']')
    || (opening == b'{' && closing == b'}')

-- After a pop that leaves `stack`: the result if it is empty.
abbrev pub popped : Option ℕ → Stack → Round
popped at [] = returns at
popped at (c ∷ stack) = goes (c ∷ stack)

-- if stack: if stack[-1] == c: stack.pop(); if not stack: return
abbrev pub pop_if : ℕ → Option ℕ → Stack → Round
pop_if c at [] = goes []
pop_if c at (d ∷ stack) = if d == c then popped at stack else goes (d ∷ stack)

-- At a closing bracket, without the tentative `<` on top; backwards at an opening one.
abbrev pub close_pair : Bool → Option ℕ → Stack → Round
close_pair fits at [] = returns none
close_pair true at (c ∷ stack) = popped at stack
close_pair false at (c ∷ stack) = returns none

abbrev pub fits_top : (ℕ → Bool) → Stack → Bool
fits_top p [] = false
fits_top p (c ∷ stack) = p c

-- At a semicolon, without the tentative brackets on top.
abbrev pub unless_empty : Stack → Round
unless_empty [] = returns none
unless_empty (c ∷ stack) = goes (c ∷ stack)

-- The body of the loop of FindEndOfExpressionInLine, at the character `c` of index `i`.
unfoldable pub end_round : Text → ℕ → ℕ → Stack → Round
end_round before i c stack =
    if char_mem c (codes "([{")
    then goes (c ∷ stack)
    else if c == b'<'
    then (if follows before b'<'
        then pop_if b'<' none stack
        else if ends_in_operator before
        then goes stack
        else goes (b'<' ∷ stack))
    else if char_mem c (codes ")]}")
    then (let st = drop_top b'<' stack in
        close_pair (fits_top (λ o. is_pair o c) st) (some (suc i)) st)
    else if c == b'>'
    then (if follows before b'-' || ends_in_operator (tail_of before)
        then goes stack
        else pop_if b'<' (some (suc i)) stack)
    else if c == b';'
    then unless_empty (drop_top b'<' stack)
    else goes stack

abbrev pub after_round : Round → (Stack → Option ℕ × Option Stack) → Option ℕ × Option Stack
after_round (goes stack) next = next stack
after_round (skips stack) next = next stack
after_round (returns at) next = (at, none)

-- `rest` is the line from index `i` on; the first part of the result is `none` for -1.
unfoldable pub find_end : Text → Text → ℕ → Stack → Option ℕ × Option Stack
find_end before [] i stack = (none, some stack)
find_end before (c ∷ rest) i stack =
    after_round (end_round before i c stack) (λ st. find_end (c ∷ before) rest (suc i) st)

unfoldable pub find_end_of_expression_in_line : Text → ℕ → Stack → Option ℕ × Option Stack
find_end_of_expression_in_line line startpos stack =
    find_end (reverse (take startpos line)) (drop startpos line) startpos stack

-- What CloseExpression and ReverseCloseExpression return; `none` is -1.
pub record Place : Type 0 where
  pub line : Text
  pub linenum : ℕ
  pub pos : Option ℕ

-- The loop of CloseExpression over the lines behind `line`; the stack is None after an error.
unfoldable pub close_lines : ℕ → Text → List Text → ℕ → Option ℕ × Option Stack → Place
close_lines num_lines line rest linenum (some p, stack) = record {
  line = line;
  linenum = linenum;
  pos = some p;
}
close_lines num_lines line rest linenum (none, none) = record {
  line = line;
  linenum = num_lines;
  pos = none;
}
close_lines num_lines line rest linenum (none, some []) = record {
  line = line;
  linenum = num_lines;
  pos = none;
}
close_lines num_lines line [] linenum (none, some (c ∷ stack)) = record {
  line = line;
  linenum = num_lines;
  pos = none;
}
close_lines num_lines line (next ∷ rest) linenum (none, some (c ∷ stack)) =
    close_lines num_lines next rest (suc linenum)
      (find_end_of_expression_in_line next 0 (c ∷ stack))

-- Match(r'<[<=]', line[pos:])
unfoldable pub is_operator_lt : Text → Bool
is_operator_lt (c ∷ d ∷ s) = c == b'<' && (d == b'<' || d == b'=')
is_operator_lt s = false

unfoldable pub close_at : ℕ → List Text → ℕ → ℕ → Text → Option ℕ → Option Place
close_at num_lines rest linenum pos line none = none
close_at num_lines rest linenum pos line (some c) = some (
    if not (char_mem c (codes "({[<")) || is_operator_lt (drop pos line)
    then record { line = line; linenum = num_lines; pos = none }
    else close_lines num_lines line rest linenum (find_end_of_expression_in_line line pos []))

abbrev at_line : Option Text → (Text → Option Place) → Option Place
at_line none f = none
at_line (some line) f = f line

-- The outer `none` is an IndexError, for a line or a position that is not there.
unfoldable pub close_expression : List Text → ℕ → ℕ → Option Place
close_expression elided linenum pos = at_line (get_elem? elided linenum) (λ line.
    close_at (length elided) (drop (suc linenum) elided) linenum pos line (get_elem? line pos))

-- Match(r'\s>=\s', line[i - 1:]), the line from `i - 1` on being `s`.
unfoldable pub is_operator_ge : Text → Bool
is_operator_ge s = is_some (match_at_start (space ⨾ lit ">=" ⨾ space) s)

-- Whether the `>` at `i` is of `->`, ` >= ` or an operator function; `after` is the line behind it.
abbrev pub is_no_template : Text → Text → Bool
is_no_template [] after = false
is_no_template (d ∷ before) after =
    d == b'-' || (is_operator_ge (d ∷ b'>' ∷ after) || ends_in_operator (d ∷ before))

-- The body of the loop of FindStartOfExpressionInLine.
unfoldable pub start_round : Text → ℕ → ℕ → Text → Stack → Round
start_round before i c after stack =
    if char_mem c (codes ")]}")
    then goes (c ∷ stack)
    else if c == b'>'
    then (if is_no_template before after then skips stack else goes (b'>' ∷ stack))
    else if c == b'<'
    then (if follows before b'<' then skips stack else pop_if b'>' (some i) stack)
    else if char_mem c (codes "([{")
    then (let st = drop_top b'>' stack in close_pair (fits_top (λ o. is_pair c o) st) (some i) st)
    else if c == b';'
    then unless_empty (drop_top b'>' stack)
    else goes stack

abbrev pub after_back_round :
    Round → (Bool → Stack → Option ℕ × Option Stack) → Option ℕ × Option Stack
after_back_round (goes stack) next = next false stack
after_back_round (skips stack) next = next true stack
after_back_round (returns at) next = (at, none)

-- The line up to index `i` is the reverse of the first text, and `after` is behind it. A skipped
-- character is passed over.
unfoldable pub find_start : Text → ℕ → Text → Bool → Stack → Option ℕ × Option Stack
find_start [] i after skip stack = (none, some stack)
find_start (c ∷ before) i after true stack = find_start before (i - 1) (c ∷ after) false stack
find_start (c ∷ before) i after false stack =
    after_back_round (start_round before i c after stack)
      (λ skip st. find_start before (i - 1) (c ∷ after) skip st)

-- `count` is endpos + 1, so that the last index of an empty line is written too.
unfoldable pub find_start_of_expression_in_line : Text → ℕ → Stack → Option ℕ × Option Stack
find_start_of_expression_in_line line count stack =
    find_start (reverse (take count line)) (count - 1) (drop count line) false stack

-- The loop of ReverseCloseExpression; the lines above `line` come nearest first.
unfoldable pub reverse_close_lines : Text → List Text → ℕ → Option ℕ × Option Stack → Place
reverse_close_lines line above linenum (some p, stack) = record {
  line = line;
  linenum = linenum;
  pos = some p;
}
reverse_close_lines line above linenum (none, none) = record {
  line = line;
  linenum = 0;
  pos = none;
}
reverse_close_lines line above linenum (none, some []) = record {
  line = line;
  linenum = 0;
  pos = none;
}
reverse_close_lines line [] linenum (none, some (c ∷ stack)) = record {
  line = line;
  linenum = 0;
  pos = none;
}
reverse_close_lines line (next ∷ above) linenum (none, some (c ∷ stack)) =
    reverse_close_lines next above (linenum - 1)
      (find_start_of_expression_in_line next (length next) (c ∷ stack))

unfoldable pub reverse_close_at : List Text → ℕ → ℕ → Text → Option ℕ → Option Place
reverse_close_at above linenum pos line none = none
reverse_close_at above linenum pos line (some c) = some (
    if not (char_mem c (codes ")}]>"))
    then record { line = line; linenum = 0; pos = none }
    else reverse_close_lines line above linenum
        (find_start_of_expression_in_line line (suc pos) []))

unfoldable pub reverse_close_expression : List Text → ℕ → ℕ → Option Place
reverse_close_expression elided linenum pos =
    at_line (get_elem? elided linenum) (λ line.
      reverse_close_at (reverse (take linenum elided)) linenum pos line (get_elem? line pos))
