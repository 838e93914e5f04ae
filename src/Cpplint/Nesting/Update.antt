-- ===== src/Cpplint/Nesting/Update.antt =====
-- NestingState.Update and CheckCompletedBlocks.
use adv_database_implementat.Base.{
  ℕ, zero, suc, ◌+◌, Bool, true, false, ◌&&◌, ◌||◌, not, Option, none, some, List, [], ◌∷◌, ◌++◌,
  reverse, Text, codes, length, drop, get_or, ◌==◌, ◌=t=◌, if◌then◌else◌, is_some, find, count,
  sub_ℕ, ◌+ℤ◌, is_ℕ,
}
use adv_database_implementat.Regex.{
  Re, Matched, alt, star, opt, plus, bol, eol, word_boundary, space, word, any_char, chr, none_of,
  one_of, group, lit, first_of_lits, ◌⨾◌, match_at_start, group_of, or_empty,
}
use adv_database_implementat.Cpplint.Report.{Report}
use adv_database_implementat.Cpplint.CleansedLines.{CleansedLines}
use adv_database_implementat.Cpplint.Nesting.{
  BlockClass, class_of, AsmState, no_asm, inside_asm, end_asm, block_asm, Kind, class_block,
  namespace_block, ClassInfo, BlockInfo, Stack, NestingState, seen_open_brace, update_preprocessor,
}
use adv_database_implementat.Cpplint.Nesting.Blocks.{
  new_block, new_extern_c, new_namespace, new_class, check_begin, check_end, blank_pattern,
  parent_of,
}
use adv_database_implementat.Cpplint.Nesting.Template.{in_template_argument_list}

abbrev pub group_text : Matched → ℕ → Text
group_text m n = or_empty (group_of m n)

abbrev pub class_of_top : Stack → Option BlockClass
class_of_top [] = none
class_of_top (b ∷ stack) = some (class_of b.kind)

abbrev pub change_top : (BlockInfo → BlockInfo) → Stack → Stack
change_top f [] = []
change_top f (b ∷ stack) = f b ∷ stack

-- ^\s*(?:asm|_asm|__asm|__asm__)(?:\s+(volatile|__volatile__))?\s*[{(]
unfoldable pub match_asm : Re
match_asm =
    bol
    ⨾ star space
    ⨾ first_of_lits ("asm" ∷ "_asm" ∷ "__asm" ∷ "__asm__" ∷ [])
    ⨾ opt (plus space ⨾ group 1 (first_of_lits ("volatile" ∷ "__volatile__" ∷ [])))
    ⨾ star space
    ⨾ one_of "{("

-- The assembly state of the innermost block, from its parentheses after the line.
unfoldable pub next_asm : Bool → Bool → Bool → AsmState → AsmState
next_asm enters even starts no_asm = if enters && starts then inside_asm else no_asm
next_asm enters even starts end_asm = if enters && starts then inside_asm else no_asm
next_asm enters even starts inside_asm = if even then end_asm else inside_asm
next_asm enters even starts block_asm = block_asm

unfoldable pub count_parentheses : Text → BlockInfo → BlockInfo
count_parentheses line b =
    let depth_change = sub_ℕ (count line (codes "(")) (count line (codes ")")) in
    let open_parentheses = b.open_parentheses +ℤ depth_change in
    record b {
      open_parentheses = open_parentheses;
      inline_asm =
          next_asm (not (is_ℕ depth_change 0) && is_ℕ open_parentheses 1) (is_ℕ open_parentheses 0)
            (is_some (match_at_start match_asm line)) b.inline_asm;
    }

-- ^\s*namespace\b\s*([:\w]+)?(.*)$
unfoldable pub namespace_pattern : Re
namespace_pattern =
    bol
    ⨾ star space
    ⨾ lit "namespace"
    ⨾ word_boundary
    ⨾ star space
    ⨾ opt (group 1 (plus (alt (chr b':') word)))
    ⨾ group 2 (star any_char)
    ⨾ eol

-- What is left of a line, and the stack.
abbrev pub Rest : Type 0
Rest = Text × Stack

abbrev open_namespace : Option Text → ℕ → Text → Stack → Option ℕ → Rest
open_namespace name linenum rest stack none = (rest, new_namespace name linenum ∷ stack)
open_namespace name linenum rest stack (some at) =
    (drop (at + 1) rest, record (new_namespace name linenum) { seen_open_brace = true } ∷ stack)

abbrev namespace_round : (Rest → Rest) → ℕ → Text → Stack → Option Matched → Rest
namespace_round next linenum line stack none = (line, stack)
namespace_round next linenum line stack (some m) = next (
    open_namespace (group_of m 1) linenum (group_text m 2) stack
      (find (group_text m 2) (codes "{")))

-- The loop over the namespaces at the start of a line, on fuel: each round shortens the line.
unfoldable pub consume_namespaces : ℕ → ℕ → Rest → Rest
consume_namespaces zero linenum (line, stack) = (line, stack)
consume_namespaces (suc fuel) linenum (line, stack) =
    namespace_round (λ r. consume_namespaces fuel linenum r) linenum line stack
      (match_at_start namespace_pattern line)

-- ^(\s*(?:template\s*<[\w\s<>,:=]*>\s*)?(class|struct)\s+(?:[A-Z_]+\s+)*(\w+(?:::\w+)*))(.*)$
unfoldable pub class_pattern : Re
class_pattern =
    bol
    ⨾ group 1 (
        star space
        ⨾ opt (
            lit "template"
            ⨾ star space
            ⨾ chr b'<'
            ⨾ star (alt word (alt space (one_of "<>,:=")))
            ⨾ chr b'>'
            ⨾ star space)
        ⨾ group 2 (first_of_lits ("class" ∷ "struct" ∷ []))
        ⨾ plus space
        ⨾ star (plus (one_of "ABCDEFGHIJKLMNOPQRSTUVWXYZ_") ⨾ plus space)
        ⨾ group 3 (plus word ⨾ star (lit "::" ⨾ plus word)))
    ⨾ group 4 (star any_char)
    ⨾ eol

abbrev no_parentheses : Stack → Bool
no_parentheses [] = true
no_parentheses (b ∷ stack) = is_ℕ b.open_parentheses 0

abbrev push_class : CleansedLines → ℕ → Rest → Matched → Option Bool → Rest
push_class clean_lines linenum r m (some false) =
    (group_text m 4, new_class (group_text m 3) (group_text m 2) clean_lines linenum ∷ r.1)
push_class clean_lines linenum r m answer = r

-- The class declaration in what is left of the line, if there is one.
unfoldable pub declare_class : CleansedLines → ℕ → Rest → Option Matched → Rest
declare_class clean_lines linenum r none = r
declare_class clean_lines linenum r (some m) =
    if no_parentheses r.1
    then push_class clean_lines linenum r m
        (in_template_argument_list clean_lines.elided linenum (length (group_text m 1)))
    else r

unfoldable pub begin_block : CleansedLines → ℕ → Stack → Stack
begin_block clean_lines linenum stack =
    if seen_open_brace stack then stack else change_top (check_begin clean_lines linenum) stack

-- ^(.*)\b(public|private|protected|signals)(\s+(?:slots\s*)?)?:(?:[^:]|$)
unfoldable pub access_pattern : Re
access_pattern =
    bol
    ⨾ group 1 (star any_char)
    ⨾ word_boundary
    ⨾ group 2 (first_of_lits ("public" ∷ "private" ∷ "protected" ∷ "signals" ∷ []))
    ⨾ opt (group 3 (plus space ⨾ opt (lit "slots" ⨾ star space)))
    ⨾ chr b':'
    ⨾ alt (none_of ":") eol

abbrev access_report : ℕ → ClassInfo → Matched → List Report
access_report linenum c m =
    if not (length (group_text m 1) == c.class_indent + 1)
      && is_some (match_at_start blank_pattern (group_text m 1))
    then record {
      linenum = linenum;
      category = codes "whitespace/indent";
      confidence = 3;
      message =
          group_text m 2
          ++ (group_text m 3 ++ (codes ": should be indented +1 space inside " ++ parent_of c));
    }
      ∷ []
    else []

abbrev pub access_of : ℕ → BlockInfo → Stack → Kind → Option Matched → Stack × List Report
access_of linenum b stack (class_block c) (some m) = (
  record b { kind = class_block (record c { access = group_text m 2 }) } ∷ stack,
  access_report linenum c m,
)
access_of linenum b stack k m = (b ∷ stack, [])

unfoldable pub update_access : ℕ → Text → Stack → Stack × List Report
update_access linenum line [] = ([], [])
update_access linenum line (b ∷ stack) =
    access_of linenum b stack b.kind (match_at_start access_pattern line)

-- ^[^{;)}]*([{;)}])(.*)$
unfoldable pub brace_pattern : Re
brace_pattern =
    bol ⨾ star (none_of "{;)}") ⨾ group 1 (one_of "{;)}") ⨾ group 2 (star any_char) ⨾ eol

-- ^extern\s*"[^"]*"\s*\{
unfoldable pub extern_pattern : Re
extern_pattern =
    bol
    ⨾ lit "extern"
    ⨾ star space
    ⨾ chr b'"'
    ⨾ star (none_of "\"")
    ⨾ chr b'"'
    ⨾ star space
    ⨾ chr b'{'

unfoldable pub open_brace : Text → ℕ → Stack → Stack
open_brace line linenum stack =
    if not (seen_open_brace stack)
    then change_top (λ b. record b { seen_open_brace = true }) stack
    else if is_some (match_at_start extern_pattern line)
    then new_extern_c linenum ∷ stack
    else record (new_block linenum true) {
      inline_asm = if is_some (match_at_start match_asm line) then block_asm else no_asm;
    }
      ∷ stack

unfoldable pub pop_unseen : Stack → Stack
pop_unseen stack = if seen_open_brace stack then stack else drop 1 stack

unfoldable pub close_brace : CleansedLines → ℕ → Stack → Stack × List Report
close_brace clean_lines linenum [] = ([], [])
close_brace clean_lines linenum (b ∷ stack) = (stack, check_end clean_lines linenum b)

unfoldable pub brace_token : CleansedLines → ℕ → Text → Text → Stack → Stack × List Report
brace_token clean_lines linenum line token stack =
    if token =t= codes "{"
    then (open_brace line linenum stack, [])
    else if token =t= codes ";" || token =t= codes ")"
    then (pop_unseen stack, [])
    else close_brace clean_lines linenum stack

abbrev pub with_reports : List Report → Stack × List Report → Stack × List Report
with_reports rs r = (r.0, rs ++ r.1)

abbrev pub brace_round :
    (Text → Stack → Stack × List Report)
    → CleansedLines
    → ℕ
    → Text
    → Stack
    → Option Matched
    → Stack × List Report
brace_round next clean_lines linenum line stack none = (stack, [])
brace_round next clean_lines linenum line stack (some m) =
    let done = brace_token clean_lines linenum line (group_text m 1) stack in
    with_reports done.1 (next (group_text m 2) done.0)

-- The loop over the braces and semicolons of a line, on fuel: each round shortens the line.
unfoldable pub consume_braces : ℕ → CleansedLines → ℕ → Text → Stack → Stack × List Report
consume_braces zero clean_lines linenum line stack = (stack, [])
consume_braces (suc fuel) clean_lines linenum line stack =
    brace_round (λ l st. consume_braces fuel clean_lines linenum l st) clean_lines linenum line
      stack (match_at_start brace_pattern line)

unfoldable pub update : CleansedLines → ℕ → NestingState → NestingState × List Report
update clean_lines linenum s =
    let line = get_or clean_lines.elided linenum [] in
    let at_line =
      update_preprocessor line (record s { previous_stack_top = class_of_top s.stack }) in
    let counted = change_top (count_parentheses line) at_line.stack in
    let named = consume_namespaces (suc (length line)) linenum (line, counted) in
    let declared = declare_class clean_lines linenum named (match_at_start class_pattern named.0) in
    let begun = begin_block clean_lines linenum declared.1 in
    let accessed = update_access linenum declared.0 begun in
    let braced =
      consume_braces (suc (length declared.0)) clean_lines linenum declared.0 accessed.0 in
    (record at_line { stack = braced.0 }, accessed.1 ++ braced.1)

abbrev incomplete : ℕ → Kind → List Report
incomplete starting_linenum (class_block c) =
    record {
      linenum = starting_linenum;
      category = codes "build/class";
      confidence = 5;
      message = codes "Failed to find complete declaration of class " ++ c.name;
    }
    ∷ []
incomplete starting_linenum (namespace_block name) =
    record {
      linenum = starting_linenum;
      category = codes "build/namespaces";
      confidence = 5;
      message = codes "Failed to find complete declaration of namespace " ++ name;
    }
    ∷ []
incomplete starting_linenum _ = []

-- The blocks from the outermost on.
unfoldable pub check_blocks : Stack → List Report
check_blocks [] = []
check_blocks (b ∷ blocks) = incomplete b.starting_linenum b.kind ++ check_blocks blocks

unfoldable pub check_completed_blocks : NestingState → List Report
check_completed_blocks s = check_blocks (reverse s.stack)
