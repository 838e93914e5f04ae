-- ===== src/Cpplint/Nesting/Blocks.antt =====
-- What a block checks where it begins and ends: the constructors of the block classes, and their
-- CheckBegin and CheckEnd.
use adv_database_implementat.Base.{
  ℕ, zero, suc, ◌-◌, Bool, true, false, ◌&&◌, ◌||◌, not, Option, none, some, List, [], ◌∷◌, ◌++◌,
  Text, codes, length, drop, get_or, ltb, ◌==◌, ◌=t=◌, if◌then◌else◌, is_some, count, ℤ, pos, sub_ℕ,
  ◌+ℤ◌, is_ℕ,
}
use adv_database_implementat.Regex.{
  Re, Matched, alt, bol, eol, star, space, not_space, any_char, chr, chars, none_of, one_of, group,
  word_boundary, plus, lit, first_of_lits, ◌⨾◌, match_at_start, search_text, group_of, or_empty,
}
use adv_database_implementat.Cpplint.Report.{Report}
use adv_database_implementat.Cpplint.CleansedLines.{CleansedLines}
use adv_database_implementat.Cpplint.Nesting.{
  Kind, block, extern_c, class_block, namespace_block, ClassInfo, BlockInfo, no_asm,
}

abbrev pub length_of_group : Option Matched → ℕ
length_of_group none = 0
length_of_group (some m) = length (or_empty (group_of m 1))

-- ^( *)\S
unfoldable pub indent_pattern : Re
indent_pattern = bol ⨾ group 1 (star (chr b' ')) ⨾ not_space

-- GetIndentLevel
unfoldable pub get_indent_level : Text → ℕ
get_indent_level line = length_of_group (match_at_start indent_pattern line)

unfoldable pub new_block : ℕ → Bool → BlockInfo
new_block linenum seen_open_brace = record {
  starting_linenum = linenum;
  seen_open_brace = seen_open_brace;
  open_parentheses = pos 0;
  inline_asm = no_asm;
  check_namespace_indentation = false;
  kind = block;
}

unfoldable pub new_extern_c : ℕ → BlockInfo
unfolding new_block
new_extern_c linenum = record (new_block linenum true) { kind = extern_c }

-- name or ''
unfoldable pub new_namespace : Option Text → ℕ → BlockInfo
unfolding new_block
new_namespace name linenum = record (new_block linenum false) {
  check_namespace_indentation = true;
  kind = namespace_block (or_empty name);
}

-- The loop for the end of the class: the first line at which the braces are even, or 0.
unfoldable pub find_last_line : ℤ → ℕ → List Text → ℕ
find_last_line depth i [] = 0
find_last_line depth i (line ∷ lines) =
    let depth' = depth +ℤ sub_ℕ (count line (codes "{")) (count line (codes "}")) in
    let later = find_last_line depth' (suc i) lines in if is_ℕ depth' 0 then i else later

unfoldable pub new_class : Text → Text → CleansedLines → ℕ → BlockInfo
unfolding new_block
new_class name class_or_struct clean_lines linenum = record (new_block linenum false) {
  check_namespace_indentation = true;
  kind = class_block (record {
    name = name;
    is_derived = false;
    access = if class_or_struct =t= codes "struct" then codes "public" else codes "private";
    is_struct = class_or_struct =t= codes "struct";
    class_indent = get_indent_level (get_or clean_lines.raw_lines linenum []);
    last_line = find_last_line (pos 0) linenum (drop linenum clean_lines.elided);
  });
}

-- (^|[^:]):($|[^:])
unfoldable pub bare_colon : Re
bare_colon = group 1 (alt bol (none_of ":")) ⨾ chr b':' ⨾ group 2 (alt eol (none_of ":"))

abbrev derive : Bool → Kind → Kind
derive found (class_block c) = class_block (if found then record c { is_derived = true } else c)
derive found k = k

-- CheckBegin, by the class of the block.
unfoldable pub check_begin : CleansedLines → ℕ → BlockInfo → BlockInfo
check_begin clean_lines linenum b = record b {
  kind = derive (is_some (search_text bare_colon (get_or clean_lines.elided linenum []))) b.kind;
}

-- \b(DISALLOW_COPY_AND_ASSIGN|DISALLOW_IMPLICIT_CONSTRUCTORS)\(name\)
unfoldable pub disallow_pattern : Text → Re
disallow_pattern name =
    word_boundary
    ⨾ group 1 (first_of_lits ("DISALLOW_COPY_AND_ASSIGN" ∷ "DISALLOW_IMPLICIT_CONSTRUCTORS" ∷ []))
    ⨾ chr b'('
    ⨾ chars name
    ⨾ chr b')'

-- ^\s*$
unfoldable pub blank_pattern : Re
blank_pattern = bol ⨾ star space ⨾ eol

abbrev last_thing : Bool → ℕ → Matched → List Report
last_thing false i m = []
last_thing true i m =
    record {
      linenum = i;
      category = codes "readability/constructors";
      confidence = 3;
      message = or_empty (group_of m 1) ++ codes " should be the last thing in the class";
    }
    ∷ []

abbrev at_disallow : Bool → ℕ → Option Matched → List Report → List Report
at_disallow seen i (some m) above = last_thing seen i m
at_disallow seen i none above = above

-- The loop of _ClassInfo.CheckEnd over the lines i, i - 1, … above the end, `left` of them.
unfoldable pub check_disallow : Text → List Text → ℕ → ℕ → Bool → List Report
check_disallow name elided zero i seen_last = []
check_disallow name elided (suc left) i seen_last =
    let line = get_or elided i [] in
    at_disallow seen_last i (search_text (disallow_pattern name) line) (
      check_disallow name elided left (i - 1)
        (seen_last || not (is_some (match_at_start blank_pattern line))))

-- ^( *)\}
unfoldable pub closing_indent : Re
closing_indent = bol ⨾ group 1 (star (chr b' ')) ⨾ chr b'}'

abbrev pub parent_of : ClassInfo → Text
parent_of c = (if c.is_struct then codes "struct " else codes "class ") ++ c.name

abbrev check_aligned : ClassInfo → ℕ → Option Matched → List Report
check_aligned c linenum none = []
check_aligned c linenum (some m) =
    if length (or_empty (group_of m 1)) == c.class_indent
    then []
    else record {
      linenum = linenum;
      category = codes "whitespace/indent";
      confidence = 3;
      message = codes "Closing brace should be aligned with beginning of " ++ parent_of c;
    }
      ∷ []

unfoldable pub check_end_class : CleansedLines → ℕ → ℕ → ClassInfo → List Report
check_end_class clean_lines linenum starting_linenum c =
    check_disallow c.name clean_lines.elided (linenum - 1 - starting_linenum) (linenum - 1) false
    ++ check_aligned c linenum
        (match_at_start closing_indent (get_or clean_lines.elided linenum []))

-- ^\s*};*\s*(//|/\*).*\bnamespace
abbrev end_namespace : Re → Re
end_namespace rest =
    bol
    ⨾ star space
    ⨾ chr b'}'
    ⨾ star (chr b';')
    ⨾ star space
    ⨾ group 1 (alt (lit "//") (lit "/*"))
    ⨾ star any_char
    ⨾ word_boundary
    ⨾ lit "namespace"
    ⨾ rest

-- [\*/\.\\\s]*$
abbrev comment_tail : Re
comment_tail = star (alt (one_of "*/.\\") space) ⨾ eol

-- ^\s*}.*\b(namespace anonymous|anonymous namespace)\b
unfoldable pub anonymous_pattern : Re
anonymous_pattern =
    bol
    ⨾ star space
    ⨾ chr b'}'
    ⨾ star any_char
    ⨾ word_boundary
    ⨾ group 1 (alt (lit "namespace anonymous") (lit "anonymous namespace"))
    ⨾ word_boundary

abbrev namespace_report : ℕ → Text → List Report
namespace_report linenum message =
    record {
      linenum = linenum;
      category = codes "readability/namespace";
      confidence = 5;
      message = message;
    }
    ∷ []

unfoldable pub check_named_namespace : Text → ℕ → Text → List Report
check_named_namespace line linenum name =
    if is_some (match_at_start (end_namespace (plus space ⨾ chars name ⨾ comment_tail)) line)
    then []
    else namespace_report linenum
        (codes "Namespace should be terminated with \"// namespace " ++ (name ++ codes "\""))

unfoldable pub check_anonymous_namespace : Text → ℕ → List Report
check_anonymous_namespace line linenum =
    if is_some (match_at_start (end_namespace comment_tail) line)
    then []
    else if is_some (match_at_start anonymous_pattern line)
    then namespace_report linenum (
        codes
          "Anonymous namespace should be terminated with \"// namespace\" or \"// anonymous namespace\"")
    else namespace_report linenum
        (codes "Anonymous namespace should be terminated with \"// namespace\"")

unfoldable pub check_end_namespace : CleansedLines → ℕ → ℕ → Text → List Report
check_end_namespace clean_lines linenum starting_linenum name =
    let line = get_or clean_lines.raw_lines linenum [] in
    if ltb (linenum - starting_linenum) 10
      && not (is_some (match_at_start (end_namespace word_boundary) line))
    then []
    else if name =t= []
    then check_anonymous_namespace line linenum
    else check_named_namespace line linenum name

unfoldable pub check_end_kind : CleansedLines → ℕ → ℕ → Kind → List Report
check_end_kind clean_lines linenum starting_linenum (class_block c) =
    check_end_class clean_lines linenum starting_linenum c
check_end_kind clean_lines linenum starting_linenum (namespace_block name) =
    check_end_namespace clean_lines linenum starting_linenum name
check_end_kind clean_lines linenum starting_linenum _ = []

-- CheckEnd, by the class of the block.
unfoldable pub check_end : CleansedLines → ℕ → BlockInfo → List Report
check_end clean_lines linenum b = check_end_kind clean_lines linenum b.starting_linenum b.kind
