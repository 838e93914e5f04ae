-- ===== src/Cpplint/IncludeState.antt =====
-- `_IncludeState` of cpplint.py: the headers seen so far, and the order of their sections.
pub mod Order
pub mod Headers
use adv_database_implementat.Base.{
  ℕ, ◌-◌, Bool, true, false, ◌&&◌, not, Option, none, some, List, [], ◌∷◌, ◌++◌, Text, codes, leb,
  ◌==◌, ◌=t=◌, if◌then◌else◌, text_lt, replace, lower, text_mem, is_some, get_or,
}
use adv_database_implementat.Regex.{
  Re, bol, star, space, chr, lit, word_boundary, ◌⨾◌, match_at_start,
}

-- The constants _C_SYS_HEADER … _OTHER_HEADER.
pub data HeaderType : Type 0 where
  c_sys_header cpp_sys_header likely_my_header possible_my_header other_header : HeaderType

-- The constants _INITIAL_SECTION … _OTHER_H_SECTION, which are compared by `<=`.
abbrev pub initial_section : ℕ
initial_section = 0

abbrev pub my_h_section : ℕ
my_h_section = 1

abbrev pub c_section : ℕ
c_section = 2

abbrev pub cpp_section : ℕ
cpp_section = 3

abbrev pub other_h_section : ℕ
other_h_section = 4

unfoldable pub type_name : HeaderType → Text
type_name c_sys_header = codes "C system header"
type_name cpp_sys_header = codes "C++ system header"
type_name likely_my_header = codes "header this file implements"
type_name possible_my_header = codes "header this file may implement"
type_name other_header = codes "other header"

unfoldable pub section_name : ℕ → Text
section_name section =
    if section == initial_section
    then codes "... nothing. (This can't be an error.)"
    else if section == my_h_section
    then codes "a header this file implements"
    else if section == c_section
    then codes "C system header"
    else if section == cpp_section
    then codes "C++ system header"
    else codes "other header"

-- `include_list` with its last list apart, as it is never empty: `earlier`, then `current`.
pub record IncludeState : Type 0 where
  pub earlier : List (List (Text × ℕ))
  pub current : List (Text × ℕ)
  pub section : ℕ
  pub last_header : Text

unfoldable pub find_in_section : Text → List (Text × ℕ) → Option ℕ
find_in_section header [] = none
find_in_section header ((f, linenum) ∷ rest) =
    if f =t= header then some linenum else find_in_section header rest

abbrev pub or_later : Option ℕ → Option ℕ → Option ℕ
or_later none o = o
or_later (some n) o = some n

unfoldable pub find_in_list : Text → List (List (Text × ℕ)) → Option ℕ
find_in_list header [] = none
find_in_list header (section_list ∷ rest) =
    or_later (find_in_section header section_list) (find_in_list header rest)

-- `none` is -1.
unfoldable pub find_header : Text → IncludeState → Option ℕ
find_header header s = find_in_list header (s.earlier ++ s.current ∷ [])

unfoldable pub reset_section : Text → IncludeState → IncludeState
reset_section directive s =
    if text_mem directive (codes "if" ∷ codes "ifdef" ∷ codes "ifndef" ∷ [])
    then record {
      earlier = s.earlier ++ s.current ∷ [];
      current = [];
      section = initial_section;
      last_header = [];
    }
    else if text_mem directive (codes "else" ∷ codes "elif" ∷ [])
    then record s { current = []; section = initial_section; last_header = [] }
    else record s { section = initial_section; last_header = [] }

-- __init__, which ends with ResetSection('').
unfoldable pub init : IncludeState
init = reset_section [] (record { earlier = []; current = []; section = 0; last_header = [] })

unfoldable pub set_last_header : Text → IncludeState → IncludeState
set_last_header header_path s = record s { last_header = header_path }

-- include_state.include_list[-1].append((include, linenum)), in CheckIncludeLine.
unfoldable pub add_include : Text → ℕ → IncludeState → IncludeState
add_include include linenum s = record s { current = s.current ++ (include, linenum) ∷ [] }

unfoldable pub canonicalize_alphabetical_order : Text → Text
canonicalize_alphabetical_order header_path =
    lower (replace (replace header_path (codes "-inl.h") (codes ".h")) (codes "-") (codes "_"))

-- ^\s*#\s*include\b
unfoldable pub include_pattern : Re
include_pattern = bol ⨾ star space ⨾ chr b'#' ⨾ star space ⨾ lit "include" ⨾ word_boundary

-- `elided[linenum - 1]`; the caller's line is never the first, which a marker line precedes.
unfoldable pub is_in_alphabetical_order : List Text → ℕ → Text → IncludeState → Bool
is_in_alphabetical_order elided linenum header_path s = not (
    text_lt header_path s.last_header
    && is_some (match_at_start include_pattern (get_or elided (linenum - 1) [])))

abbrev found_after : HeaderType → ℕ → Text
found_after header_type section =
    codes "Found " ++ (type_name header_type ++ (codes " after " ++ section_name section))

-- The state with its section set, and the last header dropped if the section is another.
abbrev enter : ℕ → IncludeState → IncludeState × Option Text
enter section s = (
  record s { section = section; last_header = if s.section == section then s.last_header else [] },
  none,
)

abbrev refuse : HeaderType → IncludeState → IncludeState × Option Text
refuse header_type s = (record s { last_header = [] }, some (found_after header_type s.section))

-- The error message; `none` is the empty string.
unfoldable pub check_next_include_order : HeaderType → IncludeState → IncludeState × Option Text
check_next_include_order c_sys_header s =
    if leb s.section c_section then enter c_section s else refuse c_sys_header s
check_next_include_order cpp_sys_header s =
    if leb s.section cpp_section then enter cpp_section s else refuse cpp_sys_header s
check_next_include_order likely_my_header s =
    if leb s.section my_h_section then enter my_h_section s else enter other_h_section s
check_next_include_order possible_my_header s =
    if leb s.section my_h_section then enter my_h_section s else enter other_h_section s
check_next_include_order other_header s = enter other_h_section s
