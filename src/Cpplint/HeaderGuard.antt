-- ===== src/Cpplint/HeaderGuard.antt =====
-- GetHeaderGuardCPPVariable and CheckForHeaderGuard of cpplint.py.
pub mod Scan
pub mod Endif
pub mod Variable
pub mod Root
pub mod Accepted
use mathlib.Core.Option
use adv_database_implementat.Base.{
  ℕ, zero, suc, ◌+◌, ◌-◌, Bool, true, false, ◌&&◌, ◌||◌, not, Option, none, some, List, [], ◌∷◌,
  ◌++◌, Text, codes, length, take, drop, get_or, ◌==◌, ◌=t=◌, if◌then◌else◌, is_some, leb, replace,
  starts_with, upper,
}
use adv_database_implementat.Regex.{
  Re, Matched, set, alt, star, opt, plus, bol, eol, word_boundary, space, chr, none_of, group, lit,
  chars, ◌⨾◌, match_at_start, search_text, sub, group_of, or_empty,
}
use adv_database_implementat.Cpplint.Report.{Report}
use adv_database_implementat.Cpplint.CleansedLines.{CleansedLines}
use adv_database_implementat.Cpplint.FileChecks.{report, any_found}
use adv_database_implementat.Cpplint.FunctionLengths.{words}
use adv_database_implementat.Cpplint.Paths.{path_split_to_list, join_path}
use adv_database_implementat.Cpplint.FileInfo.{Files, full_name, repository_name}

-- _flymake\.h$ and /\.flymake/([^/]*)$
unfoldable pub flymake_suffix : Re
flymake_suffix = lit "_flymake.h" ⨾ eol

unfoldable pub flymake_directory : Re
flymake_directory = lit "/.flymake/" ⨾ group 1 (star (none_of "/")) ⨾ eol

unfoldable pub original_name : Text → Text
original_name filename =
    let name =
      sub flymake_directory (λ m. b'/' ∷ or_empty (group_of m 1))
        (sub flymake_suffix (λ m. codes ".h") filename) in
    replace (replace name (codes "C++") (codes "cpp")) (codes "c++") (codes "cpp")

abbrev pub same_parts : List Text → List Text → Bool
same_parts [] [] = true
same_parts [] (q ∷ qs) = false
same_parts (p ∷ ps) [] = false
same_parts (p ∷ ps) (q ∷ qs) = p =t= q && same_parts ps qs

unfoldable pub strip_list_prefix : List Text → List Text → Option (List Text)
strip_list_prefix lst prefix =
    if same_parts (take (length prefix) lst) prefix then some (drop (length prefix) lst) else none

-- `if maybe_path: return os.path.join(*maybe_path)`
abbrev pub joined_or : Option (List Text) → Option Text → Option Text
joined_or none other = other
joined_or (some []) other = other
joined_or (some (p ∷ ps)) other = some (join_path (p ∷ ps))

abbrev pub and_then : {A B : Type 0} → Option A → (A → Option B) → Option B
and_then none f = none
and_then (some x) f = f x

-- `root` is _root, empty where it is not set; `none` where a loop does not end.
unfoldable pub fixup_path_from_root : Files → Text → Text → Text → Option Text
fixup_path_from_root f root filename path =
    if root =t= []
    then some path
    else and_then (path_split_to_list path) (λ parts. and_then (path_split_to_list root) (λ prefix.
      joined_or (strip_list_prefix parts prefix) (
        and_then (path_split_to_list (full_name f filename)) (λ full.
          and_then (path_split_to_list (f.abspath root))
            (λ root_parts. joined_or (strip_list_prefix full root_parts) (some path))))))

abbrev pub is_letter_or_digit : ℕ → Bool
is_letter_or_digit c =
    (leb b'a' c && leb c b'z') || ((leb b'A' c && leb c b'Z') || (leb b'0' c && leb c b'9'))

unfoldable pub guard_of : Text → Text
guard_of path =
    upper (sub (set (λ c. not (is_letter_or_digit c))) (λ m. codes "_") path) ++ codes "_"

unfoldable pub get_header_guard_cpp_variable : Files → Text → Text → Option Text
get_header_guard_cpp_variable f root filename =
    let name = original_name filename in
    and_then (repository_name f name)
      (λ path. and_then (fixup_path_from_root f root name path) (λ fixed. some (guard_of fixed)))

-- What the check does, in order: a call of ParseNolintSuppressions, or one of `error`.
pub data Call : Type 0 where
  nolint : Text → ℕ → Call
  error : Report → Call

pub record Guard : Type 0 where
  pub ifndef : Text
  pub ifndef_linenum : ℕ
  pub define : Text
  pub endif : Text
  pub endif_linenum : ℕ

abbrev pub no_guard : Guard
no_guard = record { ifndef = []; ifndef_linenum = 0; define = []; endif = []; endif_linenum = 0 }

-- What one line says, by its words.
abbrev pub guard_words : ℕ → List Text → Guard → Guard
guard_words linenum [] g = g
guard_words linenum (w ∷ []) g = g
guard_words linenum (w ∷ v ∷ ws) g =
    let h =
      if g.ifndef =t= [] && w =t= codes "#ifndef"
      then record g { ifndef = v; ifndef_linenum = linenum }
      else g in
    if h.define =t= [] && w =t= codes "#define" then record h { define = v } else h

unfoldable pub guard_line : ℕ → Text → Guard → Guard
guard_line linenum line g =
    let h = guard_words linenum (words line) g in
    if starts_with line (codes "#endif")
    then record h { endif = line; endif_linenum = linenum }
    else h

unfoldable pub guard_lines : ℕ → List Text → Guard → Guard
guard_lines linenum [] g = g
guard_lines linenum (line ∷ lines) g = guard_lines (suc linenum) lines (guard_line linenum line g)

abbrev guard_error : ℕ → ℕ → Text → Call
guard_error linenum level message = error (report linenum "build/header_guard" level message)

-- #endif\s*//\s* CPPVAR (_)?\b
unfoldable pub endif_pattern : Text → Re
endif_pattern cppvar =
    lit "#endif"
    ⨾ star space
    ⨾ lit "//"
    ⨾ star space
    ⨾ chars cppvar
    ⨾ opt (group 1 (chr b'_'))
    ⨾ word_boundary

-- #endif\s*/\*\s* CPPVAR (_)?\s*\*/
unfoldable pub endif_c_pattern : Text → Re
endif_c_pattern cppvar =
    lit "#endif"
    ⨾ star space
    ⨾ lit "/*"
    ⨾ star space
    ⨾ chars cppvar
    ⨾ opt (group 1 (chr b'_'))
    ⨾ star space
    ⨾ lit "*/"

-- ^(?:(?:\'(?:\.|[^\'])*\')|(?:"(?:\.|[^"])*")|[^\'"])*//
unfoldable pub single_line_comment : Re
single_line_comment =
    bol
    ⨾ star (
        alt (chr b'\'' ⨾ star (alt (chr b'.') (none_of "'")) ⨾ chr b'\'')
          (alt (chr b'"' ⨾ star (alt (chr b'.') (none_of "\"")) ⨾ chr b'"') (none_of "'\"")))
    ⨾ lit "//"

abbrev pub has_comment : List Text → Bool
has_comment [] = false
has_comment (line ∷ lines) = is_some (match_at_start single_line_comment line) || has_comment lines

abbrev pub underscore_calls : ℕ → Text → Matched → List Call
underscore_calls linenum message m =
    if or_empty (group_of m 1) =t= codes "_" then guard_error linenum 0 message ∷ [] else []

-- Behind the last return but one: the comment /* */ is looked for.
abbrev pub c_comment_calls : ℕ → Text → Option Matched → List Call
c_comment_calls linenum cppvar (some m) =
    underscore_calls linenum
      (codes "#endif line should be \"#endif  /* " ++ (cppvar ++ codes " */\"")) m
c_comment_calls linenum cppvar none =
    guard_error linenum 5 (codes "#endif line should be \"#endif  // " ++ (cppvar ++ codes "\""))
    ∷ []

abbrev pub endif_calls : List Text → Text → Guard → Option Matched → List Call
endif_calls raw_lines cppvar g (some m) =
    underscore_calls g.endif_linenum
      (codes "#endif line should be \"#endif  // " ++ (cppvar ++ codes "\"")) m
endif_calls raw_lines cppvar g none = c_comment_calls g.endif_linenum cppvar (
    if has_comment (take (length raw_lines - 2) (drop 1 raw_lines))
    then none
    else match_at_start (endif_c_pattern cppvar) g.endif)

abbrev pub style_calls : List Text → Text → Guard → List Call
style_calls raw_lines cppvar g =
    if g.ifndef =t= cppvar
    then []
    else nolint (get_or raw_lines g.ifndef_linenum []) g.ifndef_linenum
      ∷ guard_error g.ifndef_linenum (if g.ifndef =t= (cppvar ++ codes "_") then 0 else 5)
          (codes "#ifndef header guard has wrong style, please use: " ++ cppvar)
      ∷ []

unfoldable pub check_guard : List Text → Text → Guard → List Call
check_guard raw_lines cppvar g =
    if g.ifndef =t= [] || (g.define =t= [] || not (g.ifndef =t= g.define))
    then guard_error 0 5
        (codes "No #ifndef header guard found, suggested CPP variable is: " ++ cppvar)
      ∷ []
    else style_calls raw_lines cppvar g
      ++ nolint (get_or raw_lines g.endif_linenum []) g.endif_linenum
        ∷ endif_calls raw_lines cppvar g (match_at_start (endif_pattern cppvar) g.endif)

-- //\s*NOLINT\(build/header_guard\) and ^\s*#pragma\s+once
unfoldable pub nolint_guard : Re
nolint_guard = lit "//" ⨾ star space ⨾ lit "NOLINT(build/header_guard)"

unfoldable pub pragma_once : Re
pragma_once = bol ⨾ star space ⨾ lit "#pragma" ⨾ plus space ⨾ lit "once"

unfoldable pub check_for_header_guard : Files → Text → Text → CleansedLines → Option (List Call)
check_for_header_guard f root filename clean_lines =
    let raw_lines = clean_lines.lines_without_raw_strings in
    if any_found nolint_guard raw_lines || any_found pragma_once raw_lines
    then some []
    else and_then (get_header_guard_cpp_variable f root filename)
        (λ cppvar. some (check_guard raw_lines cppvar (guard_lines 0 raw_lines no_guard)))
