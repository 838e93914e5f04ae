-- ===== src/Cpplint/Includes.antt =====
-- CheckIncludeLine of cpplint.py. `os.path.normpath` is a parameter, and a POSIX system is assumed.
pub mod Standard
pub mod Classify
pub mod Kept
use adv_database_implementat.Base.{
  ℕ, zero, suc, ◌+◌, ◌-◌, Bool, true, false, ◌&&◌, ◌||◌, not, Option, none, some, List, [], ◌∷◌,
  ◌++◌, String, Text, codes, length, take, get_or, ltb, leb, ◌==◌, ◌=t=◌, if◌then◌else◌, is_some,
  find, replace, ends_with, text_mem, map,
}
use adv_database_implementat.Regex.{
  Re, Matched, set, alt, star, plus, bol, eol, any_char, space, chr, one_of, none_of, group, lit,
  first_of_lits, ◌⨾◌, match_at_start, search_text, group_of, or_empty,
}
use adv_database_implementat.Cpplint.Report.{Report, decimal}
use adv_database_implementat.Cpplint.CleansedLines.{CleansedLines}
use adv_database_implementat.Cpplint.FileChecks.{report, report_if}
use adv_database_implementat.Cpplint.Paths.{halves, split_path, dirname}
use adv_database_implementat.Cpplint.FileInfo.{Files, repository_name}
use adv_database_implementat.Cpplint.HeaderGuard.{and_then}
use adv_database_implementat.Cpplint.SameModule.{
  Extensions, get_header_extensions, get_non_header_extensions,
}
use adv_database_implementat.Cpplint.IncludeState.{
  HeaderType, c_sys_header, cpp_sys_header, likely_my_header, possible_my_header, other_header,
  IncludeState, find_header, add_include, check_next_include_order, canonicalize_alphabetical_order,
  is_in_alphabetical_order, set_last_header,
}
use adv_database_implementat.Cpplint.Includes.Classify.{split_ext, classify_include}

-- ^(?:[^/]*[A-Z][^/]*\.h|lua\.h|lauxlib\.h|lualib\.h)$
unfoldable pub third_party_headers_pattern : Re
third_party_headers_pattern =
    bol
    ⨾ alt (star (none_of "/") ⨾ set (λ c. leb b'A' c && leb c b'Z') ⨾ star (none_of "/") ⨾ lit ".h")
        (first_of_lits ("lua.h" ∷ "lauxlib.h" ∷ "lualib.h" ∷ []))
    ⨾ eol

unfoldable pub is_third_party : Text → Bool
is_third_party include = is_some (match_at_start third_party_headers_pattern include)

-- #include\s*"([^/]+\.h)" and ^\s*#\s*include\s*([<"])([^>"]*)[>"].*$
unfoldable pub bare_include : Re
bare_include =
    lit "#include" ⨾ star space ⨾ chr b'"' ⨾ group 1 (plus (none_of "/") ⨾ lit ".h") ⨾ chr b'"'

unfoldable pub include_line : Re
include_line =
    bol
    ⨾ star space
    ⨾ chr b'#'
    ⨾ star space
    ⨾ lit "include"
    ⨾ star space
    ⨾ group 1 (one_of "<\"")
    ⨾ group 2 (star (none_of ">\""))
    ⨾ one_of ">\""
    ⨾ star any_char
    ⨾ eol

abbrev subdir_reports : ℕ → Option Matched → List Report
subdir_reports linenum none = []
subdir_reports linenum (some m) =
    report_if (not (is_third_party (or_empty (group_of m 1))))
      (report linenum "build/include_subdir" 4 (codes "Include the directory when naming .h files"))
      []

-- The first extension of a source that the include has, if it lies in another directory.
unfoldable pub foreign_source : List Text → Text → Text → Option Text
foreign_source [] repository include = none
foreign_source (ext ∷ exts) repository include =
    if ends_with include (b'.' ∷ ext) && not (dirname repository =t= dirname include)
    then some ext
    else foreign_source exts repository include

abbrev contains : Text → Text → Bool
contains s t = is_some (find s t)

-- Whether the include is the header of the file itself, for one of the extensions.
unfoldable pub third_src_header : Files → List Text → Text → Text → Option Bool
third_src_header f [] basefilename include = some false
third_src_header f (ext ∷ exts) basefilename include =
    let rest = third_src_header f exts basefilename include in
    and_then (repository_name f (basefilename ++ b'.' ∷ ext)) (λ headername.
      if contains include headername || contains headername include then some true else rest)

abbrev order_reports : ℕ → Text → Option Text → List Report
order_reports linenum base_name none = []
order_reports linenum base_name (some error_message) =
    report linenum "build/include_order" 4 (
      error_message
      ++ (codes ". Should be: " ++ (base_name ++ codes ".h, c system, c++ system, other.")))
    ∷ []

-- Behind the tests that return: the include is recorded and its order is checked.
unfoldable pub record_include :
    CleansedLines → ℕ → Text → HeaderType → Text → IncludeState → List Report × IncludeState
record_include clean_lines linenum include kind base_name s =
    let (ordered, error_message) = check_next_include_order kind (add_include include linenum s) in
    let canonical_include = canonicalize_alphabetical_order include in
    (
      order_reports linenum base_name error_message
          ++ report_if
              (not (is_in_alphabetical_order clean_lines.elided linenum canonical_include ordered))
              (report linenum "build/include_alpha" 4
                (codes "Include \"" ++ (include ++ codes "\" not in alphabetical order")))
              [],
      set_last_header canonical_include ordered,
    )

-- For an include that is new to the file.
unfoldable pub check_new_include :
    Files
    → (Text → Text)
    → Extensions
    → Text
    → CleansedLines
    → ℕ
    → Text
    → Bool
    → Text
    → IncludeState
    → Option Text
    → Option (List Report × IncludeState)
check_new_include f normpath e filename clean_lines linenum include is_system repository s
      (some ext) =
    some (
      report linenum "build/include" 4
            (codes "Do not include ." ++ (ext ++ codes " files from other packages"))
          ∷ [],
      s,
    )
check_new_include f normpath e filename clean_lines linenum include is_system repository s none =
    let (base_name, ext) = split_ext (split_path repository).1 in
    let basefilename = take (length filename - length ext) filename in
    and_then (third_src_header f (get_header_extensions e) basefilename include) (λ third. some (
      if third || not (is_third_party include)
      then record_include clean_lines linenum include
          (classify_include normpath e repository include is_system) base_name s
      else ([], s)))

unfoldable pub check_include :
    Files
    → (Text → Text)
    → Extensions
    → Text
    → CleansedLines
    → ℕ
    → Text
    → Bool
    → IncludeState
    → Option ℕ
    → Option (List Report × IncludeState)
check_include f normpath e filename clean_lines linenum include is_system s (some duplicate_line) =
    some (
      report linenum "build/include" 4 (
            codes "\""
            ++ (include
                ++ (codes "\" already included at "
                    ++ (filename ++ (codes ":" ++ decimal duplicate_line)))))
          ∷ [],
      s,
    )
check_include f normpath e filename clean_lines linenum include is_system s none =
    and_then (repository_name f filename) (λ repository.
      check_new_include f normpath e filename clean_lines linenum include is_system repository s
        (foreign_source (get_non_header_extensions e) repository include))

unfoldable pub check_matched :
    Files
    → (Text → Text)
    → Extensions
    → Text
    → CleansedLines
    → ℕ
    → IncludeState
    → Option Matched
    → Option (List Report × IncludeState)
check_matched f normpath e filename clean_lines linenum s none = some ([], s)
check_matched f normpath e filename clean_lines linenum s (some m) =
    let include = or_empty (group_of m 2) in
    check_include f normpath e filename clean_lines linenum include
      (or_empty (group_of m 1) =t= codes "<") s (find_header include s)

abbrev before : List Report → List Report × IncludeState → List Report × IncludeState
before reports (more, s) = (reports ++ more, s)

-- The reports and the state behind the line; `none` where RepositoryName does not end.
unfoldable pub check_include_line :
    Files
    → (Text → Text)
    → Extensions
    → Text
    → CleansedLines
    → ℕ
    → IncludeState
    → Option (List Report × IncludeState)
check_include_line f normpath e filename clean_lines linenum s =
    let line = get_or clean_lines.lines linenum [] in
    and_then
      (check_matched f normpath e filename clean_lines linenum s (search_text include_line line))
      (λ result. some (before (subdir_reports linenum (match_at_start bare_include line)) result))
