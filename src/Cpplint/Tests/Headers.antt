-- ===== src/Cpplint/Tests/Headers.antt =====
-- The names of files and the guards of headers, at concrete inputs.
use adv_database_implementat.Cpplint.HeaderGuard.Root.{get_header_guard_cpp_variable-below_root}
use adv_database_implementat.Cpplint.Paths.RoundTrip.{is_part}
use adv_database_implementat.Cpplint.Paths.{join_path, join_from}
use adv_database_implementat.Base.{
  ◌+◌, true, false, some, List, [], ◌∷◌, ◌++◌, Text, codes, length, drop, text_mem, replace,
  replace_from, starts_with, ends_with, upper, to_upper, is_space, ◌≡◌, refl,
}
use adv_database_implementat.Regex.{sub, sub_from, search_text, search_from, run, repeat, or_else}
use adv_database_implementat.Cpplint.CleansedLines.{CleansedLines}
use adv_database_implementat.Cpplint.FunctionLengths.{words}
use adv_database_implementat.Cpplint.FileChecks.{any_found}
use adv_database_implementat.Cpplint.Paths.{
  path_split_to_list, join_path, split_loop, split_path, halves, trim_head, rstrip_slashes, dirname,
  join_two,
}
use adv_database_implementat.Cpplint.Paths.RoundTrip.{path_split_to_list-join_path, is_part}
use adv_database_implementat.Cpplint.FileInfo.{
  Files, full_name, repository_name, search_vcs, vcs_root, has_vcs, below_root, common_prefix,
}
use adv_database_implementat.Cpplint.FileInfo.Top.{ancestor, repository_name-top, IsAbove, NoneFrom}
use adv_database_implementat.Cpplint.HeaderGuard.{
  nolint, get_header_guard_cpp_variable, check_for_header_guard, fixup_path_from_root, guard_of,
  original_name, flymake_suffix, flymake_directory, nolint_guard, pragma_once,
}
use adv_database_implementat.Cpplint.HeaderGuard.Variable.{guard_char}
use adv_database_implementat.Cpplint.HeaderGuard.Scan.{is_neutral, no_directive}
use adv_database_implementat.Cpplint.HeaderGuard.Accepted.{guarded, check_for_header_guard-accepted}

absolute_path : path_split_to_list (codes "/a/b") ≡ some (codes "/" ∷ codes "a" ∷ codes "b" ∷ [])
unfolding path_split_to_list split_loop split_path halves trim_head rstrip_slashes
absolute_path = refl

path_split_to_list-join_path_example :
    path_split_to_list (join_path (codes "a" ∷ codes "b.h" ∷ []))
    ≡ some (codes "a" ∷ codes "b.h" ∷ [])
unfolding is_part
path_split_to_list-join_path_example =
    path_split_to_list-join_path (codes "a") (codes "b.h" ∷ []) (refl, (refl, tt))

-- A checkout in /p with a header a/b.h.
abbrev checkout : Files
checkout = record {
  exists = λ path. text_mem path (codes "/p/a/b.h" ∷ codes "/p/.git" ∷ []);
  abspath = λ path. codes "/p/" ++ path;
  relpath = λ path from. path;
  repository = [];
}

abbrev header : Text
header = codes "a/b.h"

repository_name-top_example :
    (top : Text) × (repository_name checkout header
      ≡ some (drop (length top + 1) (full_name checkout header)))
    × (has_vcs checkout top ≡ true)
    × IsAbove top (ancestor 1 (dirname (full_name checkout header)))
    × NoneFrom checkout (dirname top)
unfolding full_name replace replace_from starts_with text_mem dirname split_path halves trim_head
    rstrip_slashes ancestor has_vcs join_two ends_with
repository_name-top_example = repository_name-top checkout header 1 refl refl refl refl refl

variable : get_header_guard_cpp_variable checkout [] header ≡ some (codes "A_B_H_")
unfolding get_header_guard_cpp_variable original_name flymake_suffix flymake_directory sub sub_from
    search_from run repeat or_else repository_name full_name search_vcs vcs_root below_root
    common_prefix replace replace_from starts_with text_mem dirname split_path halves trim_head
    rstrip_slashes has_vcs join_two ends_with fixup_path_from_root guard_of upper to_upper
variable = refl

named : repository_name checkout (original_name header) ≡ some (codes "a/b.h")
unfolding original_name flymake_suffix flymake_directory sub sub_from search_from run repeat or_else
    repository_name full_name search_vcs vcs_root below_root common_prefix replace replace_from
    starts_with text_mem dirname split_path halves trim_head rstrip_slashes has_vcs join_two
    ends_with
named = refl

get_header_guard_cpp_variable-below_root_example :
    get_header_guard_cpp_variable checkout (codes "a") header ≡ some (codes "B_H_")
unfolding is_part join_path join_from join_two starts_with ends_with guard_char to_upper
get_header_guard_cpp_variable-below_root_example =
    get_header_guard_cpp_variable-below_root checkout header (codes "b.h") (codes "a" ∷ []) []
      (refl, tt) (refl, tt) named

abbrev its_start : List Text
its_start = codes "// marker" ∷ codes "// Copyright" ∷ []

abbrev its_middle : List Text
its_middle = codes "" ∷ codes "int f();" ∷ codes "" ∷ []

abbrev its_lines : List Text
its_lines =
    its_start
    ++ codes "#ifndef A_B_H_"
      ∷ codes "#define A_B_H_"
      ∷ (its_middle ++ codes "#endif  // A_B_H_" ∷ codes "" ∷ [])

abbrev a_header : CleansedLines
a_header = record {
  elided = its_lines;
  lines = its_lines;
  raw_lines = its_lines;
  num_lines = length its_lines;
  lines_without_raw_strings = its_lines;
}

no_nolint : any_found nolint_guard its_lines ≡ false
unfolding any_found nolint_guard search_text search_from run is_space
no_nolint = refl

no_pragma : any_found pragma_once its_lines ≡ false
unfolding any_found pragma_once search_text search_from run repeat is_space or_else
no_pragma = refl

check_for_header_guard-accepted_example :
    check_for_header_guard checkout [] header a_header
    ≡ some (nolint (codes "#endif  // A_B_H_") 7 ∷ [])
unfolding guarded is_neutral no_directive words is_space starts_with
check_for_header_guard-accepted_example =
    check_for_header_guard-accepted checkout [] header a_header (codes "A_B_H_") its_start
      its_middle (codes "" ∷ []) variable refl no_nolint no_pragma (refl, (refl, tt))
      (refl, (refl, (refl, tt))) (refl, tt)
