-- ===== src/Cpplint/Tests/Includes.antt =====
-- CheckIncludeLine at a concrete input.
use adv_database_implementat.Base.{
  some, [], ◌∷◌, ◌++◌, codes, text_mem, char_mem, replace, replace_from, starts_with, ends_with,
  find, lower, to_lower, text_lt, is_space, ◌≡◌, refl,
}
use adv_database_implementat.Regex.{
  search_text, search_from, match_at_start, run, repeat, or_else, group_of, span,
}
use adv_database_implementat.Cpplint.CleansedLines.{CleansedLines}
use adv_database_implementat.Cpplint.SameModule.{
  Extensions, get_header_extensions, get_non_header_extensions, get_all_extensions, difference,
  with_h,
}
use adv_database_implementat.Cpplint.Paths.{
  split_path, halves, trim_head, rstrip_slashes, dirname, join_two,
}
use adv_database_implementat.Cpplint.FileInfo.{
  Files, full_name, repository_name, search_vcs, vcs_root, has_vcs, below_root, common_prefix,
}
use adv_database_implementat.Cpplint.IncludeState.{
  IncludeState, add_include, check_next_include_order, find_header, find_in_list, find_in_section,
  is_in_alphabetical_order, include_pattern, canonicalize_alphabetical_order, set_last_header,
}
use adv_database_implementat.Cpplint.Includes.{
  check_include_line, check_matched, check_include, check_new_include, third_src_header,
  is_third_party, third_party_headers_pattern, foreign_source, record_include, include_line,
  bare_include,
}
use adv_database_implementat.Cpplint.Includes.Classify.{
  classify_include, split_ext, split_ext_name, cut_at_dot, drop_common_suffixes, common_suffixes,
  drop_suffix, ends_in_suffix, first_component,
}
use adv_database_implementat.Cpplint.Includes.Kept.{IsKept, included, check_include_line-IsKept}

-- A checkout in /p with a source a/b.cc.
abbrev checkout : Files
checkout = record {
  exists = λ path. text_mem path (codes "/p/a/b.cc" ∷ codes "/p/.git" ∷ []);
  abspath = λ path. codes "/p/" ++ path;
  relpath = λ path from. path;
  repository = [];
}

abbrev extensions : Extensions
extensions = record { hpp_headers = codes "h" ∷ []; valid_extensions = codes "h" ∷ codes "cc" ∷ [] }

abbrev source : CleansedLines
source =
    let lines = codes "// marker" ∷ codes "#include \"a/c.h\"" ∷ [] in
    record {
      elided = lines;
      lines = lines;
      raw_lines = lines;
      num_lines = 2;
      lines_without_raw_strings = lines;
    }

abbrev behind : IncludeState
behind = record {
  earlier = [];
  current = (codes "a/c.h", 1) ∷ [];
  section = 4;
  last_header = codes "a/c.h";
}

abbrev empty : IncludeState
empty = record { earlier = []; current = []; section = 0; last_header = [] }

an_include :
    check_include_line checkout (λ path. path) extensions (codes "a/b.cc") source 1 empty
    ≡ some ([], behind)
unfolding search_text search_from match_at_start run repeat or_else group_of span
    get_header_extensions get_non_header_extensions get_all_extensions difference with_h split_path
    halves trim_head rstrip_slashes dirname join_two full_name repository_name search_vcs vcs_root
    has_vcs below_root common_prefix add_include check_next_include_order find_header find_in_list
    find_in_section is_in_alphabetical_order include_pattern canonicalize_alphabetical_order
    set_last_header check_include_line check_matched check_include check_new_include
    third_src_header is_third_party third_party_headers_pattern foreign_source record_include
    classify_include split_ext split_ext_name cut_at_dot include_line bare_include
    drop_common_suffixes common_suffixes drop_suffix ends_in_suffix first_component text_mem replace
    replace_from starts_with ends_with find lower to_lower text_lt is_space char_mem
an_include = refl

check_include_line-IsKept_example :
    IsKept (codes "a/c.h") 1 (included (codes "#include \"a/c.h\"")) empty behind
check_include_line-IsKept_example =
    check_include_line-IsKept checkout (λ path. path) extensions (codes "a/b.cc") source 1
      (codes "a/c.h") empty [] behind an_include
