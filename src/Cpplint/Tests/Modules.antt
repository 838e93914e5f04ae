-- ===== src/Cpplint/Tests/Modules.antt =====
-- FilesBelongToSameModule at a concrete input, with a splitting of names by their last slash and
-- last period.
use adv_database_implementat.Base.{
  ℕ, true, [], ◌∷◌, Text, codes, reverse, ◌==◌, if◌then◌else◌, ◌≡◌, refl, text_mem, char_mem,
  replace, ends_with,
}
use adv_database_implementat.Regex.{search_text, group_of}
use adv_database_implementat.Cpplint.SameModule.{
  FileParts, Extensions, files_belong_to_same_module, common_path, drop_end, source_stem,
  header_stem, lstrip_dots, get_non_header_extensions, get_header_extensions, get_all_extensions,
  is_header_extension, difference, without_roots, test_file_suffix, with_h,
}

-- The text behind the last `c` of a reversed text, and the text up to it; all of it behind if
-- there is none.
unfoldable cut_last : ℕ → Text → Text → Text × Text
cut_last c [] behind = ([], behind)
cut_last c (x ∷ s) behind =
    let further = cut_last c s (x ∷ behind) in if x == c then (x ∷ s, behind) else further

abbrev without_first : Text → Text
without_first [] = []
without_first (c ∷ s) = s

abbrev parts_of_rest : Text → Text → Text × Text → FileParts
parts_of_rest directory rest ([], ext) = record {
  directory = directory;
  base_name = rest;
  extension = [];
}
parts_of_rest directory rest (c ∷ s, ext) = record {
  directory = directory;
  base_name = reverse s;
  extension = b'.' ∷ ext;
}

abbrev split_name : Text → FileParts
split_name filename =
    let cut = cut_last b'/' (reverse filename) [] in
    parts_of_rest (reverse (without_first cut.0)) cut.1 (cut_last b'.' (reverse cut.1) [])

abbrev by_default : Extensions
by_default = record { hpp_headers = []; valid_extensions = [] }

same_module :
    files_belong_to_same_module split_name by_default
      (codes "lab/src/internal/log_test.cc")
      (codes "src/log.h")
    ≡ (true, codes "lab/")
unfolding files_belong_to_same_module cut_last text_mem get_non_header_extensions
    get_header_extensions get_all_extensions is_header_extension difference without_roots
    test_file_suffix with_h common_path drop_end source_stem header_stem lstrip_dots search_text
    char_mem replace ends_with group_of
same_module = refl
