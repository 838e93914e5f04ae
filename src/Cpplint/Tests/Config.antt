-- ===== src/Cpplint/Tests/Config.antt =====
-- Configuration files.
use adv_database_implementat.Base.{
  ends_with, dict_get, is_space, lstrip, rstrip, strip, pos, ◌++◌, is_some, true, some, List, [],
  ◌∷◌, Text, codes, ◌=t=◌, if◌then◌else◌, starts_with, split, ◌≡◌, refl,
}
use adv_database_implementat.Cpplint.LintState as LintState
use adv_database_implementat.Cpplint.LintState.{
  should_print_error, add_filters, append_filters, first_unsigned, is_signed,
}
use adv_database_implementat.Cpplint.Categories.{default_filters}
use adv_database_implementat.Cpplint.LintState.Filters.{last_word, clean_filters}
use adv_database_implementat.Cpplint.Suppressions.{line_mem, is_error_suppressed_by_nolint}
use adv_database_implementat.Cpplint.Paths.{split_path, join_two, halves, trim_head, rstrip_slashes}
use adv_database_implementat.Cpplint.Config.{
  Host, CfgFile, readable, missing, Settings, before_char, after_char, walk, read_config, cfg_lines,
  cfg_line, cfg_option, int_of, digits_value, apply_filters, process_config_overrides,
}
use adv_database_implementat.Cpplint.Config.Nearest.{filters_of, filters_of_line}
use adv_database_implementat.Cpplint.Config.Returns.{process_config_overrides-returns}
use adv_database_implementat.Cpplint.Config.Decides.{process_config_overrides-nearest}

abbrev near : List Text
near =
    codes "# ours"
    ∷ codes "linelength = 100"
    ∷ codes "filter=-build/class, +build"
    ∷ codes "filter=+build/class"
    ∷ []

abbrev config_at : Text → CfgFile
config_at name =
    if name =t= codes "/db/a/CPPLINT.cfg"
    then readable near
    else if name =t= codes "/db/CPPLINT.cfg"
    then readable (codes "filter=-build" ∷ [])
    else missing

abbrev disk : Host
disk = record {
  config = config_at;
  abspath = λ name. name;
  matches = λ pattern name. some (pattern =t= name);
}

abbrev before : Settings
before = record {
  lint = LintState.init;
  line_length = pos 80;
  extensions = record { hpp_headers = codes "h" ∷ []; valid_extensions = codes "cc" ∷ [] };
  root = [];
}

abbrev after : Settings
after = record before {
  lint = record LintState.init {
    filters =
        default_filters
        ++ (codes "-build" ∷ codes "+build/class" ∷ codes "-build/class" ∷ codes "+build" ∷ []);
  };
  line_length = pos 100;
}

process_config_overrides-nearest_example :
    should_print_error after.lint
      (record { error_suppressions = []; global_error_suppressions = [] })
      (codes "build/class")
      5
      12
    ≡ some true
unfolding process_config_overrides filters_of last_word clean_filters split_path
    is_error_suppressed_by_nolint halves join_two trim_head rstrip_slashes starts_with ends_with
    filters_of_line strip before_char after_char walk read_config cfg_lines cfg_line cfg_option
    int_of digits_value dict_get is_space lstrip rstrip split apply_filters add_filters
    append_filters first_unsigned is_signed line_mem LintState.init default_filters
process_config_overrides-nearest_example =
    process_config_overrides-nearest disk (codes "/db/a/x.cc") (codes "-build/class, +build")
      (codes "+build") (codes "+build/class" ∷ []) near before after
      (record { error_suppressions = []; global_error_suppressions = [] }) (codes "build/class") 5
      12 refl refl refl refl refl

process_config_overrides-returns_example :
    is_some (process_config_overrides disk (codes "/db/a/x.cc") before) ≡ true
process_config_overrides-returns_example =
    process_config_overrides-returns disk (codes "/db/a/x.cc") before
