-- ===== src/Cpplint/Tests/Arguments.antt =====
-- The command line.
use adv_database_implementat.Base.{
  Bool, some, false, is_space, lstrip, rstrip, split, strip, pos, true, List, [], ◌∷◌, ◌++◌, map,
  Text, codes, ◌=t=◌, text_mem, char_mem, starts_with, ends_with, ◌≡◌, refl,
}
use adv_database_implementat.Cpplint.LintState as LintState
use adv_database_implementat.Cpplint.SameModule.{
  drop_end, get_all_extensions, get_header_extensions,
}
use adv_database_implementat.Cpplint.Paths.{join_two}
use adv_database_implementat.Cpplint.Categories.{default_filters}
use adv_database_implementat.Cpplint.Arguments.Getopt.{getopt, kind_of, long_has_args, starting}
use adv_database_implementat.Cpplint.Config.{int_of, digits_value, before_char, after_char}
use adv_database_implementat.Cpplint.Arguments.{
  Disk, Globals, Locals, longopts, parse_arguments, on_options, initial, select_files, parsed,
  is_excluded, on_option, keep, filter_excluded_files,
}
use adv_database_implementat.Cpplint.Arguments.RoundTrip.{args_of_all, tail_of}
use adv_database_implementat.Cpplint.Arguments.Options.{
  Setting, verbosity, recurse, filter, output, line_length, spell, apply_settings, apply_setting,
  parse_arguments-settings,
}
use adv_database_implementat.Cpplint.Arguments.Valid.{IsValid, parse_arguments-IsValid}
use adv_database_implementat.Cpplint.Arguments.Files.{select_files-exact}

abbrev below : Text → List (Text × List Text)
below name = (codes "./src", codes "a.cc" ∷ codes "notes" ∷ []) ∷ []

abbrev disk : Disk
disk = record {
  glob = λ pattern. pattern ∷ [];
  is_dir = λ name. name =t= codes "./src";
  walk_dir = below;
  abspath = λ name. codes "/db/" ++ name;
  set_order = λ xs. xs;
}

abbrev globals : Globals
globals = record {
  settings = record {
    lint = LintState.init;
    line_length = pos 80;
    extensions = record { hpp_headers = []; valid_extensions = [] };
    root = [];
  };
  repository = [];
  excludes = [];
}

abbrev wanted : List (Bool × Setting)
wanted =
    (true, verbosity false (codes "3") (pos 3))
    ∷ (true, recurse)
    ∷ (false, filter (codes "-build"))
    ∷ (true, output (codes "vs7"))
    ∷ (false, line_length (codes "100") (pos 100))
    ∷ []

abbrev its_locals : Locals
its_locals = record {
  globals = record globals { settings = record globals.settings { line_length = pos 100 } };
  verbosity = pos 3;
  output_format = codes "vs7";
  filters = codes "-build";
  quiet = false;
  counting_style = [];
  recursive = true;
}

abbrev its_lint : LintState.LintState
its_lint = record LintState.init {
  verbose_level = 3;
  output_format = codes "vs7";
  filters = LintState.init.filters ++ codes "-build" ∷ [];
}

parse_arguments-settings_example :
    parse_arguments disk
      (args_of_all (map spell wanted) (tail_of false (codes "./src" ∷ [])))
      globals
    ≡ parsed (select_files disk (codes "./src" ∷ []) its_locals) (record its_locals.globals {
      settings = record its_locals.globals.settings { lint = record its_lint { counting = [] } };
    })
unfolding text_mem starts_with kind_of int_of digits_value apply_settings apply_setting
    LintState.init LintState.set_filters LintState.add_filters LintState.append_filters
    LintState.first_unsigned LintState.is_signed default_filters is_space lstrip rstrip split strip
parse_arguments-settings_example =
    parse_arguments-settings disk globals wanted (codes "./src") [] false its_locals 3 its_lint
      (refl, (tt, (refl, (refl, (refl, tt))))) refl refl refl refl

abbrev lone : List Text
lone =
    codes "--counting" ∷ codes "detailed" ∷ codes "--filt=-build, +build/class" ∷ codes "a.cc" ∷ []

abbrev lone_globals : Globals
lone_globals = record globals {
  settings = record globals.settings {
    lint = record LintState.init {
      counting = codes "detailed";
      filters = LintState.init.filters ++ codes "-build" ∷ codes "+build/class" ∷ [];
    };
  };
}

parse_arguments-IsValid_example : IsValid lone_globals.settings.lint
unfolding text_mem LintState.init parse_arguments getopt kind_of starts_with long_has_args starting
    longopts before_char char_mem ends_with on_options on_option drop_end after_char
    LintState.set_filters is_space lstrip rstrip split strip keep is_excluded select_files
    default_filters filter_excluded_files LintState.add_filters LintState.append_filters
    LintState.first_unsigned LintState.is_signed LintState.set_counting_style
    LintState.set_output_format LintState.set_quiet LintState.set_verbose_level
parse_arguments-IsValid_example =
    parse_arguments-IsValid disk lone (codes "a.cc" ∷ []) globals lone_globals refl refl

abbrev recursively : Locals
recursively = record (initial globals) {
  globals = record globals { excludes = codes "src/b.cc" ∷ [] };
  recursive = true;
}

select_files-exact_example :
    text_mem (codes "src/a.cc") (select_files disk (codes "./src" ∷ []) recursively) ≡ true
unfolding text_mem get_all_extensions get_header_extensions starts_with join_two ends_with char_mem
select_files-exact_example =
    select_files-exact disk (some (codes "src")) (codes "a") (codes ".cc") (codes "src/a.cc")
      (codes "./src" ∷ []) recursively refl refl (refl, refl, refl) (λ x xs. refl)
