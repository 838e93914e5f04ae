-- ===== src/Cpplint/Arguments.antt =====
-- ParseArguments of cpplint.py, with _ExpandDirectories and _FilterExcludedFiles.
pub mod Getopt
pub mod RoundTrip
pub mod Options
pub mod Valid
pub mod Below
pub mod Files
use adv_database_implementat.Base.{
  ℕ, ℤ, pos, negsuc, Bool, true, false, not, ◌&&◌, ◌||◌, Option, none, some, List, [], ◌∷◌, ◌++◌,
  map, Text, codes, drop, ◌=t=◌, if◌then◌else◌, starts_with, text_mem,
}
use adv_database_implementat.Cpplint.LintState.{
  LintState, set_output_format, set_quiet, set_verbose_level, set_filters, set_counting_style,
}
use adv_database_implementat.Cpplint.SameModule.{Extensions, get_all_extensions}
use adv_database_implementat.Cpplint.Paths.{join_two}
use adv_database_implementat.Cpplint.Includes.Classify.{split_ext}
use adv_database_implementat.Cpplint.Config.{
  Settings, int_of, process_extensions_option, process_hpp_headers_option,
}
use adv_database_implementat.Cpplint.Arguments.Getopt.{Got, got, getopt_error, getopt}

-- The file system: glob.glob, os.path.isdir, the directories of os.walk with the names of their files,
-- os.path.abspath; and the order in which Python goes through a set.
pub record Disk : Type 0 where
  pub glob : Text → List Text
  pub is_dir : Text → Bool
  pub walk_dir : Text → List (Text × List Text)
  pub abspath : Text → Text
  pub set_order : List Text → List Text

-- The module variables that the options set.
pub record Globals : Type 0 where
  pub settings : Settings
  pub repository : Text
  pub excludes : List Text

-- The local variables of ParseArguments.
pub record Locals : Type 0 where
  pub globals : Globals
  pub verbosity : ℤ
  pub output_format : Text
  pub filters : Text
  pub quiet : Bool
  pub counting_style : Text
  pub recursive : Bool

-- How the program ends before it has read its arguments: PrintUsage with its message, PrintVersion,
-- PrintCategories, and ValueError with the text at fault. A verbosity below 0 is none that LintState
-- can hold.
pub data Exit : Type 0 where
  usage : Option Text → Exit
  version categories : Exit
  value_error : Text → Exit
  negative_verbosity : Exit

pub data Next : Type 0 where
  next : Locals → Next
  exit : Exit → Next

unfoldable pub longopts : List Text
longopts =
    codes "help"
    ∷ codes "output="
    ∷ codes "verbose="
    ∷ codes "v="
    ∷ codes "version"
    ∷ codes "counting="
    ∷ codes "filter="
    ∷ codes "root="
    ∷ codes "repository="
    ∷ codes "linelength="
    ∷ codes "extensions="
    ∷ codes "exclude="
    ∷ codes "recursive"
    ∷ codes "headers="
    ∷ codes "quiet"
    ∷ []

abbrev pub output_formats : List Text
output_formats = codes "emacs" ∷ codes "vs7" ∷ codes "eclipse" ∷ codes "junit" ∷ []

abbrev pub counting_styles : List Text
counting_styles = codes "total" ∷ codes "toplevel" ∷ codes "detailed" ∷ []

abbrev with_settings : (Settings → Settings) → Locals → Locals
with_settings f l = record l { globals = record l.globals { settings = f l.globals.settings } }

abbrev pub set_verbosity : Text → Option ℤ → Locals → Next
set_verbosity val none l = exit (value_error val)
set_verbosity val (some n) l = next (record l { verbosity = n })

abbrev pub set_linelength : Option ℤ → Locals → Next
set_linelength none l = exit (usage (some (codes "Line length must be digits.")))
set_linelength (some n) l = next (with_settings (λ s. record s { line_length = n }) l)

-- One round of the loop over the options.
unfoldable pub on_option : Disk → Text → Text → Locals → Next
on_option d opt val l =
    if opt =t= codes "--help"
    then exit (usage none)
    else if opt =t= codes "--version"
    then exit version
    else if opt =t= codes "--output"
    then (if text_mem val output_formats
        then next (record l { output_format = val })
        else exit (
            usage
              (some (codes "The only allowed output formats are emacs, vs7, eclipse and junit."))))
    else if opt =t= codes "--quiet"
    then next (record l { quiet = true })
    else if opt =t= codes "--verbose" || opt =t= codes "--v"
    then set_verbosity val (int_of val) l
    else if opt =t= codes "--filter"
    then (if val =t= [] then exit categories else next (record l { filters = val }))
    else if opt =t= codes "--counting"
    then (if text_mem val counting_styles
        then next (record l { counting_style = val })
        else exit (usage (some (codes "Valid counting options are total, toplevel, and detailed"))))
    else if opt =t= codes "--root"
    then next (with_settings (λ s. record s { root = val }) l)
    else if opt =t= codes "--repository"
    then next (record l { globals = record l.globals { repository = val } })
    else if opt =t= codes "--linelength"
    then set_linelength (int_of val) l
    else if opt =t= codes "--exclude"
    then next
        (record l { globals = record l.globals { excludes = l.globals.excludes ++ d.glob val } })
    else if opt =t= codes "--extensions"
    then next (
        with_settings (λ s. record s { extensions = process_extensions_option val s.extensions }) l)
    else if opt =t= codes "--headers"
    then next (
        with_settings (λ s. record s { extensions = process_hpp_headers_option val s.extensions })
          l)
    else if opt =t= codes "--recursive"
    then next (record l { recursive = true })
    else next l

abbrev pub go_on : (Locals → Next) → Next → Next
go_on f (next l) = f l
go_on f (exit e) = exit e

unfoldable pub on_options : Disk → List (Text × Text) → Locals → Next
on_options d [] l = next l
on_options d ((opt, val) ∷ opts) l = go_on (on_options d opts) (on_option d opt val l)

-- The names that os.walk gives, joined with their directory, without `./` in front.
abbrev pub without_dot : Text → Text
without_dot fullname = if starts_with fullname (codes "./") then drop 2 fullname else fullname

unfoldable pub full_names : List (Text × List Text) → List Text
full_names [] = []
full_names ((root, files) ∷ rest) =
    map (λ loopfile. without_dot (join_two root loopfile)) files ++ full_names rest

-- expanded.add for each, for a set as a list without doubles.
unfoldable pub add_to_set : List Text → List Text → List Text
add_to_set expanded [] = expanded
add_to_set expanded (x ∷ xs) =
    add_to_set (if text_mem x expanded then expanded else expanded ++ x ∷ []) xs

unfoldable pub expand : Disk → List Text → List Text → List Text
expand d expanded [] = expanded
expand d expanded (filename ∷ rest) =
    expand d
      (add_to_set expanded
        (if d.is_dir filename then full_names (d.walk_dir filename) else filename ∷ []))
      rest

-- A loop that keeps the names with a property, in order.
unfoldable pub keep : (Text → Bool) → List Text → List Text
keep p [] = []
keep p (filename ∷ rest) = let kept = keep p rest in if p filename then filename ∷ kept else kept

unfoldable pub has_extension : Extensions → Text → Bool
has_extension e filename = text_mem (drop 1 (split_ext filename).1) (get_all_extensions e)

unfoldable pub expand_directories : Disk → Extensions → List Text → List Text
expand_directories d e filenames = keep (has_extension e) (d.set_order (expand d [] filenames))

unfoldable pub is_excluded : Disk → List Text → Text → Bool
is_excluded d excludes f = text_mem (d.abspath f) (map d.abspath excludes)

unfoldable pub filter_excluded_files : Disk → List Text → List Text → List Text
filter_excluded_files d excludes filenames = keep (λ f. not (is_excluded d excludes f)) filenames

pub data Parsed : Type 0 where
  parsed : List Text → Globals → Parsed
  ended : Exit → Parsed

-- The calls of the wrappers at the end, behind the check that the verbosity is none below 0.
abbrev pub finish : List Text → Globals → LintState × Option Text → Text → Parsed
finish filenames g (lint, some filt) counting_style = ended (value_error filt)
finish filenames g (lint, none) counting_style =
    parsed filenames
      (record g { settings = record g.settings { lint = set_counting_style counting_style lint } })

abbrev pub apply_locals : List Text → Locals → ℤ → Parsed
apply_locals filenames l (negsuc n) = ended negative_verbosity
apply_locals filenames l (pos n) =
    finish filenames l.globals
      (set_filters l.filters
        (set_verbose_level n
          (set_quiet l.quiet (set_output_format l.output_format l.globals.settings.lint)).0).0)
      l.counting_style

abbrev pub if_excludes : Disk → List Text → List Text → List Text
if_excludes d [] filenames = filenames
if_excludes d (x ∷ excludes) filenames = filter_excluded_files d (x ∷ excludes) filenames

unfoldable pub select_files : Disk → List Text → Locals → List Text
select_files d filenames l =
    let expanded =
      if l.recursive
      then expand_directories d l.globals.settings.extensions filenames
      else filenames in
    if_excludes d l.globals.excludes expanded

abbrev pub with_files : Disk → List Text → Next → Parsed
with_files d filenames (exit e) = ended e
with_files d [] (next l) = ended (usage (some (codes "No files were specified.")))
with_files d (f ∷ filenames) (next l) =
    apply_locals (select_files d (f ∷ filenames) l) l l.verbosity

abbrev pub initial : Globals → Locals
initial g = record {
  globals = g;
  verbosity = pos g.settings.lint.verbose_level;
  output_format = g.settings.lint.output_format;
  filters = [];
  quiet = g.settings.lint.quiet;
  counting_style = [];
  recursive = false;
}

abbrev pub on_got : Disk → Globals → Got → Parsed
on_got d g getopt_error = ended (usage (some (codes "Invalid arguments.")))
on_got d g (got opts filenames) = with_files d filenames (on_options d opts (initial g))

unfoldable pub parse_arguments : Disk → List Text → Globals → Parsed
parse_arguments d args g = on_got d g (getopt longopts args none)
