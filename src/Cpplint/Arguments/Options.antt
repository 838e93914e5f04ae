-- ===== src/Cpplint/Arguments/Options.antt =====
-- What the options of the command line set.
use adv_database_implementat.Base.{
  ℕ, ℤ, pos, Bool, true, false, Option, none, some, List, [], ◌∷◌, ◌++◌, map, Text, codes, ◌=t=◌,
  text_mem, char_mem, All, if◌then◌else◌, ◌≡◌, refl, ap, sym, ◌∙◌,
}
use adv_database_implementat.Cpplint.LintState.{
  LintState, set_filters, set_output_format, set_quiet, set_verbose_level, set_counting_style,
}
use adv_database_implementat.Cpplint.Config.{
  Settings, int_of, process_extensions_option, process_hpp_headers_option,
}
use adv_database_implementat.Cpplint.Arguments.{
  Disk, Globals, Locals, next, parsed, parse_arguments, with_files, on_options, on_option, initial,
  longopts, select_files, apply_locals,
}
use adv_database_implementat.Cpplint.Arguments.RoundTrip.{
  Spelling, flag, joined, apart, IsKnown, IsValued, IsTail, args_of_all, option_of, tail_of,
  parse_arguments-args_of,
}

-- What an option with its value asks for; `verbosity` is written as `--verbose`, or as `--v`.
pub data Setting : Type 0 where
  be_quiet recurse : Setting
  verbosity : Bool → Text → ℤ → Setting
  line_length : Text → ℤ → Setting
  output counting filter root repository extensions headers exclude : Text → Setting

abbrev pub name_of : Setting → Text
name_of be_quiet = codes "quiet"
name_of recurse = codes "recursive"
name_of (verbosity short val n) = if short then codes "v" else codes "verbose"
name_of (line_length val n) = codes "linelength"
name_of (output val) = codes "output"
name_of (counting val) = codes "counting"
name_of (filter val) = codes "filter"
name_of (root val) = codes "root"
name_of (repository val) = codes "repository"
name_of (extensions val) = codes "extensions"
name_of (headers val) = codes "headers"
name_of (exclude val) = codes "exclude"

-- The value, for the options that take one.
abbrev pub value_of : Setting → Option Text
value_of be_quiet = none
value_of recurse = none
value_of (verbosity short val n) = some val
value_of (line_length val n) = some val
value_of (output val) = some val
value_of (counting val) = some val
value_of (filter val) = some val
value_of (root val) = some val
value_of (repository val) = some val
value_of (extensions val) = some val
value_of (headers val) = some val
value_of (exclude val) = some val

abbrev spell_as : Bool → Text → Option Text → Spelling
spell_as with_equals name none = flag name
spell_as with_equals name (some val) = if with_equals then joined name val else apart name val

-- `--name`, `--name=val` or `--name val`.
abbrev pub spell : Bool × Setting → Spelling
spell (with_equals, s) = spell_as with_equals (name_of s) (value_of s)

-- The value is one that the option takes.
abbrev pub IsTaken : Bool × Setting → Type 0
IsTaken (with_equals, verbosity short val n) = int_of val ≡ some n
IsTaken (with_equals, line_length val n) = int_of val ≡ some n
IsTaken (with_equals, output val) =
    text_mem val (codes "emacs" ∷ codes "vs7" ∷ codes "eclipse" ∷ codes "junit" ∷ []) ≡ true
IsTaken (with_equals, counting val) =
    text_mem val (codes "total" ∷ codes "toplevel" ∷ codes "detailed" ∷ []) ≡ true
IsTaken (with_equals, filter val) = val =t= [] ≡ false
IsTaken _ = Unit

-- What the settings are to be, for the module variables.
abbrev change_settings : (Settings → Settings) → Locals → Locals
change_settings f l = record l { globals = record l.globals { settings = f l.globals.settings } }

unfoldable pub apply_setting : Disk → Setting → Locals → Locals
apply_setting d be_quiet l = record l { quiet = true }
apply_setting d recurse l = record l { recursive = true }
apply_setting d (verbosity short val n) l = record l { verbosity = n }
apply_setting d (line_length val n) l = change_settings (λ s. record s { line_length = n }) l
apply_setting d (output val) l = record l { output_format = val }
apply_setting d (counting val) l = record l { counting_style = val }
apply_setting d (filter val) l = record l { filters = val }
apply_setting d (root val) l = change_settings (λ s. record s { root = val }) l
apply_setting d (repository val) l = record l { globals = record l.globals { repository = val } }
apply_setting d (extensions val) l =
    change_settings (λ s. record s { extensions = process_extensions_option val s.extensions }) l
apply_setting d (headers val) l =
    change_settings (λ s. record s { extensions = process_hpp_headers_option val s.extensions }) l
apply_setting d (exclude val) l = record l {
  globals = record l.globals { excludes = l.globals.excludes ++ d.glob val };
}

-- The options one after the other, a later one over an earlier one.
unfoldable pub apply_settings : Disk → List (Bool × Setting) → Locals → Locals
apply_settings d [] l = l
apply_settings d ((with_equals, s) ∷ settings) l = apply_settings d settings (apply_setting d s l)

valued-IsKnown :
    (e : Bool) (name val : Text)
    → IsValued longopts name
    → IsKnown longopts (spell_as e name (some val))
valued-IsKnown true name val h = h
valued-IsKnown false name val h = h

spell-IsKnown : (t : Bool × Setting) → IsKnown longopts (spell t)
unfolding longopts char_mem text_mem
spell-IsKnown (e, be_quiet) = (refl, refl, refl)
spell-IsKnown (e, recurse) = (refl, refl, refl)
spell-IsKnown (e, verbosity true val n) = valued-IsKnown e (codes "v") val (refl, refl, refl, refl)
spell-IsKnown (e, verbosity false val n) =
    valued-IsKnown e (codes "verbose") val (refl, refl, refl, refl)
spell-IsKnown (e, line_length val n) =
    valued-IsKnown e (codes "linelength") val (refl, refl, refl, refl)
spell-IsKnown (e, output val) = valued-IsKnown e (codes "output") val (refl, refl, refl, refl)
spell-IsKnown (e, counting val) = valued-IsKnown e (codes "counting") val (refl, refl, refl, refl)
spell-IsKnown (e, filter val) = valued-IsKnown e (codes "filter") val (refl, refl, refl, refl)
spell-IsKnown (e, root val) = valued-IsKnown e (codes "root") val (refl, refl, refl, refl)
spell-IsKnown (e, repository val) =
    valued-IsKnown e (codes "repository") val (refl, refl, refl, refl)
spell-IsKnown (e, extensions val) =
    valued-IsKnown e (codes "extensions") val (refl, refl, refl, refl)
spell-IsKnown (e, headers val) = valued-IsKnown e (codes "headers") val (refl, refl, refl, refl)
spell-IsKnown (e, exclude val) = valued-IsKnown e (codes "exclude") val (refl, refl, refl, refl)

spelled-IsKnown : (settings : List (Bool × Setting)) → All (IsKnown longopts) (map spell settings)
spelled-IsKnown [] = tt
spelled-IsKnown (t ∷ settings) = (spell-IsKnown t, spelled-IsKnown settings)

abbrev or_empty_value : Option Text → Text
or_empty_value none = []
or_empty_value (some val) = val

option_of-spell :
    (e : Bool) (name : Text) (val : Option Text)
    → option_of (spell_as e name val) ≡ (codes "--" ++ name, or_empty_value val)
unfolding option_of
option_of-spell e name none = refl
option_of-spell true name (some val) = refl
option_of-spell false name (some val) = refl

-- One round of the loop, for the option of a setting.
on_option-setting :
    (d : Disk) (e : Bool) (s : Setting) (l : Locals)
    → IsTaken (e, s)
    → on_option d (codes "--" ++ name_of s) (or_empty_value (value_of s)) l
      ≡ next (apply_setting d s l)
unfolding on_option apply_setting
on_option-setting d e be_quiet l h = refl
on_option-setting d e recurse l h = refl
on_option-setting d e (verbosity true val n) l h = rw h refl
on_option-setting d e (verbosity false val n) l h = rw h refl
on_option-setting d e (line_length val n) l h = rw h refl
on_option-setting d e (output val) l h = rw h refl
on_option-setting d e (counting val) l h = rw h refl
on_option-setting d e (filter val) l h = rw h refl
on_option-setting d e (root val) l h = refl
on_option-setting d e (repository val) l h = refl
on_option-setting d e (extensions val) l h = refl
on_option-setting d e (headers val) l h = refl
on_option-setting d e (exclude val) l h = refl

on_options-settings :
    (d : Disk) (settings : List (Bool × Setting)) (l : Locals)
    → All IsTaken settings
    → on_options d (map option_of (map spell settings)) l ≡ next (apply_settings d settings l)
unfolding on_options apply_settings
on_options-settings d [] l h = refl
on_options-settings d ((e, s) ∷ settings) l h =
    rw (option_of-spell e (name_of s) (value_of s), on_option-setting d e s l h.0)
      (on_options-settings d settings (apply_setting d s l) h.1)

-- The options that LintState keeps, but for the filters and the counting style.
abbrev pub reported_as : Locals → ℕ → LintState
reported_as l n = record l.globals.settings.lint {
  output_format = l.output_format;
  quiet = l.quiet;
  verbose_level = n;
}

apply_locals-parsed :
    (filenames : List Text) (l : Locals) (n : ℕ) (lint : LintState)
    → l.verbosity ≡ pos n
    → set_filters l.filters (reported_as l n) ≡ (lint, none)
    → apply_locals filenames l l.verbosity
      ≡ parsed filenames (record l.globals {
        settings = record l.globals.settings { lint = record lint { counting = l.counting_style } };
      })
unfolding set_output_format set_quiet set_verbose_level set_counting_style
apply_locals-parsed filenames l n lint level accepted = rw (level, accepted) refl

-- The arguments are options in any order and number, each but --quiet and --recursive written with
-- its value as `--name=val` or `--name val`, with values that the options take, then at least one
-- file, behind `--` or, the first, not looking like an option. Let each option set what it is
-- named for, a later one over an earlier one, from the values at the start on. If the verbosity is
-- then not negative and the filters are accepted, ParseArguments returns the files selected, and
-- has set the output format, the quiet flag, the verbosity, the filters, the counting style and
-- the module variables to these values.
pub parse_arguments-settings :
    (d : Disk) (g : Globals) (settings : List (Bool × Setting)) (f : Text) (filenames : List Text)
    (marked : Bool) (l : Locals) (n : ℕ) (lint : LintState)
    → All IsTaken settings
    → IsTail marked (f ∷ filenames)
    → l ≡ apply_settings d settings (initial g)
    → l.verbosity ≡ pos n
    → set_filters l.filters (reported_as l n) ≡ (lint, none)
    → parse_arguments d (args_of_all (map spell settings) (tail_of marked (f ∷ filenames))) g
      ≡ parsed (select_files d (f ∷ filenames) l) (record l.globals {
        settings = record l.globals.settings { lint = record lint { counting = l.counting_style } };
      })
parse_arguments-settings d g settings f filenames marked l n lint taken tail e level accepted =
    parse_arguments-args_of d g (map spell settings) (f ∷ filenames) marked
      (spelled-IsKnown settings) tail
    ∙ ap (with_files d (f ∷ filenames))
        (on_options-settings d settings (initial g) taken ∙ ap next (sym e))
    ∙ apply_locals-parsed (select_files d (f ∷ filenames) l) l n lint level accepted
