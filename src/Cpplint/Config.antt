-- ===== src/Cpplint/Config.antt =====
-- ProcessConfigOverrides of cpplint.py, which looks for files CPPLINT.cfg from the directory of a
-- file up to the top, with ProcessExtensionsOption and ProcessHppHeadersOption. What PrintInfo says
-- of an excluded file, on standard output, is left out.
pub mod Returns
pub mod Nearest
pub mod Decides
use adv_database_implementat.Base.{
  ℕ, zero, suc, ◌+◌, ◌*◌, ◌-◌, ℤ, pos, negsuc, Bool, true, false, ◌&&◌, Option, none, some, List,
  [], ◌∷◌, ◌++◌, reverse, map, Text, codes, length, drop, leb, ◌==◌, ◌=t=◌, if◌then◌else◌, split,
  strip,
}
use adv_database_implementat.Cpplint.LintState.{LintState, add_filters, print_error}
use adv_database_implementat.Cpplint.SameModule.{Extensions}
use adv_database_implementat.Cpplint.Paths.{split_path, dirname, join_two}

-- int(val): digits with single underscores between them, behind an optional sign. The first
-- argument is the value so far, the second whether a digit stands before.
unfoldable pub digits_value : ℕ → Bool → Text → Option ℕ
digits_value n true [] = some n
digits_value n false [] = none
digits_value n after_digit (c ∷ s) =
    let value = digits_value (n * 10 + (c - b'0')) true s in
    let rest = digits_value n false s in
    if leb b'0' c && leb c b'9' then value else (if after_digit && c == b'_' then rest else none)

abbrev negated : Option ℕ → Option ℤ
negated none = none
negated (some zero) = some (pos 0)
negated (some (suc n)) = some (negsuc n)

abbrev positive : Option ℕ → Option ℤ
positive none = none
positive (some n) = some (pos n)

abbrev signed_value : Text → Option ℤ
signed_value [] = none
signed_value (c ∷ s) =
    if c == b'-'
    then negated (digits_value 0 false s)
    else positive (digits_value 0 false (if c == b'+' then s else c ∷ s))

unfoldable pub int_of : Text → Option ℤ
int_of val = signed_value (strip val)

-- The state that the options set, beside `_cpplint_state`.
pub record Settings : Type 0 where
  pub lint : LintState
  pub line_length : ℤ
  pub extensions : Extensions
  pub root : Text

unfoldable pub process_hpp_headers_option : Text → Extensions → Extensions
process_hpp_headers_option val e = record e { hpp_headers = map strip (split b',' val) }

unfoldable pub process_extensions_option : Text → Extensions → Extensions
process_extensions_option val e = record e { valid_extensions = map strip (split b',' val) }

-- What `os.path.isfile` and `open` give for the name of a configuration file.
pub data CfgFile : Type 0 where
  missing unreadable : CfgFile
  readable : List Text → CfgFile

-- The file system, and `re.compile(pattern).match(name)`, where `none` is `re.error`.
pub record Host : Type 0 where
  pub config : Text → CfgFile
  pub abspath : Text → Text
  pub matches : Text → Text → Option Bool

-- The local variables of the loop.
pub record Walk : Type 0 where
  pub settings : Settings
  pub cfg_filters : List Text
  pub keep_looking : Bool

-- Behind a line or a file: the loop goes on, `return False`, or an exception.
pub data Found : Type 0 where
  continues excluded : Walk → Found
  bad_pattern : Found

-- s.partition(sep), without the separator.
unfoldable pub before_char : ℕ → Text → Text
before_char sep [] = []
before_char sep (c ∷ s) = let rest = before_char sep s in if c == sep then [] else c ∷ rest

unfoldable pub after_char : ℕ → Text → Text
after_char sep [] = []
after_char sep (c ∷ s) = let rest = after_char sep s in if c == sep then s else rest

abbrev with_lint : (LintState → LintState) → Walk → Walk
with_lint f w = record w { settings = record w.settings { lint = f w.settings.lint } }

abbrev pub exclude : Option Bool → Walk → Found
exclude none w = bad_pattern
exclude (some true) w = excluded w
exclude (some false) w = continues w

abbrev pub set_line_length : Option ℤ → Walk → Walk
set_line_length none w = with_lint (print_error (codes "Line length must be numeric.")) w
set_line_length (some n) w = record w { settings = record w.settings { line_length = n } }

-- A line with an option.
unfoldable pub cfg_option : Host → Text → Text → Text → Text → Walk → Found
cfg_option h cfg_file base_name name val w =
    if name =t= codes "set noparent"
    then continues (record w { keep_looking = false })
    else if name =t= codes "filter"
    then continues (record w { cfg_filters = w.cfg_filters ++ val ∷ [] })
    else if name =t= codes "exclude_files"
    then (if base_name =t= [] then continues w else exclude (h.matches val base_name) w)
    else if name =t= codes "linelength"
    then continues (set_line_length (int_of val) w)
    else if name =t= codes "extensions"
    then continues (record w {
      settings = record w.settings {
        extensions = process_extensions_option val w.settings.extensions;
      };
    })
    else if name =t= codes "root"
    then continues
        (record w { settings = record w.settings { root = join_two (dirname cfg_file) val } })
    else if name =t= codes "headers"
    then continues (record w {
      settings = record w.settings {
        extensions = process_hpp_headers_option val w.settings.extensions;
      };
    })
    else continues (
        with_lint
          (print_error (
            codes "Invalid configuration option ("
            ++ (name ++ (codes ") in file " ++ (cfg_file ++ codes "\n")))))
          w)

unfoldable pub cfg_line : Host → Text → Text → Text → Walk → Found
cfg_line h cfg_file base_name line w =
    let text = before_char b'#' line in
    if strip text =t= []
    then continues w
    else cfg_option h cfg_file base_name (strip (before_char b'=' text))
        (strip (after_char b'=' text)) w

abbrev pub go_on : (Walk → Found) → Found → Found
go_on f (continues w) = f w
go_on f (excluded w) = excluded w
go_on f bad_pattern = bad_pattern

unfoldable pub cfg_lines : Host → Text → Text → List Text → Walk → Found
cfg_lines h cfg_file base_name [] w = continues w
cfg_lines h cfg_file base_name (line ∷ lines) w =
    go_on (cfg_lines h cfg_file base_name lines) (cfg_line h cfg_file base_name line w)

unfoldable pub read_config : Host → Text → Text → CfgFile → Walk → Found
read_config h cfg_file base_name missing w = continues w
read_config h cfg_file base_name unreadable w =
    continues
      (record (with_lint
        (print_error
          (codes "Skipping config file '" ++ (cfg_file ++ codes "': Can't open for reading\n")))
        w) { keep_looking = false })
read_config h cfg_file base_name (readable lines) w = cfg_lines h cfg_file base_name lines w

abbrev pub next_round : (Walk → Option Found) → Found → Option Found
next_round f (continues w) = if w.keep_looking then f w else some (continues w)
next_round f (excluded w) = some (excluded w)
next_round f bad_pattern = some bad_pattern

-- The loop, on fuel. Each round that goes on takes a part off the path.
unfoldable pub walk : Host → ℕ → Text → Walk → Option Found
walk h zero path w = none
walk h (suc fuel) path w =
    let (abs_path, base_name) = split_path path in
    let cfg_file = join_two abs_path (codes "CPPLINT.cfg") in
    let rest =
      next_round (walk h fuel abs_path) (read_config h cfg_file base_name (h.config cfg_file) w) in
    if base_name =t= [] then some (continues w) else rest

-- True, False, ValueError of AddFilters, or re.error.
pub data Outcome : Type 0 where
  kept skipped : Settings → Outcome
  value_error : Text → Settings → Outcome
  pattern_error : Outcome

abbrev pub if_accepted : (Settings → Outcome) → Settings → LintState × Option Text → Outcome
if_accepted f s (lint, none) = f (record s { lint = lint })
if_accepted f s (lint, some filt) = value_error filt (record s { lint = lint })

unfoldable pub apply_filters : List Text → Settings → Outcome
apply_filters [] s = kept s
apply_filters (cfg_filter ∷ rest) s =
    if_accepted (apply_filters rest) s (add_filters cfg_filter s.lint)

abbrev pub outcome_of : Option Found → Option Outcome
outcome_of none = none
outcome_of (some (continues w)) = some (apply_filters (reverse w.cfg_filters) w.settings)
outcome_of (some (excluded w)) = some (skipped w.settings)
outcome_of (some bad_pattern) = some pattern_error

unfoldable pub process_config_overrides : Host → Text → Settings → Option Outcome
process_config_overrides h filename s =
    let path = h.abspath filename in
    outcome_of (
      walk h (suc (length path)) path
        (record { settings = s; cfg_filters = []; keep_looking = true }))
