-- ===== src/Cpplint/LintState.antt =====
-- `_CppLintState` of cpplint.py with its wrappers at module level, `_ShouldPrintError` and `Error`:
-- the filters, the verbosity, the error counts, and what is printed.
pub mod Filters
pub mod Counts
use adv_database_implementat.Base.{
  ℕ, zero, suc, ◌+◌, Bool, true, false, ◌&&◌, ◌||◌, not, Option, none, some, List, [], ◌∷◌, ◌++◌,
  Text, codes, drop, ltb, ◌=t=◌, if◌then◌else◌, starts_with, strip, split, dict_get, dict_put,
  text_key,
}
use adv_database_implementat.Cpplint.Categories.{default_filters}
use adv_database_implementat.Cpplint.Report.{Report, decimal}
use adv_database_implementat.Cpplint.Suppressions.{Suppressions, is_error_suppressed_by_nolint}

-- One entry of `_junit_failures`.
pub record Failure : Type 0 where
  pub filename : Text
  pub report : Report

-- `output` is what was written to sys.stderr, a text for each call of `write`.
pub record LintState : Type 0 where
  pub verbose_level : ℕ
  pub error_count : ℕ
  pub filters : List Text
  pub filters_backup : List Text
  pub counting : Text
  pub errors_by_category : List (Text × ℕ)
  pub quiet : Bool
  pub output_format : Text
  pub junit_errors : List Text
  pub junit_failures : List Failure
  pub output : List Text

-- __init__
unfoldable pub init : LintState
init = record {
  verbose_level = 1;
  error_count = 0;
  filters = default_filters;
  filters_backup = default_filters;
  counting = codes "total";
  errors_by_category = [];
  quiet = false;
  output_format = codes "emacs";
  junit_errors = [];
  junit_failures = [];
  output = [];
}

unfoldable pub set_output_format : Text → LintState → LintState
set_output_format output_format s = record s { output_format = output_format }

unfoldable pub set_quiet : Bool → LintState → LintState × Bool
set_quiet quiet s = (record s { quiet = quiet }, s.quiet)

unfoldable pub set_verbose_level : ℕ → LintState → LintState × ℕ
set_verbose_level level s = (record s { verbose_level = level }, s.verbose_level)

unfoldable pub set_counting_style : Text → LintState → LintState
set_counting_style counting_style s = record s { counting = counting_style }

-- The first loop of AddFilters: the clean filters that are not empty, appended in order.
unfoldable pub append_filters : List Text → List Text → List Text
append_filters filters [] = filters
append_filters filters (filt ∷ rest) =
    let clean_filt = strip filt in
    append_filters (if clean_filt =t= [] then filters else filters ++ clean_filt ∷ []) rest

unfoldable pub is_signed : Text → Bool
is_signed filt = starts_with filt (codes "+") || starts_with filt (codes "-")

-- The second loop: the first filter without a sign is the one that ValueError names.
unfoldable pub first_unsigned : List Text → Option Text
first_unsigned [] = none
first_unsigned (filt ∷ rest) =
    let later = first_unsigned rest in if is_signed filt then later else some filt

-- The second part is the filter that ValueError names. The filters are stored before they are
-- tested, so they stay stored when it is raised.
unfoldable pub add_filters : Text → LintState → LintState × Option Text
add_filters filters s =
    let all_filters = append_filters s.filters (split b',' filters) in
    (record s { filters = all_filters }, first_unsigned all_filters)

unfoldable pub set_filters : Text → LintState → LintState × Option Text
set_filters filters s = add_filters filters (record s { filters = default_filters })

unfoldable pub backup_filters : LintState → LintState
backup_filters s = record s { filters_backup = s.filters }

unfoldable pub restore_filters : LintState → LintState
restore_filters s = record s { filters = s.filters_backup }

unfoldable pub reset_error_counts : LintState → LintState
reset_error_counts s = record s { error_count = 0; errors_by_category = [] }

abbrev or_zero : Option ℕ → ℕ
or_zero none = 0
or_zero (some n) = n

-- category.split('/')[0]
abbrev first_piece : List Text → Text
first_piece [] = []
first_piece (p ∷ ps) = p

unfoldable pub category_of : Text → Text → Text
category_of counting category =
    if counting =t= codes "detailed" then category else first_piece (split b'/' category)

unfoldable pub counts_categories : Text → Bool
counts_categories counting = counting =t= codes "toplevel" || counting =t= codes "detailed"

unfoldable pub increment_error_count : Text → LintState → LintState
increment_error_count category s =
    let name = category_of s.counting category in
    record s {
      error_count = s.error_count + 1;
      errors_by_category =
          if counts_categories s.counting
          then dict_put s.errors_by_category name (or_zero (dict_get s.errors_by_category name) + 1)
          else s.errors_by_category;
    }

unfoldable pub print_error : Text → LintState → LintState
print_error message s =
    if s.output_format =t= codes "junit"
    then record s { junit_errors = s.junit_errors ++ message ∷ [] }
    else record s { output = s.output ++ message ∷ [] }

unfoldable pub add_junit_failure : Text → Report → LintState → LintState
add_junit_failure filename r s = record s {
  junit_failures = s.junit_failures ++ record { filename = filename; report = r } ∷ [];
}

-- One round of the loop over the filters. `none` is the AssertionError of `assert False`.
unfoldable pub apply_filter : Text → Text → Bool → Option Bool
apply_filter one_filter category is_filtered =
    if starts_with one_filter (codes "-")
    then some (if starts_with category (drop 1 one_filter) then true else is_filtered)
    else if starts_with one_filter (codes "+")
    then some (if starts_with category (drop 1 one_filter) then false else is_filtered)
    else none

unfoldable pub run_filters : List Text → Text → Option Bool → Option Bool
run_filters filters category none = none
run_filters [] category (some is_filtered) = some is_filtered
run_filters (one_filter ∷ rest) category (some is_filtered) =
    run_filters rest category (apply_filter one_filter category is_filtered)

abbrev negate : Option Bool → Option Bool
negate none = none
negate (some b) = some (not b)

unfoldable pub should_print_error : LintState → Suppressions → Text → ℕ → ℕ → Option Bool
should_print_error s sup category confidence linenum =
    if is_error_suppressed_by_nolint sup category linenum
    then some false
    else if ltb confidence s.verbose_level
    then some false
    else negate (run_filters s.filters category (some false))

abbrev vs7_message : Text → Report → Text
vs7_message filename r =
    filename
    ++ (codes "("
        ++ (decimal r.linenum
            ++ (codes "): error cpplint: ["
                ++ (r.category
                    ++ (codes "] "
                        ++ (r.message ++ (codes " [" ++ (decimal r.confidence ++ codes "]\n"))))))))

abbrev eclipse_message : Text → Report → Text
eclipse_message filename r =
    filename
    ++ (codes ":"
        ++ (decimal r.linenum
            ++ (codes ": warning: "
                ++ (r.message
                    ++ (codes "  ["
                        ++ (r.category
                            ++ (codes "] [" ++ (decimal r.confidence ++ codes "]\n"))))))))

abbrev final_message : Text → Report → Text
final_message filename r =
    filename
    ++ (codes ":"
        ++ (decimal r.linenum
            ++ (codes ":  "
                ++ (r.message
                    ++ (codes "  ["
                        ++ (r.category
                            ++ (codes "] [" ++ (decimal r.confidence ++ codes "]\n"))))))))

-- The branches on the output format in Error.
unfoldable pub emit : Text → Report → LintState → LintState
emit filename r s =
    if s.output_format =t= codes "vs7"
    then print_error (vs7_message filename r) s
    else if s.output_format =t= codes "eclipse"
    then record s { output = s.output ++ eclipse_message filename r ∷ [] }
    else if s.output_format =t= codes "junit"
    then add_junit_failure filename r s
    else record s { output = s.output ++ final_message filename r ∷ [] }

unfoldable pub print_if : Option Bool → Text → Report → LintState → Option LintState
print_if none filename r s = none
print_if (some false) filename r s = some s
print_if (some true) filename r s = some (emit filename r (increment_error_count r.category s))

-- `none` is an AssertionError.
unfoldable pub error : Suppressions → Text → Report → LintState → Option LintState
error sup filename r s =
    print_if (should_print_error s sup r.category r.confidence r.linenum) filename r s

abbrev then_error : (LintState → Option LintState) → Option LintState → Option LintState
then_error f none = none
then_error f (some s) = f s

-- The calls of `error` that a check made, in order.
unfoldable pub errors : Suppressions → Text → List Report → LintState → Option LintState
errors sup filename [] s = some s
errors sup filename (r ∷ rs) s = then_error (errors sup filename rs) (error sup filename r s)
