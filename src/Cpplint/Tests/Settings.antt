-- ===== src/Cpplint/Tests/Settings.antt =====
-- Suppressions, filters, counts and the include state at concrete inputs.
use adv_database_implementat.Base.{
  true, none, some, List, [], ◌∷◌, Text, codes, split, text_key, option_key, ◌≡◌, refl, char_mem,
  starts_with, ends_with, text_mem, strip,
}
use adv_database_implementat.Regex.{search_text, group_of}
use adv_database_implementat.Cpplint.Categories.{error_categories, default_filters}
use adv_database_implementat.Cpplint.Report.{Report}
use adv_database_implementat.Cpplint.Suppressions.{
  Suppressions, add_suppression, inner, nolint_pattern, nolint_group, nolint_matched,
  suppressed_line, parse_nolint_suppressions, is_error_suppressed_by_nolint,
}
use adv_database_implementat.Cpplint.Suppressions.Scope.{parse_nolint-exact}
use adv_database_implementat.Cpplint.LintState
use adv_database_implementat.Cpplint.LintState.{
  LintState, add_filters, set_filters, should_print_error, restore_filters, backup_filters, errors,
  is_signed, first_unsigned, append_filters, counts_categories, increment_error_count,
}
use adv_database_implementat.Cpplint.LintState.Filters.{
  should_print_error-last_word, AllSigned, last_word,
}
use adv_database_implementat.Cpplint.LintState.Counts.{errors-counts, AddsUp, printed}
use adv_database_implementat.Cpplint.IncludeState
use adv_database_implementat.Cpplint.IncludeState.{
  IncludeState, HeaderType, other_header, find_header, add_include,
}

abbrev nothing : Suppressions
nothing = record { error_suppressions = []; global_error_suppressions = [] }

abbrev nolint_line : Text
nolint_line = codes "long x;  // NOLINT(runtime/int)"

parse_nolint-exact_example :
    is_error_suppressed_by_nolint
      (parse_nolint_suppressions nolint_line 3 nothing).0
      (codes "runtime/int")
      3
    ≡ true
unfolding is_error_suppressed_by_nolint search_text nolint_pattern suppressed_line group_of inner
    text_mem error_categories starts_with ends_with char_mem
parse_nolint-exact_example = parse_nolint-exact nolint_line 3 nothing (codes "runtime/int") 3

-- The next line, for NOLINTNEXTLINE, and an unknown category.
nolint_next_line :
    (parse_nolint_suppressions (codes "// NOLINTNEXTLINE") 7 nothing).0.error_suppressions
    ≡ (none, 8 ∷ []) ∷ []
unfolding parse_nolint_suppressions nolint_matched nolint_group add_suppression search_text
    nolint_pattern suppressed_line group_of
nolint_next_line = refl

abbrev filtered : LintState
filtered = record LintState.init { filters = codes "-build" ∷ codes "+build/include" ∷ [] }

signed : AllSigned (codes "-build" ∷ codes "+build/include" ∷ [])
unfolding is_signed starts_with
signed = (refl, (refl, tt))

should_print_error-last_word_example :
    should_print_error filtered nothing (codes "build/include") 4 1 ≡ some true
unfolding is_error_suppressed_by_nolint LintState.init last_word starts_with
should_print_error-last_word_example =
    should_print_error-last_word filtered nothing (codes "build/include") 4 1 signed

accepted : (set_filters (codes "-build,+build/include") filtered).1 ≡ none
unfolding set_filters add_filters append_filters split strip first_unsigned is_signed starts_with
    default_filters
accepted = refl

abbrev reports : List Report
reports =
    record { linenum = 1; category = codes "build/class"; confidence = 5; message = [] }
    ∷ record { linenum = 2; category = codes "build/include"; confidence = 4; message = [] }
    ∷ record { linenum = 9; category = codes "whitespace/tab"; confidence = 1; message = [] }
    ∷ []

errors-counts_example :
    (t : LintState) × (errors nothing (codes "a.cc") reports filtered ≡ some t)
    × (t.error_count ≡ 2)
    × (AddsUp filtered → AddsUp t)
unfolding printed LintState.init is_error_suppressed_by_nolint last_word starts_with
errors-counts_example = errors-counts nothing (codes "a.cc") reports filtered signed

abbrev among_others : IncludeState
among_others = record { earlier = []; current = []; section = 4; last_header = codes "b.h" }
