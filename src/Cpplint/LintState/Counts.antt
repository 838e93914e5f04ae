-- ===== src/Cpplint/LintState/Counts.antt =====
-- The error counts, in total and by category.
use adv_database_implementat.Base.{
  ℕ, ◌+◌, ◌&&◌, ltb, Bool, true, false, not, some, List, [], ◌∷◌, Text, ◌=t=◌, if◌then◌else◌, arith,
  ◌≡◌, inl, inr, refl, dict_get, dict_put, Bool-cases, text_key, ◌∙◌,
}
use adv_database_implementat.Cpplint.Suppressions.{Suppressions, is_error_suppressed_by_nolint}
use adv_database_implementat.Cpplint.LintState.Filters.{
  AllSigned, decides_off, last_word, should_print_error-last_word,
}
use adv_database_implementat.Cpplint.Report.{Report}
use adv_database_implementat.Cpplint.LintState.{
  LintState, increment_error_count, category_of, counts_categories, or_zero, print_error,
  add_junit_failure, emit, print_if, error, errors, reset_error_counts,
}

-- The sum of the counts of all categories.
unfoldable pub total : List (Text × ℕ) → ℕ
total [] = 0
total ((category, n) ∷ rest) = n + total rest

total-put :
    (d : List (Text × ℕ)) (category : Text)
    → total (dict_put d category (or_zero (dict_get d category) + 1)) ≡ total d + 1
unfolding total dict_get dict_put
total-put [] category = omega arith
total-put ((c, n) ∷ d) category = elim (Bool-cases (c =t= category)) [
  | inl same ↦ rw same (omega arith)
  | inr other ↦ rw other (omega (arith, total-put d category))
]

-- While errors are counted by category, the counts of the categories add up to the error count.
pub record AddsUp (s : LintState) : Type 0 where
  pub by_category : counts_categories s.counting ≡ true
  pub sum_eq : total s.errors_by_category ≡ s.error_count

increment-AddsUp :
    (category : Text) (s : LintState) → AddsUp s → AddsUp (increment_error_count category s)
unfolding increment_error_count
increment-AddsUp category s h = record {
  by_category = h.by_category;
  sum_eq =
      rw h.by_category
        (omega (arith, total-put s.errors_by_category (category_of s.counting category), h.sum_eq));
}

-- What `emit` leaves as it was.
record SameCounts (s t : LintState) : Type 0 where
  same_counting : t.counting ≡ s.counting
  same_count : t.error_count ≡ s.error_count
  same_categories : t.errors_by_category ≡ s.errors_by_category
  same_filters : t.filters ≡ s.filters
  same_level : t.verbose_level ≡ s.verbose_level

emit-SameCounts : (filename : Text) (r : Report) (s : LintState) → SameCounts s (emit filename r s)
unfolding emit print_error add_junit_failure
emit-SameCounts filename r s = ground arith

SameCounts-AddsUp : {s t : LintState} → SameCounts s t → AddsUp s → AddsUp t
SameCounts-AddsUp same h = record {
  by_category = rw same.same_counting h.by_category;
  sum_eq = rw (same.same_categories, same.same_count) h.sum_eq;
}

-- The settings that decide what is printed.
record SameSettings (s t : LintState) : Type 0 where
  same_filters : t.filters ≡ s.filters
  same_level : t.verbose_level ≡ s.verbose_level

-- Not suppressed, of enough confidence, and not put off by the last filter that speaks.
abbrev pub is_printed : LintState → Suppressions → Report → Bool
is_printed s sup r =
    not (is_error_suppressed_by_nolint sup r.category r.linenum)
    && (not (ltb r.confidence s.verbose_level)
        && not (decides_off false (last_word s.filters r.category)))

-- How many of the reports are printed under the settings of `s`.
unfoldable pub printed : LintState → Suppressions → List Report → ℕ
printed s sup [] = 0
printed s sup (r ∷ rs) = (if is_printed s sup r then 1 else 0) + printed s sup rs

printed-SameSettings :
    (s t : LintState) (sup : Suppressions) (rs : List Report)
    → SameSettings s t
    → printed t sup rs ≡ printed s sup rs
unfolding printed
printed-SameSettings s t sup [] h = refl
printed-SameSettings s t sup (r ∷ rs) h =
    rw (h.same_filters, h.same_level, printed-SameSettings s t sup rs h)

-- One report: the state after it, its count, and what it keeps.
print_if-counts :
    (b : Bool) (filename : Text) (r : Report) (s : LintState)
    → (t : LintState) × (print_if (some b) filename r s ≡ some t)
      × (t.error_count ≡ s.error_count + (if b then 1 else 0))
      × SameSettings s t
      × (AddsUp s → AddsUp t)
unfolding print_if
print_if-counts false filename r s =
    (s, refl, omega arith, record { same_filters = refl; same_level = refl }, λ h. h)
print_if-counts true filename r s =
    let u = increment_error_count r.category s in
    let same = emit-SameCounts filename r u in
    (
      emit filename r u,
      refl,
      same.same_count ∙ (unfold increment_error_count in refl),
      record {
        same_filters = same.same_filters ∙ (unfold increment_error_count in refl);
        same_level = same.same_level ∙ (unfold increment_error_count in refl);
      },
      λ h. SameCounts-AddsUp same (increment-AddsUp r.category s h),
    )

-- If every filter has a sign, Error takes any reports in a row without a failed assertion, the
-- error count grows by the number of them that are not suppressed, reach the verbosity and pass
-- the filters, and counts by category that added up to the error count still do.
pub errors-counts :
    (sup : Suppressions) (filename : Text) (rs : List Report) (s : LintState)
    → AllSigned s.filters
    → (t : LintState) × (errors sup filename rs s ≡ some t)
      × (t.error_count ≡ s.error_count + printed s sup rs)
      × (AddsUp s → AddsUp t)
unfolding errors error printed
errors-counts sup filename [] s signed = (s, refl, omega arith, λ h. h)
errors-counts sup filename (r ∷ rs) s signed =
    let (u, e, n, same, keep) = print_if-counts (is_printed s sup r) filename r s in
    let (t, e', n', keep') = errors-counts sup filename rs u (rw same.same_filters signed) in
    (
      t,
      rw (should_print_error-last_word s sup r.category r.confidence r.linenum signed, e) e',
      omega (arith, n, n', printed-SameSettings s u sup rs same),
      λ h. keep' (keep h),
    )

-- `reset_error_counts` starts counting by category from a state whose counts add up.
pub reset-AddsUp :
    (s : LintState) → counts_categories s.counting ≡ true → AddsUp (reset_error_counts s)
unfolding reset_error_counts total
reset-AddsUp s h = record { by_category = h; sum_eq = refl }
