-- ===== src/Cpplint/LintState/Filters.antt =====
-- The filters: the strings that are accepted, and their effect in _ShouldPrintError.
use adv_database_implementat.Base.{
  ℕ, Bool, true, false, ◌&&◌, not, Option, none, some, List, [], ◌∷◌, ◌++◌, Text, codes, drop, ltb,
  ◌=t=◌, if◌then◌else◌, starts_with, strip, arith, ◌≡◌, refl, All, Bool-cases, inl, inr, sym, ◌∙◌,
  append-nil, append_assoc,
}
use adv_database_implementat.Cpplint.Suppressions.{Suppressions, is_error_suppressed_by_nolint}
use adv_database_implementat.Cpplint.LintState.{
  LintState, is_signed, first_unsigned, append_filters, add_filters, set_filters, apply_filter,
  run_filters, should_print_error, backup_filters, restore_filters,
}

abbrev pub AllSigned : List Text → Type 0
AllSigned = All (λ f. is_signed f ≡ true)

abbrev pub speaks : Option Text → Bool → Text → Option Text
speaks none true f = some f
speaks none false f = none
speaks (some g) fits f = some g

-- The filter that speaks last about a category: the last one whose text behind the sign begins it.
unfoldable pub last_word : List Text → Text → Option Text
last_word [] category = none
last_word (f ∷ fs) category = speaks (last_word fs category) (starts_with category (drop 1 f)) f

-- Whether that filter puts the category off; where none speaks, nothing changes.
abbrev pub decides_off : Bool → Option Text → Bool
decides_off before none = before
decides_off before (some f) = starts_with f (codes "-")

pub first_unsigned→AllSigned : (fs : List Text) → first_unsigned fs ≡ none → AllSigned fs
unfolding first_unsigned
first_unsigned→AllSigned [] h = tt
first_unsigned→AllSigned (f ∷ fs) h = elim (Bool-cases (is_signed f)) [
  | inl ok ↦ (ok, first_unsigned→AllSigned fs (rw ok at h))
  | inr bad ↦ absurd (ground (arith, rw bad at h))
]

apply_filter-speaks :
    (f category : Text) (b : Bool) (later : Option Text)
    → is_signed f ≡ true
    → ((fits : Bool)
        → starts_with category (drop 1 f) ≡ fits
        → (c : Bool) × (apply_filter f category b ≡ some c)
          × (decides_off c later ≡ decides_off b (speaks later fits f)))
unfolding apply_filter is_signed
apply_filter-speaks f category b none h true e =
    (starts_with f (codes "-"), ground arith, ground arith)
apply_filter-speaks f category b none h false e = (b, ground arith, ground arith)
apply_filter-speaks f category b (some g) h true e =
    (starts_with f (codes "-"), ground arith, ground arith)
apply_filter-speaks f category b (some g) h false e = (b, ground arith, ground arith)

run_filters-last_word :
    (fs : List Text) (category : Text) (b : Bool)
    → AllSigned fs
    → run_filters fs category (some b) ≡ some (decides_off b (last_word fs category))
unfolding run_filters last_word apply_filter starts_with
run_filters-last_word [] category b h = refl
run_filters-last_word (f ∷ fs) category b h =
    let (c, e, same) = apply_filter-speaks f category b (last_word fs category) h.0 _ refl in
    rw (e, ← same) (run_filters-last_word fs category c h.1)

-- If every filter has a sign, an error is printed exactly if no NOLINT comment or global
-- suppression covers it, its confidence reaches the verbosity, and the last filter whose text
-- begins its category, if there is one, is not a `-` filter.
pub should_print_error-last_word :
    (s : LintState) (sup : Suppressions) (category : Text) (confidence linenum : ℕ)
    → AllSigned s.filters
    → should_print_error s sup category confidence linenum
      ≡ some (
          not (is_error_suppressed_by_nolint sup category linenum)
          && (not (ltb confidence s.verbose_level)
              && not (decides_off false (last_word s.filters category))))
unfolding should_print_error
should_print_error-last_word s sup category confidence linenum h =
    rw (run_filters-last_word s.filters category false h) (ground arith)

-- The filters that a filter string adds: its pieces between commas, stripped, that are not empty.
unfoldable pub clean_filters : List Text → List Text
clean_filters [] = []
clean_filters (p ∷ ps) = if strip p =t= [] then clean_filters ps else strip p ∷ clean_filters ps

pub append_filters-eq : (fs ps : List Text) → append_filters fs ps ≡ fs ++ clean_filters ps
unfolding append_filters clean_filters
append_filters-eq fs [] = sym (append-nil fs)
append_filters-eq fs (p ∷ ps) = elim (Bool-cases (strip p =t= [])) [
  | inl blank ↦ rw blank (append_filters-eq fs ps)
  | inr full ↦ rw full (
      append_filters-eq (fs ++ strip p ∷ []) ps ∙ append_assoc fs (strip p ∷ []) (clean_filters ps))
]

-- Once a filter string is accepted, the assertion in _ShouldPrintError cannot fail, whatever the
-- error and the suppressions.
pub set_filters-never_asserts :
    (filters : Text) (s : LintState) (sup : Suppressions) (category : Text) (confidence linenum : ℕ)
    → (set_filters filters s).1 ≡ none
    → (b : Bool) × (should_print_error (set_filters filters s).0 sup category confidence linenum
        ≡ some b)
set_filters-never_asserts filters s sup category confidence linenum e = (
  _,
  should_print_error-last_word (set_filters filters s).0 sup category confidence linenum (
      unfold set_filters add_filters in
      first_unsigned→AllSigned _ (unfold set_filters add_filters in e)),
)

-- _AddFilters, any number of times, each accepted or caught.
unfoldable pub add_all : List Text → LintState → LintState
add_all [] s = s
add_all (filters ∷ rest) s = add_all rest (add_filters filters s).0

add_all-restore :
    (strings : List Text) (s : LintState) → restore_filters (add_all strings s) ≡ restore_filters s
unfolding add_all restore_filters add_filters
add_all-restore [] s = refl
add_all-restore (filters ∷ rest) s = add_all-restore rest _

-- Whatever filter strings are added between _BackupFilters and _RestoreFilters, refused ones
-- too, the state is then what it was.
pub restore-add_all-backup :
    (strings : List Text) (s : LintState)
    → restore_filters (add_all strings (backup_filters s)) ≡ backup_filters s
restore-add_all-backup strings s =
    add_all-restore strings (backup_filters s) ∙ (unfold restore_filters backup_filters in refl)
