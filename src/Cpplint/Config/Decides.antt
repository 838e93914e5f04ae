-- ===== src/Cpplint/Config/Decides.antt =====
-- What a configuration file decides about the errors of the files below it.
use adv_database_implementat.Base.{
  ℕ, Bool, true, false, ◌&&◌, not, Option, some, none, List, [], ◌∷◌, ◌++◌, reverse, Text, codes,
  length, drop, ltb, ◌=t=◌, split, starts_with, ◌≡◌, refl, ap, subst, ◌∙◌, of_some, reverse-append,
  arith,
}
use adv_database_implementat.Cpplint.LintState.{
  LintState, add_filters, first_unsigned, should_print_error,
}
use adv_database_implementat.Cpplint.LintState.Filters.{
  AllSigned, clean_filters, append_filters-eq, first_unsigned→AllSigned, last_word, speaks,
  should_print_error-last_word,
}
use adv_database_implementat.Cpplint.Suppressions.{Suppressions, is_error_suppressed_by_nolint}
use adv_database_implementat.Cpplint.Paths.{split_path, join_two}
use adv_database_implementat.Cpplint.Config.{
  Host, readable, Settings, Walk, Found, Outcome, kept, continues, excluded, bad_pattern,
  outcome_of, process_config_overrides, apply_filters, if_accepted,
}
use adv_database_implementat.Cpplint.Config.Nearest.{Extends, filters_of, nearest-Extends}

speaks-some :
    (later : Option Text) (fits : Bool) (g f : Text) → later ≡ some f → speaks later fits g ≡ some f
speaks-some none fits g f e = absurd (ground (arith, e))
speaks-some (some h) fits g f e = e

last_word-append :
    (xs ys : List Text) (category f : Text)
    → last_word ys category ≡ some f
    → last_word (xs ++ ys) category ≡ some f
unfolding last_word
last_word-append [] ys category f e = e
last_word-append (x ∷ xs) ys category f e =
    speaks-some (last_word (xs ++ ys) category) (starts_with category (drop 1 x)) x f
      (last_word-append xs ys category f e)

-- The filters in force end with those of the string `v`, and all have a sign.
abbrev EndsWith : Text → Settings → Type 0
EndsWith v t =
    (fs : List Text) × (t.lint.filters ≡ fs ++ clean_filters (split b',' v))
    × AllSigned t.lint.filters

kept-settings : (s t : Settings) → kept s ≡ kept t → s ≡ t
kept-settings s t e = grind (arith, e)

if_accepted-EndsWith :
    (v : Text) (s t : Settings) (lint : LintState) (error : Option Text)
    → lint.filters ≡ s.lint.filters ++ clean_filters (split b',' v)
    → first_unsigned lint.filters ≡ error
    → if_accepted kept s (lint, error) ≡ kept t
    → EndsWith v t
if_accepted-EndsWith v s t lint none e signed h =
    subst (EndsWith v) (kept-settings (record s { lint = lint }) t h)
      (s.lint.filters, e, first_unsigned→AllSigned lint.filters signed)
if_accepted-EndsWith v s t lint (some filt) e signed h = absurd (grind (arith, h))

accepted :
    (f : Settings → Outcome) (s t : Settings) (r : LintState × Option Text)
    → if_accepted f s r ≡ kept t
    → f (record s { lint = r.0 }) ≡ kept t
accepted f s t (lint, none) h = h
accepted f s t (lint, some filt) h = absurd (grind (arith, h))

apply_filters-EndsWith :
    (vs : List Text) (v : Text) (s t : Settings)
    → apply_filters (vs ++ v ∷ []) s ≡ kept t
    → EndsWith v t
unfolding apply_filters
apply_filters-EndsWith [] v s t h =
    if_accepted-EndsWith v s t (add_filters v s.lint).0 (add_filters v s.lint).1
      (unfold add_filters in append_filters-eq s.lint.filters (split b',' v))
      (unfold add_filters in refl) h
apply_filters-EndsWith (u ∷ vs) v s t h =
    apply_filters-EndsWith vs v (record s { lint = (add_filters u s.lint).0 }) t
      (accepted (apply_filters (vs ++ v ∷ [])) s t (add_filters u s.lint) h)

outcome_of-kept :
    (o : Option Found) (t : Settings)
    → outcome_of o ≡ some (kept t)
    → (w : Walk) × (o ≡ some (continues w))
      × (apply_filters (reverse w.cfg_filters) w.settings ≡ kept t)
outcome_of-kept none t h = absurd (grind (arith, h))
outcome_of-kept (some (continues w)) t h = (w, refl, of_some h)
outcome_of-kept (some (excluded w)) t h = absurd (grind (arith, h))
outcome_of-kept (some bad_pattern) t h = absurd (grind (arith, h))

first-EndsWith :
    (v : Text) (vs : List Text) (o : Option Found) (t : Settings)
    → Extends (v ∷ vs) o
    → outcome_of o ≡ some (kept t)
    → EndsWith v t
first-EndsWith v vs o t ext h =
    let (w, e, result) = outcome_of-kept o t h in
    let (rest, fs) = subst (Extends (v ∷ vs)) e ext in
    apply_filters-EndsWith (reverse (vs ++ rest)) v w.settings t (
      subst (λ x. apply_filters x w.settings ≡ kept t)
        (ap reverse fs ∙ reverse-append (v ∷ []) (vs ++ rest)) result)

-- If the configuration file in the directory of a file sets `filter`, and the file is not skipped, then the
-- first value that it sets decides about a category for which it has a filter: an error
-- is printed exactly if no NOLINT comment or global suppression covers it, its confidence reaches the
-- verbosity, and the last such filter is not a `-` filter. Neither other configuration files above
-- nor the filters before count.
pub process_config_overrides-nearest :
    (h : Host) (filename val f : Text) (vals lines : List Text) (s t : Settings)
    (sup : Suppressions) (category : Text) (confidence linenum : ℕ)
    → (split_path (h.abspath filename)).1 =t= [] ≡ false
    → h.config (join_two (split_path (h.abspath filename)).0 (codes "CPPLINT.cfg")) ≡ readable lines
    → filters_of lines ≡ val ∷ vals
    → process_config_overrides h filename s ≡ some (kept t)
    → last_word (clean_filters (split b',' val)) category ≡ some f
    → should_print_error t.lint sup category confidence linenum
      ≡ some (
          not (is_error_suppressed_by_nolint sup category linenum)
          && (not (ltb confidence t.lint.verbose_level) && not (starts_with f (codes "-"))))
unfolding process_config_overrides
process_config_overrides-nearest h filename val f vals lines s t sup category confidence linenum
      file found first result word =
    let (fs, e, signed) =
      first-EndsWith val vals _ t
        (nearest-Extends h (length (h.abspath filename)) (h.abspath filename) val vals lines
          (record { settings = s; cfg_filters = []; keep_looking = true }) file found first refl)
        result in
    let speaks_last : last_word t.lint.filters category ≡ some f =
      rw e (last_word-append fs (clean_filters (split b',' val)) category f word) in
    rw speaks_last at (should_print_error-last_word t.lint sup category confidence linenum signed)
