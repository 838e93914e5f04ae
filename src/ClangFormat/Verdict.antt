-- ===== src/ClangFormat/Verdict.antt =====
-- What the exit code of run_clang_format.py says of the files.
use adv_database_implementat.Base.{
  Bool, true, false, not, Option, none, some, is_some, List, [], ◌∷◌, ◌++◌, Text, map, split, strip,
  ◌=t=◌, =t=→≡, =t=_refl, if◌then◌else◌, All, arith, ◌≡◌, ◌⊎◌, refl, ap, ◌∙◌, sym, ◌↔◌, Bool-cases,
  Option-cases, inl, inr, of_some,
}
use adv_database_implementat.ClangFormat.{
  World, differs, has_diff, check_files, check, check_dirs, code_of, exit_code, formatted_filenames,
}

-- The file can be read and formatted.
abbrev pub IsReadable : World → Text → Type 0
IsReadable w f = (is_some (w.formatted f) ≡ true) × (is_some (w.read f) ≡ true)

-- Clang-format leaves the file as it is.
abbrev pub IsSame : World → Text → Type 0
IsSame w f = w.formatted f ≡ w.read f

differs-readable :
    (formatted original : Option Text) (b : Bool)
    → differs formatted original ≡ some b
    → (is_some formatted ≡ true) × (is_some original ≡ true)
differs-readable none original b h = absurd (cc h)
differs-readable (some formatted) none b h = absurd (cc h)
differs-readable (some formatted) (some original) b h = (refl, refl)

readable-differs :
    (formatted original : Option Text)
    → is_some formatted ≡ true
    → is_some original ≡ true
    → (b : Bool) × (differs formatted original ≡ some b)
readable-differs none original h k = absurd (cc h)
readable-differs (some formatted) none h k = absurd (cc k)
readable-differs (some formatted) (some original) h k = (not (original =t= formatted), refl)

differs-same :
    (formatted original : Option Text)
    → differs formatted original ≡ some false
    → formatted ≡ original
differs-same none original h = absurd (cc h)
differs-same (some formatted) none h = absurd (cc h)
differs-same (some formatted) (some original) h =
    let other : not (original =t= formatted) ≡ false = of_some h in
    ap some (sym (=t=→≡ original formatted (ground (arith, other))))

same-differs :
    (original : Option Text) → is_some original ≡ true → differs original original ≡ some false
same-differs none h = absurd (cc h)
same-differs (some original) h = rw (=t=_refl original) refl

module _ (w : World) where
  check_files-IsReadable :
      (files : List Text) (error b : Bool)
      → check_files w files error ≡ some b
      → All (IsReadable w) files
  unfolding check_files has_diff
  check_files-IsReadable [] error b h = tt
  check_files-IsReadable (f ∷ files) error b h = elim (Option-cases (has_diff w f)) [
    | inl raised ↦ absurd (cc (rw raised at h))
    | inr (bad, e) ↦ (
      differs-readable (w.formatted f) (w.read f) bad e,
      check_files-IsReadable files (if bad then true else error) b (rw e at h),
    )
  ]

  IsReadable-check_files :
      (files : List Text) (error : Bool)
      → All (IsReadable w) files
      → (b : Bool) × (check_files w files error ≡ some b)
  unfolding check_files has_diff
  IsReadable-check_files [] error h = (error, refl)
  IsReadable-check_files (f ∷ files) error h =
      let (bad, e) = readable-differs (w.formatted f) (w.read f) h.0.0 h.0.1 in
      let (b, rest) = IsReadable-check_files files (if bad then true else error) h.1 in
      (b, rw e rest)

  -- An error that is found stays.
  error_stays : (files : List Text) (b : Bool) → check_files w files true ≡ some b → b ≡ true
  unfolding check_files
  error_stays [] b h = sym (of_some h)
  error_stays (f ∷ files) b h = elim (Option-cases (has_diff w f)) [
    | inl raised ↦ absurd (cc (rw raised at h))
    | inr (true, e) ↦ error_stays files b (rw e at h)
    | inr (false, e) ↦ error_stays files b (rw e at h)
  ]

  check_files-IsSame :
      (files : List Text) → check_files w files false ≡ some false → All (IsSame w) files
  unfolding check_files has_diff
  check_files-IsSame [] h = tt
  check_files-IsSame (f ∷ files) h = elim (Option-cases (has_diff w f)) [
    | inl raised ↦ absurd (cc (rw raised at h))
    | inr (true, e) ↦ absurd (cc (error_stays files false (rw e at h)))
    | inr (false, e) ↦
        (differs-same (w.formatted f) (w.read f) e, check_files-IsSame files (rw e at h))
  ]

  IsSame-check_files :
      (files : List Text)
      → All (IsReadable w) files
      → All (IsSame w) files
      → check_files w files false ≡ some false
  unfolding check_files has_diff
  IsSame-check_files [] h s = refl
  IsSame-check_files (f ∷ files) h s =
      rw (s.0, same-differs (w.read f) h.0.1) (IsSame-check_files files h.1 s.1)

-- The files of a directory can be read and formatted; with --fix, clang-format succeeds on them.
abbrev pub IsChecked : World → Bool → List Text → Text → Type 0
IsChecked w true globs dir = w.formats_in_place (formatted_filenames w globs dir) ≡ true
IsChecked w false globs dir = All (IsReadable w) (formatted_filenames w globs dir)

-- Without --fix, clang-format leaves the files of a directory as they are.
abbrev pub IsClean : World → Bool → List Text → Text → Type 0
IsClean w true globs dir = Unit
IsClean w false globs dir = All (IsSame w) (formatted_filenames w globs dir)

module _ (w : World) (globs : List Text) (dir : Text) where
  check-IsChecked : (fix b : Bool) → check w fix globs dir ≡ some b → IsChecked w fix globs dir
  unfolding check
  check-IsChecked false b h = check_files-IsReadable w (formatted_filenames w globs dir) false b h
  check-IsChecked true b h =
      elim (Bool-cases (w.formats_in_place (formatted_filenames w globs dir))) [
        | inl formats ↦ formats
        | inr fails ↦ absurd (cc (rw fails at h))
      ]

  IsChecked-check :
      (fix : Bool) → IsChecked w fix globs dir → (b : Bool) × (check w fix globs dir ≡ some b)
  unfolding check
  IsChecked-check false h = IsReadable-check_files w (formatted_filenames w globs dir) false h
  IsChecked-check true h = (false, rw h refl)

  check-IsClean : (fix : Bool) → check w fix globs dir ≡ some false → IsClean w fix globs dir
  unfolding check
  check-IsClean false h = check_files-IsSame w (formatted_filenames w globs dir) h
  check-IsClean true h = tt

  IsClean-check :
      (fix : Bool)
      → IsChecked w fix globs dir
      → IsClean w fix globs dir
      → check w fix globs dir ≡ some false
  unfolding check
  IsClean-check false h s = IsSame-check_files w (formatted_filenames w globs dir) h s
  IsClean-check true h s = rw h refl

module _ (check_dir : Text → Option Bool) where
  -- The directories that are empty names are passed over.
  abbrev Passed : Text → Type 0
  Passed d = (d ≡ []) ⊎ ((b : Bool) × (check_dir d ≡ some b))

  empties_kept :
      (dirs : List Text) (had_err : Bool)
      → All (λ d. d ≡ []) dirs
      → check_dirs check_dir dirs had_err ≡ some had_err
  unfolding check_dirs
  empties_kept [] had_err h = refl
  empties_kept (d ∷ dirs) had_err h = rw h.0 (empties_kept dirs had_err h.1)

  check_dirs-last :
      (before after : List Text) (last : Text) (had_err b : Bool)
      → (last =t= []) ≡ false
      → All (λ d. d ≡ []) after
      → check_dirs check_dir (before ++ last ∷ after) had_err ≡ some b
      → All Passed before × (check_dir last ≡ some b)
  unfolding check_dirs
  check_dirs-last [] after last had_err b e h k = elim (Option-cases (check_dir last)) [
    | inl raised ↦ absurd (cc (rw (e, raised) at k))
    | inr (r, found) ↦ (tt, found ∙ sym (empties_kept after r h) ∙ rw (e, found) at k)
  ]
  check_dirs-last (d ∷ before) after last had_err b e h k = elim (Bool-cases (d =t= [])) [
    | inl empty ↦
        let (passed, found) = check_dirs-last before after last had_err b e h (rw empty at k) in
        ((inl (=t=→≡ d [] empty), passed), found)
    | inr named ↦ elim (Option-cases (check_dir d)) [
      | inl raised ↦ absurd (cc (rw (named, raised) at k))
      | inr (r, here) ↦
          let (passed, found) = check_dirs-last before after last r b e h (rw (named, here) at k) in
          ((inr (r, here), passed), found)
    ]
  ]

  last-check_dirs :
      (before after : List Text) (last : Text) (had_err b : Bool)
      → (last =t= []) ≡ false
      → All (λ d. d ≡ []) after
      → All Passed before
      → check_dir last ≡ some b
      → check_dirs check_dir (before ++ last ∷ after) had_err ≡ some b
  unfolding check_dirs
  last-check_dirs [] after last had_err b e h p k = rw (e, k) (empties_kept after b h)
  last-check_dirs (d ∷ before) after last had_err b e h (inl empty, p) k =
      rw empty (last-check_dirs before after last had_err b e h p k)
  last-check_dirs (d ∷ before) after last had_err b e h (inr (r, here), p) k =
      elim (Bool-cases (d =t= [])) [
        | inl empty ↦ rw empty (last-check_dirs before after last had_err b e h p k)
        | inr named ↦ rw (named, here) (last-check_dirs before after last r b e h p k)
      ]

code_of-zero : (o : Option Bool) → code_of o ≡ 0 → o ≡ some false
code_of-zero none h = absurd (cc h)
code_of-zero (some true) h = absurd (cc h)
code_of-zero (some false) h = refl

-- If a source directory with a name that is not empty is given: the exit code is 0 exactly if,
-- without --fix, every file that is selected in one of them can be read and formatted, and
-- clang-format leaves each file that is selected in the last of them as it is, and with --fix,
-- clang-format succeeds on the files of each. Style issues in the directories before the last do
-- not count.
pub exit_code-last :
    (w : World) (fix : Bool) (glob_lines : List Text) (source_dirs last : Text)
    (before after : List Text)
    → split b',' source_dirs ≡ before ++ last ∷ after
    → (last =t= []) ≡ false
    → All (λ d. d ≡ []) after
    → (exit_code w fix glob_lines source_dirs ≡ 0) ↔ (
        All (λ d. (d ≡ []) ⊎ IsChecked w fix (map strip glob_lines) d) before
        × IsChecked w fix (map strip glob_lines) last
        × IsClean w fix (map strip glob_lines) last)
unfolding exit_code
exit_code-last w fix glob_lines source_dirs last before after e nonempty empties =
    let globs = map strip glob_lines in
    let check_dir = check w fix globs in
    (
      λ zero_code.
          let (passed, found) =
            check_dirs-last check_dir before after last false false nonempty empties
              (code_of-zero _ (rw e at zero_code)) in
          (
            all_checked before passed,
            check-IsChecked w globs last fix false found,
            check-IsClean w globs last fix found,
          ),
      λ good. ap code_of (
          ap (λ dirs. check_dirs check_dir dirs false) e
          ∙ last-check_dirs check_dir before after last false false nonempty empties
              (all_passed before good.0) (IsClean-check w globs last fix good.1 good.2)),
    )
  where
    all_checked :
        (dirs : List Text)
        → All (Passed (check w fix (map strip glob_lines))) dirs
        → All (λ d. (d ≡ []) ⊎ IsChecked w fix (map strip glob_lines) d) dirs
    all_checked [] h = tt
    all_checked (d ∷ dirs) (inl empty, h) = (inl empty, all_checked dirs h)
    all_checked (d ∷ dirs) (inr (b, found), h) =
        (inr (check-IsChecked w (map strip glob_lines) d fix b found), all_checked dirs h)

    all_passed :
        (dirs : List Text)
        → All (λ d. (d ≡ []) ⊎ IsChecked w fix (map strip glob_lines) d) dirs
        → All (Passed (check w fix (map strip glob_lines))) dirs
    all_passed [] h = tt
    all_passed (d ∷ dirs) (inl empty, h) = (inl empty, all_passed dirs h)
    all_passed (d ∷ dirs) (inr checked, h) =
        (inr (IsChecked-check w (map strip glob_lines) d fix checked), all_passed dirs h)
