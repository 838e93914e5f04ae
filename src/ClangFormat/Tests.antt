-- ===== src/ClangFormat/Tests.antt =====
-- run_clang_format.py on two directories.
use adv_database_implementat.Base.{
  none, some, All, ◌↔◌, ◌⊎◌, true, false, [], ◌∷◌, ◌++◌, codes, split, ◌=t=◌, if◌then◌else◌, ◌≡◌,
  refl, ends_with, starts_with,
}
use adv_database_implementat.ClangFormat.{
  World, check, exit_code, formatted_filenames, select_all, select, check_files, has_diff,
  check_dirs,
}
use adv_database_implementat.ClangFormat.Verdict.{exit_code-last, IsChecked, IsClean}

-- A directory `bad` with a file that clang-format changes, and other directories with one that it
-- leaves as it is.
abbrev two_dirs : World
two_dirs = record {
  walk = λ source_dir. (source_dir, codes "a.cc" ∷ codes "a.txt" ∷ []) ∷ [];
  join = λ directory filename. directory ++ (b'/' ∷ filename);
  fnmatch = λ filename glob. filename =t= glob;
  read = λ filename. some (codes "int  a;");
  formatted =
      λ filename. some (if filename =t= codes "bad/a.cc" then codes "int a;" else codes "int  a;");
  formats_in_place = λ filenames. true;
}

bad_found : check two_dirs false [] (codes "bad") ≡ some true
unfolding check check_files formatted_filenames select_all select has_diff ends_with starts_with
bad_found = refl

-- The issue in the first directory is lost.
lost_issue : exit_code two_dirs false [] (codes "bad,good,") ≡ 0
unfolding check check_files formatted_filenames select_all select has_diff ends_with starts_with
    split exit_code check_dirs
lost_issue = refl

-- A file of an earlier directory that cannot be read ends the program.
unreadable : exit_code (record two_dirs { read = λ filename. none }) false [] (codes "bad,") ≡ 1
unfolding check check_files formatted_filenames select_all select has_diff ends_with starts_with
    split exit_code check_dirs
unreadable = refl

exit_code-last_example : (exit_code two_dirs false [] (codes "bad,good,") ≡ 0) ↔ (
    All (λ d. (d ≡ []) ⊎ IsChecked two_dirs false [] d) (codes "bad" ∷ [])
    × IsChecked two_dirs false [] (codes "good")
    × IsClean two_dirs false [] (codes "good"))
unfolding split
exit_code-last_example =
    exit_code-last two_dirs false [] (codes "bad,good,") (codes "good") (codes "bad" ∷ []) ([] ∷ [])
      refl refl (refl, tt)
