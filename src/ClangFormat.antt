-- ===== src/ClangFormat.antt =====
-- lab1_External_Sort/script/run_clang_format.py: which files it formats or checks, and its exit
-- code. The walk of the file system, the globs of fnmatch, the files and clang-format are parameters.
pub mod Verdict
mod Tests
use adv_database_implementat.Base.{
  ℕ, Option, none, some, Bool, true, false, ◌&&◌, ◌||◌, not, List, [], ◌∷◌, ◌++◌, Text, codes, map,
  any, split, strip, ends_with, ◌=t=◌, if◌then◌else◌,
}

pub record World : Type 0 where
  -- the directories and the names of their files that os.walk gives below a directory
  pub walk : Text → List (Text × List Text)
  -- os.path.join
  pub join : Text → Text → Text
  -- fnmatch.fnmatch
  pub fnmatch : Text → Text → Bool
  -- the text of a file; `none` if open, read or the decoding raises an exception
  pub read : Text → Option Text
  -- what clang-format prints for a file; `none` if check_output or the decoding raises an exception
  pub formatted : Text → Option Text
  -- whether clang-format with `-i` on some files succeeds; if not, check_call raises an exception
  pub formats_in_place : List Text → Bool

abbrev pub is_source : Text → Bool
is_source x = ends_with x (codes ".h") || ends_with x (codes ".cc")

abbrev keep_if : Bool → Text → List Text → List Text
keep_if b x xs = if b then x ∷ xs else xs

-- The files of one directory that are to be looked at.
unfoldable pub select : World → List Text → Text → List Text → List Text
select w exclude_globs directory [] = []
select w exclude_globs directory (filename ∷ filenames) =
    let fullpath = w.join directory filename in
    keep_if (is_source fullpath && not (any (λ glob. w.fnmatch fullpath glob) exclude_globs))
      fullpath (select w exclude_globs directory filenames)

unfoldable pub select_all : World → List Text → List (Text × List Text) → List Text
select_all w exclude_globs [] = []
select_all w exclude_globs ((directory, filenames) ∷ rest) =
    select w exclude_globs directory filenames ++ select_all w exclude_globs rest

-- formatted_filenames
unfoldable pub formatted_filenames : World → List Text → Text → List Text
formatted_filenames w exclude_globs source_dir = select_all w exclude_globs (w.walk source_dir)

abbrev pub differs : Option Text → Option Text → Option Bool
differs none original = none
differs (some formatted) none = none
differs (some formatted) (some original) = some (not (original =t= formatted))

-- Whether the difference is not empty: the lines are compared with their ends, so that two texts
-- have the same lines exactly if they are the same. From here on `none` is an exception.
unfoldable pub has_diff : World → Text → Option Bool
has_diff w filename = differs (w.formatted filename) (w.read filename)

abbrev pub unless_raised : Option Bool → (Bool → Option Bool) → Option Bool
unless_raised none next = none
unless_raised (some result) next = next result

-- The loop of `check` without --fix, from an error flag on.
unfoldable pub check_files : World → List Text → Bool → Option Bool
check_files w [] error = some error
check_files w (filename ∷ filenames) error =
    unless_raised (has_diff w filename)
      (λ diff. check_files w filenames (if diff then true else error))

-- `check`: whether it found an issue. With --fix it hands all the files to clang-format, and finds
-- none.
unfoldable pub check : World → Bool → List Text → Text → Option Bool
check w fix exclude_globs source_dir =
    let filenames = formatted_filenames w exclude_globs source_dir in
    if fix
    then (if w.formats_in_place filenames then some false else none)
    else check_files w filenames false

-- The loop of the main program over the source directories.
unfoldable pub check_dirs : (Text → Option Bool) → List Text → Bool → Option Bool
check_dirs check_dir [] had_err = some had_err
check_dirs check_dir (source_dir ∷ source_dirs) had_err =
    unless_raised (if source_dir =t= [] then some had_err else check_dir source_dir)
      (λ err. check_dirs check_dir source_dirs err)

-- sys.exit, or the exit code 1 that an exception leaves.
abbrev pub code_of : Option Bool → ℕ
code_of none = 1
code_of (some had_err) = if had_err then 1 else 0

-- The exit code, for the lines of the file of globs and the option --source_dirs.
unfoldable pub exit_code : World → Bool → List Text → Text → ℕ
exit_code w fix glob_lines source_dirs =
    code_of (check_dirs (check w fix (map strip glob_lines)) (split b',' source_dirs) false)
