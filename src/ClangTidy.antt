-- ===== src/ClangTidy.antt =====
-- lab1_External_Sort/script/run_clang_tidy.py and run_clang_tidy_extra.py: the command lines that
-- the threads of Queue hand to clang-tidy, and the files that they skip.
pub mod Queue
pub mod Skip
mod Tests
use adv_database_implementat.Base.{
  ℕ, suc, Bool, true, false, ◌||◌, Option, none, some, List, [], ◌∷◌, ◌++◌, map, Text, codes, ◌=t=◌,
  ◌==◌, if◌then◌else◌, is_some,
}
use adv_database_implementat.Regex.{Re, any_char, star, seq, lit, match_at_start}

-- The options that reach the command line of clang-tidy.
pub record Args : Type 0 where
  pub clang_tidy_binary : Text
  pub checks : Option Text
  pub config : Option Text
  pub header_filter : Option Text
  pub extra_arg : List Text
  pub extra_arg_before : List Text
  pub quiet : Bool

abbrev truthy : Option Text → Bool
truthy none = false
truthy (some []) = false
truthy (some (c ∷ s)) = true

-- An option that is left out where it is None.
abbrev option_arg : Text → Option Text → List Text
option_arg prefix none = []
option_arg prefix (some value) = (prefix ++ value) ∷ []

-- An option that is left out where it is None or empty.
abbrev truthy_arg : Text → Option Text → List Text
truthy_arg prefix value = if truthy value then option_arg prefix value else []

abbrev export_args : Option Text → List Text
export_args none = []
export_args (some name) = codes "-export-fixes" ∷ name ∷ []

-- get_tidy_invocation, for the name of the temporary file that it makes if there is a tmpdir.
unfoldable pub get_tidy_invocation : Text → Args → Option Text → Text → List Text
get_tidy_invocation f args temp_name build_path =
    args.clang_tidy_binary
    ∷ (option_arg (codes "-header-filter=") args.header_filter
        ++ (truthy_arg (codes "-checks=") args.checks
            ++ (export_args temp_name
                ++ (map (λ arg. codes "-extra-arg=" ++ arg) args.extra_arg
                    ++ (map (λ arg. codes "-extra-arg-before=" ++ arg) args.extra_arg_before
                        ++ ((codes "-p=" ++ build_path)
                            ∷ ((if args.quiet then codes "-quiet" ∷ [] else [])
                                ++ (truthy_arg (codes "-config=") args.config ++ f ∷ []))))))))

-- The command line that lists the checks, before the threads start.
unfoldable pub list_checks_invocation : Args → Text → List Text
list_checks_invocation args build_path =
    args.clang_tidy_binary
    ∷ codes "-list-checks"
    ∷ (codes "-p=" ++ build_path)
    ∷ (truthy_arg (codes "-checks=") args.checks ++ codes "-" ∷ [])

-- os.path.isabs, join and normpath.
pub record OsPath : Type 0 where
  pub isabs : Text → Bool
  pub join : Text → Text → Text
  pub normpath : Text → Text

unfoldable pub make_absolute : OsPath → Text → Text → Text
make_absolute os f directory = if os.isabs f then f else os.normpath (os.join directory f)

-- The entries `directory` and `file` of the compilation database.
unfoldable pub files_of : OsPath → List (Text × Text) → List Text
files_of os [] = []
files_of os ((directory, file) ∷ database) = make_absolute os file directory ∷ files_of os database

-- args.j, or the number of processors.
unfoldable pub max_task_of : ℕ → ℕ → ℕ
max_task_of j cpu_count = if j == 0 then cpu_count else j

-- merge_replacement_files: what each file holds under 'Diagnostics', `none` for an empty file. The
-- result is what is written under that key; `none` where the merged file is emptied.
unfoldable pub merged_diagnostics {ℓ} : {A : Type ℓ} → List (Option (List A)) → List A
merged_diagnostics [] = []
merged_diagnostics (none ∷ contents) = merged_diagnostics contents
merged_diagnostics (some diagnostics ∷ contents) = diagnostics ++ merged_diagnostics contents

abbrev pub none_if_empty {ℓ} : {A : Type ℓ} → List A → Option (List A)
none_if_empty [] = none
none_if_empty (x ∷ xs) = some (x ∷ xs)

unfoldable pub merge_replacement_files {ℓ} : {A : Type ℓ} → List (Option (List A)) → Option (List A)
unfolding merged_diagnostics
merge_replacement_files contents = none_if_empty (merged_diagnostics contents)

-- apply_fixes
unfoldable pub apply_fixes_invocation : Text → Bool → Option Text → Text → List Text
apply_fixes_invocation binary do_format style tmpdir =
    binary
    ∷ ((if do_format then codes "-format" ∷ [] else [])
        ++ (truthy_arg (codes "-style=") style ++ tmpdir ∷ []))

-- CheckConfig.ignore_pats: .*/third_party/.*
unfoldable pub ignore_pats : List Re
ignore_pats = seq (star any_char) (seq (lit "/third_party/") (star any_char)) ∷ []

unfoldable pub any_match : List Re → Text → Bool
any_match [] path = false
any_match (pat ∷ pats) path = is_some (match_at_start pat path) || any_match pats path

-- CheckConfig.should_skip
unfoldable pub should_skip : Text → Bool
should_skip path = any_match ignore_pats path
