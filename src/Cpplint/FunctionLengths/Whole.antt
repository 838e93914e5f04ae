-- ===== src/Cpplint/FunctionLengths/Whole.antt =====
-- CheckForFunctionLengths over the lines of a whole function.
use adv_database_implementat.Base.{
  ℕ, zero, suc, ◌+◌, List, [], ◌∷◌, ◌++◌, Text, if◌then◌else◌, is_space, all,
}
use adv_database_implementat.Cpplint.Report.{Report}
use adv_database_implementat.Cpplint.CleansedLines.{CleansedLines}
use adv_database_implementat.Cpplint.FunctionState.{FunctionState, begin, check, end}
use adv_database_implementat.Cpplint.FunctionState.Size.{count_lines}
use adv_database_implementat.Cpplint.FunctionLengths.{check_for_function_lengths}

-- The lines of a body that are not white space only.
unfoldable pub counted_lines : List Text → ℕ
counted_lines [] = 0
counted_lines (line ∷ lines) = (if all is_space line then 0 else 1) + counted_lines lines

-- The check over `n` lines, as ProcessLine makes it for one after the other.
unfoldable pub check_lines :
    (ℕ → ℕ → ℕ) → ℕ → CleansedLines → ℕ → ℕ → FunctionState → List Report × FunctionState
check_lines log_ratio verbose_level clean_lines zero linenum s = ([], s)
check_lines log_ratio verbose_level clean_lines (suc n) linenum s =
    let (reports, next) =
      check_for_function_lengths log_ratio verbose_level clean_lines linenum s in
    let (more, last) = check_lines log_ratio verbose_level clean_lines n (suc linenum) next in
    (reports ++ more, last)

module _ (log_ratio : ℕ → ℕ → ℕ) (verbose_level : ℕ) (clean_lines : CleansedLines) where
  module _ (name : Text) (s : FunctionState) where
    -- What the closing line gives.
    abbrev closing : ℕ → ℕ → List Report × FunctionState
    closing linenum n = (
      check log_ratio verbose_level linenum (count_lines n (begin name s)) ++ [],
      end (count_lines n (begin name s)),
    )
