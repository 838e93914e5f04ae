-- ===== src/Cpplint/ProcessFile.antt =====
-- How ProcessFile and ProcessFileData of cpplint.py make the lines of a file from its text: the
-- split at the newlines, the removal of carriage returns, and the marker lines at both ends.
pub mod Uniform
use adv_database_implementat.Base.{
  ℕ, suc, ◌+◌, Bool, true, false, ◌&&◌, not, List, [], ◌∷◌, ◌++◌, reverse, Text, codes, split, ◌==◌,
  if◌then◌else◌, map,
}
use adv_database_implementat.Cpplint.Report.{Report}
use adv_database_implementat.Cpplint.FileChecks.{report}

-- s.endswith('\r') and s.rstrip('\r')
unfoldable pub ends_in_cr : Text → Bool
ends_in_cr [] = false
ends_in_cr (c ∷ []) = c == b'\r'
ends_in_cr (c ∷ d ∷ s) = ends_in_cr (d ∷ s)

abbrev pub cons_unless_cr : ℕ → Text → Text
cons_unless_cr c [] = if c == b'\r' then [] else c ∷ []
cons_unless_cr c (d ∷ s) = c ∷ d ∷ s

unfoldable pub rstrip_cr : Text → Text
rstrip_cr [] = []
rstrip_cr (c ∷ s) = cons_unless_cr c (rstrip_cr s)

-- The lines, and the numbers of those that ended in LF and in CR LF.
pub record LineEnds : Type 0 where
  pub lines : List Text
  pub lf_lines : List ℕ
  pub crlf_lines : List ℕ

abbrev pub add_line : ℕ → Text → LineEnds → LineEnds
add_line linenum line r =
    if ends_in_cr line
    then record {
      lines = rstrip_cr line ∷ r.lines;
      lf_lines = r.lf_lines;
      crlf_lines = linenum ∷ r.crlf_lines;
    }
    else record {
      lines = line ∷ r.lines;
      lf_lines = linenum ∷ r.lf_lines;
      crlf_lines = r.crlf_lines;
    }

-- The loop over all lines but the last, with the number of the first.
unfoldable pub strip_line_ends : ℕ → List Text → LineEnds
strip_line_ends linenum [] = record { lines = []; lf_lines = []; crlf_lines = [] }
strip_line_ends linenum (last ∷ []) = record { lines = last ∷ []; lf_lines = []; crlf_lines = [] }
strip_line_ends linenum (line ∷ next ∷ rest) =
    add_line linenum line (strip_line_ends (suc linenum) (next ∷ rest))

unfoldable pub read_lines : Text → LineEnds
read_lines text = strip_line_ends 1 (split b'\n' text)

abbrev unexpected_cr : ℕ → Report
unexpected_cr linenum =
    report linenum "whitespace/newline" 1
      (codes "Unexpected \\r (^M) found; better to use only \\n")

abbrev is_nil : List ℕ → Bool
is_nil [] = true
is_nil (x ∷ xs) = false

-- The errors for a mix of line ends.
unfoldable pub check_line_ends : LineEnds → List Report
check_line_ends r =
    if not (is_nil r.lf_lines) && not (is_nil r.crlf_lines)
    then map unexpected_cr r.crlf_lines
    else []

-- The lines that ProcessFileData checks.
unfoldable pub with_markers : List Text → List Text
with_markers lines =
    codes "// marker so line numbers and indices both start at 1"
    ∷ (lines ++ codes "// marker so line numbers end in a known way" ∷ [])
