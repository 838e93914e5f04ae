-- ===== src/Cpplint/Tests/Files.antt =====
-- The lines of a file, its end and the lengths of its functions, at concrete inputs.
use adv_database_implementat.Cpplint.Report.{Report}
use adv_database_implementat.Cpplint.Comments.{remove_multi_line_comments}
use adv_database_implementat.Base.{some, true, List, [], ◌∷◌, ◌++◌, Text, codes, ◌≡◌, ◌↔◌, refl}
use adv_database_implementat.Cpplint.CleansedLines.{CleansedLines}
use adv_database_implementat.Cpplint.FileChecks.{check_for_newline_at_eof}
use adv_database_implementat.Cpplint.FileChecks.Ending.{
  is_terminated, check_for_newline_at_eof-exact,
}
use adv_database_implementat.Cpplint.ProcessFile.{
  read_lines, with_markers, check_line_ends, ends_in_cr,
}
use adv_database_implementat.Cpplint.ProcessFile.Uniform.{join_lines, read_lines-uniform}

check_for_newline_at_eof-exact_example :
    (out : List Text) × (reports : List Report) × (remove_multi_line_comments
        (with_markers (read_lines (codes "ab\r\nc\n")).lines)
      ≡ some (out, reports))
    × ((check_for_newline_at_eof out ≡ []) ↔ (is_terminated (codes "ab\r\nc\n") ≡ true))
check_for_newline_at_eof-exact_example = check_for_newline_at_eof-exact (codes "ab\r\nc\n")

abbrev two_lines : List Text
two_lines = codes "ab" ∷ codes "c" ∷ []

read_lines-uniform_example :
    ((read_lines (join_lines (b'\n' ∷ []) two_lines (codes "d"))).lines
      ≡ two_lines ++ codes "d" ∷ [])
    × ((read_lines (join_lines (b'\r' ∷ b'\n' ∷ []) two_lines (codes "d"))).lines
        ≡ two_lines ++ codes "d" ∷ [])
    × (check_line_ends (read_lines (join_lines (b'\n' ∷ []) two_lines (codes "d"))) ≡ [])
    × (check_line_ends (read_lines (join_lines (b'\r' ∷ b'\n' ∷ []) two_lines (codes "d"))) ≡ [])
unfolding ends_in_cr
read_lines-uniform_example =
    read_lines-uniform two_lines (codes "d") (((refl, (refl, tt)), refl), (((refl, tt), refl), tt))
      (refl, tt)

abbrev a_function : CleansedLines
a_function =
    let lines =
      codes "// marker"
      ∷ codes "int f() {"
      ∷ codes "  g();"
      ∷ codes ""
      ∷ codes "  return 0;"
      ∷ codes "}"
      ∷ codes "// end"
      ∷ [] in
    record {
      elided = lines;
      lines = lines;
      raw_lines = lines;
      num_lines = 7;
      lines_without_raw_strings = lines;
    }

abbrev its_body : List Text
its_body = codes "  g();" ∷ codes "" ∷ codes "  return 0;" ∷ []
