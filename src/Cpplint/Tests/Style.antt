-- ===== src/Cpplint/Tests/Style.antt =====
-- The style of lines.
use adv_database_implementat.Base.{
  get_or, ◌≤◌, ◌<◌, ℕ, pos, true, false, none, some, List, [], ◌∷◌, Text, codes, is_space, arith,
  ◌≡◌, refl,
}
use adv_database_implementat.Cpplint.Style.{
  Unicode, is_blank_line, get_previous_non_blank_line, check_line_length, length_report,
}
use adv_database_implementat.Cpplint.Style.Previous.{get_previous_non_blank_line-IsLast}
use adv_database_implementat.Cpplint.Style.Width.{check_line_length-code}

abbrev latin : Unicode
latin = record { normalize = λ s. s; is_wide = λ c. false; is_combining = λ c. false }

check_line_length-code_example :
    check_line_length latin (pos 4) none (codes "  int;") 7 ≡ length_report (pos 4) 7 ∷ []
unfolding is_space
check_line_length-code_example =
    check_line_length-code latin 4 none (codes "  ") (codes "nt;") b'i' 7 (refl, (refl, tt))
      (refl, refl, refl) refl
      (
        (refl, refl),
        ((refl, refl), ((refl, refl), ((refl, refl), ((refl, refl), ((refl, refl), tt))))),
      )

abbrev lines : List Text
lines = codes "a" ∷ [] ∷ codes "b" ∷ []

line_one-blank : (i : ℕ) → 1 ≤ i → i < 2 → is_blank_line (get_or lines i []) ≡ true
unfolding is_blank_line
line_one-blank i from to = let e : i ≡ 1 = omega arith in rw e refl

get_previous_non_blank_line-IsLast_example :
    get_previous_non_blank_line lines 2 ≡ (codes "a", some 0)
unfolding is_blank_line is_space
get_previous_non_blank_line-IsLast_example =
    get_previous_non_blank_line-IsLast lines 2 (some 0) (omega arith, refl, line_one-blank)
