-- ===== src/Cpplint/Style/Previous.antt =====
-- Which line GetPreviousNonBlankLine finds.
use adv_database_implementat.Base.{
  ◌≤◌, ℕ, zero, suc, ◌<◌, true, false, Option, some, none, List, [], Text, get_or, ◌==◌, arith, ◌≡◌,
  refl, Bool-cases, inl, inr,
}
use adv_database_implementat.Cpplint.Style.{is_blank_line, get_previous_non_blank_line}

abbrev pub BlankBetween : List Text → ℕ → ℕ → Type 0
BlankBetween elided from linenum =
    (i : ℕ) → from ≤ i → i < linenum → is_blank_line (get_or elided i []) ≡ true

previous-found :
    (elided : List Text) (n linenum : ℕ)
    → n < linenum
    → is_blank_line (get_or elided n []) ≡ false
    → BlankBetween elided (suc n) linenum
    → get_previous_non_blank_line elided linenum ≡ (get_or elided n [], some n)
unfolding get_previous_non_blank_line
previous-found elided n zero lt full blank = absurd (omega arith)
previous-found elided n (suc m) lt full blank = elim (Bool-cases (n == m)) [
  | inl same ↦ let e : m ≡ n = ground (arith, same) in rw e (rw full refl)
  | inr other ↦
      let below : n < m = ground (arith, other) in
      rw (blank m (omega arith) (omega arith))
        (previous-found elided n m below full (λ i from to. blank i from (omega arith)))
]

previous-missed :
    (elided : List Text) (linenum : ℕ)
    → BlankBetween elided 0 linenum
    → get_previous_non_blank_line elided linenum ≡ ([], none)
unfolding get_previous_non_blank_line
previous-missed elided zero blank = refl
previous-missed elided (suc m) blank =
    rw (blank m (omega arith) (omega arith))
      (previous-missed elided m (λ i from to. blank i from (omega arith)))

-- The number is that of the last line before `linenum` that is not blank; there is no number if all are blank.
abbrev pub IsLast : List Text → ℕ → Option ℕ → Type 0
IsLast elided linenum none = BlankBetween elided 0 linenum
IsLast elided linenum (some n) =
    (n < linenum)
    × (is_blank_line (get_or elided n []) ≡ false)
    × BlankBetween elided (suc n) linenum

abbrev pub line_at : List Text → Option ℕ → Text
line_at elided none = []
line_at elided (some n) = get_or elided n []

-- GetPreviousNonBlankLine gives the last line before `linenum` that is not blank, with its number, and
-- the empty line and -1 if all lines before are blank.
pub get_previous_non_blank_line-IsLast :
    (elided : List Text) (linenum : ℕ) (last : Option ℕ)
    → IsLast elided linenum last
    → get_previous_non_blank_line elided linenum ≡ (line_at elided last, last)
get_previous_non_blank_line-IsLast elided linenum none blank = previous-missed elided linenum blank
get_previous_non_blank_line-IsLast elided linenum (some n) h =
    previous-found elided n linenum h.0 h.1 h.2
