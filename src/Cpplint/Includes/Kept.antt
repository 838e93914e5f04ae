-- ===== src/Cpplint/Includes/Kept.antt =====
-- What CheckIncludeLine does to the recorded includes.
use adv_database_implementat.Base.{
  ℕ, Bool, ◌||◌, not, Option, none, some, of_some, List, Text, leb, [], ◌=t=◌, =t=→≡, get_or, subst,
  ◌≡◌, ◌⊎◌, refl, ap, sym, ◌∙◌, Bool-cases, Option-cases, inl, inr,
}
use adv_database_implementat.Cpplint.Report.{Report}
use adv_database_implementat.Cpplint.CleansedLines.{CleansedLines}
use adv_database_implementat.Cpplint.FileInfo.{Files, repository_name}
use adv_database_implementat.Cpplint.SameModule.{Extensions, get_header_extensions}
use adv_database_implementat.Cpplint.IncludeState.{
  HeaderType, c_sys_header, cpp_sys_header, likely_my_header, possible_my_header, other_header,
  IncludeState, find_header, add_include, check_next_include_order, set_last_header,
}
use adv_database_implementat.Cpplint.IncludeState.Headers.{find_header-add_include}
use adv_database_implementat.Regex.{Matched, group_of, or_empty, search_text}
use adv_database_implementat.Cpplint.HeaderGuard.Variable.{and_then-some}
use adv_database_implementat.Cpplint.Includes.{
  include_line, record_include, third_src_header, is_third_party, check_new_include, check_include,
  check_matched, check_include_line,
}

order-find_header :
    (header : Text) (kind : HeaderType) (s : IncludeState)
    → find_header header (check_next_include_order kind s).0 ≡ find_header header s
unfolding find_header check_next_include_order
order-find_header header c_sys_header s = elim (Bool-cases (leb s.section 2)) [
  | inl fits ↦ rw fits refl
  | inr late ↦ rw late refl
]
order-find_header header cpp_sys_header s = elim (Bool-cases (leb s.section 3)) [
  | inl fits ↦ rw fits refl
  | inr late ↦ rw late refl
]
order-find_header header likely_my_header s = elim (Bool-cases (leb s.section 1)) [
  | inl fits ↦ rw fits refl
  | inr late ↦ rw late refl
]
order-find_header header possible_my_header s = elim (Bool-cases (leb s.section 1)) [
  | inl fits ↦ rw fits refl
  | inr late ↦ rw late refl
]
order-find_header header other_header s = refl

abbrev included_of : Option Matched → Option Text
included_of none = none
included_of (some m) = some (or_empty (group_of m 2))

-- What a line includes.
unfoldable pub included : Text → Option Text
included line = included_of (search_text include_line line)

-- A header is found where it was, or it was not found, is found at `linenum`, and is the given one.
abbrev pub IsKept : Text → ℕ → Option Text → IncludeState → IncludeState → Type 0
IsKept header linenum given s t =
    (find_header header t ≡ find_header header s)
    ⊎ ((find_header header s ≡ none)
        × (find_header header t ≡ some linenum)
        × (given ≡ some header))

add_include-IsKept :
    (header include : Text) (linenum : ℕ) (s : IncludeState)
    → IsKept header linenum (some include) s (add_include include linenum s)
add_include-IsKept header include linenum s =
    let added = find_header-add_include header include linenum s in
    elim (Option-cases (find_header header s)) [
      | inl new ↦ elim (Bool-cases (include =t= header)) [
        | inl same ↦ inr (new, added ∙ rw (new, same) refl, ap some (=t=→≡ include header same))
        | inr other ↦ inl (added ∙ rw (new, other) refl)
      ]
      | inr (n, old) ↦ inl (added ∙ rw old refl)
    ]

record_include-IsKept :
    (clean_lines : CleansedLines) (linenum : ℕ) (include : Text) (kind : HeaderType)
    (base_name : Text) (s : IncludeState) (header : Text)
    → IsKept header linenum
        (some include)
        s
        (record_include clean_lines linenum include kind base_name s).1
unfolding record_include set_last_header find_header
record_include-IsKept clean_lines linenum include kind base_name s header =
    let ordered = order-find_header header kind (add_include include linenum s) in
    elim (add_include-IsKept header include linenum s) [
      | inl same ↦ inl (ordered ∙ same)
      | inr (new, here, named) ↦ inr (new, ordered ∙ here, named)
    ]

same-IsKept :
    (header : Text) (linenum : ℕ) (given : Option Text) (s t : IncludeState)
    → s ≡ t
    → IsKept header linenum given s t
same-IsKept header linenum given s t e = inl (ap (find_header header) (sym e))

module _ (f : Files) (normpath : Text → Text) (e : Extensions) (filename : Text)
    (clean_lines : CleansedLines) (linenum : ℕ) (header : Text) where
  check_new_include-IsKept :
      (include : Text) (is_system : Bool) (repository : Text) (s : IncludeState)
      (foreign : Option Text) (r : List Report × IncludeState)
      → check_new_include f normpath e filename clean_lines linenum include is_system repository s
          foreign
        ≡ some r
      → IsKept header linenum (some include) s r.1
  unfolding check_new_include
  check_new_include-IsKept include is_system repository s (some ext) r h =
      same-IsKept header linenum (some include) s r.1 (ap (λ p. p.1) (of_some h))
  check_new_include-IsKept include is_system repository s none r h =
      let (third, found, last) =
        and_then-some (third_src_header f (get_header_extensions e) _ include) _ r h in
      elim (Bool-cases (third || not (is_third_party include))) [
        | inl own ↦
            subst (λ p. IsKept header linenum (some include) s p.1) (of_some (rw own at last))
              (record_include-IsKept clean_lines linenum include _ _ s header)
        | inr other ↦
            same-IsKept header linenum (some include) s r.1
              (ap (λ p. p.1) (of_some (rw other at last)))
      ]

  check_include-IsKept :
      (include : Text) (is_system : Bool) (s : IncludeState) (found : Option ℕ)
      (r : List Report × IncludeState)
      → check_include f normpath e filename clean_lines linenum include is_system s found ≡ some r
      → IsKept header linenum (some include) s r.1
  unfolding check_include
  check_include-IsKept include is_system s (some n) r h =
      same-IsKept header linenum (some include) s r.1 (ap (λ p. p.1) (of_some h))
  check_include-IsKept include is_system s none r h =
      let (repository, named, last) = and_then-some (repository_name f filename) _ r h in
      check_new_include-IsKept include is_system repository s _ r last

  check_matched-IsKept :
      (s : IncludeState) (m : Option Matched) (r : List Report × IncludeState)
      → check_matched f normpath e filename clean_lines linenum s m ≡ some r
      → IsKept header linenum (included_of m) s r.1
  unfolding check_matched
  check_matched-IsKept s none r h =
      same-IsKept header linenum none s r.1 (ap (λ p. p.1) (of_some h))
  check_matched-IsKept s (some m) r h = check_include-IsKept _ _ s _ r h

  -- Behind CheckIncludeLine, FindHeader gives for every header the line that it gave before, except
  -- that for a header that was not found before and is the one that the checked line includes, it may give that
  -- line.
  pub check_include_line-IsKept :
      (s : IncludeState) (reports : List Report) (t : IncludeState)
      → check_include_line f normpath e filename clean_lines linenum s ≡ some (reports, t)
      → IsKept header linenum (included (get_or clean_lines.lines linenum [])) s t
  unfolding check_include_line included
  check_include_line-IsKept s reports t h =
      let (r, checked, last) =
        and_then-some (check_matched f normpath e filename clean_lines linenum s _) _ (reports, t)
          h in
      subst (IsKept header linenum (included (get_or clean_lines.lines linenum [])) s)
        (ap (λ p. p.1) (of_some last)) (check_matched-IsKept s _ r checked)
