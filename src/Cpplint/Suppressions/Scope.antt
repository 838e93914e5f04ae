-- ===== src/Cpplint/Suppressions/Scope.antt =====
-- Which errors a NOLINT comment suppresses.
use adv_database_implementat.Base.{
  take, take-append, length-append, reverse, reverse-reverse, reverse-append, subst, sym, ap, ◌∙◌,
  =t=→≡, ≡→=t=, =t=_refl, if◌then◌else◌, is_some, ◌+◌, suc, [], ◌++◌, ℕ, Bool, true, false, ◌&&◌,
  ◌||◌, Option, none, some, Text, codes, ◌==◌, ◌=t=◌, option_eq_iff, starts_with, ends_with,
  text_mem, dict_get-put, option_eq, arith, ◌≡◌, refl, Bool-cases, ◌∷◌, dict_get, option_key,
  text_key, inl, inr,
}
use adv_database_implementat.Regex.{
  Re, word_boundary, lit, opt, group, plus, none_of, ◌⨾◌, Matched, search_text, group_of,
}
use adv_database_implementat.Cpplint.Categories.{error_categories}
use adv_database_implementat.Cpplint.Suppressions.{
  Suppressions, add_suppression, nolint_pattern, nolint_category, nolint_group, suppressed_line,
  nolint_matched, parse_nolint_suppressions, is_error_suppressed_by_nolint, inner, line_mem,
  lines_of,
}

-- Whether the text after NOLINT, in its parentheses, names the category: there is none, it is `(*)`,
-- or it is the name of a known category between parentheses.
abbrev pub names_category : Option Text → Text → Bool
names_category none category = true
names_category (some g) category =
    g =t= codes "(*)"
    || (g =t= codes "(" ++ category ++ codes ")" && text_mem category error_categories)

-- The line that a comment means: the next one if `NEXTLINE` follows, and else its own.
abbrev pub meant_line : Option Text → ℕ → ℕ
meant_line none linenum = linenum
meant_line (some nextline) linenum = suc linenum

-- The comments that are meant: `NOLINT` or `NOLINTNEXTLINE` as a word, and if there are any, the
-- parentheses behind it with what they hold.
abbrev pub nolint_comment : Re
nolint_comment =
    word_boundary
    ⨾ lit "NOLINT"
    ⨾ opt (group 1 (lit "NEXTLINE"))
    ⨾ word_boundary
    ⨾ opt (group 2 (lit "(" ⨾ plus (none_of ")") ⨾ lit ")"))

abbrev pub comment_covers : Option Matched → ℕ → Text → ℕ → Bool
comment_covers none linenum category at = false
comment_covers (some m) linenum category at =
    at == meant_line (group_of m 1) linenum && names_category (group_of m 2) category

lines_of-add :
    (s : Suppressions) (k j : Option Text) (n at : ℕ)
    → line_mem at (lines_of (dict_get (add_suppression k n s).error_suppressions j))
      ≡ ((option_eq k j && at == n) || line_mem at (lines_of (dict_get s.error_suppressions j)))
lines_of-add s k j n at =
    unfold add_suppression in
    rw (dict_get-put s.error_suppressions k j (n ∷ lines_of (dict_get s.error_suppressions k)))
      (elim (Bool-cases (option_eq k j)) [
        | inl same ↦ rw (same, (option_eq_iff k j).0 same) (unfold line_mem in refl)
        | inr other ↦ rw other
      ])

module _ (s : Suppressions) (n at : ℕ) (category : Text) where
  add_suppression-all :
      is_error_suppressed_by_nolint (add_suppression none n s) category at
      ≡ (is_error_suppressed_by_nolint s category at || at == n)
  unfolding is_error_suppressed_by_nolint
  add_suppression-all =
      rw (lines_of-add s none (some category) n at, lines_of-add s none none n at)
        (unfold add_suppression in ground arith)

  add_suppression-category :
      (c : Text)
      → is_error_suppressed_by_nolint (add_suppression (some c) n s) category at
        ≡ (is_error_suppressed_by_nolint s category at || (at == n && c =t= category))
  unfolding is_error_suppressed_by_nolint
  add_suppression-category c =
      rw (lines_of-add s (some c) (some category) n at, lines_of-add s (some c) none n at)
        (unfold add_suppression in ground arith)

reverse-wrapped : (u : Text) → reverse (u ++ b')' ∷ []) ≡ b')' ∷ reverse u
reverse-wrapped u = reverse-append u (b')' ∷ [])

-- A category between parentheses.
abbrev wrapped : Text → Text
wrapped category = codes "(" ++ category ++ codes ")"

inner-wrapped : (category : Text) → inner (wrapped category) ≡ category
unfolding inner
inner-wrapped category =
    ap (λ n. take n (category ++ codes ")")) (omega (arith, length-append category (codes ")")))
    ∙ take-append category (codes ")")

wrapped-ends : (category : Text) → ends_with (wrapped category) (codes ")") ≡ true
unfolding ends_with starts_with
wrapped-ends category = ap (λ t. starts_with t (codes ")")) (reverse-wrapped (b'(' ∷ category))

end-wrapped :
    (g r : Text)
    → reverse g ≡ r
    → starts_with r (codes ")") ≡ true
    → (u : Text) × (g ≡ u ++ codes ")")
unfolding starts_with
end-wrapped g [] e h = absurd (cc h)
end-wrapped g (c ∷ r) e h =
    let closing : c ≡ b')' = ground (arith, h) in
    (
      reverse r,
      sym (reverse-reverse g)
          ∙ ap reverse e
          ∙ reverse-append (c ∷ []) r
          ∙ ap (λ x. reverse r ++ x ∷ []) closing,
    )

open-wrapped :
    (g u : Text)
    → starts_with g (codes "(") ≡ true
    → g ≡ u ++ codes ")"
    → (category : Text) × (g ≡ wrapped category)
unfolding starts_with
open-wrapped g [] h e = absurd (cc (subst (λ t. starts_with t (codes "(") ≡ true) e h))
open-wrapped g (c ∷ u) h e =
    let starts = subst (λ t. starts_with t (codes "(") ≡ true) e h in
    let opening : c ≡ b'(' = ground (arith, starts) in
    (u, e ∙ ap (λ x. x ∷ (u ++ codes ")")) opening)

-- The test of the source, for a category in parentheses.
abbrev in_parentheses : Text → Text → Bool
in_parentheses g category =
    starts_with g (codes "(")
    && ends_with g (codes ")")
    && text_mem (inner g) error_categories
    && (inner g) =t= category

in_parentheses-wrapped :
    (g category : Text)
    → in_parentheses g category ≡ (g =t= wrapped category && text_mem category error_categories)
in_parentheses-wrapped g category = elim (Bool-cases (g =t= wrapped category)) [
  | inl same ↦
      let e = =t=→≡ g (wrapped category) same in
      ap (λ t. in_parentheses t category) e
      ∙ rw (wrapped-ends category, inner-wrapped category, =t=_refl category, same)
          (unfold starts_with in ground arith)
  | inr other ↦ elim (Bool-cases (in_parentheses g category)) [
    | inr fails ↦ rw (fails, other) refl
    | inl passes ↦
        let starts : starts_with g (codes "(") ≡ true = ground (arith, passes) in
        let ends : ends_with g (codes ")") ≡ true = ground (arith, passes) in
        let named : (inner g =t= category) ≡ true = ground (arith, passes) in
        let (u, ended) = end-wrapped g (reverse g) refl (unfold ends_with in ends) in
        let (name, e) = open-wrapped g u starts ended in
        let same : name ≡ category =
          sym (inner-wrapped name) ∙ ap inner (sym e) ∙ =t=→≡ (inner g) category named in
        absurd (cc (≡→=t= g (wrapped category) (e ∙ ap wrapped same), other))
  ]
]

nolint_group-exact :
    (g : Option Text) (line n : ℕ) (s : Suppressions) (category : Text) (at : ℕ)
    → is_error_suppressed_by_nolint (nolint_group g line n s).0 category at
      ≡ (is_error_suppressed_by_nolint s category at || (at == line && names_category g category))
unfolding nolint_group nolint_category
nolint_group-exact none line n s category at =
    ground (arith, add_suppression-all s line at category)
nolint_group-exact (some g) line n s category at = ground (
  arith,
  add_suppression-all s line at category,
  add_suppression-category s line at category (inner g),
  in_parentheses-wrapped g category,
)

suppressed_line-meant : (m : Matched) (n : ℕ) → suppressed_line m n ≡ meant_line (group_of m 1) n
unfolding suppressed_line
suppressed_line-meant m n = by_group (group_of m 1)
  where
    by_group :
        (nextline : Option Text) → (if is_some nextline then n + 1 else n) ≡ meant_line nextline n
    by_group none = refl
    by_group (some s) = omega arith

nolint_matched-exact :
    (m : Option Matched) (n : ℕ) (s : Suppressions) (category : Text) (at : ℕ)
    → is_error_suppressed_by_nolint (nolint_matched m n s).0 category at
      ≡ (is_error_suppressed_by_nolint s category at || comment_covers m n category at)
unfolding nolint_matched
nolint_matched-exact none n s category at = ground arith
nolint_matched-exact (some m) n s category at =
    nolint_group-exact (group_of m 2) (suppressed_line m n) n s category at
    ∙ ap
        (λ line.
          is_error_suppressed_by_nolint s category at
          || (at == line && names_category (group_of m 2) category))
        (suppressed_line-meant m n)

-- After a line is parsed, an error is suppressed exactly if it was before, or if the first match
-- of `\bNOLINT(NEXTLINE)?\b(\([^)]+\))?` in the line means the line of the error (the line that is
-- parsed, or with NEXTLINE the one after it) and has no parentheses, `(*)`, or in parentheses the
-- category of the error, which is one of the known categories.
pub parse_nolint-exact :
    (raw_line : Text) (linenum : ℕ) (s : Suppressions) (category : Text) (at : ℕ)
    → is_error_suppressed_by_nolint (parse_nolint_suppressions raw_line linenum s).0 category at ≡ (
        is_error_suppressed_by_nolint s category at
        || comment_covers (search_text nolint_comment raw_line) linenum category at)
unfolding parse_nolint_suppressions nolint_pattern
parse_nolint-exact raw_line linenum s category at =
    nolint_matched-exact (search_text nolint_comment raw_line) linenum s category at
