-- ===== src/Cpplint/Expression/Bounds.antt =====
-- The places that CloseExpression returns.
use adv_database_implementat.Base.{
  ℕ, zero, suc, ◌+◌, ◌≤◌, ◌<◌, ◌||◌, not, Option, none, some, List, [], ◌∷◌, reverse, Text, codes,
  length, take, drop, get_elem?, char_mem, arith, ◌≡◌, refl, ◌∙◌, ap, length-drop, Option-cases,
  inl, inr, ◌⊎◌, split_at, drop-suc, Bool-cases, subst, of_some,
}
use adv_database_implementat.Cpplint.Expression.{
  Stack, Round, goes, skips, returns, end_round, find_end, find_end_of_expression_in_line, Place,
  close_lines, close_at, close_expression, is_operator_lt,
}

end_round-position :
    (before : Text) (i c : ℕ) (stack : Stack) (q : ℕ)
    → end_round before i c stack ≡ returns (some q)
    → q ≡ suc i
unfolding end_round
end_round-position before i c stack q h = ground arith

Round-cases :
    (r : Round)
    → ((st : Stack) × (r ≡ goes st))
      ⊎ ((st : Stack) × (r ≡ skips st))
      ⊎ ((at : Option ℕ) × (r ≡ returns at))
Round-cases (goes st) = inl (st, refl)
Round-cases (skips st) = inr (inl (st, refl))
Round-cases (returns at) = inr (inr (at, refl))

find_end_bounds :
    (before rest : Text) (i : ℕ) (stack : Stack) (q : ℕ) (st : Option Stack)
    → find_end before rest i stack ≡ (some q, st)
    → (i < q) × (q ≤ i + length rest)
unfolding find_end
find_end_bounds before [] i stack q st h = absurd (ground arith)
find_end_bounds before (c ∷ rest) i stack q st h = elim (Round-cases (end_round before i c stack)) [
  | inl (next, e) ↦ omega (arith, find_end_bounds (c ∷ before) rest (suc i) next q st (rw e at h))
  | inr (inl (next, e)) ↦
      omega (arith, find_end_bounds (c ∷ before) rest (suc i) next q st (rw e at h))
  | inr (inr (at, e)) ↦
      let at_here : at ≡ some q = ap (λ r. r.0) (rw e at h) in
      omega (arith, end_round-position before i c stack q (e ∙ ap returns at_here))
]

-- A found position lies on the line, behind the start.
in_line_bounds :
    (line : Text) (p : ℕ) (stack : Stack) (q : ℕ) (st : Option Stack)
    → p ≤ length line
    → find_end_of_expression_in_line line p stack ≡ (some q, st)
    → (p < q) × (q ≤ length line)
unfolding find_end_of_expression_in_line
in_line_bounds line p stack q st fits h = omega (
  arith,
  find_end_bounds (reverse (take p line)) (drop p line) p stack q st h,
  length-drop p line,
)

positive :
    (line : Text) (q : ℕ) (stack : Stack) (st : Option Stack)
    → find_end_of_expression_in_line line 0 stack ≡ (some q, st)
    → (0 < q) × (q ≤ length line)
positive line q stack st h =
    let b = in_line_bounds line 0 stack q st (omega arith) h in (omega (arith, b.0), b.1)

-- What a result with a position satisfies, for a search from line `n` on.
abbrev Found : List Text → ℕ → ℕ → Place → Type 0
Found elided n q r =
    (get_elem? elided r.linenum ≡ some r.line) × (n ≤ r.linenum) × (0 < q) × (q ≤ length r.line)

get_elem?-drop :
    (xs : List Text) (n : ℕ) (x : Text) (rest : List Text)
    → drop n xs ≡ x ∷ rest
    → get_elem? xs n ≡ some x
get_elem?-drop [] zero x rest e = absurd (cc)
get_elem?-drop [] (suc n) x rest e = absurd (cc)
get_elem?-drop (y ∷ xs) zero x rest e = cc
get_elem?-drop (y ∷ xs) (suc n) x rest e = get_elem?-drop xs n x rest e

close_lines_bounds :
    (elided : List Text) (num n : ℕ) (line : Text) (rest : List Text)
    (found : Option ℕ × Option Stack) (q : ℕ)
    → drop n elided ≡ line ∷ rest
    → ((p : ℕ) → found.0 ≡ some p → (0 < p) × (p ≤ length line))
    → (close_lines num line rest n found).pos ≡ some q
    → Found elided n q (close_lines num line rest n found)
unfolding close_lines
close_lines_bounds elided num n line rest (some p, stack) q at fits e =
    (get_elem?-drop elided n line rest at, omega arith, (fits q e).0, (fits q e).1)
close_lines_bounds elided num n line rest (none, none) q at fits e = absurd (ground arith)
close_lines_bounds elided num n line rest (none, some []) q at fits e = absurd (ground arith)
close_lines_bounds elided num n line [] (none, some (c ∷ stack)) q at fits e = absurd (ground arith)
close_lines_bounds elided num n line (next ∷ rest) (none, some (c ∷ stack)) q at fits e =
    let found = find_end_of_expression_in_line next 0 (c ∷ stack) in
    let deeper =
      close_lines_bounds elided num (suc n) next rest found q
        (drop-suc n elided line (next ∷ rest) at)
        (λ p h. positive next p (c ∷ stack) found.1 (λ i. (h i, found.1))) e in
    (deeper.0, omega (arith, deeper.1), deeper.2, deeper.3)

get_elem?-le : (s : Text) (p c : ℕ) → get_elem? s p ≡ some c → p ≤ length s
get_elem?-le [] p c e = absurd (cc)
get_elem?-le (d ∷ s) zero c e = omega arith
get_elem?-le (d ∷ s) (suc p) c e = omega (arith, get_elem?-le s p c e)

close_at_bounds :
    (elided : List Text) (n pos : ℕ) (line : Text) (at : Option ℕ) (q : ℕ) (r : Place)
    → drop n elided ≡ line ∷ drop (suc n) elided
    → get_elem? line pos ≡ at
    → close_at (length elided) (drop (suc n) elided) n pos line at ≡ some r
    → r.pos ≡ some q
    → Found elided n q r
unfolding close_at
close_at_bounds elided n pos line none q r at here h e = absurd (ground arith)
close_at_bounds elided n pos line (some c) q r at here h e =
    elim (Bool-cases (not (char_mem c (codes "({[<")) || is_operator_lt (drop pos line))) [
      | inl refused ↦ absurd (ground (arith, rw refused at h))
      | inr open_bracket ↦
          let found = find_end_of_expression_in_line line pos [] in
          let same = of_some (rw open_bracket at h) in
          subst (Found elided n q) same (
            close_lines_bounds elided (length elided) n line (drop (suc n) elided) found q at
              (λ p h'.
                let b =
                  in_line_bounds line pos [] p found.1 (get_elem?-le line pos c here)
                    (λ i. (h' i, found.1)) in
                (omega (arith, b.0), b.1))
              (ap (λ x. x.pos) same ∙ e))
    ]

-- A position that CloseExpression returns is past the first character of the line that it
-- returns and not behind its end, and that line is the one of the returned number, which is not
-- above the line where the search began.
pub close_expression_bounds :
    (elided : List Text) (linenum pos q : ℕ) (r : Place)
    → close_expression elided linenum pos ≡ some r
    → r.pos ≡ some q
    → (get_elem? elided r.linenum ≡ some r.line)
      × (linenum ≤ r.linenum)
      × (0 < q)
      × (q ≤ length r.line)
close_expression_bounds elided linenum pos q r h e =
    elim (Option-cases (get_elem? elided linenum)) [
      | inl missing ↦ absurd (unfold close_expression in ground (arith, missing))
      | inr (line, found) ↦
          close_at_bounds elided linenum pos line (get_elem? line pos) q r
            (split_at elided linenum line found) refl (unfold close_expression in rw found at h) e
    ]
