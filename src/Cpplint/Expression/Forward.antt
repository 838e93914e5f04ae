-- ===== src/Cpplint/Expression/Forward.antt =====
-- Forward matching by CloseExpression, on one line and on several.
use adv_database_implementat.Base.{
  ℕ, suc, ◌+◌, Bool, true, false, ◌||◌, Option, none, some, List, [], ◌∷◌, ◌++◌, reverse,
  reverse_aux, add-zero, ap₂, Text, codes, length, ◌==◌, char_mem, arith, ◌≡◌, refl, ◌∙◌, ap, sym,
  append-nil, get_elem?-append, take-append, drop-append, drop-append_suc, Option-cases, inl, inr,
}
use adv_database_implementat.Cpplint.Expression.{
  Stack, goes, returns, end_round, find_end, drop_top, is_pair, find_end_of_expression_in_line,
  close_lines, close_at, close_expression, is_operator_lt,
}
use adv_database_implementat.Cpplint.Expression.Nest.{
  Nest, scan, scan-append, scan-Nest, scan-cons, read_char,
}

abbrev pub is_opening : ℕ → Bool
is_opening c = c == b'(' || c == b'[' || c == b'{'

-- One character of the automaton is one round of the loop.
end_round-read_char :
    (before : Text) (i c : ℕ) (stack st : Stack)
    → read_char c stack ≡ some st
    → end_round before i c stack ≡ goes st
unfolding end_round char_mem drop_top
end_round-read_char before i c [] st h = ground arith
end_round-read_char before i c (o ∷ []) st h = ground arith
end_round-read_char before i c (o ∷ x ∷ stack) st h = ground arith

-- The loop passes over text that the automaton reads, with its stack.
find_end-scan :
    (s before rest : Text) (i : ℕ) (stack st : Stack)
    → scan s stack ≡ some st
    → find_end before (s ++ rest) i stack ≡ find_end (reverse_aux s before) rest (i + length s) st
unfolding find_end scan
find_end-scan [] before rest i stack st h = rw add-zero (cc)
find_end-scan (c ∷ s) before rest i stack st h = elim (Option-cases (read_char c stack)) [
  | inl stuck ↦ absurd (ground (arith, rw stuck at h))
  | inr (mid, e) ↦ rw (end_round-read_char before i c stack mid e) (
      find_end-scan s (c ∷ before) rest (suc i) mid st (rw e at h)
      ∙ ap (λ j. find_end (reverse_aux s (c ∷ before)) rest j st) (omega arith))
]

end_round-opening :
    (before : Text) (i o c : ℕ) (stack : Stack)
    → is_pair o c ≡ true
    → end_round before i o stack ≡ goes (o ∷ stack)
unfolding end_round char_mem
end_round-opening before i o c stack h = ground arith

end_round-last :
    (before : Text) (i o c : ℕ)
    → is_pair o c ≡ true
    → end_round before i c (o ∷ []) ≡ returns (some (suc i))
unfolding end_round char_mem drop_top
end_round-last before i o c h = ground arith

-- The bracket that closes the only open one ends the search.
find_end-last :
    (s before rest : Text) (i o c : ℕ) (stack : Stack)
    → is_pair o c ≡ true
    → scan s stack ≡ some (o ∷ [])
    → find_end before (s ++ c ∷ rest) i stack ≡ (some (i + length s + 1), none)
find_end-last s before rest i o c stack p h =
    find_end-scan s before (c ∷ rest) i stack (o ∷ []) h
    ∙ (unfold find_end in
        rw (end_round-last (reverse_aux s before) (i + length s) o c p)
          (ap (λ j. (some j, none)) (omega arith)))

-- The scan of the line with the opening bracket goes into the text behind it.
find_from_opening :
    (pre s : Text) (o c : ℕ)
    → is_pair o c ≡ true
    → find_end_of_expression_in_line (pre ++ o ∷ s) (length pre) []
      ≡ find_end (o ∷ reverse pre) s (suc (length pre)) (o ∷ [])
unfolding find_end_of_expression_in_line
find_from_opening pre s o c p =
    rw (take-append pre (o ∷ s), drop-append pre (o ∷ s))
      (unfold find_end in rw (end_round-opening (reverse pre) (length pre) o c [] p))

opening_not_lt : (o c : ℕ) (s : Text) → is_pair o c ≡ true → is_operator_lt (o ∷ s) ≡ false
unfolding is_operator_lt
opening_not_lt o c [] p = refl
opening_not_lt o c (d ∷ s) p = ground arith

opening_accepted : (o c : ℕ) → is_pair o c ≡ true → char_mem o (codes "({[<") ≡ true
unfolding char_mem
opening_accepted o c p = ground arith

-- CloseExpression at an opening bracket starts the scan of its line.
close_expression-opening :
    (above below : List Text) (pre s : Text) (o c : ℕ)
    → is_pair o c ≡ true
    → close_expression (above ++ (pre ++ o ∷ s) ∷ below) (length above) (length pre)
      ≡ some (
          close_lines
            (length (above ++ (pre ++ o ∷ s) ∷ below))
            (pre ++ o ∷ s)
            below
            (length above)
            (find_end (o ∷ reverse pre) s (suc (length pre)) (o ∷ [])))
unfolding close_expression close_at
close_expression-opening above below pre s o c p = rw (
  get_elem?-append above below (pre ++ o ∷ s),
  drop-append_suc above below (pre ++ o ∷ s),
  get_elem?-append pre s o,
  drop-append pre (o ∷ s),
  opening_accepted o c p,
  opening_not_lt o c s p,
  find_from_opening pre s o c p,
)

-- On one line: if the text behind an opening bracket is well nested up to a closing one of the
-- same kind, CloseExpression gives that line and the position just past the closing bracket.
pub close_expression-Nest :
    (above below : List Text) (pre body post : Text) (o c : ℕ)
    → is_pair o c ≡ true
    → Nest body
    → close_expression
        (above ++ (pre ++ o ∷ (body ++ c ∷ post)) ∷ below)
        (length above)
        (length pre)
      ≡ some (record {
        line = pre ++ o ∷ (body ++ c ∷ post);
        linenum = length above;
        pos = some (length pre + length body + 2);
      })
close_expression-Nest above below pre body post o c p n =
    close_expression-opening above below pre (body ++ c ∷ post) o c p
    ∙ rw
        (find_end-last body (o ∷ reverse pre) post (suc (length pre)) o c (o ∷ []) p
          (scan-Nest o [] n))
        (unfold close_lines in
          ap
            (λ j. some (record {
              line = pre ++ o ∷ (body ++ c ∷ post);
              linenum = length above;
              pos = some j;
            }))
            (omega arith))

-- The lines between, run together.
unfoldable pub joined : List Text → Text → Text
joined [] last = last
joined (line ∷ lines) last = line ++ joined lines last

-- The loop of CloseExpression moves to the next line while brackets are open.
close_lines-next :
    (n : ℕ) (line next : Text) (rest : List Text) (linenum x : ℕ) (stack : Stack)
    {found : Option ℕ × Option Stack}
    → find_end [] next 0 (x ∷ stack) ≡ found
    → close_lines n line (next ∷ rest) linenum (none, some (x ∷ stack))
      ≡ close_lines n next rest (suc linenum) found
unfolding close_lines find_end_of_expression_in_line
close_lines-next n line next rest linenum x stack e = ap (close_lines n next rest (suc linenum)) e

-- A line whose brackets stay open is read to its end.
find_end-rest :
    (s before : Text) (i : ℕ) (stack st : Stack)
    → scan s stack ≡ some st
    → find_end before s i stack ≡ (none, some st)
find_end-rest s before i stack st e =
    ap (λ l. find_end before l i stack) (sym (append-nil s))
    ∙ find_end-scan s before [] i stack st e
    ∙ (unfold find_end in refl)

close_lines-find :
    (n : ℕ) (line : Text) (mid : List Text) (last post : Text) (below : List Text) (linenum o c : ℕ)
    (x : ℕ) (stack : Stack)
    → is_pair o c ≡ true
    → scan (joined mid last) (x ∷ stack) ≡ some (o ∷ [])
    → close_lines n line (mid ++ (last ++ c ∷ post) ∷ below) linenum (none, some (x ∷ stack))
      ≡ record {
        line = last ++ c ∷ post;
        linenum = linenum + length mid + 1;
        pos = some (length last + 1);
      }
unfolding joined
close_lines-find n line [] last post below linenum o c x stack p h =
    close_lines-next n line (last ++ c ∷ post) below linenum x stack
      (find_end-last last [] post 0 o c (x ∷ stack) p h)
    ∙ (unfold close_lines in
        ap₂ (λ j k. record { line = last ++ c ∷ post; linenum = j; pos = some k }) (omega arith)
          (omega arith))
close_lines-find n line (m ∷ mid) last post below linenum o c x stack p h =
    elim (Option-cases (scan m (x ∷ stack))) [
      | inl stuck ↦
          absurd (ground (arith, rw (scan-append m (joined mid last) (x ∷ stack), stuck) at h))
      | inr (st, e) ↦
          let (y, ys, shape) = scan-cons m x stack st e in
          close_lines-next n line m (mid ++ (last ++ c ∷ post) ∷ below) linenum x stack
            (find_end-rest m [] 0 (x ∷ stack) (y ∷ ys) (e ∙ ap some shape))
          ∙ (close_lines-find n m mid last post below (suc linenum) o c y ys p
                (rw (scan-append m (joined mid last) (x ∷ stack), e, shape) at h)
              ∙ ap
                  (λ j. record {
                    line = last ++ c ∷ post;
                    linenum = j;
                    pos = some (length last + 1);
                  })
                  (omega arith))
    ]

-- For the brackets `(`, `[` and `{`, and over several lines: if the text behind an opening
-- bracket, through the lines that follow, holds no `<`, `>` or `;` and is well nested in these
-- brackets up to a closing bracket of the same kind, CloseExpression gives the line of that one
-- and the position just past it.
pub close_expression-Nest_lines :
    (above mid below : List Text) (pre first last post : Text) (o c : ℕ)
    → is_pair o c ≡ true
    → Nest (first ++ joined mid last)
    → close_expression
        (above ++ (pre ++ o ∷ first) ∷ (mid ++ (last ++ c ∷ post) ∷ below))
        (length above)
        (length pre)
      ≡ some (record {
        line = last ++ c ∷ post;
        linenum = length above + length mid + 1;
        pos = some (length last + 1);
      })
close_expression-Nest_lines above mid below pre first last post o c p n =
    elim (Option-cases (scan first (o ∷ []))) [
      | inl stuck ↦ absurd (
          ground
            (arith, rw (scan-append first (joined mid last) (o ∷ []), stuck) at (scan-Nest o [] n)))
      | inr (st, e) ↦
          let (y, ys, shape) = scan-cons first o [] st e in
          close_expression-opening above (mid ++ (last ++ c ∷ post) ∷ below) pre first o c p
          ∙ rw (find_end-rest first (o ∷ reverse pre) (suc (length pre)) (o ∷ []) st e, shape)
              (ap some (
                close_lines-find _ (pre ++ o ∷ first) mid last post below (length above) o c y ys p
                  (rw (scan-append first (joined mid last) (o ∷ []), e, shape) at
                    (scan-Nest o [] n))))
    ]
