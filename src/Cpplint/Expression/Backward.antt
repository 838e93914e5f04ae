-- ===== src/Cpplint/Expression/Backward.antt =====
-- Backward matching by ReverseCloseExpression, on one line.
use adv_database_implementat.Base.{
  ℕ, suc, ◌+◌, ◌-◌, true, false, Option, none, some, List, [], ◌∷◌, ◌++◌, reverse, reverse_aux,
  reverse_aux-append, Text, codes, length, char_mem, arith, ◌≡◌, refl, ◌∙◌, ap, ap₂, sym,
  append_assoc, length-append, length-reverse, reverse-append, get_elem?-append, take-append,
  drop-append,
}
use adv_database_implementat.Cpplint.Expression.{
  Stack, goes, start_round, find_start, drop_top, is_pair, popped, find_start_of_expression_in_line,
  reverse_close_lines, reverse_close_at, reverse_close_expression,
}
use adv_database_implementat.Cpplint.Expression.Nest.{Nest, done, plain, wrap}

start_round-plain :
    (before : Text) (i c : ℕ) (after : Text) (stack : Stack)
    → char_mem c (codes "()[]{}<>;") ≡ false
    → start_round before i c after stack ≡ goes stack
unfolding start_round char_mem
start_round-plain before i c after stack h = ground arith

start_round-closing :
    (before : Text) (i o c : ℕ) (after : Text) (stack : Stack)
    → is_pair o c ≡ true
    → start_round before i c after stack ≡ goes (c ∷ stack)
unfolding start_round char_mem
start_round-closing before i o c after stack h = ground arith

start_round-opening :
    (before : Text) (i o c : ℕ) (after : Text) (stack : Stack)
    → is_pair o c ≡ true
    → start_round before i o after (c ∷ stack) ≡ popped (some i) stack
unfolding start_round char_mem drop_top
start_round-opening before i o c after stack h = ground arith

-- The loop at the last index of a text that is given backwards.
abbrev from_last : Text → Text → Stack → Option ℕ × Option Stack
from_last before after stack = find_start before (length before - 1) after false stack

at_last : (n : ℕ) → suc n - 1 ≡ n
at_last n = omega arith

-- One round that goes on.
from_last-goes :
    (before : Text) (c : ℕ) (after : Text) (stack st : Stack)
    → start_round before (length before) c after stack ≡ goes st
    → from_last (c ∷ before) after stack ≡ from_last before (c ∷ after) st
unfolding find_start
from_last-goes before c after stack st e = rw (at_last (length before), e) refl

-- Well-nested text, read backwards, leaves a stack that is not empty as it was.
from_last-Nest :
    {s : Text} (before after : Text) (x : ℕ) (stack : Stack)
    → Nest s
    → from_last (reverse_aux s before) after (x ∷ stack) ≡ from_last before (s ++ after) (x ∷ stack)
from_last-Nest before after x stack done = refl
from_last-Nest before after x stack (plain c {s} p n) =
    from_last-Nest (c ∷ before) after x stack n
    ∙ from_last-goes before c (s ++ after) (x ∷ stack) (x ∷ stack)
        (start_round-plain before (length before) c (s ++ after) (x ∷ stack) p)
from_last-Nest before after x stack (wrap o c s t {u} p n m e) =
    let inner = reverse_aux s (o ∷ before) in
    ap (λ b. from_last b after (x ∷ stack))
      (ap (λ v. reverse_aux v (o ∷ before)) e ∙ reverse_aux-append s (c ∷ t) (o ∷ before))
    ∙ from_last-Nest (c ∷ inner) after x stack m
    ∙ from_last-goes inner c (t ++ after) (x ∷ stack) (c ∷ x ∷ stack)
        (start_round-closing inner (length inner) o c (t ++ after) (x ∷ stack) p)
    ∙ from_last-Nest (o ∷ before) (c ∷ (t ++ after)) c (x ∷ stack) n
    ∙ from_last-goes before o (s ++ c ∷ (t ++ after)) (c ∷ x ∷ stack) (x ∷ stack)
        (start_round-opening before (length before) o c (s ++ c ∷ (t ++ after)) (x ∷ stack) p)
    ∙ ap (λ v. from_last before (o ∷ v) (x ∷ stack))
        (sym (append_assoc s (c ∷ t) after) ∙ ap (λ v. v ++ after) (sym e))

last_round :
    (b a : Text) (o c : ℕ)
    → is_pair o c ≡ true
    → from_last (o ∷ b) a (c ∷ []) ≡ (some (length b), none)
unfolding find_start
last_round b a o c p = rw (at_last (length b), start_round-opening b (length b) o c a [] p) refl

-- The bracket that opens the only open one ends the search.
from_last-pair :
    (before body after : Text) (o c : ℕ)
    → is_pair o c ≡ true
    → Nest body
    → from_last (c ∷ reverse_aux body (o ∷ before)) after [] ≡ (some (length before), none)
from_last-pair before body after o c p n =
    let inner = reverse_aux body (o ∷ before) in
    from_last-goes inner c after [] (c ∷ [])
      (start_round-closing inner (length inner) o c after [] p)
    ∙ from_last-Nest (o ∷ before) (c ∷ after) c [] n
    ∙ last_round before (body ++ c ∷ after) o c p

closing_accepted : (o c : ℕ) → is_pair o c ≡ true → char_mem c (codes ")}]>") ≡ true
unfolding char_mem
closing_accepted o c p = ground arith

in_line-from_last :
    (s after : Text) (stack : Stack)
    → find_start_of_expression_in_line (s ++ after) (length s) stack
      ≡ from_last (reverse s) after stack
unfolding find_start_of_expression_in_line
in_line-from_last s after stack = rw (take-append s after, drop-append s after, length-reverse s)

reverse-around :
    (pre body : Text) (o c : ℕ)
    → reverse ((pre ++ o ∷ body) ++ c ∷ []) ≡ c ∷ reverse_aux body (o ∷ reverse pre)
reverse-around pre body o c =
    reverse-append (pre ++ o ∷ body) (c ∷ []) ∙ ap (◌∷◌ c) (reverse_aux-append pre (o ∷ body) [])

-- ReverseCloseExpression at a closing bracket starts the scan of its line.
reverse_close-at_closing :
    (above below : List Text) (before after : Text) (c : ℕ)
    → char_mem c (codes ")}]>") ≡ true
    → reverse_close_expression
        (above ++ (before ++ c ∷ after) ∷ below)
        (length above)
        (length before)
      ≡ some (
          reverse_close_lines
            (before ++ c ∷ after)
            (reverse above)
            (length above)
            (from_last (reverse (before ++ c ∷ [])) after []))
unfolding reverse_close_expression reverse_close_at
reverse_close-at_closing above below before after c e =
    rw
      (
        get_elem?-append above below (before ++ c ∷ after),
        get_elem?-append before after c,
        e,
        take-append above ((before ++ c ∷ after) ∷ below),
      )
      (ap (λ f. some (reverse_close_lines (before ++ c ∷ after) (reverse above) (length above) f))
        (ap₂ (λ l j. find_start_of_expression_in_line l j [])
            (sym (append_assoc before (c ∷ []) after))
            (sym (length-append before (c ∷ []) ∙ omega arith))
          ∙ in_line-from_last (before ++ c ∷ []) after []))

-- For the brackets `)`, `]` and `}`: if the text before a closing bracket holds no `<`, `>` or `;`
-- and is well nested in these brackets back to an opening bracket of the same kind on its line,
-- ReverseCloseExpression gives that line and the position of the opening bracket.
pub reverse_close_expression-Nest :
    (above below : List Text) (pre body post : Text) (o c : ℕ)
    → is_pair o c ≡ true
    → Nest body
    → reverse_close_expression
        (above ++ (pre ++ o ∷ (body ++ c ∷ post)) ∷ below)
        (length above)
        (length pre + length body + 1)
      ≡ some (record {
        line = pre ++ o ∷ (body ++ c ∷ post);
        linenum = length above;
        pos = some (length pre);
      })
reverse_close_expression-Nest above below pre body post o c p n =
    let before = pre ++ o ∷ body in
    ap₂ (λ l j. reverse_close_expression (above ++ l ∷ below) (length above) j)
      (sym (append_assoc pre (o ∷ body) (c ∷ post)))
      (sym (length-append pre (o ∷ body) ∙ omega arith))
    ∙ reverse_close-at_closing above below before post c (closing_accepted o c p)
    ∙ rw (reverse-around pre body o c, from_last-pair (reverse pre) body post o c p n)
        (unfold reverse_close_lines in
          ap₂ (λ l j. some (record { line = l; linenum = length above; pos = some j }))
            (append_assoc pre (o ∷ body) (c ∷ post)) (length-reverse pre))
