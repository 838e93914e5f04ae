-- ===== src/Cpplint/Expression/Nest.antt =====
-- Well-nested text, the reference that the bracket matching is compared with, and a plain
-- pushdown automaton that reads it.
use adv_database_implementat.Base.{
  ℕ, true, false, Option, none, some, [], ◌∷◌, ◌++◌, Text, codes, char_mem, if◌then◌else◌, ◌==◌,
  ◌||◌, ◌≡◌, refl, arith, Option-cases, inl, inr,
}
use adv_database_implementat.Cpplint.Expression.{is_pair, Stack}

-- Brackets of the three kinds in pairs, and between them no `<`, `>` or `;`.
pub data Nest : Text → Type 0 where
  done : Nest []
  plain : (c : ℕ) {s : Text} → char_mem c (codes "()[]{}<>;") ≡ false → Nest s → Nest (c ∷ s)
  wrap :
      (o c : ℕ) (s t : Text) {u : Text}
      → is_pair o c ≡ true
      → Nest s
      → Nest t
      → u ≡ s ++ c ∷ t
      → Nest (o ∷ u)

abbrev pub and_then : Option Stack → (Stack → Option Stack) → Option Stack
and_then none f = none
and_then (some st) f = f st

-- A closing bracket takes its opening one from the top, where another bracket is below it.
abbrev pub pop_pair : ℕ → Stack → Option Stack
pop_pair c [] = none
pop_pair c (o ∷ []) = none
pop_pair c (o ∷ x ∷ stack) = if is_pair o c then some (x ∷ stack) else none

abbrev pub read_char : ℕ → Stack → Option Stack
read_char c stack =
    if char_mem c (codes "()[]{}<>;")
    then (if c == b'(' || c == b'[' || c == b'{' then some (c ∷ stack) else pop_pair c stack)
    else some stack

-- Reads a text with the brackets open so far, which stay open.
unfoldable pub scan : Text → Stack → Option Stack
scan [] stack = some stack
scan (c ∷ s) stack = and_then (read_char c stack) (λ st. scan s st)

pub scan-append :
    (s t : Text) (stack : Stack) → scan (s ++ t) stack ≡ and_then (scan s stack) (λ st. scan t st)
unfolding scan
scan-append [] t stack = refl
scan-append (c ∷ s) t stack = elim (Option-cases (read_char c stack)) [
  | inl stuck ↦ rw stuck
  | inr (st, e) ↦ rw e (scan-append s t st)
]

read_char-opening :
    (o c : ℕ) (stack : Stack) → is_pair o c ≡ true → read_char o stack ≡ some (o ∷ stack)
unfolding char_mem
read_char-opening o c stack p = ground arith

read_char-closing :
    (o c x : ℕ) (stack : Stack)
    → is_pair o c ≡ true
    → read_char c (o ∷ x ∷ stack) ≡ some (x ∷ stack)
unfolding char_mem
read_char-closing o c x stack p = ground arith

-- Well-nested text leaves a stack that is not empty as it was.
pub scan-Nest : {s : Text} (x : ℕ) (stack : Stack) → Nest s → scan s (x ∷ stack) ≡ some (x ∷ stack)
unfolding scan
scan-Nest x stack done = refl
scan-Nest x stack (plain c p n) = rw p (scan-Nest x stack n)
scan-Nest x stack (wrap o c s t p n m e) =
    rw
      (
        read_char-opening o c (x ∷ stack) p,
        e,
        scan-append s (c ∷ t) (o ∷ x ∷ stack),
        scan-Nest o (x ∷ stack) n,
        read_char-closing o c x stack p,
      )
      (scan-Nest x stack m)

read_char-cons :
    (c x : ℕ) (stack st : Stack)
    → read_char c (x ∷ stack) ≡ some st
    → (y : ℕ) × (ys : Stack) × (st ≡ y ∷ ys)
read_char-cons c x [] [] h = absurd (ground arith)
read_char-cons c x (z ∷ stack) [] h = absurd (ground arith)
read_char-cons c x stack (y ∷ ys) h = (y, ys, refl)

-- A stack that is not empty stays so.
pub scan-cons :
    (s : Text) (x : ℕ) (stack st : Stack)
    → scan s (x ∷ stack) ≡ some st
    → (y : ℕ) × (ys : Stack) × (st ≡ y ∷ ys)
unfolding scan
scan-cons [] x stack st h = (x, stack, cc)
scan-cons (c ∷ s) x stack st h = elim (Option-cases (read_char c (x ∷ stack))) [
  | inl stuck ↦ absurd (ground (arith, rw stuck at h))
  | inr (mid, e) ↦
      let (y, ys, shape) = read_char-cons c x stack mid e in
      scan-cons s y ys st (rw (e, shape) at h)
]
