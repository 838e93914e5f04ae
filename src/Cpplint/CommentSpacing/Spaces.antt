-- ===== src/Cpplint/CommentSpacing/Spaces.antt =====
-- The spaces before a comment behind code.
use mathlib.Core.Option
use adv_database_implementat.Base.{
  ℕ, zero, suc, ◌+◌, ◌-◌, ◌<◌, Bool, true, false, ◌||◌, not, none, some, List, [], ◌∷◌, ◌++◌, Text,
  codes, length, get_or, replicate, take-append, drop-append, append_assoc, length-append,
  length-replicate, ◌==◌, ltb, is_space, find, count, count_from, starts_with, char_mem, All-append,
  arith, ◌≡◌, refl, ap, ap₂, ◌∙◌, subst, Bool-cases, inl, inr,
}
use adv_database_implementat.Regex.{
  Re, Kont, set, chr, star, run, repeat, or_else, match_at_start, search_from, sub, lit, is_word,
  to_match, start, ◌⨾◌,
}
use adv_database_implementat.Regex.Laws.{
  AllIn, at, ltb-suc, run-star_fails_before, search_from-skip, search_from-end, sub_from-none,
}
use adv_database_implementat.Cpplint.FileChecks.{report_if}
use adv_database_implementat.Cpplint.CommentSpacing.{
  todo_rest, pattern_todo, escaped, opens_scope, no_space, two_spaces, is_close, check_todo,
  check_first_space, check_comment,
}

-- A character of code that is no slash, quote, backslash or opening brace.
abbrev pub is_simple : ℕ → Bool
is_simple x = not (x == b'/' || x == b'"' || x == b'\\' || x == b'{')

find-comment :
    (p rest : Text)
    → AllIn is_simple p
    → find (p ++ b'/' ∷ b'/' ∷ rest) (codes "//") ≡ some (length p)
unfolding find starts_with
find-comment [] rest h = refl
find-comment (c ∷ p) rest h =
    let e : (c == b'/') ≡ false = ground (arith, h.0) in rw (e, find-comment p rest h.1) refl

count-no_quote : (p : Text) → AllIn is_simple p → count_from 0 (codes "\"") p ≡ 0
unfolding count_from starts_with
count-no_quote [] h = refl
count-no_quote (c ∷ p) h =
    let e : (c == b'"') ≡ false = ground (arith, h.0) in rw (e, count-no_quote p h.1) refl

search-no_escape : (p b : Text) → AllIn is_simple p → search_from escaped b p ≡ none
unfolding run escaped
search-no_escape [] b h = search_from-end escaped b refl
search-no_escape (c ∷ p) b h =
    let e : (c == b'\\') ≡ false = ground (arith, h.0) in
    search_from-skip escaped c p b (rw e refl) ∙ search-no_escape p (c ∷ b) h.1

-- A repetition fails on a text of a class if the rest of the pattern fails on all such texts.
repeat-fails_on :
    (p q : ℕ → Bool) (fuel : ℕ) (s b : Text) (k : Kont)
    → AllIn q s
    → ((b' t : Text) → AllIn q t → k (at b' t []) ≡ none)
    → repeat fuel (λ d k'. run (set p) d k') (at b s []) k ≡ none
unfolding repeat run or_else
repeat-fails_on p q zero s b k h fails = fails b s h
repeat-fails_on p q (suc f) [] b k h fails = fails b [] tt
repeat-fails_on p q (suc f) (c ∷ s) b k h fails = elim (Bool-cases (p c)) [
  | inl holds ↦
      rw (holds, ltb-suc (length s), repeat-fails_on p q f s (c ∷ b) k h.1 fails)
        (fails b (c ∷ s) h)
  | inr other ↦ rw other (fails b (c ∷ s) h)
]

abbrev pub no_brace : ℕ → Bool
no_brace x = not (x == b'{')

brace-fails : (r : Re) (b t : Text) → AllIn no_brace t → run (chr b'{' ⨾ r) (at b t []) some ≡ none
unfolding run
brace-fails r b [] h = refl
brace-fails r b (c ∷ t) h = let e : (c == b'{') ≡ false = ground (arith, h.0) in rw e refl

opens_scope-fails : (line : Text) → AllIn no_brace line → match_at_start opens_scope line ≡ none
unfolding match_at_start run opens_scope
opens_scope-fails line h = ap (Option.map (to_match (start line))) (
    repeat-fails_on _ no_brace (length line) line [] _ h
      (λ b t clean. brace-fails (star (chr b' ') ⨾ lit "//") b t clean))

-- The comment begins with `// ` and then a character that is neither white space nor `T`.
abbrev pub BeginsText : ℕ → Type 0
BeginsText c = (is_space c ≡ false) × (c == b'T' ≡ false)

letter-fails :
    (r : Re) (b t text : Text) (c : ℕ) (g : List (ℕ × Text)) (k : Kont)
    → AllIn is_space t
    → BeginsText c
    → run (chr b'T' ⨾ r) (record { before = b; rest = t ++ c ∷ text; groups = g }) k ≡ none
unfolding run is_space
letter-fails r b [] text c g k h begins = rw begins.1 refl
letter-fails r b (x ∷ t) text c g k h begins =
    let e : (x == b'T') ≡ false = ground (arith, h.0) in rw e refl

todo-fails :
    (c : ℕ) (text : Text)
    → BeginsText c
    → match_at_start pattern_todo (codes "// " ++ c ∷ text) ≡ none
unfolding match_at_start run pattern_todo
todo-fails c text begins = ap (Option.map (to_match (start (codes "// " ++ c ∷ text)))) (
    run-star_fails_before is_space (codes " ") (codes "//") (c ∷ text) [] _
      (unfold is_space in (refl, tt)) begins.0
      (λ b t spaces. letter-fails todo_rest b t text c _ some spaces begins))

no_space-fails : (rest : Text) → match_at_start no_space (codes "// " ++ rest) ≡ none
unfolding match_at_start run no_space repeat or_else is_word char_mem
no_space-fails rest = refl

no_reports :
    (c linenum : ℕ) (text : Text)
    → BeginsText c
    → check_todo (match_at_start pattern_todo (codes "// " ++ c ∷ text)) linenum
        ++ check_first_space (codes "// " ++ c ∷ text) linenum
      ≡ []
unfolding check_todo check_first_space
no_reports c linenum text begins = rw (todo-fails c text begins, no_space-fails (c ∷ text)) refl

get_or-last :
    (code rest : Text) (last i : ℕ) → i ≡ length code → get_or (code ++ last ∷ rest) i 0 ≡ last
get_or-last [] rest last i e = rw e refl
get_or-last (x ∷ code) rest last zero e = absurd (omega arith)
get_or-last (x ∷ code) rest last (suc i) e = get_or-last code rest last i (omega arith)

get_or-spaces : (n i : ℕ) (rest : Text) → i < n → get_or (replicate n b' ' ++ rest) i 0 ≡ b' '
get_or-spaces zero i rest lt = absurd (omega arith)
get_or-spaces (suc n) zero rest lt = refl
get_or-spaces (suc n) (suc i) rest lt = get_or-spaces n i rest (omega arith)

get_or-behind :
    (code rest : Text) (last n i : ℕ)
    → length code < i
    → i < length code + suc n
    → get_or (code ++ last ∷ (replicate n b' ' ++ rest)) i 0 ≡ b' '
get_or-behind code rest last n zero lo hi = absurd (omega arith)
get_or-behind [] rest last n (suc i) lo hi = get_or-spaces n i rest (omega arith)
get_or-behind (x ∷ code) rest last n (suc i) lo hi =
    get_or-behind code rest last n i (omega arith) (omega arith)

is_close-fewer :
    (code rest : Text) (last n : ℕ)
    → is_space last ≡ false
    → is_close (code ++ last ∷ (replicate n b' ' ++ rest)) (length code + suc n) ≡ ltb n 2
unfolding is_close is_space
is_close-fewer code rest last zero h =
    rw (get_or-last code rest last (length code + 1 - 1) (omega arith)) (ground (arith, h))
is_close-fewer code rest last (suc zero) h =
    rw (get_or-last code (b' ' ∷ rest) last (length code + 2 - 2) (omega arith)) (ground (arith, h))
is_close-fewer code rest last (suc (suc m)) h =
    rw
      (
        get_or-behind code rest last (suc (suc m)) (length code + suc (suc (suc m)) - 1)
            (omega arith) (omega arith),
        get_or-behind code rest last (suc (suc m)) (length code + suc (suc (suc m)) - 2)
            (omega arith) (omega arith),
      )
      (ground arith)

check_comment-close :
    (p text : Text) (c linenum next_line_start : ℕ)
    → AllIn is_simple p
    → AllIn no_brace (p ++ (codes "// " ++ c ∷ text))
    → BeginsText c
    → check_comment (p ++ (codes "// " ++ c ∷ text)) linenum next_line_start
      ≡ report_if (is_close (p ++ (codes "// " ++ c ∷ text)) (length p)) (two_spaces linenum) []
unfolding check_comment count sub
check_comment-close p text c linenum next_line_start simple clean begins =
    let rest : Text = codes "// " ++ c ∷ text in
    rw
      (
        find-comment p (b' ' ∷ c ∷ text) simple,
        take-append p rest,
        drop-append p rest,
        sub_from-none (suc (length p)) escaped (λ m. []) [] p (search-no_escape p [] simple),
        count-no_quote p simple,
        opens_scope-fails (p ++ rest) clean,
        no_reports c linenum text begins,
      )
      refl

simple-space : is_simple b' ' ≡ true
simple-space = refl

AllIn-spaces : (q : ℕ → Bool) (n : ℕ) → q b' ' ≡ true → AllIn q (replicate n b' ')
AllIn-spaces q zero h = tt
AllIn-spaces q (suc n) h = (h, AllIn-spaces q n h)

simple-no_brace : (p : Text) → AllIn is_simple p → AllIn no_brace p
simple-no_brace [] h = tt
simple-no_brace (c ∷ p) h = (ground (arith, h.0), simple-no_brace p h.1)

-- Behind code without slash, quote, backslash and opening brace that ends with no white space, and `n`
-- spaces, stands a comment of `//`, a space and a text that begins with no white space or `T` and has no
-- opening brace: CheckComment complains exactly if `n` is less than 2, of the spaces.
pub check_comment-spaces :
    (code text : Text) (last n c linenum next_line_start : ℕ)
    → AllIn is_simple (code ++ last ∷ [])
    → is_space last ≡ false
    → BeginsText c
    → AllIn no_brace (c ∷ text)
    → check_comment
        (code ++ last ∷ (replicate n b' ' ++ (codes "// " ++ c ∷ text)))
        linenum
        next_line_start
      ≡ report_if (ltb n 2) (two_spaces linenum) []
check_comment-spaces code text last n c linenum next_line_start simple ends begins clean =
    let rest : Text = codes "// " ++ c ∷ text in
    let p : Text = (code ++ last ∷ []) ++ replicate n b' ' in
    let p-simple =
      All-append _ (code ++ last ∷ []) (replicate n b' ') simple (AllIn-spaces is_simple n refl) in
    let line : (p ++ rest) ≡ (code ++ last ∷ (replicate n b' ' ++ rest)) =
      append_assoc (code ++ last ∷ []) (replicate n b' ') rest
      ∙ append_assoc code (last ∷ []) (replicate n b' ' ++ rest) in
    let size : length p ≡ length code + suc n = omega (
      arith,
      length-append (code ++ last ∷ []) (replicate n b' '),
      length-append code (last ∷ []),
      length-replicate {A = ℕ} n b' ',
    ) in
    subst
      (λ s. check_comment s linenum next_line_start ≡ report_if (ltb n 2) (two_spaces linenum) [])
      line
      (check_comment-close p text c linenum next_line_start p-simple
          (All-append _ p rest (simple-no_brace p p-simple) (refl, (refl, (refl, clean)))) begins
        ∙ ap (λ b. report_if b (two_spaces linenum) [])
            (ap₂ is_close line size ∙ is_close-fewer code rest last n ends))
