-- ===== src/Cpplint/HeaderGuard/Endif.antt =====
-- The comment behind #endif.
use adv_database_implementat.Base.{
  ℕ, some, List, [], ◌∷◌, ◌++◌, Text, codes, ==_refl, is_space, ◌≡◌, refl, reverse_aux,
}
use adv_database_implementat.Regex.{
  Kont, Cursor, star, chr, chars, lit, space, opt, group, word_boundary, is_word, run,
  match_at_start, group_of, or_empty, or_else, start, to_match, Matched, ◌⨾◌, seq,
}
use adv_database_implementat.Regex.Laws.{AllIn, at, run-star}
use adv_database_implementat.Cpplint.HeaderGuard.{endif_pattern}
use adv_database_implementat.Cpplint.HeaderGuard.Scan.{word-not_space}

-- The characters of a text match themselves.
run-chars_all :
    (p b : Text) (g : List (ℕ × Text)) (k : Kont) {r : Cursor}
    → k (at (reverse_aux p b) [] g) ≡ some r
    → run (chars p) (at b p g) k ≡ some r
unfolding run
run-chars_all [] b g k h = h
run-chars_all (c ∷ []) b g k h = rw (==_refl c) h
run-chars_all (c ∷ d ∷ p) b g k h = rw (==_refl c) (run-chars_all (d ∷ p) (c ∷ b) g k h)

-- The word ends at the end of the text.
word-ends :
    (c : ℕ) (v b : Text)
    → AllIn is_word (c ∷ v)
    → run (seq (opt (group 1 (chr b'_'))) word_boundary) (at (reverse_aux (c ∷ v) b) [] []) some
      ≡ some (at (reverse_aux (c ∷ v) b) [] [])
unfolding run or_else
word-ends c [] b h = rw h.0 refl
word-ends c (d ∷ v) b h = word-ends d v (c ∷ b) h.1

run-endif :
    (c : ℕ) (v : Text)
    → AllIn is_word (c ∷ v)
    → (b : Text) × (run (endif_pattern (c ∷ v)) (start (codes "#endif  // " ++ c ∷ v)) some
        ≡ some (at b [] []))
unfolding endif_pattern run is_space
run-endif c v h = (
  reverse_aux (c ∷ v) (codes " //  fidne#"),
  run-star is_space (codes "  ") (codes "fidne#") (codes "// " ++ c ∷ v) []
      (λ d.
        run (lit "//" ⨾ star space ⨾ chars (c ∷ v) ⨾ opt (group 1 (chr b'_')) ⨾ word_boundary) d
          some)
      (refl, (refl, tt)) refl
      (run-star is_space (codes " ") (codes "//  fidne#") (c ∷ v) []
        (λ d. run (chars (c ∷ v) ⨾ opt (group 1 (chr b'_')) ⨾ word_boundary) d some) (refl, tt)
        (word-not_space c h.0)
        (run-chars_all (c ∷ v) (codes " //  fidne#") []
          (λ d. run (opt (group 1 (chr b'_')) ⨾ word_boundary) d some)
          (word-ends c v (codes " //  fidne#") h))),
)

pub match-endif :
    (c : ℕ) (v : Text)
    → AllIn is_word (c ∷ v)
    → (m : Matched) × (match_at_start (endif_pattern (c ∷ v)) (codes "#endif  // " ++ c ∷ v)
        ≡ some m)
      × (or_empty (group_of m 1) ≡ [])
unfolding match_at_start group_of
match-endif c v h =
    let line = codes "#endif  // " ++ c ∷ v in
    let (b, e) = run-endif c v h in (to_match (start line) (at b [] []), rw e refl, refl)
