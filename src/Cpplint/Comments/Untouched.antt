-- ===== src/Cpplint/Comments/Untouched.antt =====
-- The lines that RemoveMultiLineComments does not touch.
use adv_database_implementat.Base.{
  ℕ, zero, suc, ◌+◌, ◌≤◌, ◌<◌, true, false, Option, some, none, List, [], ◌∷◌, Text, length, drop,
  ltb, leb, Bool, Bool-cases, inl, inr, arith, ◌≡◌, refl, ◌∙◌, ap, sym, get_elem?, length-drop,
  of_some, codes, if◌then◌else◌,
}
use mathlib.Core.Option
use adv_database_implementat.Cpplint.Report.{Report}
use adv_database_implementat.Cpplint.Comments.{
  closes_comment, find_line, find_next_multi_line_comment_start, find_next_multi_line_comment_end,
  remove_multi_line_comments_from_range, remove_from, remove_multi_line_comments,
}
use adv_database_implementat.Cpplint.Comments.MultiLine.{
  get_elem?-clear_from, get_elem?-drop, in_range, length-range,
}

find_line-passes :
    (test : Text → Bool) (lines : List Text) (k : ℕ)
    → find_line test lines k < k + length lines
    → (i : ℕ) × (line : Text) × (find_line test lines k ≡ k + i)
      × (get_elem? lines i ≡ some line)
      × (test line ≡ true)
unfolding find_line
find_line-passes test [] k h = absurd (omega (arith, h))
find_line-passes test (l ∷ lines) k h = elim (Bool-cases (test l)) [
  | inl passes ↦ rw passes (zero, l, omega arith, refl, passes)
  | inr fails ↦
      let (i, line, e, there, passes) =
        find_line-passes test lines (suc k) (omega (arith, rw fails at h)) in
      rw fails (suc i, line, omega (arith, e), there, passes)
]

-- No line from index `n` on closes a comment.
abbrev pub NoneClose : List Text → ℕ → Type 0
NoneClose lines n =
    (i : ℕ) (line : Text) → n ≤ i → get_elem? lines i ≡ some line → closes_comment line ≡ false

end-before :
    (lines : List Text) (ix n : ℕ)
    → ix ≤ length lines
    → NoneClose lines n
    → find_next_multi_line_comment_end lines ix < length lines
    → find_next_multi_line_comment_end lines ix < n
unfolding find_next_multi_line_comment_end
end-before lines ix n le none_close within =
    let len = length-drop ix lines in
    let (i, line, e, there, closes) =
      find_line-passes closes_comment (drop ix lines) ix (omega (arith, len, within, le)) in
    elim (Bool-cases (ltb (ix + i) n)) [
      | inl before ↦ ground (arith, e, before)
      | inr behind ↦
          let open_line =
            none_close (ix + i) line (ground (arith, behind))
              (sym (get_elem?-drop ix i lines) ∙ there) in
          absurd (cc (closes, open_line))
    ]

-- A range that ends before `n` does not reach the lines from `n` on.
range-untouched :
    (lines : List Text) (begin end n j : ℕ)
    → end ≤ n
    → n ≤ j
    → get_elem? (remove_multi_line_comments_from_range lines begin end) j ≡ get_elem? lines j
unfolding remove_multi_line_comments_from_range
range-untouched lines begin end n j le from =
    get_elem?-clear_from 0 begin end lines j ∙ outside (get_elem? lines j)
  where
    outside :
        (o : Option Text)
        → Option.map (λ line. if in_range begin end (0 + j) then codes "/**/" else line) o ≡ o
    outside none = refl
    outside (some line) = unfold in_range in ap some (ground arith)

remove_from-untouched :
    (fuel : ℕ) (lines : List Text) (ix n : ℕ) (out : List Text) (reports : List Report)
    → ix ≤ length lines
    → NoneClose lines n
    → remove_from fuel lines ix ≡ some (out, reports)
    → (j : ℕ) → n ≤ j
    → get_elem? out j ≡ get_elem? lines j
unfolding remove_from
remove_from-untouched zero lines ix n out reports le none_close e j from = absurd (cc e)
remove_from-untouched (suc fuel) lines ix n out reports le none_close e j from =
    let begin = find_next_multi_line_comment_start lines ix in
    let end = find_next_multi_line_comment_end lines begin in
    elim (Bool-cases (ltb ix (length lines))) [
      | inr past ↦ kept_lines [] (rw past at e)
      | inl more ↦ elim (Bool-cases (leb (length lines) begin)) [
        | inl none_left ↦ kept_lines [] (rw (more, none_left) at e)
        | inr found ↦ elim (Bool-cases (leb (length lines) end)) [
          | inl no_close ↦ kept_lines _ (rw (more, found, no_close) at e)
          | inr closed ↦
              let next = remove_multi_line_comments_from_range lines begin (end + 1) in
              let same = length-range lines begin (end + 1) in
              let reaches =
                end-before lines begin n (ground (arith, found)) none_close
                  (ground (arith, closed)) in
              let untouched = λ (i : ℕ) (behind : n ≤ i).
                range-untouched lines begin (end + 1) n i (omega (arith, reaches)) behind in
              remove_from-untouched fuel next (end + 1) n out reports (ground (arith, same, closed))
                (λ i line behind at. none_close i line behind (sym (untouched i behind) ∙ at))
                (rw (more, found, closed) at e) j from
              ∙ untouched j from
        ]
      ]
    ]
  where
    kept_lines :
        (rs : List Report)
        → ◌≡◌ {A = Option (List Text × List Report)} (some (lines, rs)) (some (out, reports))
        → get_elem? out j ≡ get_elem? lines j
    kept_lines rs same = ap (λ (r : List Text × List Report). get_elem? r.0 j) (sym (of_some same))

-- The lines from one on behind which no line closes a comment are left as they are.
pub remove_multi_line_comments-untouched :
    (lines : List Text) (n : ℕ) (out : List Text) (reports : List Report)
    → NoneClose lines n
    → remove_multi_line_comments lines ≡ some (out, reports)
    → (j : ℕ) → n ≤ j
    → get_elem? out j ≡ get_elem? lines j
unfolding remove_multi_line_comments
remove_multi_line_comments-untouched lines n out reports none_close e =
    remove_from-untouched (suc (length lines)) lines 0 n out reports (omega arith) none_close e
