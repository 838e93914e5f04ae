-- ===== src/Cpplint/Comments/MultiLine.antt =====
-- The run of RemoveMultiLineComments, and the lines that it leaves.
use adv_database_implementat.Base.{
  true, is_some, ℕ, zero, suc, ◌+◌, ◌-◌, ◌≤◌, ◌<◌, Bool, false, ◌&&◌, some, List, [], ◌∷◌, ◌++◌,
  Text, codes, length, drop, ltb, leb, if◌then◌else◌, Bool-cases, inl, inr, ◌⊎◌, arith, ◌≡◌, refl,
  ◌∙◌, ap, sym, length-drop, add-zero, get_elem?, subst, of_some, strip, rstrip, lstrip, is_space,
  starts_with, find, Option-cases,
}
use mathlib.Core.Option
use native.Mathlib.Decide.{dec_lt}
use adv_database_implementat.Cpplint.Report.{Report}
use adv_database_implementat.Cpplint.Comments.{
  opens_comment, closes_comment, find_line, find_next_multi_line_comment_start,
  find_next_multi_line_comment_end, clear_from, remove_multi_line_comments_from_range, remove_from,
  remove_multi_line_comments,
}

find_line_bounds :
    (test : Text → Bool) (lines : List Text) (i : ℕ)
    → (i ≤ find_line test lines i) × (find_line test lines i ≤ i + length lines)
unfolding find_line
find_line_bounds test [] i = omega arith
find_line_bounds test (line ∷ lines) i = ground (arith, find_line_bounds test lines (suc i))

-- The lines before the one that is found do not pass the test.
find_line-before :
    (test : Text → Bool) (lines : List Text) (k i : ℕ) (line : Text)
    → get_elem? lines i ≡ some line
    → k + i < find_line test lines k
    → test line ≡ false
unfolding find_line
find_line-before test [] k i line e h = absurd (cc)
find_line-before test (l ∷ lines) k zero line e h = elim (Bool-cases (test l)) [
  | inl passes ↦ absurd (omega (arith, rw passes at h))
  | inr fails ↦ subst (λ x. test x ≡ false) (of_some e) fails
]
find_line-before test (l ∷ lines) k (suc i) line e h = elim (Bool-cases (test l)) [
  | inl passes ↦ absurd (omega (arith, rw passes at h))
  | inr fails ↦ find_line-before test lines (suc k) i line e (omega (arith, rw fails at h))
]

length-clear_from :
    (i begin end : ℕ) (lines : List Text) → length (clear_from i begin end lines) ≡ length lines
unfolding clear_from
length-clear_from i begin end [] = refl
length-clear_from i begin end (line ∷ lines) = ap suc (length-clear_from (suc i) begin end lines)

unfoldable pub in_range : ℕ → ℕ → ℕ → Bool
in_range begin end i = leb begin i && ltb i end

pub get_elem?-clear_from :
    (k begin end : ℕ) (lines : List Text) (i : ℕ)
    → get_elem? (clear_from k begin end lines) i
      ≡ Option.map
          (λ line. if in_range begin end (k + i) then codes "/**/" else line)
          (get_elem? lines i)
unfolding clear_from in_range
get_elem?-clear_from k begin end [] i = refl
get_elem?-clear_from k begin end (l ∷ lines) zero = rw add-zero
get_elem?-clear_from k begin end (l ∷ lines) (suc i) =
    get_elem?-clear_from (suc k) begin end lines i
    ∙ ap
        (λ j.
          Option.map (λ line. if in_range begin end j then codes "/**/" else line)
            (get_elem? lines i))
        (omega arith)

pub get_elem?-drop : (n i : ℕ) (xs : List Text) → get_elem? (drop n xs) i ≡ get_elem? xs (n + i)
get_elem?-drop zero i xs = let e : i ≡ 0 + i = omega arith in ap (get_elem? xs) e
get_elem?-drop (suc n) i [] = refl
get_elem?-drop (suc n) i (x ∷ xs) =
    let e : suc (n + i) ≡ suc n + i = omega arith in
    get_elem?-drop n i xs ∙ ap (get_elem? (x ∷ xs)) e

-- No line before index `n` opens a comment.
abbrev NoneOpen : List Text → ℕ → Type 0
NoneOpen lines n =
    (i : ℕ) (line : Text) → i < n → get_elem? lines i ≡ some line → opens_comment line ≡ false

-- What the lines and the reports that come out are, for the lines that went in.
pub record IsCleaned (lines : List Text) (out : List Text) (reports : List Report) : Type 0 where
  pub same_length : length out ≡ length lines
  pub cleared :
      (i : ℕ) → (get_elem? out i ≡ get_elem? lines i) ⊎ (get_elem? out i ≡ some (codes "/**/"))
  pub none_opens :
      reports ≡ []
      → (i : ℕ) (line rest : Text) → get_elem? out i ≡ some line
      → strip line ≡ codes "/*" ++ rest
      → is_some (find rest (codes "*/")) ≡ true

pub get_elem?-lt : (xs : List Text) (i : ℕ) (x : Text) → get_elem? xs i ≡ some x → i < length xs
get_elem?-lt [] i x e = absurd (cc)
get_elem?-lt (y ∷ xs) zero x e = omega arith
get_elem?-lt (y ∷ xs) (suc i) x e = omega (arith, get_elem?-lt xs i x e)

-- The lines up to the next comment that opens do not open one.
NoneOpen-start :
    (lines : List Text) (ix : ℕ)
    → NoneOpen lines ix
    → NoneOpen lines (find_next_multi_line_comment_start lines ix)
unfolding find_next_multi_line_comment_start
NoneOpen-start lines ix h i line lt e = elim (dec_lt i ix) [
  | yes before ↦ h i line before e
  | no behind ↦
      find_line-before opens_comment (drop ix lines) ix (i - ix) line
        (get_elem?-drop ix (i - ix) lines ∙ ap (get_elem? lines) (omega arith) ∙ e) (omega arith)
]

closed_behind :
    (line rest : Text)
    → strip line ≡ codes "/*" ++ rest
    → opens_comment line ≡ false
    → is_some (find rest (codes "*/")) ≡ true
unfolding opens_comment starts_with
closed_behind line rest begins h = let closes = rw begins at h in ground (arith, closes)

-- Nothing changed.
unchanged :
    (lines : List Text) (reports : List Report)
    → (reports ≡ [] → NoneOpen lines (length lines))
    → IsCleaned lines lines reports
unchanged lines reports h = record {
  same_length = refl;
  cleared = λ i. inl refl;
  none_opens = λ e i line rest at begins.
      closed_behind line rest begins (h e i line (get_elem?-lt lines i line at) at);
}

placeholder_closed : opens_comment (codes "/**/") ≡ false
unfolding opens_comment strip rstrip lstrip is_space starts_with find
placeholder_closed = refl

-- A range cleared from the first line that opens a comment on leaves none before its end.
NoneOpen-clear :
    (lines : List Text) (begin end : ℕ)
    → NoneOpen lines begin
    → NoneOpen (remove_multi_line_comments_from_range lines begin end) end
unfolding remove_multi_line_comments_from_range
NoneOpen-clear lines begin end h i line lt e = elim (Option-cases (get_elem? lines i)) [
  | inl missing ↦ absurd (ground (arith, get_elem?-clear_from 0 begin end lines i, missing))
  | inr (l, there) ↦ elim (Bool-cases (in_range begin end (0 + i))) [
    | inl inside ↦
        subst (λ x. opens_comment x ≡ false)
          (of_some (sym (rw (there, inside) at (get_elem?-clear_from 0 begin end lines i)) ∙ e))
          placeholder_closed
    | inr outside ↦
        subst (λ x. opens_comment x ≡ false)
          (of_some (sym (rw (there, outside) at (get_elem?-clear_from 0 begin end lines i)) ∙ e))
          (h i l (unfold in_range in ground arith) there)
  ]
]

-- Clearing a range before the rest of the work.
IsCleaned-clear :
    (lines : List Text) (begin end : ℕ) (out : List Text) (reports : List Report)
    → IsCleaned (remove_multi_line_comments_from_range lines begin end) out reports
    → IsCleaned lines out reports
unfolding remove_multi_line_comments_from_range
IsCleaned-clear lines begin end out reports h = record {
  same_length = h.same_length ∙ length-clear_from 0 begin end lines;
  cleared =
      λ i. elim (h.cleared i) [ inr placeholder ↦ inr placeholder | inl same ↦ cleared_at i same ];
  none_opens = h.none_opens;
}
  where
    cleared_at :
        (i : ℕ)
        → get_elem? out i ≡ get_elem? (clear_from 0 begin end lines) i
        → (get_elem? out i ≡ get_elem? lines i) ⊎ (get_elem? out i ≡ some (codes "/**/"))
    cleared_at i same = elim (Option-cases (get_elem? lines i)) [
      | inl missing ↦
          inl (same ∙ rw missing at (get_elem?-clear_from 0 begin end lines i) ∙ sym missing)
      | inr (l, there) ↦ elim (Bool-cases (in_range begin end (0 + i))) [
        | inl inside ↦ inr (same ∙ rw (there, inside) at (get_elem?-clear_from 0 begin end lines i))
        | inr outside ↦
            inl
              (same ∙ rw (there, outside) at (get_elem?-clear_from 0 begin end lines i) ∙ sym there)
      ]
    ]

pub start_bounds :
    (lines : List Text) (ix : ℕ)
    → ix ≤ length lines
    → (ix ≤ find_next_multi_line_comment_start lines ix)
      × (find_next_multi_line_comment_start lines ix ≤ length lines)
unfolding find_next_multi_line_comment_start
start_bounds lines ix le =
    omega (arith, find_line_bounds opens_comment (drop ix lines) ix, length-drop ix lines)

pub end_bounds :
    (lines : List Text) (ix : ℕ)
    → ix ≤ length lines
    → ix ≤ find_next_multi_line_comment_end lines ix
unfolding find_next_multi_line_comment_end
end_bounds lines ix le = (find_line_bounds closes_comment (drop ix lines) ix).0

pub length-range :
    (lines : List Text) (begin end : ℕ)
    → length (remove_multi_line_comments_from_range lines begin end) ≡ length lines
unfolding remove_multi_line_comments_from_range
length-range lines begin end = length-clear_from 0 begin end lines

-- With fuel above the number of lines still to be passed, the loop ends.
remove_from-IsCleaned :
    (fuel : ℕ) (lines : List Text) (ix : ℕ)
    → ix ≤ length lines
    → length lines < fuel + ix
    → NoneOpen lines ix
    → (out : List Text) × (reports : List Report) × (remove_from fuel lines ix
        ≡ some (out, reports))
      × IsCleaned lines out reports
unfolding remove_from
remove_from-IsCleaned zero lines ix le enough h = absurd (omega arith)
remove_from-IsCleaned (suc fuel) lines ix le enough h =
    let begin = find_next_multi_line_comment_start lines ix in
    let end = find_next_multi_line_comment_end lines begin in
    let begins = start_bounds lines ix le in
    elim (Bool-cases (ltb ix (length lines))) [
      | inr past ↦
          rw past (lines, [], refl, unchanged lines [] (λ _ i line lt. h i line (ground arith)))
      | inl more ↦ elim (Bool-cases (leb (length lines) begin)) [
        | inl none_left ↦
            rw (more, none_left)
              (
                lines,
                [],
                refl,
                unchanged lines [] (λ _ i line lt. NoneOpen-start lines ix h i line (ground arith)),
              )
        | inr found ↦ elim (Bool-cases (leb (length lines) end)) [
          | inl no_close ↦
              rw (more, found, no_close) (lines, _, refl, unchanged lines _ (λ empty. absurd (cc)))
          | inr closed ↦
              rw (more, found, closed)
                (let ends = end_bounds lines begin (ground (arith, begins)) in
                  let lines' = remove_multi_line_comments_from_range lines begin (end + 1) in
                  let same = length-range lines begin (end + 1) in
                  let (out, reports, e, cleaned) =
                    remove_from-IsCleaned fuel lines' (end + 1) (ground (arith, same))
                      (omega (arith, same, ends, begins, enough))
                      (NoneOpen-clear lines begin (end + 1) (NoneOpen-start lines ix h)) in
                  (out, reports, e, IsCleaned-clear lines begin (end + 1) out reports cleaned))
        ]
      ]
    ]

-- RemoveMultiLineComments ends. The lines that it leaves are as many as before, and each is the
-- line that stood there or the placeholder. Unless it reports a comment without an end, none of
-- them begins, behind white space, with `/*` and has no `*/` behind that; a comment that does not
-- begin its line is not looked for.
pub remove_multi_line_comments-IsCleaned :
    (lines : List Text)
    → (out : List Text) × (reports : List Report) × (remove_multi_line_comments lines
        ≡ some (out, reports))
      × IsCleaned lines out reports
unfolding remove_multi_line_comments
remove_multi_line_comments-IsCleaned lines =
    remove_from-IsCleaned (suc (length lines)) lines 0 (omega arith) (omega arith)
      (λ i line lt. absurd (omega arith))
