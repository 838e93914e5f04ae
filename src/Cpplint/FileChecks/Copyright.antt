-- ===== src/Cpplint/FileChecks/Copyright.antt =====
-- What CheckForCopyright looks for.
use adv_database_implementat.Base.{
  ℕ, suc, Bool, true, false, ◌||◌, none, some, List, [], ◌∷◌, Text, codes, take, drop, ◌==◌,
  if◌then◌else◌, is_some, find, starts_with, lower, to_lower, any, ◌≡◌, refl, ap, ap₂, ◌∙◌, sym,
  Bool-cases, Option-cases, inl, inr,
}
use adv_database_implementat.Regex.{Re, Kont, Cursor, run, search_from, search_text, to_match}
use adv_database_implementat.Regex.Laws.{at, search_from-skip}
use adv_database_implementat.Regex.Classes.{search_from-hit}
use adv_database_implementat.Regex.Substring.{is_some-map}
use adv_database_implementat.Cpplint.FileChecks.{
  ignoring_case, copyright_pattern, any_found, check_for_copyright,
}

run-ignoring_case :
    (p t b : Text) (g : List (ℕ × Text)) (k : Kont)
    → ((d : Cursor) → is_some (k d) ≡ true)
    → is_some (run (ignoring_case p) (at b t g) k) ≡ starts_with (lower t) (lower p)
unfolding run starts_with lower
run-ignoring_case [] t b g k h = h (at b t g)
run-ignoring_case (c ∷ []) [] b g k h = refl
run-ignoring_case (c ∷ []) (x ∷ t) b g k h = elim (Bool-cases (to_lower x == to_lower c)) [
  | inl same ↦ rw same (h (at (x ∷ b) t g))
  | inr other ↦ rw other refl
]
run-ignoring_case (c ∷ d ∷ p) [] b g k h = refl
run-ignoring_case (c ∷ d ∷ p) (x ∷ t) b g k h = elim (Bool-cases (to_lower x == to_lower c)) [
  | inl same ↦ rw same (run-ignoring_case (d ∷ p) t (x ∷ b) g k h)
  | inr other ↦ rw other refl
]

is_some-if : (b : Bool) → is_some {A = ℕ} (if b then some 0 else none) ≡ b
is_some-if true = refl
is_some-if false = refl

search-here :
    (r : Re) (b : Text) (c : ℕ) (s : Text)
    → is_some (search_from r b (c ∷ s))
      ≡ (is_some (run r (at b (c ∷ s) []) some) || is_some (search_from r (c ∷ b) s))
search-here r b c s = elim (Option-cases (run r (at b (c ∷ s) []) some)) [
  | inl fails ↦
      ap is_some (search_from-skip r c s b fails)
      ∙ sym (ap (λ o. is_some o || is_some (search_from r (c ∷ b) s)) fails)
  | inr (d, hit) ↦
      ap is_some (search_from-hit r c s b d hit)
      ∙ sym (ap (λ o. is_some o || is_some (search_from r (c ∷ b) s)) hit)
]

find-here :
    (p : Text) (c : ℕ) (s : Text)
    → is_some (find (c ∷ s) p) ≡ (starts_with (c ∷ s) p || is_some (find s p))
unfolding find
find-here p c s = elim (Bool-cases (starts_with (c ∷ s) p)) [
  | inl hit ↦ rw hit refl
  | inr miss ↦ rw miss (is_some-map suc (find s p))
]

search-ignoring_case :
    (p b s : Text)
    → is_some (search_from (ignoring_case p) b s) ≡ is_some (find (lower s) (lower p))
unfolding search_from find lower
search-ignoring_case p b [] =
    is_some-map (to_match (at b [] [])) (run (ignoring_case p) (at b [] []) some)
    ∙ run-ignoring_case p [] b [] some (λ d. refl)
    ∙ sym (is_some-if (starts_with [] (lower p)))
search-ignoring_case p b (c ∷ s) =
    search-here (ignoring_case p) b c s
    ∙ ap₂ (λ x y. x || y) (run-ignoring_case p (c ∷ s) b [] some (λ d. refl))
        (search-ignoring_case p (c ∷ b) s)
    ∙ sym (find-here (lower p) (to_lower c) (lower s))

-- Whether a line has the word, in any case.
unfoldable pub has_copyright : Text → Bool
has_copyright line = is_some (find (lower line) (codes "copyright"))

any_found-copyright :
    (lines : List Text) → any_found copyright_pattern lines ≡ any has_copyright lines
unfolding any_found copyright_pattern has_copyright search_text lower to_lower
any_found-copyright [] = refl
any_found-copyright (line ∷ lines) =
    ap₂ (λ x y. x || y) (search-ignoring_case (codes "Copyright") [] line)
      (any_found-copyright lines)

abbrev pub is_nil : {A : Type 0} → List A → Bool
is_nil [] = true
is_nil (x ∷ xs) = false

-- CheckForCopyright is content exactly if the word `copyright`, in any case, stands in one of the
-- first ten lines behind the marker line.
pub check_for_copyright-exact :
    (lines : List Text)
    → is_nil (check_for_copyright lines) ≡ any has_copyright (take 10 (drop 1 lines))
unfolding check_for_copyright
check_for_copyright-exact lines =
    rw (any_found-copyright (take 10 (drop 1 lines)))
      (elim (Bool-cases (any has_copyright (take 10 (drop 1 lines)))) [
        | inl holds ↦ rw holds refl
        | inr fails ↦ rw fails refl
      ])
