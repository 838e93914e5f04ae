-- ===== src/Cpplint/Nesting/Indent.antt =====
-- What GetIndentLevel counts.
use adv_database_implementat.Base.{
  ℕ, zero, suc, Bool, true, false, not, none, some, [], ◌∷◌, ◌++◌, Text, length, replicate, ◌==◌,
  if◌then◌else◌, is_space, ◌≡◌, refl, ap, ◌∙◌, Bool-cases, inl, inr, reverse_aux, length-replicate,
}
use mathlib.Core.Option
use adv_database_implementat.Regex.{
  Kont, match_at_start, run, not_space, span, start, to_match, group_of,
}
use adv_database_implementat.Regex.Laws.{
  AllIn, Stops, at, run-star, run-star_fails_before, span-reverse_aux,
}
use adv_database_implementat.Cpplint.Nesting.Blocks.{
  get_indent_level, indent_pattern, length_of_group,
}

abbrev pub is_blank : ℕ → Bool
is_blank c = c == b' '

-- Whether a text begins with a character that is no white space.
unfoldable pub begins_visible : Text → Bool
begins_visible [] = false
begins_visible (c ∷ s) = not (is_space c)

AllIn-replicate : (n : ℕ) → AllIn is_blank (replicate n b' ')
AllIn-replicate zero = tt
AllIn-replicate (suc n) = (refl, AllIn-replicate n)

blank-space : (c : ℕ) → is_blank c ≡ true → is_space c ≡ true
unfolding is_space
blank-space c h = rw h refl

-- What is matched behind the spaces of a text.
abbrev behind : Text → Kont
behind text d = run not_space (record d { groups = (1, span (start text) d) ∷ d.groups }) some

behind-fails :
    (text tail b t : Text)
    → begins_visible tail ≡ false
    → AllIn is_blank t
    → behind text (at b (t ++ tail) []) ≡ none
unfolding run begins_visible
behind-fails text [] b [] hidden h = refl
behind-fails text (c ∷ tail) b [] hidden h = rw hidden refl
behind-fails text tail b (c ∷ t) hidden h = rw (blank-space c h.0) refl

behind-visible :
    (text tail b : Text) (c : ℕ)
    → is_space c ≡ false
    → behind text (at b (c ∷ tail) [])
      ≡ some (at (c ∷ b) tail ((1, span (start text) (at b (c ∷ tail) [])) ∷ []))
unfolding run
behind-visible text tail b c visible = rw visible refl

indent-hidden :
    (n : ℕ) (tail : Text)
    → Stops is_blank tail
    → begins_visible tail ≡ false
    → get_indent_level (replicate n b' ' ++ tail) ≡ 0
unfolding get_indent_level indent_pattern match_at_start run
indent-hidden n tail st hidden =
    let text = replicate n b' ' ++ tail in
    ap (λ m. length_of_group (Option.map (to_match (start text)) m))
      (run-star_fails_before is_blank (replicate n b' ') [] tail [] (behind text)
        (AllIn-replicate n) st (λ b t h. behind-fails text tail b t hidden h))

indent-visible :
    (n c : ℕ) (tail : Text)
    → (c == b' ') ≡ false
    → is_space c ≡ false
    → get_indent_level (replicate n b' ' ++ c ∷ tail) ≡ n
unfolding get_indent_level indent_pattern match_at_start run group_of
indent-visible n c tail st visible =
    let pre = replicate n b' ' in
    let text = pre ++ c ∷ tail in
    ap (λ m. length_of_group (Option.map (to_match (start text)) m))
      (run-star is_blank pre [] (c ∷ tail) [] (behind text) (AllIn-replicate n) st
        (behind-visible text tail (reverse_aux pre []) c visible))
    ∙ (ap length (span-reverse_aux pre [] text (c ∷ tail) [] []) ∙ length-replicate n b' ')

-- Of a text that is `n` spaces and then no further one, GetIndentLevel gives `n` if a character
-- that is no white space follows, and 0 if a tab or other white space follows, or nothing.
pub get_indent_level-exact :
    (n : ℕ) (tail : Text)
    → Stops is_blank tail
    → get_indent_level (replicate n b' ' ++ tail) ≡ (if begins_visible tail then n else 0)
unfolding begins_visible
get_indent_level-exact n [] st = indent-hidden n [] st refl
get_indent_level-exact n (c ∷ tail) st = elim (Bool-cases (is_space c)) [
  | inl hidden ↦ rw hidden (indent-hidden n (c ∷ tail) st (ap not hidden))
  | inr visible ↦ rw visible (indent-visible n c tail st visible)
]
