-- ===== src/Cpplint/SplitName/Joined.antt =====
-- The parts of a name that is put together from them.
use adv_database_implementat.Base.{
  ℕ, Bool, true, false, Option, none, some, [], ◌∷◌, ◌++◌, Text, all, char_mem, ◌==◌, arith, ◌≡◌,
  refl, ap, sym, ◌∙◌, Bool-cases, inl, inr, append-nil,
}
use adv_database_implementat.Cpplint.Paths.RoundTrip.{
  no_slash, ends_solid, halves-part, halves-slash,
}
use adv_database_implementat.Cpplint.Includes.Classify.{cut_at_dot, split_ext_name, split_ext}

abbrev pub is_period : ℕ → Bool
is_period c = c == b'.'

-- What may stand as the extension behind a stem. An extension is a period and a text without one, and
-- the stem before it has a character other than a period. There is none if the stem has periods at
-- its beginning only.
abbrev pub IsExtension : Text → Text → Type 0
IsExtension stem [] =
    (periods : Text) × (rest : Text) × (stem ≡ periods ++ rest)
    × (all is_period periods ≡ true)
    × (char_mem b'.' rest ≡ false)
IsExtension stem (c ∷ ext) = (c ≡ b'.') × (char_mem b'.' ext ≡ false) × (all is_period stem ≡ false)

-- A base name in a directory, if there is one.
abbrev pub in_directory : Option Text → Text → Text
in_directory none base = base
in_directory (some directory) base = directory ++ b'/' ∷ base

abbrev pub directory_of : Option Text → Text
directory_of none = []
directory_of (some directory) = directory

-- The directory is not empty and does not end in a slash.
abbrev pub IsDirectory : Option Text → Type 0
IsDirectory none = Unit
IsDirectory (some directory) = ends_solid directory ≡ true

cut_at_dot-none : (s : Text) → char_mem b'.' s ≡ false → cut_at_dot s ≡ none
unfolding cut_at_dot char_mem
cut_at_dot-none [] h = refl
cut_at_dot-none (c ∷ s) h =
    let rest : char_mem b'.' s ≡ false = ground (arith, h) in
    let other : (c == b'.') ≡ false = ground (arith, h) in rw (cut_at_dot-none s rest, other) refl

cut_at_dot-some :
    (s e : Text) → char_mem b'.' e ≡ false → cut_at_dot (s ++ b'.' ∷ e) ≡ some (s, b'.' ∷ e)
unfolding cut_at_dot
cut_at_dot-some [] e h = rw (cut_at_dot-none e h) refl
cut_at_dot-some (c ∷ s) e h = rw (cut_at_dot-some s e h) refl

split-extension :
    (stem e : Text)
    → all is_period stem ≡ false
    → char_mem b'.' e ≡ false
    → split_ext_name (stem ++ b'.' ∷ e) ≡ (stem, b'.' ∷ e)
unfolding split_ext_name
split-extension [] e h k = absurd (cc h)
split-extension (c ∷ s) e h k = elim (Bool-cases (c == b'.')) [
  | inl period ↦ rw (period, split-extension s e (rw period at h) k) refl
  | inr other ↦ rw (other, cut_at_dot-some (c ∷ s) e k) refl
]

split-plain :
    (periods rest : Text)
    → all is_period periods ≡ true
    → char_mem b'.' rest ≡ false
    → split_ext_name (periods ++ rest) ≡ (periods ++ rest, [])
unfolding split_ext_name
split-plain [] [] h k = refl
split-plain [] (c ∷ rest) h k =
    let other : (c == b'.') ≡ false = unfold char_mem in ground (arith, k) in
    rw (other, cut_at_dot-none (c ∷ rest) k) refl
split-plain (c ∷ periods) rest h k = elim (Bool-cases (c == b'.')) [
  | inl period ↦ rw (period, split-plain periods rest (rw period at h) k) refl
  | inr other ↦ absurd (cc (rw other at h))
]

abbrev nothing_behind : Text → Text × Text
nothing_behind stem = (stem, [])

abbrev with_first : Text → Text → ℕ → Text × Text
with_first stem ext c = (stem, c ∷ ext)

split_ext_name-IsExtension :
    (stem ext : Text) → IsExtension stem ext → split_ext_name (stem ++ ext) ≡ (stem, ext)
split_ext_name-IsExtension stem [] (periods, rest, e, h, k) =
    ap split_ext_name (append-nil stem ∙ e)
    ∙ split-plain periods rest h k
    ∙ ap nothing_behind (sym e)
split_ext_name-IsExtension stem (c ∷ ext) (e, k, h) =
    ap (λ x. split_ext_name (stem ++ x ∷ ext)) e
    ∙ split-extension stem ext h k
    ∙ ap (with_first stem ext) (sym e)

-- The extension that os.path.splitext finds.
pub split_ext-in_directory :
    (directory : Option Text) (stem ext : Text)
    → all no_slash (stem ++ ext) ≡ true
    → IsExtension stem ext
    → (split_ext (in_directory directory (stem ++ ext))).1 ≡ ext
unfolding split_ext
split_ext-in_directory none stem ext plain_text is =
    rw (halves-part (stem ++ ext) plain_text, split_ext_name-IsExtension stem ext is) refl
split_ext-in_directory (some directory) stem ext plain_text is =
    rw (halves-slash directory (stem ++ ext) plain_text, split_ext_name-IsExtension stem ext is)
      refl
