-- ===== src/Cpplint/HeaderGuard/Variable.antt =====
-- The variable of a header guard.
use adv_database_implementat.Base.{
  ℕ, Bool, true, ◌&&◌, ◌||◌, not, Option, none, some, of_some, subst, [], ◌∷◌, ◌++◌, Text, codes,
  leb, ◌==◌, if◌then◌else◌, map, to_upper, upper, All-append, arith, ◌≡◌, refl, ap, ◌∙◌, sym,
  Bool-cases, inl, inr,
}
use adv_database_implementat.Regex.Classes.{sub-class, replaced}
use adv_database_implementat.Regex.Laws.{AllIn}
use adv_database_implementat.Cpplint.FileInfo.{Files, repository_name}
use adv_database_implementat.Cpplint.HeaderGuard.{
  is_letter_or_digit, guard_of, get_header_guard_cpp_variable, fixup_path_from_root, original_name,
  and_then,
}

-- A letter in upper case, a digit, or an underscore.
unfoldable pub guard_char : ℕ → ℕ
guard_char c = if is_letter_or_digit c then to_upper c else b'_'

unfoldable pub is_guard_char : ℕ → Bool
is_guard_char c = (leb b'A' c && leb c b'Z') || ((leb b'0' c && leb c b'9') || c == b'_')

guard_char-class : (c : ℕ) → is_guard_char (guard_char c) ≡ true
unfolding is_guard_char guard_char to_upper
guard_char-class c = ground arith

underscore : is_guard_char b'_' ≡ true
unfolding is_guard_char
underscore = refl

map-class : (s : Text) → AllIn is_guard_char (map guard_char s)
map-class [] = tt
map-class (c ∷ s) = (guard_char-class c, map-class s)

replaced-guard :
    (s : Text) → upper (replaced (λ c. not (is_letter_or_digit c)) (codes "_") s) ≡ map guard_char s
unfolding replaced upper guard_char
replaced-guard [] = refl
replaced-guard (c ∷ s) = elim (Bool-cases (is_letter_or_digit c)) [
  | inl letter ↦ rw letter (ap (λ t. to_upper c ∷ t) (replaced-guard s))
  | inr other ↦ rw other (ap (λ t. b'_' ∷ t) (replaced-guard s))
]

pub guard_of-map : (path : Text) → guard_of path ≡ map guard_char path ++ b'_' ∷ []
unfolding guard_of
guard_of-map path =
    ap (λ t. upper t ++ codes "_") (sub-class (λ c. not (is_letter_or_digit c)) (codes "_") path)
    ∙ ap (λ t. t ++ codes "_") (replaced-guard path)

pub and_then-some :
    {A B : Type 0} (o : Option A) (g : A → Option B) (v : B)
    → and_then o g ≡ some v
    → (x : A) × (o ≡ some x) × (g x ≡ some v)
and_then-some none g v h = absurd (cc h)
and_then-some (some x) g v h = (x, refl, h)

pub get_header_guard_cpp_variable-class :
    (f : Files) (root filename v : Text)
    → get_header_guard_cpp_variable f root filename ≡ some v
    → (path : Text) × (fixed : Text) × (repository_name f (original_name filename) ≡ some path)
      × (fixup_path_from_root f root (original_name filename) path ≡ some fixed)
      × (v ≡ map guard_char fixed ++ b'_' ∷ [])
      × AllIn is_guard_char v
unfolding get_header_guard_cpp_variable
get_header_guard_cpp_variable-class f root filename v h =
    let name = original_name filename in
    let (path, found, rest) = and_then-some (repository_name f name) _ v h in
    let (fixed, fixes, last) = and_then-some (fixup_path_from_root f root name path) _ v rest in
    let e = sym (of_some last) ∙ guard_of-map fixed in
    (
      path,
      fixed,
      found,
      fixes,
      e,
      subst (AllIn is_guard_char) (sym e) (
          All-append (λ c. is_guard_char c ≡ true) (map guard_char fixed) (b'_' ∷ [])
            (map-class fixed) (underscore, tt)),
    )
