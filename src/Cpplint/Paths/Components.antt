-- ===== src/Cpplint/Paths/Components.antt =====
-- The parts of a path, taken apart and put together.
use adv_database_implementat.Base.{
  ℕ, zero, suc, ◌<◌, true, false, List, [], ◌∷◌, ◌++◌, Text, length, all, is_some, ◌=t=◌, =t=_refl,
  arith, ◌≡◌, ◌⊎◌, refl, ap, sym, ◌∙◌, Bool-cases, inl, inr, length-append, append-nil,
  append_assoc,
}
use adv_database_implementat.Cpplint.Paths.{
  is_slash, add_half, halves, rstrip_slashes, trim_head, split_path, dirname, split_loop,
  path_split_to_list, cons_unless_slash,
}

add_half-append :
    (c : ℕ) (head tail : Text)
    → (add_half c head tail).0 ++ (add_half c head tail).1 ≡ c ∷ (head ++ tail)
add_half-append c [] tail = elim (Bool-cases (is_slash c)) [
  | inl slash ↦ rw slash refl
  | inr other ↦ rw other refl
]
add_half-append c (d ∷ head) tail = refl

halves-append : (s : Text) → (halves s).0 ++ (halves s).1 ≡ s
unfolding halves
halves-append [] = refl
halves-append (c ∷ s) =
    add_half-append c (halves s).0 (halves s).1 ∙ ap (λ t. c ∷ t) (halves-append s)

cons-shorter :
    (c : ℕ) (r s : Text)
    → (r ≡ s) ⊎ (length r < length s)
    → (cons_unless_slash c r ≡ c ∷ s) ⊎ (length (cons_unless_slash c r) < suc (length s))
cons-shorter c [] s h = elim (Bool-cases (is_slash c)) [
  | inl slash ↦ inr (rw slash (omega arith))
  | inr other ↦ elim h [
    | inl same ↦ inl (rw other (ap (λ t. c ∷ t) same))
    | inr less ↦ inr (rw other (omega (arith, less)))
  ]
]
cons-shorter c (d ∷ r) s (inl same) = inl (ap (λ t. c ∷ t) same)
cons-shorter c (d ∷ r) s (inr less) = inr (omega (arith, less))

rstrip-shorter : (s : Text) → (rstrip_slashes s ≡ s) ⊎ (length (rstrip_slashes s) < length s)
unfolding rstrip_slashes
rstrip-shorter [] = inl refl
rstrip-shorter (c ∷ s) = cons-shorter c (rstrip_slashes s) s (rstrip-shorter s)

trim-shorter : (s : Text) → (trim_head s ≡ s) ⊎ (length (trim_head s) < length s)
unfolding trim_head
trim-shorter s = elim (Bool-cases (all is_slash s)) [
  | inl slashes ↦ inl (rw slashes refl)
  | inr other ↦ rw other (rstrip-shorter s)
]

head-shorter :
    (trimmed head tail path : Text)
    → (trimmed ≡ head) ⊎ (length trimmed < length head)
    → head ++ tail ≡ path
    → (trimmed ≡ path) ⊎ (length trimmed < length path)
head-shorter trimmed head [] path (inl same) e = inl (same ∙ sym (append-nil head) ∙ e)
head-shorter trimmed head [] path (inr less) e =
    inr (omega (arith, less, ap length e, length-append head []))
head-shorter trimmed head (c ∷ tail) path (inl same) e =
    inr (omega (arith, ap length same, ap length e, length-append head (c ∷ tail)))
head-shorter trimmed head (c ∷ tail) path (inr less) e =
    inr (omega (arith, less, ap length e, length-append head (c ∷ tail)))

-- The directory of a path is the path, or shorter.
pub dirname-shorter : (path : Text) → (dirname path ≡ path) ⊎ (length (dirname path) < length path)
unfolding dirname split_path
dirname-shorter path =
    head-shorter (trim_head (halves path).0) (halves path).0 (halves path).1 path
      (trim-shorter (halves path).0) (halves-append path)

base-shorter :
    (trimmed head tail path : Text)
    → (trimmed ≡ head) ⊎ (length trimmed < length head)
    → head ++ tail ≡ path
    → (tail =t= []) ≡ false
    → length trimmed < length path
base-shorter trimmed head [] path h e base = absurd (cc base)
base-shorter trimmed head (c ∷ tail) path (inl same) e base =
    omega (arith, ap length same, ap length e, length-append head (c ∷ tail))
base-shorter trimmed head (c ∷ tail) path (inr less) e base =
    omega (arith, less, ap length e, length-append head (c ∷ tail))

-- Behind a path with a base name, the directory is shorter.
pub split_path-shorter :
    (path : Text) → ((split_path path).1 =t= []) ≡ false → length (split_path path).0 < length path
unfolding split_path
split_path-shorter path base =
    base-shorter (trim_head (halves path).0) (halves path).0 (halves path).1 path
      (trim-shorter (halves path).0) (halves-append path) base

-- A directory that is not the path has a shorter name.
pub dirname-proper :
    (path : Text) → (dirname path =t= path) ≡ false → length (dirname path) < length path
dirname-proper path other = elim (dirname-shorter path) [
  | inl same ↦ absurd (cc (ap (λ t. t =t= path) same, =t=_refl path, other))
  | inr less ↦ less
]

split_loop-returns :
    (fuel : ℕ) (path : Text) (lst : List Text)
    → length path < fuel
    → is_some (split_loop fuel path lst) ≡ true
unfolding split_loop dirname
split_loop-returns zero path lst enough = absurd (omega arith)
split_loop-returns (suc fuel) path lst enough = elim (Bool-cases (dirname path =t= path)) [
  | inl root ↦ rw root refl
  | inr below ↦ elim (Bool-cases ((split_path path).1 =t= path)) [
    | inl single ↦ rw (below, single) refl
    | inr more ↦
        rw (below, more)
          (split_loop-returns fuel (dirname path) ((split_path path).1 ∷ lst)
            (omega (arith, enough, dirname-proper path below)))
  ]
]

-- The loop of PathSplitToList ends for every path.
pub path_split_to_list-returns : (path : Text) → is_some (path_split_to_list path) ≡ true
unfolding path_split_to_list
path_split_to_list-returns path = split_loop-returns (suc (length path)) path [] (omega arith)

-- One text begins with another.
abbrev pub Begins : Text → Text → Type 0
Begins a b = (rest : Text) × (b ≡ a ++ rest)

pub Begins-trans : (a b c : Text) → Begins a b → Begins b c → Begins a c
Begins-trans a b c (r, e) (q, d) = (r ++ q, d ∙ ap (λ t. t ++ q) e ∙ append_assoc a r q)

pub Begins-refl : (a : Text) → Begins a a
Begins-refl a = ([], sym (append-nil a))

cons-Begins : (c : ℕ) (r s : Text) → Begins r s → Begins (cons_unless_slash c r) (c ∷ s)
cons-Begins c [] s h = elim (Bool-cases (is_slash c)) [
  | inl slash ↦ rw slash (c ∷ s, refl)
  | inr other ↦ rw other (s, refl)
]
cons-Begins c (d ∷ r) s (q, e) = (q, ap (λ t. c ∷ t) e)

rstrip-Begins : (s : Text) → Begins (rstrip_slashes s) s
unfolding rstrip_slashes
rstrip-Begins [] = ([], refl)
rstrip-Begins (c ∷ s) = cons-Begins c (rstrip_slashes s) s (rstrip-Begins s)

trim-Begins : (s : Text) → Begins (trim_head s) s
unfolding trim_head
trim-Begins s = elim (Bool-cases (all is_slash s)) [
  | inl slashes ↦ rw slashes (Begins-refl s)
  | inr other ↦ rw other (rstrip-Begins s)
]

-- The name of a directory is the beginning of the path.
pub dirname-Begins : (path : Text) → Begins (dirname path) path
unfolding dirname split_path
dirname-Begins path =
    Begins-trans (dirname path) (halves path).0 path (trim-Begins (halves path).0)
      ((halves path).1, sym (halves-append path))
