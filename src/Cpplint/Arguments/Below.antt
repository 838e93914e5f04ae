-- ===== src/Cpplint/Arguments/Below.antt =====
-- The names with which the files below a directory are added.
use adv_database_implementat.Base.{
  codes, map, drop, starts_with, ap₂, ◌∙◌, Bool, true, false, not, ◌&&◌, ◌||◌, List, [], ◌∷◌, ◌++◌,
  Text, ◌=t=◌, =t=→≡, text_mem, any, arith, ◌≡◌, refl, sym, ap, Bool-cases, inl, inr,
}
use adv_database_implementat.Cpplint.Paths.{join_two}
use adv_database_implementat.Cpplint.Arguments.{full_names, without_dot}

pub text_mem-append :
    (f : Text) (xs ys : List Text) → text_mem f (xs ++ ys) ≡ (text_mem f xs || text_mem f ys)
unfolding text_mem
text_mem-append f [] ys = refl
text_mem-append f (x ∷ xs) ys = ground (arith, text_mem-append f xs ys)

-- The name with which a file is added: without the `./` that its path begins with.
abbrev pub is_cut : Text → Text → Bool
is_cut f path = path =t= codes "./" ++ f || (path =t= f && not (starts_with f (codes "./")))

-- The file is below a directory whose walk is given.
abbrev pub is_below : Text → List (Text × List Text) → Bool
is_below f walk = any (λ entry. any (λ loopfile. is_cut f (join_two entry.0 loopfile)) entry.1) walk

=t=_sym : (s t : Text) → (s =t= t) ≡ (t =t= s)
=t=_sym [] [] = refl
=t=_sym [] (d ∷ t) = refl
=t=_sym (c ∷ s) [] = refl
=t=_sym (c ∷ s) (d ∷ t) = ground (arith, =t=_sym s t)

starts-differs :
    (f x : Text)
    → starts_with x (codes "./") ≡ true
    → starts_with f (codes "./") ≡ false
    → (x =t= f) ≡ false
starts-differs f x h k = elim (Bool-cases (x =t= f)) [
  | inr other ↦ other
  | inl same ↦ absurd (cc (h, k, ap (λ t. starts_with t (codes "./")) (=t=→≡ x f same)))
]

-- A path that begins with `./`.
cut_dot : (x : Text) → starts_with x (codes "./") ≡ true → (y : Text) × (x ≡ codes "./" ++ y)
unfolding starts_with
cut_dot [] h = absurd (cc h)
cut_dot (a ∷ []) h = absurd (ground (arith, h))
cut_dot (a ∷ b ∷ y) h =
    let first : a ≡ b'.' = ground (arith, h) in
    let second : b ≡ b'/' = ground (arith, h) in (y, ap₂ (λ c d. c ∷ d ∷ y) first second)

begins_dot : (y : Text) → starts_with (codes "./" ++ y) (codes "./") ≡ true
unfolding starts_with
begins_dot y = refl

is_cut-dotted : (f y : Text) → is_cut f (codes "./" ++ y) ≡ (f =t= y)
is_cut-dotted f y = elim (Bool-cases (starts_with f (codes "./"))) [
  | inl starts ↦ rw starts (ground (arith, =t=_sym f y))
  | inr other ↦
      rw (starts-differs f (codes "./" ++ y) (begins_dot y) other) (ground (arith, =t=_sym f y))
]

is_cut-plain : (f x : Text) → starts_with x (codes "./") ≡ false → is_cut f x ≡ (f =t= x)
is_cut-plain f x h = elim (Bool-cases (x =t= codes "./" ++ f)) [
  | inl same ↦
      absurd (
        cc (h, ap (λ t. starts_with t (codes "./")) (=t=→≡ x (codes "./" ++ f) same), begins_dot f))
  | inr other ↦ elim (Bool-cases (x =t= f)) [
    | inl same ↦
        let plain_name = sym (ap (λ t. starts_with t (codes "./")) (=t=→≡ x f same)) ∙ h in
        rw (other, same, plain_name) (sym (=t=_sym f x ∙ same))
    | inr differs ↦ rw (other, differs) (sym (=t=_sym f x ∙ differs))
  ]
]

text_mem-without_dot : (f x : Text) → (f =t= without_dot x) ≡ is_cut f x
text_mem-without_dot f x = elim (Bool-cases (starts_with x (codes "./"))) [
  | inl dotted ↦
      let (y, e) = cut_dot x dotted in
      rw dotted (ap (λ t. f =t= drop 2 t) e ∙ sym (is_cut-dotted f y) ∙ ap (is_cut f) (sym e))
  | inr plain_path ↦ rw plain_path (sym (is_cut-plain f x plain_path))
]

text_mem-files :
    (f root : Text) (files : List Text)
    → text_mem f (map (λ loopfile. without_dot (join_two root loopfile)) files)
      ≡ any (λ loopfile. is_cut f (join_two root loopfile)) files
unfolding text_mem
text_mem-files f root [] = refl
text_mem-files f root (x ∷ files) =
    ap₂ (λ a b. a || b) (text_mem-without_dot f (join_two root x)) (text_mem-files f root files)

pub text_mem-full_names :
    (f : Text) (walk : List (Text × List Text)) → text_mem f (full_names walk) ≡ is_below f walk
unfolding full_names
text_mem-full_names f [] = unfold text_mem in refl
text_mem-full_names f ((root, files) ∷ rest) =
    text_mem-append f (map (λ loopfile. without_dot (join_two root loopfile)) files)
      (full_names rest)
    ∙ ap₂ (λ a b. a || b) (text_mem-files f root files) (text_mem-full_names f rest)
