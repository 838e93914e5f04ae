-- ===== src/Cpplint/HeaderGuard/Root.antt =====
-- What --root takes off the path in the variable of a header guard.
use adv_database_implementat.Base.{
  Text, List, [], ◌∷◌, ◌++◌, some, map, true, false, ◌=t=◌, =t=→≡, =t=_refl, All-append,
  take-append, drop-append, ◌≡◌, refl, ap, sym, ◌∙◌, Bool-cases, inl, inr, of_some,
}
use adv_database_implementat.Cpplint.Paths.{
  path_split_to_list, split_loop, split_path, halves, trim_head, join_path,
}
use adv_database_implementat.Cpplint.Paths.RoundTrip.{is_part, Parts, path_split_to_list-join_path}
use adv_database_implementat.Cpplint.FileInfo.{Files, repository_name}
use adv_database_implementat.Cpplint.HeaderGuard.{
  get_header_guard_cpp_variable, fixup_path_from_root, original_name, strip_list_prefix, same_parts,
}
use adv_database_implementat.Cpplint.HeaderGuard.Variable.{guard_char, guard_of-map}

same_parts_refl : (ps : List Text) → same_parts ps ps ≡ true
same_parts_refl [] = refl
same_parts_refl (p ∷ ps) = rw (=t=_refl p, same_parts_refl ps) refl

strip_list_prefix-append : (ps ms : List Text) → strip_list_prefix (ps ++ ms) ps ≡ some ms
unfolding strip_list_prefix
strip_list_prefix-append ps ms = rw (take-append ps ms, same_parts_refl ps, drop-append ps ms) refl

split-empty : path_split_to_list [] ≡ some ([] ∷ [])
unfolding path_split_to_list split_loop split_path halves trim_head
split-empty = refl

abbrev first_part : List Text → Text
first_part [] = []
first_part (p ∷ ps) = p

not_part : (r : Text) → r ≡ [] → is_part r ≡ true → ⊥
unfolding is_part
not_part [] e h = cc h
not_part (c ∷ r) e h = cc e

-- A path of parts is not empty.
path-nonempty : (r : Text) (rs : List Text) → Parts (r ∷ rs) → (join_path (r ∷ rs) =t= []) ≡ false
path-nonempty r rs parts = elim (Bool-cases (join_path (r ∷ rs) =t= [])) [
  | inr other ↦ other
  | inl empty ↦
      let e = =t=→≡ (join_path (r ∷ rs)) [] empty in
      let split : some (r ∷ rs) ≡ some ([] ∷ []) =
        sym (path_split_to_list-join_path r rs parts) ∙ ap path_split_to_list e ∙ split-empty in
      absurd (not_part r (ap first_part (of_some split)) parts.0)
]

fixup-below_root :
    (f : Files) (name m : Text) (rs ms : List Text)
    → Parts rs
    → Parts (m ∷ ms)
    → fixup_path_from_root f (join_path rs) name (join_path (rs ++ m ∷ ms))
      ≡ some (join_path (m ∷ ms))
unfolding fixup_path_from_root
fixup-below_root f name m [] ms above below = unfold join_path in refl
fixup-below_root f name m (r ∷ rs) ms above below =
    let whole : Parts (r ∷ (rs ++ m ∷ ms)) =
      All-append (λ c. is_part c ≡ true) (r ∷ rs) (m ∷ ms) above below in
    rw
      (
        path-nonempty r rs above,
        path_split_to_list-join_path r (rs ++ m ∷ ms) whole,
        path_split_to_list-join_path r rs above,
        strip_list_prefix-append (r ∷ rs) (m ∷ ms),
      )
      refl

-- Let the rewritten name be that of a header without the traces of flymake and with `cpp` for each
-- `C++` and `c++`. If RepositoryName gives for it a path of parts that are not empty and hold no
-- slash, and --root is not set or is some first parts of it, joined, but not all of them, then
-- GetHeaderGuardCPPVariable gives the parts behind these, joined, with the letters in upper case,
-- an underscore for each other character that is no digit, and one more underscore.
pub get_header_guard_cpp_variable-below_root :
    (f : Files) (filename m : Text) (rs ms : List Text)
    → Parts rs
    → Parts (m ∷ ms)
    → repository_name f (original_name filename) ≡ some (join_path (rs ++ m ∷ ms))
    → get_header_guard_cpp_variable f (join_path rs) filename
      ≡ some (map guard_char (join_path (m ∷ ms)) ++ b'_' ∷ [])
unfolding get_header_guard_cpp_variable
get_header_guard_cpp_variable-below_root f filename m rs ms above below named =
    rw (named, fixup-below_root f (original_name filename) m rs ms above below)
      (ap some (guard_of-map (join_path (m ∷ ms))))
