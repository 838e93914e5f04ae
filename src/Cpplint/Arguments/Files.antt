-- ===== src/Cpplint/Arguments/Files.antt =====
-- The files that ParseArguments returns.
use adv_database_implementat.Base.{
  Option, drop, all, ◌∙◌, Bool, true, false, not, ◌&&◌, ◌||◌, List, [], ◌∷◌, ◌++◌, Text, ◌=t=◌,
  =t=→≡, if◌then◌else◌, text_mem, any, arith, ◌≡◌, refl, sym, ap, Bool-cases, inl, inr,
}
use adv_database_implementat.Cpplint.SameModule.{Extensions, get_all_extensions}
use adv_database_implementat.Cpplint.Paths.RoundTrip.{no_slash}
use adv_database_implementat.Cpplint.Includes.Classify.{split_ext}
use adv_database_implementat.Cpplint.SplitName.Joined.{
  IsExtension, in_directory, split_ext-in_directory,
}
use adv_database_implementat.Cpplint.Arguments.Below.{
  is_below, text_mem-append, text_mem-full_names,
}
use adv_database_implementat.Cpplint.Arguments.{
  Disk, Locals, keep, has_extension, is_excluded, full_names, add_to_set, expand,
  expand_directories, filter_excluded_files, if_excludes, select_files,
}

text_mem-keep :
    (p : Text → Bool) (f : Text) (xs : List Text) → text_mem f (keep p xs) ≡ (p f && text_mem f xs)
unfolding text_mem keep
text_mem-keep p f [] = ground arith
text_mem-keep p f (x ∷ xs) = elim (Bool-cases (f =t= x)) [
  | inl same ↦ ground (arith, text_mem-keep p f xs, same, ap p (=t=→≡ f x same))
  | inr other ↦ ground (arith, text_mem-keep p f xs, other)
]

text_mem-one : (f x : Text) → text_mem f (x ∷ []) ≡ (f =t= x)
unfolding text_mem
text_mem-one f x = ground arith

text_mem-cons : (f x : Text) (xs : List Text) → text_mem f (x ∷ xs) ≡ (f =t= x || text_mem f xs)
unfolding text_mem
text_mem-cons f x xs = refl

text_mem-same : (f x : Text) (xs : List Text) → f =t= x ≡ true → text_mem x xs ≡ text_mem f xs
text_mem-same f x xs e = ap (λ (y : Text). text_mem y xs) (sym (=t=→≡ f x e))

-- What adding a name to a set changes.
text_mem-added :
    (f x : Text) (expanded : List Text)
    → text_mem f (if text_mem x expanded then expanded else expanded ++ x ∷ [])
      ≡ (text_mem f expanded || f =t= x)
text_mem-added f x expanded = elim (Bool-cases (text_mem x expanded)) [
  | inl has ↦ elim (Bool-cases (f =t= x)) [
    | inl same ↦ ground (arith, has, same, text_mem-same f x expanded same)
    | inr other ↦ ground (arith, has, other)
  ]
  | inr new ↦ ground (arith, new, text_mem-append f expanded (x ∷ []), text_mem-one f x)
]

text_mem-add_to_set :
    (f : Text) (expanded xs : List Text)
    → text_mem f (add_to_set expanded xs) ≡ (text_mem f expanded || text_mem f xs)
unfolding add_to_set
text_mem-add_to_set f expanded [] = unfold text_mem in ground arith
text_mem-add_to_set f expanded (x ∷ xs) =
    let added = if text_mem x expanded then expanded else expanded ++ x ∷ [] in
    ground
      (arith, text_mem-add_to_set f added xs, text_mem-added f x expanded, text_mem-cons f x xs)

-- A name stands for itself, or, if it is that of a directory, for the files below it.
abbrev pub stands_for : Disk → Text → Text → Bool
stands_for d f filename =
    if d.is_dir filename then is_below f (d.walk_dir filename) else f =t= filename

added-stands_for :
    (d : Disk) (f filename : Text)
    → text_mem f (if d.is_dir filename then full_names (d.walk_dir filename) else filename ∷ [])
      ≡ stands_for d f filename
added-stands_for d f filename =
    ground (arith, text_mem-full_names f (d.walk_dir filename), text_mem-one f filename)

text_mem-expand :
    (d : Disk) (f : Text) (expanded filenames : List Text)
    → text_mem f (expand d expanded filenames)
      ≡ (text_mem f expanded || any (stands_for d f) filenames)
unfolding expand
text_mem-expand d f expanded [] = ground arith
text_mem-expand d f expanded (x ∷ xs) =
    let names = if d.is_dir x then full_names (d.walk_dir x) else x ∷ [] in
    ground (
      arith,
      text_mem-expand d f (add_to_set expanded names) xs,
      text_mem-add_to_set f expanded names,
      added-stands_for d f x,
    )

text_mem-expand_directories :
    (d : Disk) (e : Extensions) (f : Text) (filenames : List Text)
    → ((x : Text) (xs : List Text) → text_mem x (d.set_order xs) ≡ text_mem x xs)
    → text_mem f (expand_directories d e filenames)
      ≡ (has_extension e f && any (stands_for d f) filenames)
unfolding expand_directories
text_mem-expand_directories d e f filenames order =
    rw
      (
        text_mem-keep (has_extension e) f (d.set_order (expand d [] filenames)),
        order f (expand d [] filenames),
        text_mem-expand d f [] filenames,
      )
      (unfold text_mem in refl)

text_mem-if_excludes :
    (d : Disk) (f : Text) (excludes filenames : List Text)
    → text_mem f (if_excludes d excludes filenames)
      ≡ (text_mem f filenames && not (is_excluded d excludes f))
text_mem-if_excludes d f [] filenames = unfold is_excluded text_mem in ground arith
text_mem-if_excludes d f (x ∷ excludes) filenames =
    unfold filter_excluded_files in
    ground (arith, text_mem-keep (λ (g : Text). not (is_excluded d (x ∷ excludes) g)) f filenames)

text_mem-if :
    (f : Text) (b : Bool) (xs ys : List Text)
    → text_mem f (if b then xs else ys) ≡ (if b then text_mem f xs else text_mem f ys)
text_mem-if f true xs ys = refl
text_mem-if f false xs ys = refl

-- The file is, as an absolute path, one of those that are to be left out.
abbrev pub is_left_out : Disk → List Text → Text → Bool
is_left_out d excludes f = any (λ excluded. d.abspath f =t= d.abspath excluded) excludes

is_excluded-is_left_out :
    (d : Disk) (excludes : List Text) (f : Text)
    → is_excluded d excludes f ≡ is_left_out d excludes f
unfolding is_excluded text_mem
is_excluded-is_left_out d [] f = refl
is_excluded-is_left_out d (x ∷ excludes) f =
    ap (λ b. d.abspath f =t= d.abspath x || b) (is_excluded-is_left_out d excludes f)

-- An extension without its period.
abbrev pub without_period : Text → Text
without_period [] = []
without_period (c ∷ ext) = ext

has_extension-in_directory :
    (e : Extensions) (directory : Option Text) (stem ext f : Text)
    → f ≡ in_directory directory (stem ++ ext)
    → all no_slash (stem ++ ext) ≡ true
    → IsExtension stem ext
    → has_extension e f ≡ text_mem (without_period ext) (get_all_extensions e)
unfolding has_extension
has_extension-in_directory e directory stem ext f same plain_text is =
    let cut : (split_ext f).1 ≡ ext =
      ap (λ t. (split_ext t).1) same ∙ split_ext-in_directory directory stem ext plain_text is in
    ap (λ t. text_mem (drop 1 t) (get_all_extensions e)) cut ∙ by_extension ext
  where
    by_extension :
        (x : Text)
        → text_mem (drop 1 x) (get_all_extensions e)
          ≡ text_mem (without_period x) (get_all_extensions e)
    by_extension [] = refl
    by_extension (c ∷ x) = refl

-- Let a name be a base name, alone or behind a directory and a slash, of a stem and an extension
-- as Split takes them apart. If Python goes through the members of a set and no others, the name
-- is among those that ParseArguments returns exactly if it is one of the names given, or, with
-- --recursive, its extension without the period is a valid one, and it is given and no directory,
-- or it is the path, without `./` in front, of a file that os.walk finds below a directory that is
-- given; and its absolute path is not that of an excluded name.
pub select_files-exact :
    (d : Disk) (directory : Option Text) (stem ext f : Text) (filenames : List Text) (l : Locals)
    → f ≡ in_directory directory (stem ++ ext)
    → all no_slash (stem ++ ext) ≡ true
    → IsExtension stem ext
    → ((x : Text) (xs : List Text) → text_mem x (d.set_order xs) ≡ text_mem x xs)
    → text_mem f (select_files d filenames l) ≡ (
        (if l.recursive
          then text_mem (without_period ext) (get_all_extensions l.globals.settings.extensions)
            && any (stands_for d f) filenames
          else text_mem f filenames)
        && not (is_left_out d l.globals.excludes f))
unfolding select_files
select_files-exact d directory stem ext f filenames l same plain_text is order =
    let e = l.globals.settings.extensions in
    rw
      (
        text_mem-if_excludes d f l.globals.excludes _,
        text_mem-if f l.recursive (expand_directories d e filenames) filenames,
        text_mem-expand_directories d e f filenames order,
        has_extension-in_directory e directory stem ext f same plain_text is,
        is_excluded-is_left_out d l.globals.excludes f,
      )
      refl
