-- ===== src/Cpplint/IncludeState/Headers.antt =====
-- What FindHeader finds behind the recording of a header and behind an `#else`.
use adv_database_implementat.Base.{
  ℕ, true, false, Option, none, some, List, [], ◌∷◌, ◌++◌, Text, codes, ◌=t=◌, if◌then◌else◌,
  text_mem, arith, ◌≡◌, refl, ◌∙◌, ap, sym,
}
use adv_database_implementat.Cpplint.IncludeState.{
  IncludeState, find_header, find_in_list, find_in_section, or_later, reset_section, add_include,
}

abbrev pub at_if : Text → Text → ℕ → Option ℕ
at_if header include linenum = if include =t= header then some linenum else none

or_later_assoc : (a b c : Option ℕ) → or_later (or_later a b) c ≡ or_later a (or_later b c)
or_later_assoc none b c = refl
or_later_assoc (some n) b c = refl

or_later-none : (a : Option ℕ) → or_later a none ≡ a
or_later-none none = refl
or_later-none (some n) = refl

find_in_section-append :
    (header : Text) (xs ys : List (Text × ℕ))
    → find_in_section header (xs ++ ys)
      ≡ or_later (find_in_section header xs) (find_in_section header ys)
unfolding find_in_section
find_in_section-append header [] ys = refl
find_in_section-append header ((f, n) ∷ xs) ys = ground (arith, find_in_section-append header xs ys)

find_in_list-append :
    (header : Text) (xs ys : List (List (Text × ℕ)))
    → find_in_list header (xs ++ ys) ≡ or_later (find_in_list header xs) (find_in_list header ys)
unfolding find_in_list
find_in_list-append header [] ys = refl
find_in_list-append header (x ∷ xs) ys =
    ap (or_later (find_in_section header x)) (find_in_list-append header xs ys)
    ∙ sym (
        or_later_assoc (find_in_section header x) (find_in_list header xs) (find_in_list header ys))

find_header-parts :
    (header : Text) (s : IncludeState)
    → find_header header s
      ≡ or_later (find_in_list header s.earlier) (find_in_section header s.current)
unfolding find_header find_in_list
find_header-parts header s =
    find_in_list-append header s.earlier (s.current ∷ [])
    ∙ ap (or_later (find_in_list header s.earlier))
        (or_later-none (find_in_section header s.current))

-- After a header is recorded, FindHeader gives for every header the line that it gave before, or,
-- if it gave none, the new line if the header is the new one.
pub find_header-add_include :
    (header include : Text) (linenum : ℕ) (s : IncludeState)
    → find_header header (add_include include linenum s)
      ≡ or_later (find_header header s) (at_if header include linenum)
unfolding add_include find_in_section
find_header-add_include header include linenum s = ground (
  arith,
  find_header-parts header (add_include include linenum s),
  find_header-parts header s,
  find_in_section-append header s.current ((include, linenum) ∷ []),
)

-- The includes between two directives.
unfoldable pub add_includes : List (Text × ℕ) → IncludeState → IncludeState
add_includes [] s = s
add_includes ((include, linenum) ∷ rest) s = add_includes rest (add_include include linenum s)

add_includes-earlier :
    (xs : List (Text × ℕ)) (s : IncludeState) → (add_includes xs s).earlier ≡ s.earlier
unfolding add_includes add_include
add_includes-earlier [] s = refl
add_includes-earlier ((f, n) ∷ xs) s = add_includes-earlier xs (add_include f n s)

reset_section-closing :
    (closing : Text) (s : IncludeState)
    → text_mem closing (codes "if" ∷ codes "ifdef" ∷ codes "ifndef" ∷ []) ≡ false
    → text_mem closing (codes "else" ∷ codes "elif" ∷ []) ≡ true
    → ((reset_section closing s).earlier ≡ s.earlier) × ((reset_section closing s).current ≡ [])
unfolding reset_section
reset_section-closing closing s c d = rw (c, d) (refl, refl)

reset_section-opening :
    (opening : Text) (s : IncludeState)
    → text_mem opening (codes "if" ∷ codes "ifdef" ∷ codes "ifndef" ∷ []) ≡ true
    → (reset_section opening s).earlier ≡ s.earlier ++ s.current ∷ []
unfolding reset_section
reset_section-opening opening s o = rw o

-- The headers included between an `#if`, `#ifdef` or `#ifndef` and its `#else` or `#elif` are
-- forgotten there: each header is found exactly where it was found before the branch.
pub find_header-branch :
    (opening closing header : Text) (xs : List (Text × ℕ)) (s : IncludeState)
    → text_mem opening (codes "if" ∷ codes "ifdef" ∷ codes "ifndef" ∷ []) ≡ true
    → text_mem closing (codes "if" ∷ codes "ifdef" ∷ codes "ifndef" ∷ []) ≡ false
    → text_mem closing (codes "else" ∷ codes "elif" ∷ []) ≡ true
    → find_header header (reset_section closing (add_includes xs (reset_section opening s)))
      ≡ find_header header s
unfolding find_header
find_header-branch opening closing header xs s o c d =
    let t = add_includes xs (reset_section opening s) in
    let (same, empty) = reset_section-closing closing t c d in
    rw
      (
        same,
        empty,
        add_includes-earlier xs (reset_section opening s),
        reset_section-opening opening s o,
      )
      (find_in_list-append header (s.earlier ++ s.current ∷ []) ([] ∷ [])
        ∙ (unfold find_in_list find_in_section in
            or_later-none (find_in_list header (s.earlier ++ s.current ∷ []))))
