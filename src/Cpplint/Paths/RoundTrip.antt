-- ===== src/Cpplint/Paths/RoundTrip.antt =====
-- PathSplitToList on what os.path.join makes of the parts of a relative path.
use adv_database_implementat.Base.{
  ℕ, zero, suc, ◌<◌, ◌≤◌, Bool, true, false, not, ◌&&◌, some, List, [], ◌∷◌, ◌++◌, reverse,
  reverse_aux, reverse-reverse, Text, length, all, starts_with, ends_with, ◌=t=◌, =t=→≡, =t=_refl,
  All, arith, ◌≡◌, refl, ap, ◌∙◌, Bool-cases, inl, inr, length-append,
}
use mathlib.Core.List.{reverse-append}
use adv_database_implementat.Cpplint.Paths.{
  is_slash, halves, rstrip_slashes, trim_head, split_path, join_two, join_from, join_path,
  split_loop, path_split_to_list,
}

abbrev pub no_slash : ℕ → Bool
no_slash c = not (is_slash c)

-- A part of a path: not empty, without a slash.
unfoldable pub is_part : Text → Bool
is_part [] = false
is_part (c ∷ s) = all no_slash (c ∷ s)

both : (a b : Bool) → (a && b) ≡ true → (a ≡ true) × (b ≡ true)
both true b h = (refl, h)
both false b h = absurd (cc)

not_slash : (c : ℕ) → no_slash c ≡ true → is_slash c ≡ false
not_slash c h = ground arith

-- A path that ends in a character other than a slash.
unfoldable pub ends_solid : Text → Bool
ends_solid [] = false
ends_solid (c ∷ []) = no_slash c
ends_solid (c ∷ d ∷ s) = ends_solid (d ∷ s)

part-ends_solid : (c : Text) → is_part c ≡ true → ends_solid c ≡ true
unfolding is_part ends_solid
part-ends_solid [] h = absurd (cc)
part-ends_solid (c ∷ []) h = (both (no_slash c) true h).0
part-ends_solid (c ∷ d ∷ s) h =
    part-ends_solid (d ∷ s) (both (no_slash c) (all no_slash (d ∷ s)) h).1

append-ends_solid :
    (s : Text) (d : ℕ) (c : Text) → ends_solid c ≡ true → ends_solid (s ++ d ∷ c) ≡ true
unfolding ends_solid
append-ends_solid [] d [] h = absurd (cc)
append-ends_solid [] d (x ∷ c) h = h
append-ends_solid (x ∷ []) d c h = append-ends_solid [] d c h
append-ends_solid (x ∷ y ∷ s) d c h = append-ends_solid (y ∷ s) d c h

pub halves-part : (c : Text) → all no_slash c ≡ true → halves c ≡ ([], c)
unfolding halves
halves-part [] h = refl
halves-part (c ∷ s) h =
    let (here, rest) = both (no_slash c) (all no_slash s) h in
    rw (halves-part s rest, not_slash c here) refl

pub halves-slash :
    (s c : Text) → all no_slash c ≡ true → halves (s ++ b'/' ∷ c) ≡ (s ++ b'/' ∷ [], c)
unfolding halves
halves-slash [] c h = rw (halves-part c h) refl
halves-slash (x ∷ []) c h = rw (halves-slash [] c h) refl
halves-slash (x ∷ y ∷ s) c h = rw (halves-slash (y ∷ s) c h) refl

rstrip-solid : (s : Text) → ends_solid s ≡ true → rstrip_slashes (s ++ b'/' ∷ []) ≡ s
unfolding rstrip_slashes ends_solid
rstrip-solid [] h = absurd (cc)
rstrip-solid (c ∷ []) h = rw (not_slash c h) refl
rstrip-solid (c ∷ d ∷ s) h = rw (rstrip-solid (d ∷ s) h) refl

all-solid : (s : Text) → ends_solid s ≡ true → all is_slash (s ++ b'/' ∷ []) ≡ false
unfolding ends_solid
all-solid [] h = absurd (cc)
all-solid (c ∷ []) h = rw (not_slash c h) refl
all-solid (c ∷ d ∷ s) h = rw (all-solid (d ∷ s) h) (and_false (is_slash c))
  where
    and_false : (b : Bool) → (b && false) ≡ false
    and_false true = refl
    and_false false = refl

pub split_path-join :
    (s c : Text) → ends_solid s ≡ true → all no_slash c ≡ true → split_path (s ++ b'/' ∷ c) ≡ (s, c)
unfolding split_path trim_head
split_path-join s c solid part =
    rw (halves-slash s c part, all-solid s solid, rstrip-solid s solid) refl

-- The path of the parts that are listed from its end.
unfoldable path_of : Text → List Text → Text
path_of c [] = c
path_of c (d ∷ cs) = path_of d cs ++ b'/' ∷ c

abbrev pub Parts : List Text → Type 0
Parts = All (λ c. is_part c ≡ true)

path_of-solid : (c : Text) (cs : List Text) → is_part c ≡ true → ends_solid (path_of c cs) ≡ true
unfolding path_of
path_of-solid c [] h = part-ends_solid c h
path_of-solid c (d ∷ cs) h = append-ends_solid (path_of d cs) b'/' c (part-ends_solid c h)

part-no_slash : (c : Text) → is_part c ≡ true → all no_slash c ≡ true
unfolding is_part
part-no_slash [] h = refl
part-no_slash (x ∷ c) h = h

shorter-differs : (s t : Text) → length s < length t → (s =t= t) ≡ false
shorter-differs s t less = elim (Bool-cases (s =t= t)) [
  | inl same ↦ absurd (omega (arith, less, ap length (=t=→≡ s t same)))
  | inr other ↦ other
]

part-split : (c : Text) → is_part c ≡ true → (split_path c ≡ ([], c)) × (([] =t= c) ≡ false)
unfolding split_path trim_head is_part
part-split [] h = absurd (cc)
part-split (x ∷ c) h = (rw (halves-part (x ∷ c) h) refl, refl)

split_loop-path_of :
    (fuel : ℕ) (c : Text) (cs lst : List Text)
    → length cs < fuel
    → is_part c ≡ true
    → Parts cs
    → split_loop fuel (path_of c cs) lst ≡ some (reverse_aux cs (c ∷ lst))
unfolding split_loop path_of
split_loop-path_of zero c cs lst enough here rest = absurd (omega arith)
split_loop-path_of (suc fuel) c [] lst enough here rest =
    let (parts, empty) = part-split c here in rw (parts, empty, =t=_refl c) refl
split_loop-path_of (suc fuel) c (d ∷ cs) lst enough here rest =
    let path = path_of d cs in
    let len = length-append path (b'/' ∷ c) in
    rw
      (
        split_path-join path c (path_of-solid d cs rest.0) (part-no_slash c here),
        shorter-differs path (path ++ b'/' ∷ c) (omega (arith, len)),
        shorter-differs c (path ++ b'/' ∷ c) (omega (arith, len)),
      )
      (split_loop-path_of fuel d cs (c ∷ lst) (omega (arith, enough)) rest.0 rest.1)

solid-last :
    (s : Text)
    → ends_solid s ≡ true
    → (t : Text) × (x : ℕ) × (s ≡ t ++ x ∷ []) × (no_slash x ≡ true)
unfolding ends_solid
solid-last [] h = absurd (cc)
solid-last (c ∷ []) h = ([], c, refl, h)
solid-last (c ∷ d ∷ s) h =
    let (t, x, e, last) = solid-last (d ∷ s) h in (c ∷ t, x, ap (λ u. c ∷ u) e, last)

ends_with-solid : (s : Text) → ends_solid s ≡ true → ends_with s (b'/' ∷ []) ≡ false
unfolding ends_with starts_with
ends_with-solid s h =
    let (t, x, e, last) = solid-last s h in
    ap (λ u. starts_with (reverse u) (b'/' ∷ [])) e
    ∙ ap (λ u. starts_with u (b'/' ∷ [])) (reverse-append t (x ∷ []))
    ∙ rw (not_slash x last) refl

starts_with-part : (c : Text) → is_part c ≡ true → starts_with c (b'/' ∷ []) ≡ false
unfolding starts_with is_part
starts_with-part [] h = refl
starts_with-part (x ∷ c) h = rw (not_slash x (both (no_slash x) (all no_slash c) h).0) refl

join_two-path : (s c : Text) → ends_solid s ≡ true → is_part c ≡ true → join_two s c ≡ s ++ b'/' ∷ c
unfolding join_two ends_solid
join_two-path [] c solid part = absurd (cc)
join_two-path (x ∷ s) c solid part =
    rw (starts_with-part c part, ends_with-solid (x ∷ s) solid) refl

join_from-path_of :
    (c : Text) (cs more : List Text)
    → Parts (c ∷ cs)
    → Parts more
    → (d : Text) × (ds : List Text) × (join_from (path_of c cs) more ≡ path_of d ds)
      × (d ∷ ds ≡ reverse_aux more (c ∷ cs))
      × Parts (d ∷ ds)
unfolding join_from path_of
join_from-path_of c cs [] before rest = (c, cs, refl, refl, before)
join_from-path_of c cs (d ∷ more) before rest =
    let (e, es, joined, listed, parts) =
      join_from-path_of d (c ∷ cs) more (rest.0, before) rest.1 in
    (
      e,
      es,
      ap (λ path. join_from path more)
            (join_two-path (path_of c cs) d (path_of-solid c cs before.0) rest.0)
          ∙ joined,
      listed,
      parts,
    )

length-path_of : (c : Text) (cs : List Text) → length cs ≤ length (path_of c cs)
unfolding path_of
length-path_of c [] = omega arith
length-path_of c (d ∷ cs) =
    omega (arith, length-path_of d cs, length-append (path_of d cs) (b'/' ∷ c))

-- PathSplitToList gives back the parts that os.path.join has put together, if there is one and each
-- is not empty and has no slash.
pub path_split_to_list-join_path :
    (c : Text) (cs : List Text)
    → Parts (c ∷ cs)
    → path_split_to_list (join_path (c ∷ cs)) ≡ some (c ∷ cs)
unfolding path_split_to_list join_path path_of
path_split_to_list-join_path c cs parts =
    let (e, es, joined, listed, split) = join_from-path_of c [] cs (parts.0, tt) parts.1 in
    ap path_split_to_list joined
    ∙ split_loop-path_of (suc (length (path_of e es))) e es [] (omega (arith, length-path_of e es))
        split.0 split.1
    ∙ ap (λ l. some (reverse l)) listed
    ∙ ap some (reverse-reverse (c ∷ cs))
