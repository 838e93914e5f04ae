-- ===== src/Base/Str.antt =====
-- Texts as lists of code points, with the methods of Python's `str` that the scripts call.
-- An index that Python gives as -1 is `none`. Letters and blanks are those of ASCII.
use Prim.Native.Nat.{ℕ, zero, suc, ◌+◌, ◌-◌}
use Prim.Native.Char.{code}
use Prim.Native.String.{String}
use mathlib.Core.Path.{◌≡◌, refl}
use mathlib.Core.Logic.{◌↔◌}
use mathlib.Core.Bool.{Bool, true, false, ◌&&◌, ◌||◌}
use mathlib.Core.Option
use mathlib.Core.Option.{Option, none, some}
use mathlib.Core.List.{List, [], ◌∷◌, ◌++◌, map, reverse}
use native.Mathlib.Omega.{arith}
use adv_database_implementat.Base.Tests.{ltb, leb, ◌==◌, if◌then◌else◌}
use adv_database_implementat.Base.Lists.{length}

abbrev pub Text : Type 0
Text = List ℕ

-- The code points of a literal. `String` has its own `[]` and `∷`.
abbrev pub codes : String → Text
codes String.[] = []
codes (String.◌∷◌ c s) = code c ∷ codes s

-- a == b
infix 50 ◌=t=◌
abbrev pub ◌=t=◌ : Text → Text → Bool
[] =t= [] = true
[] =t= (d ∷ t) = false
(c ∷ s) =t= [] = false
(c ∷ s) =t= (d ∷ t) = c == d && s =t= t

-- a < b, by code points.
unfoldable pub text_lt : Text → Text → Bool
text_lt s [] = false
text_lt [] (d ∷ t) = true
text_lt (c ∷ s) (d ∷ t) = ltb c d || (c == d && text_lt s t)

-- x in xs, for a list of texts.
unfoldable pub text_mem : Text → List Text → Bool
text_mem s [] = false
text_mem s (t ∷ ts) = s =t= t || text_mem s ts

-- c in s, for a character.
unfoldable pub char_mem : ℕ → Text → Bool
char_mem c [] = false
char_mem c (d ∷ s) = c == d || char_mem c s

-- s.startswith(p)
unfoldable pub starts_with : Text → Text → Bool
starts_with s [] = true
starts_with [] (d ∷ p) = false
starts_with (c ∷ s) (d ∷ p) = c == d && starts_with s p

-- s.endswith(p)
unfoldable pub ends_with : Text → Text → Bool
unfolding starts_with
ends_with s p = starts_with (reverse s) (reverse p)

-- s.find(p)
unfoldable pub find : Text → Text → Option ℕ
unfolding starts_with
find [] p = if starts_with [] p then some 0 else none
find (c ∷ s) p =
    let later = find s p in if starts_with (c ∷ s) p then some 0 else Option.map suc later

-- The pieces of a replacement: `skip` characters of a match are still to be passed over.
unfoldable pub replace_from : ℕ → Text → Text → Text → Text
unfolding starts_with
replace_from skip old new [] = []
replace_from (suc skip) old new (c ∷ s) = replace_from skip old new s
replace_from zero old new (c ∷ s) =
    let hit = starts_with (c ∷ s) old in
    (if hit then new else c ∷ []) ++ replace_from (if hit then length old - 1 else 0) old new s

-- s.replace(old, new), for an `old` that is not empty.
unfoldable pub replace : Text → Text → Text → Text
unfolding replace_from
replace s old new = replace_from 0 old new s

unfoldable pub count_from : ℕ → Text → Text → ℕ
unfolding starts_with
count_from skip p [] = 0
count_from (suc skip) p (c ∷ s) = count_from skip p s
count_from zero p (c ∷ s) =
    let hit = starts_with (c ∷ s) p in
    (if hit then 1 else 0) + count_from (if hit then length p - 1 else 0) p s

-- s.count(p), for a `p` that is not empty: matches that do not overlap.
unfoldable pub count : Text → Text → ℕ
unfolding count_from
count s p = count_from 0 p s

unfoldable pub is_space : ℕ → Bool
is_space c = c == b' ' || (leb 9 c && leb c 13)

-- s.lstrip(), s.rstrip(), s.strip()
unfoldable pub lstrip : Text → Text
unfolding is_space
lstrip [] = []
lstrip (c ∷ s) = let rest = lstrip s in if is_space c then rest else c ∷ s

unfoldable pub rstrip : Text → Text
unfolding lstrip
rstrip s = reverse (lstrip (reverse s))

unfoldable pub strip : Text → Text
unfolding lstrip rstrip
strip s = rstrip (lstrip s)

-- Puts `c` before the first piece.
abbrev extend_first : ℕ → List Text → List Text
extend_first c [] = (c ∷ []) ∷ []
extend_first c (p ∷ ps) = (c ∷ p) ∷ ps

-- s.split(sep), for a separator of one character.
unfoldable pub split : ℕ → Text → List Text
split sep [] = [] ∷ []
split sep (c ∷ s) = let rest = split sep s in if c == sep then [] ∷ rest else extend_first c rest

unfoldable pub to_lower : ℕ → ℕ
to_lower c = if leb b'A' c && leb c b'Z' then c + 32 else c

unfoldable pub to_upper : ℕ → ℕ
to_upper c = if leb b'a' c && leb c b'z' then c - 32 else c

-- s.lower(), s.upper()
unfoldable pub lower : Text → Text
unfolding to_lower
lower = map to_lower

unfoldable pub upper : Text → Text
unfolding to_upper
upper = map to_upper

pub =t=_refl : (s : Text) → (s =t= s) ≡ true
=t=_refl [] = refl
=t=_refl (c ∷ s) = ground (arith, =t=_refl s)

pub =t=→≡ : (s t : Text) → (s =t= t) ≡ true → s ≡ t
=t=→≡ [] [] h = refl
=t=→≡ [] (d ∷ t) h = ground arith
=t=→≡ (c ∷ s) [] h = ground arith
=t=→≡ (c ∷ s) (d ∷ t) h = ground (arith, =t=→≡ s t)

pub ≡→=t= : (s t : Text) → s ≡ t → (s =t= t) ≡ true
≡→=t= s t h = ground (arith, =t=_refl s)

pub =t=_iff : (s t : Text) → ((s =t= t) ≡ true) ↔ (s ≡ t)
=t=_iff s t = (=t=→≡ s t, ≡→=t= s t)
