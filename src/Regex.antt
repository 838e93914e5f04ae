-- ===== src/Regex.antt =====
-- The regular expressions that the scripts hand to Python's `re`, as data, and the matcher that
-- `re` documents: leftmost, greedy before shorter, alternatives in order, with backtracking.
-- lab1_External_Sort/script/cpplint.py calls it by `Match`, `Search` and `ReplaceAll`.
pub mod Laws
pub mod Substring
pub mod Classes
use mathlib.Core.Option
use adv_database_implementat.Base.{
  ℕ, zero, suc, ◌+◌, ◌-◌, Bool, true, false, ◌&&◌, ◌||◌, not, Option, none, some, List, [], ◌∷◌,
  ◌++◌, reverse, String, Text, codes, length, take, drop, ltb, leb, ◌==◌, if◌then◌else◌, is_space,
  is_some, char_mem,
}

pub data Re : Type 0 where
  -- the empty pattern
  eps : Re
  -- one character of a class
  set : (ℕ → Bool) → Re
  seq alt : Re → Re → Re
  -- r* and r*?
  star lazy_star : Re → Re
  -- (r), by its number
  group : ℕ → Re → Re
  -- ^ $ \b
  bol eol word_boundary : Re
  -- (?=r) (?!r)
  ahead not_ahead : Re → Re

-- A place in a text: the characters before it, the nearest first, those behind it, and the
-- groups matched so far, the latest first.
pub record Cursor : Type 0 where
  pub before : Text
  pub rest : Text
  pub groups : List (ℕ × Text)

abbrev pub Kont : Type 0
Kont = Cursor → Option Cursor

-- The text between an earlier place and a later one.
unfoldable pub span : Cursor → Cursor → Text
span c d = reverse (take (length d.before - length c.before) d.before)

-- \w
unfoldable pub is_word : ℕ → Bool
is_word c =
    (leb b'a' c && leb c b'z')
    || (leb b'A' c && leb c b'Z')
    || (leb b'0' c && leb c b'9')
    || c == b'_'

unfoldable pub is_digit : ℕ → Bool
is_digit c = leb b'0' c && leb c b'9'

abbrev head_is_word : Text → Bool
head_is_word [] = false
head_is_word (c ∷ s) = is_word c

abbrev pub at_end : Text → Bool
at_end [] = true
at_end (c ∷ []) = c == b'\n'
at_end (c ∷ d ∷ s) = false

abbrev is_empty : Text → Bool
is_empty [] = true
is_empty (c ∷ s) = false

unfoldable pub or_else : Option Cursor → Option Cursor → Option Cursor
or_else none o = o
or_else (some c) o = some c

abbrev step_set : (ℕ → Bool) → Cursor → Text → Kont → Option Cursor
step_set p c [] k = none
step_set p c (x ∷ s) k =
    if p x then k (record { before = x ∷ c.before; rest = s; groups = c.groups }) else none

-- Repeats `body`, as often as it can and then less often, on fuel. A round that consumes
-- nothing is the last.
unfoldable pub repeat : ℕ → (Cursor → Kont → Option Cursor) → Cursor → Kont → Option Cursor
unfolding or_else
repeat zero body c k = k c
repeat (suc f) body c k =
    let again = body c (λ d.
      let more = repeat f body d k in if ltb (length d.rest) (length c.rest) then more else none) in
    or_else again (k c)

-- The same, less often first.
unfoldable pub repeat_lazy : ℕ → (Cursor → Kont → Option Cursor) → Cursor → Kont → Option Cursor
unfolding or_else
repeat_lazy zero body c k = k c
repeat_lazy (suc f) body c k =
    let again = body c (λ d.
      let more = repeat_lazy f body d k in
      if ltb (length d.rest) (length c.rest) then more else none) in
    elim (k c) [ some d ↦ some d | none ↦ again ]

-- Every way to match `r` from `c`, in order, each continued by `k`: the first that succeeds.
unfoldable pub run : Re → Cursor → Kont → Option Cursor
unfolding span is_word repeat repeat_lazy or_else
run eps c k = k c
run (set p) c k = step_set p c c.rest k
run (seq r s) c k = run r c (λ d. run s d k)
run (alt r s) c k = let other = run s c k in or_else (run r c k) other
run (star r) c k = repeat (length c.rest) (λ d k'. run r d k') c k
run (lazy_star r) c k = repeat_lazy (length c.rest) (λ d k'. run r d k') c k
run (group n r) c k = run r c (λ d. k (record d { groups = (n, span c d) ∷ d.groups }))
run bol c k = if is_empty c.before then k c else none
run eol c k = if at_end c.rest then k c else none
run word_boundary c k =
    if head_is_word c.before
    then (if head_is_word c.rest then none else k c)
    else (if head_is_word c.rest then k c else none)
run (ahead r) c k = if is_some (run r c some) then k c else none
run (not_ahead r) c k = if is_some (run r c some) then none else k c

abbrev pub start : Text → Cursor
start s = record { before = []; rest = s; groups = [] }

-- A match object: the text before the match, the match, the text behind it, and its groups.
pub record Matched : Type 0 where
  pub prefix : Text
  pub whole : Text
  pub suffix : Text
  pub groups : List (ℕ × Text)

abbrev pub to_match : Cursor → Cursor → Matched
to_match c d = record {
  prefix = reverse c.before;
  whole = span c d;
  suffix = d.rest;
  groups = d.groups;
}

lookup_group : ℕ → List (ℕ × Text) → Option Text
lookup_group n [] = none
lookup_group n ((m, s) ∷ gs) = if m == n then some s else lookup_group n gs

-- m.group(n): `none` where the group took no part in the match.
unfoldable pub group_of : Matched → ℕ → Option Text
unfolding lookup_group
group_of m n = lookup_group n m.groups

abbrev pub or_empty : Option Text → Text
or_empty none = []
or_empty (some s) = s

-- re.match(r, s): only at the start of `s`.
unfoldable pub match_at_start : Re → Text → Option Matched
unfolding run
match_at_start r s = Option.map (to_match (start s)) (run r (start s) some)

-- The leftmost match from a place on.
unfoldable pub search_from : Re → Text → Text → Option Matched
unfolding run
search_from r before [] =
    let c : Cursor = record { before = before; rest = []; groups = [] } in
    Option.map (to_match c) (run r c some)
search_from r before (x ∷ s) =
    let c : Cursor = record { before = before; rest = x ∷ s; groups = [] } in
    let later = search_from r (x ∷ before) s in
    elim (run r c some) [ some d ↦ some (to_match c d) | none ↦ later ]

-- re.search(r, s)
unfoldable pub search_text : Re → Text → Option Matched
unfolding search_from
search_text r s = search_from r [] s

-- re.sub(r, f, s), on fuel, for a pattern that matches no empty text: `f` gives the replacement
-- of a match. A round passes over at least one character, so `length s + 1` is enough.
unfoldable pub sub_from : ℕ → Re → (Matched → Text) → Text → Text → Text
unfolding search_from
sub_from zero r f before s = s
sub_from (suc fuel) r f before s = elim (search_from r before s) [
  | none ↦ s
  | some m ↦
      drop (length before) m.prefix
      ++ (f m ++ sub_from fuel r f (reverse m.whole ++ reverse m.prefix) m.suffix)
]

unfoldable pub sub : Re → (Matched → Text) → Text → Text
unfolding sub_from
sub r f s = sub_from (suc (length s)) r f [] s

-- The classes and shorthands that the patterns use.
abbrev pub chr : ℕ → Re
chr c = set (λ x. x == c)

abbrev pub any_char : Re
any_char = set (λ x. not (x == b'\n'))

abbrev pub space : Re
space = set is_space

abbrev pub not_space : Re
not_space = set (λ x. not (is_space x))

abbrev pub word : Re
word = set is_word

abbrev pub one_of : String → Re
one_of s = let cs = codes s in set (λ x. char_mem x cs)

abbrev pub none_of : String → Re
none_of s = let cs = codes s in set (λ x. not (char_mem x cs))

abbrev pub plus : Re → Re
plus r = seq r (star r)

abbrev pub opt : Re → Re
opt r = alt r eps

abbrev pub chars : Text → Re
chars [] = eps
chars (c ∷ []) = chr c
chars (c ∷ s) = seq (chr c) (chars s)

abbrev pub lit : String → Re
lit s = chars (codes s)

-- The first number is the first that is tried.
abbrev pub first_of_lits : List String → Re
first_of_lits [] = set (λ x. false)
first_of_lits (s ∷ []) = lit s
first_of_lits (s ∷ ss) = alt (lit s) (first_of_lits ss)

infixr 60 ◌⨾◌
abbrev pub ◌⨾◌ : Re → Re → Re
r ⨾ s = seq r s
