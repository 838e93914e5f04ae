-- ===== src/Cpplint/Paths.antt =====
-- PathSplitToList of cpplint.py, with `os.path.split`, `os.path.dirname` and `os.path.join` of a
-- POSIX system.
pub mod Components
pub mod RoundTrip
use adv_database_implementat.Base.{
  ℕ, zero, suc, ◌+◌, Bool, true, false, ◌||◌, Option, none, some, List, [], ◌∷◌, ◌++◌, Text, length,
  all, starts_with, ends_with, ◌==◌, ◌=t=◌, if◌then◌else◌,
}

abbrev pub is_slash : ℕ → Bool
is_slash c = c == b'/'

abbrev pub add_half : ℕ → Text → Text → Text × Text
add_half c [] tail = if is_slash c then (c ∷ [], tail) else ([], c ∷ tail)
add_half c (d ∷ head) tail = (c ∷ d ∷ head, tail)

-- The text up to the last slash, and the text behind it.
unfoldable pub halves : Text → Text × Text
halves [] = ([], [])
halves (c ∷ s) = let (head, tail) = halves s in add_half c head tail

abbrev pub cons_unless_slash : ℕ → Text → Text
cons_unless_slash c [] = if is_slash c then [] else c ∷ []
cons_unless_slash c (d ∷ s) = c ∷ d ∷ s

-- s.rstrip('/')
unfoldable pub rstrip_slashes : Text → Text
rstrip_slashes [] = []
rstrip_slashes (c ∷ s) = cons_unless_slash c (rstrip_slashes s)

unfoldable pub trim_head : Text → Text
trim_head head = if all is_slash head then head else rstrip_slashes head

-- os.path.split(path), os.path.dirname(path)
unfoldable pub split_path : Text → Text × Text
split_path path = (trim_head (halves path).0, (halves path).1)

unfoldable pub dirname : Text → Text
dirname path = (split_path path).0

-- os.path.join of two parts, and of a list that is not empty.
unfoldable pub join_two : Text → Text → Text
join_two [] part = part
join_two (c ∷ path) part =
    if starts_with part (b'/' ∷ [])
    then part
    else (if ends_with (c ∷ path) (b'/' ∷ [])
        then (c ∷ path) ++ part
        else (c ∷ path) ++ b'/' ∷ part)

unfoldable pub join_from : Text → List Text → Text
join_from path [] = path
join_from path (part ∷ parts) = join_from (join_two path part) parts

unfoldable pub join_path : List Text → Text
join_path [] = []
join_path (part ∷ parts) = join_from part parts

-- The loop of PathSplitToList, on fuel: `none` where it runs out. `lst` is the source's list from its
-- end, and so the result is in the order of the last `reverse`.
unfoldable pub split_loop : ℕ → Text → List Text → Option (List Text)
split_loop zero path lst = none
split_loop (suc fuel) path lst =
    let (head, tail) = split_path path in
    let more = split_loop fuel head (tail ∷ lst) in
    if head =t= path then some (head ∷ lst) else (if tail =t= path then some (tail ∷ lst) else more)

unfoldable pub path_split_to_list : Text → Option (List Text)
path_split_to_list path = split_loop (suc (length path)) path []
