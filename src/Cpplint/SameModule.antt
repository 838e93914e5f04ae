-- ===== src/Cpplint/SameModule.antt =====
-- The extensions of C++ files in cpplint.py, and FilesBelongToSameModule.
-- FileInfo.Split asks the file system where the repository begins; it is a parameter here.
use adv_database_implementat.Base.{
  ℕ, zero, suc, ◌-◌, Bool, true, false, not, Option, none, some, List, [], ◌∷◌, ◌++◌, Text, codes,
  length, take, ◌==◌, if◌then◌else◌, char_mem, text_mem, replace, ends_with,
}
use adv_database_implementat.Regex.{
  Re, Matched, group, eol, first_of_lits, ◌⨾◌, search_text, group_of, or_empty,
}

-- _hpp_headers and _valid_extensions: Python's sets as lists.
pub record Extensions : Type 0 where
  pub hpp_headers : List Text
  pub valid_extensions : List Text

abbrev or_if_empty : List Text → List Text → List Text
or_if_empty [] other = other
or_if_empty (x ∷ xs) other = x ∷ xs

abbrev keep_if : Bool → Text → List Text → List Text
keep_if b x xs = if b then x ∷ xs else xs

-- {h for h in extensions if 'h' in h}
unfoldable pub with_h : List Text → List Text
with_h [] = []
with_h (x ∷ xs) = keep_if (char_mem b'h' x) x (with_h xs)

abbrev default_headers : List Text
default_headers =
    codes "h" ∷ codes "hh" ∷ codes "hpp" ∷ codes "hxx" ∷ codes "h++" ∷ codes "cuh" ∷ []

abbrev default_sources : List Text
default_sources = codes "c" ∷ codes "cc" ∷ codes "cpp" ∷ codes "cxx" ∷ codes "c++" ∷ codes "cu" ∷ []

abbrev headers_of_valid : List Text → List Text
headers_of_valid [] = default_headers
headers_of_valid (x ∷ xs) = with_h (x ∷ xs)

unfoldable pub get_header_extensions : Extensions → List Text
get_header_extensions e = or_if_empty e.hpp_headers (headers_of_valid e.valid_extensions)

unfoldable pub is_header_extension : Extensions → Text → Bool
is_header_extension e file_extension = text_mem file_extension (get_header_extensions e)

unfoldable pub get_all_extensions : Extensions → List Text
get_all_extensions e = get_header_extensions e ++ or_if_empty e.valid_extensions default_sources

unfoldable pub difference : List Text → List Text → List Text
difference [] ys = []
difference (x ∷ xs) ys = keep_if (not (text_mem x ys)) x (difference xs ys)

unfoldable pub get_non_header_extensions : Extensions → List Text
get_non_header_extensions e = difference (get_all_extensions e) (get_header_extensions e)

-- s[:-n]: empty where n is 0.
unfoldable pub drop_end : ℕ → Text → Text
drop_end zero s = []
drop_end (suc n) s = take (length s - suc n) s

-- s.lstrip('.')
unfoldable pub lstrip_dots : Text → Text
lstrip_dots [] = []
lstrip_dots (c ∷ s) = let rest = lstrip_dots s in if c == b'.' then rest else c ∷ s

unfoldable pub test_file_suffix : Re
test_file_suffix = group 1 (first_of_lits ("_test" ∷ "_regtest" ∷ "_unittest" ∷ [])) ⨾ eol

abbrev without_suffix : Text → Option Matched → Text
without_suffix filename none = filename
without_suffix filename (some m) = drop_end (length (or_empty (group_of m 1))) filename

unfoldable pub without_roots : Text → Text
without_roots s =
    replace (replace s (codes "/public/") (codes "/")) (codes "/internal/") (codes "/")

-- The result of FileInfo.Split.
pub record FileParts : Type 0 where
  pub directory : Text
  pub base_name : Text
  pub extension : Text

-- What is compared of the source file, for its base name and extension.
unfoldable pub source_stem : Text → Text → Text → Text
source_stem base_name extension filename_cc = without_roots (
    without_suffix (drop_end (length extension) filename_cc)
      (search_text test_file_suffix base_name))

-- What is compared of the header.
unfoldable pub header_stem : Text → Text → Text
header_stem extension filename_h =
    let name = drop_end (length extension) filename_h in
    without_roots (if ends_with name (codes "-inl") then drop_end 4 name else name)

unfoldable pub common_path : Text → Text → Bool × Text
common_path source header =
    if ends_with source header then (true, drop_end (length header) source) else (false, [])

-- `split filename` is what FileInfo(filename).Split() gives.
unfoldable pub files_belong_to_same_module :
    (Text → FileParts) → Extensions → Text → Text → Bool × Text
files_belong_to_same_module split e filename_cc filename_h =
    let source = split filename_cc in
    let header = split filename_h in
    if not (text_mem (lstrip_dots source.extension) (get_non_header_extensions e))
    then (false, [])
    else if not (is_header_extension e (lstrip_dots header.extension))
    then (false, [])
    else common_path (source_stem source.base_name source.extension filename_cc)
        (header_stem header.extension filename_h)
