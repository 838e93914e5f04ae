-- ===== src/Cpplint/Includes/Classify.antt =====
-- _DropCommonSuffixes and _ClassifyInclude of cpplint.py, with os.path.splitext.
use adv_database_implementat.Base.{
  ℕ, ◌-◌, Bool, false, ◌&&◌, ◌||◌, not, Option, none, some, List, [], ◌∷◌, ◌++◌, Text, codes,
  length, take, get_or, ltb, ◌==◌, ◌=t=◌, if◌then◌else◌, replace, ends_with, text_mem, map,
}
use adv_database_implementat.Regex.{Re, Matched, plus, bol, none_of, ◌⨾◌, match_at_start}
use adv_database_implementat.Cpplint.Paths.{halves, split_path}
use adv_database_implementat.Cpplint.SameModule.{
  Extensions, get_header_extensions, get_non_header_extensions,
}
use adv_database_implementat.Cpplint.IncludeState.{
  HeaderType, c_sys_header, cpp_sys_header, likely_my_header, possible_my_header, other_header,
}
use adv_database_implementat.Cpplint.Includes.Standard.{cpp_headers}

abbrev pub cut_further : ℕ → Text → Option (Text × Text) → Option (Text × Text)
cut_further c s none = if c == b'.' then some ([], c ∷ s) else none
cut_further c s (some (root, ext)) = some (c ∷ root, ext)

-- The text before the last period and the text from it on.
unfoldable pub cut_at_dot : Text → Option (Text × Text)
cut_at_dot [] = none
cut_at_dot (c ∷ s) = cut_further c s (cut_at_dot s)

abbrev pub or_whole : Text → Option (Text × Text) → Text × Text
or_whole s none = (s, [])
or_whole s (some cut) = cut

-- os.path.splitext of a name without a slash: the periods that it begins with do not count.
unfoldable pub split_ext_name : Text → Text × Text
split_ext_name [] = ([], [])
split_ext_name (c ∷ s) =
    let (root, ext) = split_ext_name s in
    if c == b'.' then (c ∷ root, ext) else or_whole (c ∷ s) (cut_at_dot (c ∷ s))

unfoldable pub split_ext : Text → Text × Text
split_ext path =
    let (directory, name) = halves path in
    let (root, ext) = split_ext_name name in (directory ++ root, ext)

abbrev with_suffix : Text → List Text → List Text → List Text
with_suffix suffix [] rest = rest
with_suffix suffix (ext ∷ exts) rest = (suffix ++ b'.' ∷ ext) ∷ with_suffix suffix exts rest

unfoldable pub common_suffixes : Extensions → List Text
common_suffixes e =
    let sources = get_non_header_extensions e in
    let headers = get_header_extensions e in
    with_suffix (codes "test") sources (
      with_suffix (codes "regtest") sources (
        with_suffix (codes "unittest") sources (
          with_suffix (codes "inl") headers
            (with_suffix (codes "imp") headers (with_suffix (codes "internal") headers [])))))

-- The character before the suffix is `-` or `_`.
unfoldable pub ends_in_suffix : Text → Text → Bool
ends_in_suffix filename suffix =
    let c = get_or filename (length filename - length suffix - 1) 0 in
    ends_with filename suffix && (ltb (length suffix) (length filename) && (c == b'-' || c == b'_'))

unfoldable pub drop_suffix : Text → List Text → Text
drop_suffix filename [] = (split_ext filename).0
drop_suffix filename (suffix ∷ suffixes) =
    let rest = drop_suffix filename suffixes in
    if ends_in_suffix filename suffix
    then take (length filename - length suffix - 1) filename
    else rest

unfoldable pub drop_common_suffixes : Extensions → Text → Text
drop_common_suffixes e filename = drop_suffix filename (common_suffixes e)

-- ^[^-_.]+
unfoldable pub first_component : Re
first_component = bol ⨾ plus (none_of "-_.")

abbrev same_component : Option Matched → Option Matched → Bool
same_component none other = false
same_component (some m) none = false
same_component (some m) (some n) = m.whole =t= n.whole

-- `repository` is what fileinfo.RepositoryName() gives.
unfoldable pub classify_include : (Text → Text) → Extensions → Text → Text → Bool → HeaderType
classify_include normpath e repository include is_system =
    let cpp_extension =
      text_mem (split_ext include).1 (codes ".hpp" ∷ codes ".hxx" ∷ codes ".h++" ∷ []) in
    let (target_dir, target_base) = split_path (drop_common_suffixes e repository) in
    let (include_dir, include_base) = split_path (drop_common_suffixes e include) in
    let target_dir_pub =
      replace (normpath (target_dir ++ codes "/../public")) (codes "\\") (codes "/") in
    if is_system && not cpp_extension
    then (if text_mem include (map codes cpp_headers) then cpp_sys_header else c_sys_header)
    else (if target_base =t= include_base
          && (include_dir =t= target_dir || include_dir =t= target_dir_pub)
        then likely_my_header
        else (if same_component (match_at_start first_component target_base)
              (match_at_start first_component include_base)
            then possible_my_header
            else other_header))
