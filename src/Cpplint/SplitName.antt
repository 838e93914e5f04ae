-- ===== src/Cpplint/SplitName.antt =====
-- FileInfo.Split of cpplint.py and the methods of FileInfo over it, on a POSIX system.
pub mod Joined
use adv_database_implementat.Base.{
  Bool, Option, none, some, List, [], ◌∷◌, ◌++◌, Text, drop, text_mem,
}
use adv_database_implementat.Cpplint.FileInfo.{Files, repository_name}
use adv_database_implementat.Cpplint.Paths.{split_path}
use adv_database_implementat.Cpplint.Includes.Classify.{split_ext}
use adv_database_implementat.Cpplint.SameModule.{FileParts, Extensions, get_non_header_extensions}

-- What Split does with the name that RepositoryName gives.
unfoldable pub parts_of : Text → FileParts
parts_of googlename =
    let (project, rest) = split_path googlename in
    let (root, ext) = split_ext rest in
    record { directory = project; base_name = root; extension = ext }

abbrev pub parts_if : Option Text → Option FileParts
parts_if none = none
parts_if (some googlename) = some (parts_of googlename)

-- `none` where RepositoryName does not end.
unfoldable pub split : Files → Text → Option FileParts
split f filename = parts_if (repository_name f filename)

unfoldable pub no_extension : FileParts → Text
no_extension p = p.directory ++ b'/' ∷ p.base_name

unfoldable pub is_source : Extensions → FileParts → Bool
is_source e p = text_mem (drop 1 p.extension) (get_non_header_extensions e)
