-- ===== src/Cpplint/FileInfo.antt =====
-- The class FileInfo of cpplint.py on a POSIX system: FullName, RepositoryName and Split. The file
-- system, the working directory and `os.path.relpath` are parameters.
pub mod Top
use adv_database_implementat.Base.{
  ℕ, zero, suc, ◌+◌, Bool, true, false, ◌||◌, Option, none, some, List, [], ◌∷◌, ◌++◌, Text, String,
  codes, length, drop, replace, ◌==◌, ◌=t=◌, if◌then◌else◌,
}
use adv_database_implementat.Cpplint.Paths.{split_path, dirname, join_two}

-- os.path.exists, abspath and relpath, and _repository, empty where it is not set.
pub record Files : Type 0 where
  pub exists : Text → Bool
  pub abspath : Text → Text
  pub relpath : Text → Text → Text
  pub repository : Text

-- s.replace('\\', '/')
abbrev slashes : Text → Text
slashes s = replace s (codes "\\") (codes "/")

unfoldable pub full_name : Files → Text → Text
full_name f filename = slashes (f.abspath filename)

-- The walk up to the directory that the user gave, on fuel; os.path.normcase changes nothing. The outer
-- `none` is a walk that the fuel does not last for, the inner one a walk that does not find it.
unfoldable pub find_repository : Files → ℕ → Text → Text → Text → Option (Option Text)
find_repository f zero fullname repo root_dir = none
find_repository f (suc fuel) fullname repo root_dir =
    let one_up_dir = dirname root_dir in
    let further = find_repository f fuel fullname repo one_up_dir in
    if f.exists root_dir
    then (if root_dir =t= repo
        then some (some (slashes (f.relpath fullname root_dir)))
        else (if one_up_dir =t= root_dir then some none else further))
    else some none

-- The walk up the directories with `.svn`, on fuel.
unfoldable pub svn_root : Files → ℕ → Text → Text → Option Text
svn_root f zero root_dir one_up_dir = none
svn_root f (suc fuel) root_dir one_up_dir =
    let further = svn_root f fuel (dirname root_dir) (dirname one_up_dir) in
    if f.exists (join_two one_up_dir (codes ".svn")) then further else some root_dir

unfoldable pub has_vcs : Files → Text → Bool
has_vcs f dir =
    f.exists (join_two dir (codes ".git"))
    || (f.exists (join_two dir (codes ".hg")) || f.exists (join_two dir (codes ".svn")))

-- The walk up to the top directory, on fuel.
unfoldable pub vcs_root : Files → ℕ → Text → Text → Option Text
vcs_root f zero root_dir current_dir = none
vcs_root f (suc fuel) root_dir current_dir =
    let next = if has_vcs f current_dir then current_dir else root_dir in
    let further = vcs_root f fuel next (dirname current_dir) in
    if dirname current_dir =t= current_dir then some root_dir else further

-- os.path.commonprefix of two texts
unfoldable pub common_prefix : Text → Text → Text
common_prefix [] t = []
common_prefix (c ∷ s) [] = []
common_prefix (c ∷ s) (d ∷ t) = let rest = common_prefix s t in if c == d then c ∷ rest else []

unfoldable pub below_root : Text → Text → Text → Text
below_root fullname project_dir root_dir =
    drop (length (common_prefix root_dir project_dir) + 1) fullname

abbrev pub below_svn : Text → Text → Option Text → Option Text
below_svn fullname project_dir none = none
below_svn fullname project_dir (some root_dir) = some (below_root fullname project_dir root_dir)

abbrev pub below_vcs : Files → Text → Text → Option Text → Option Text
below_vcs f fullname project_dir none = none
below_vcs f fullname project_dir (some root_dir) =
    some (if has_vcs f root_dir then below_root fullname project_dir root_dir else fullname)

-- Behind the search for the repository that the user gave.
unfoldable pub search_vcs : Files → Text → Text → Option Text
search_vcs f fullname project_dir =
    if f.exists (join_two project_dir (codes ".svn"))
    then below_svn fullname project_dir
        (svn_root f (suc (length project_dir)) project_dir (dirname project_dir))
    else below_vcs f fullname project_dir
        (vcs_root f (suc (length project_dir)) project_dir project_dir)

abbrev pub or_search : Option (Option Text) → Option Text → Option Text
or_search none searched = none
or_search (some (some name)) searched = some name
or_search (some none) searched = searched

-- `none` where a walk does not end.
unfoldable pub repository_name : Files → Text → Option Text
repository_name f filename =
    let fullname = full_name f filename in
    let project_dir = dirname fullname in
    let searched = search_vcs f fullname project_dir in
    if f.exists fullname
    then (if f.repository =t= []
        then searched
        else or_search
            (find_repository f (suc (length project_dir)) fullname (full_name f f.repository)
              project_dir)
            searched)
    else some fullname
