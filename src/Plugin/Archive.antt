-- ===== src/Plugin/Archive.antt =====
-- internal/plugin/manager.go: how the archive of a plugin is read, checked and unpacked.
use runixo_agent.Prelude.{
  ℕ, ◌≡◌, Bool, true, false, not, ◌&&◌, ◌||◌, Option, none, some, List, [], ◌∷◌, ◌++◌, Text, codes,
  text_eq, has_prefix, if◌then◌else◌,
}
use runixo_agent.Security.Path.{join_path, abs_path, dir_path}
use runixo_agent.Plugin.{
  PluginError, bad_archive, path_traversal, download_failed, system_error, unknown_source,
}
pub mod Inside

pub data EntryType : Type 0 where
  directory regular other : EntryType

pub record Entry : Type 0 where
  pub name : Text
  pub kind : EntryType
  pub content : Text

-- What the readers of gzip and tar make of a stream: no archive, or entries, and whether it ends
-- after them without an error.
pub data Archive : Type 0 where
  not_gzip : Archive
  entries : List Entry → Bool → Archive

-- What is done to the file system; `made_parent` makes the directory that the file stands in.
pub data Change : Type 0 where
  made_directory made_parent : Text → Change
  wrote : Text → Text → Change

-- The answers of the operating system and of the web server, the latter with whether the status
-- is 200.
pub record Outside : Type 0 where
  pub cwd : Text
  pub mkdir_all : Text → Bool
  pub write_file : Text → Text → Bool
  pub temporary : Bool
  pub unpack : Text → Archive
  pub get : Text → Option (Bool × Archive)

unfoldable pub is_inside : Text → Text → Bool
is_inside abs_dest abs_target =
    has_prefix abs_target (abs_dest ++ codes "/") || text_eq abs_target abs_dest

-- One entry at its target: the changes, and whether they succeeded. An entry that is neither a
-- directory nor a file is passed over.
unfoldable pub extract_entry : Outside → EntryType → Text → Text → List Change × Bool
extract_entry out directory target content =
    if out.mkdir_all target then (made_directory target ∷ [], true) else ([], false)
extract_entry out regular target content =
    if not (out.mkdir_all (dir_path target))
    then ([], false)
    else (made_parent target ∷ wrote target content ∷ [], out.write_file target content)
extract_entry out other target content = ([], true)

-- An error ends the loop, and what was done before it stays.
unfoldable pub extract_then :
    List Change × Bool → List Change × Option PluginError → List Change × Option PluginError
extract_then (changes, true) (rest, e) = (changes ++ rest, e)
extract_then (changes, false) rest = (changes, some system_error)

unfoldable pub extract_entries :
    Outside → Text → List Entry → Bool → List Change × Option PluginError
unfolding extract_then
extract_entries out dest [] true = ([], none)
extract_entries out dest [] false = ([], some bad_archive)
extract_entries out dest (e ∷ es) ends =
    let target = join_path dest e.name in
    let rest = extract_entries out dest es ends in
    if is_inside (abs_path out.cwd dest) (abs_path out.cwd target)
    then extract_then (extract_entry out e.kind target e.content) rest
    else ([], some path_traversal)

unfoldable pub extract_tar_gz : Outside → Text → Archive → List Change × Option PluginError
extract_tar_gz out dest not_gzip =
    if out.mkdir_all dest
    then (made_directory dest ∷ [], some bad_archive)
    else ([], some system_error)
extract_tar_gz out dest (entries es ends) =
    if out.mkdir_all dest
    then extract_then (made_directory dest ∷ [], true) (extract_entries out dest es ends)
    else ([], some system_error)

unfoldable pub download :
    Outside → Text → Option (Bool × Archive) → List Change × Option PluginError
download out dest none = ([], some download_failed)
download out dest (some (false, archive)) = ([], some download_failed)
download out dest (some (true, archive)) = extract_tar_gz out dest archive

unfoldable pub download_from_url : Outside → Text → Text → List Change × Option PluginError
download_from_url out url dest = download out dest (out.get url)

abbrev pub repo_url : Text
repo_url = codes "https://plugins.runixo.dev"

unfoldable pub download_from_repo : Outside → Text → Text → List Change × Option PluginError
download_from_repo out id dest =
    download_from_url out (repo_url ++ (codes "/plugins/" ++ (id ++ codes "/latest.tar.gz"))) dest

-- The data goes through a temporary file.
unfoldable pub extract_from_data : Outside → Text → Text → List Change × Option PluginError
extract_from_data out content dest =
    if out.temporary then extract_tar_gz out dest (out.unpack content) else ([], some system_error)

-- The switch of `InstallPlugin` over its sources.
unfoldable pub fetch : Outside → Text → Text → Text → Text → Text → List Change × Option PluginError
fetch out id source url content dest =
    if text_eq source (codes "official")
    then download_from_repo out id dest
    else if text_eq source (codes "url")
    then download_from_url out url dest
    else if text_eq source (codes "local")
    then extract_from_data out content dest
    else ([], some unknown_source)
