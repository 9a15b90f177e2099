-- ===== src/Executor/Files.antt =====
-- ReadFile, WriteFile and ListDirectory of internal/executor/executor.go.
use runixo_agent.Prelude.{
  ℕ, ◌-◌, ◌*◌, ◌%◌, Bool, true, false, not, ◌&&◌, ◌||◌, Option, none, some, List, [], ◌∷◌, ◌++◌,
  Text, codes, text_eq, length, ltb, ◌==◌, if◌then◌else◌,
}
use runixo_agent.Prelude.Int.{ℤ, pos, negsuc}
use runixo_agent.Security.Config.{SecurityConfig, default_security_config}
use runixo_agent.Security.Path.{join_path, dir_path}
use runixo_agent.Security.Paths.{PathError, validate_path, validate_path_for_write, sanitize_path}
pub mod Access
pub mod Writes

pub record FileInfo : Type 0 where
  pub name : Text
  pub path : Text
  pub size : ℕ
  pub mode : ℕ
  pub mod_time : ℕ
  pub is_dir : Bool

pub data FileError : Type 0 where
  bad_path is_directory too_large system_error : FileError
  denied denied_link denied_dir : PathError → FileError

pub data Result (A : Type 0) : Type 0 where
  ok : A → Result A
  err : FileError → Result A

-- What `os.Stat` gives.
pub record Stat : Type 0 where
  pub name : Text
  pub size : ℕ
  pub mode : ℕ
  pub mod_time : ℕ
  pub is_dir : Bool

-- The entries under a path; a file has none.
mutual
  pub data Tree : Type 0 where
    node : Text → Stat → Trees → Tree

  pub data Trees : Type 0 where
    no_trees : Trees
    more_trees : Tree → Trees → Trees

-- The answers of the file system. `walk` is what is under a directory, with the entries that
-- cannot be read left out, and `entries` what stands in it.
pub record FileSystem : Type 0 where
  pub eval_symlinks : Text → Option Text
  pub stat : Text → Option Stat
  pub read : Text → Option Text
  pub makes_dirs : Text → Bool
  pub writes : Text → Text → ℕ → Bool
  pub walk : Text → Tree
  pub entries : Text → Option (List Stat)

abbrev pub max_file_size : ℕ
max_file_size = 50 * 1024 * 1024

abbrev pub check : FileSystem → Text → Option PathError
check fs path = validate_path fs.eval_symlinks default_security_config path

abbrev pub check_write : FileSystem → Text → Option PathError
check_write fs path = validate_path_for_write fs.eval_symlinks default_security_config path

-- The file, its size checked, at the path that was found.
unfoldable pub read_content : FileSystem → Text → Stat → Option Text → Result (Text × FileInfo)
read_content fs path s none = err system_error
read_content fs path s (some content) = ok (
  content,
  record {
    name = s.name;
    path = path;
    size = s.size;
    mode = s.mode;
    mod_time = s.mod_time;
    is_dir = false;
  },
)

unfoldable pub read_stat : FileSystem → Text → Option Stat → Result (Text × FileInfo)
read_stat fs path none = err system_error
read_stat fs path (some s) =
    if s.is_dir
    then err is_directory
    else if ltb max_file_size s.size
    then err too_large
    else read_content fs path s (fs.read path)

unfoldable pub read_at : FileSystem → Text → Result (Text × FileInfo)
read_at fs path = read_stat fs path (fs.stat path)

unfoldable pub read_link : FileSystem → Text → Option PathError → Result (Text × FileInfo)
read_link fs real none = read_at fs real
read_link fs real (some e) = err (denied_link e)

-- Where the path is a link, its target is checked and read.
unfoldable pub read_real : FileSystem → Text → Option Text → Result (Text × FileInfo)
read_real fs path none = read_at fs path
read_real fs path (some real) =
    if text_eq real path then read_at fs path else read_link fs real (check fs real)

unfoldable pub read_checked : FileSystem → Text → Option PathError → Result (Text × FileInfo)
read_checked fs path none = read_real fs path (fs.eval_symlinks path)
read_checked fs path (some e) = err (denied e)

unfoldable pub read_clean : FileSystem → Option Text → Result (Text × FileInfo)
read_clean fs none = err bad_path
read_clean fs (some path) = read_checked fs path (check fs path)

unfoldable pub read_file : FileSystem → Text → Result (Text × FileInfo)
read_file fs path = read_clean fs (sanitize_path path)

-- Go's conversion of an `int64` to the 32 bits of `os.FileMode`, in two's complement.
abbrev pub to_uint32 : ℤ → ℕ
to_uint32 (pos n) = n % 4_294_967_296
to_uint32 (negsuc n) = 4_294_967_296 - 1 - n % 4_294_967_296

-- A mode whose 32 bits are 0 is 0644.
abbrev pub file_mode : ℤ → ℕ
file_mode mode = if to_uint32 mode == 0 then 420 else to_uint32 mode

-- A success is the path, the content and the mode that were written.
unfoldable pub write_at : FileSystem → Text → Text → ℤ → Result (Text × Text × ℕ)
write_at fs path content mode =
    if fs.writes path content (file_mode mode)
    then ok (path, content, file_mode mode)
    else err system_error

unfoldable pub write_dir :
    FileSystem → Text → Text → ℤ → Option PathError → Result (Text × Text × ℕ)
write_dir fs path content mode (some e) = err (denied_dir e)
write_dir fs path content mode none =
    if fs.makes_dirs (dir_path path) then write_at fs path content mode else err system_error

unfoldable pub write_checked :
    FileSystem → Text → Text → ℤ → Bool → Option PathError → Result (Text × Text × ℕ)
write_checked fs path content mode create_dirs (some e) = err (denied e)
write_checked fs path content mode create_dirs none =
    if ltb max_file_size (length content)
    then err too_large
    else if create_dirs
    then write_dir fs path content mode (check_write fs (dir_path path))
    else write_at fs path content mode

unfoldable pub write_clean : FileSystem → Option Text → Text → ℤ → Bool → Result (Text × Text × ℕ)
write_clean fs none content mode create_dirs = err bad_path
write_clean fs (some path) content mode create_dirs =
    write_checked fs path content mode create_dirs (check_write fs path)

unfoldable pub write_file : FileSystem → Text → Text → ℤ → Bool → Result (Text × Text × ℕ)
write_file fs path content mode create_dirs =
    write_clean fs (sanitize_path path) content mode create_dirs

abbrev pub is_hidden : Text → Bool
is_hidden [] = false
is_hidden (c ∷ name) = c == b'.'

abbrev pub info_at : Text → Stat → FileInfo
info_at path s = record {
  name = s.name;
  path = path;
  size = s.size;
  mode = s.mode;
  mod_time = s.mod_time;
  is_dir = s.is_dir;
}

-- `filepath.Walk`: a hidden directory is left out with all that is under it.
unfoldable mutual
  pub walk_tree : Bool → Tree → List FileInfo
  walk_tree show_hidden (node path s children) =
      let rest = walk_trees show_hidden children in
      if not show_hidden && is_hidden s.name then [] else info_at path s ∷ rest

  pub walk_trees : Bool → Trees → List FileInfo
  walk_trees show_hidden no_trees = []
  walk_trees show_hidden (more_trees t ts) = walk_tree show_hidden t ++ walk_trees show_hidden ts

unfoldable pub list_entries : Text → Bool → List Stat → List FileInfo
list_entries path show_hidden [] = []
list_entries path show_hidden (s ∷ ss) =
    let rest = list_entries path show_hidden ss in
    if not show_hidden && is_hidden s.name then rest else info_at (join_path path s.name) s ∷ rest

unfoldable pub list_read : Text → Bool → Option (List Stat) → Result (List FileInfo)
list_read path show_hidden none = err system_error
list_read path show_hidden (some ss) = ok (list_entries path show_hidden ss)

unfoldable pub list_checked :
    FileSystem → Text → Bool → Bool → Option PathError → Result (List FileInfo)
list_checked fs path recursive show_hidden (some e) = err (denied e)
list_checked fs path recursive show_hidden none =
    if recursive
    then ok (walk_tree show_hidden (fs.walk path))
    else list_read path show_hidden (fs.entries path)

unfoldable pub list_clean : FileSystem → Option Text → Bool → Bool → Result (List FileInfo)
list_clean fs none recursive show_hidden = err bad_path
list_clean fs (some path) recursive show_hidden =
    list_checked fs path recursive show_hidden (check fs path)

unfoldable pub list_directory : FileSystem → Text → Bool → Bool → Result (List FileInfo)
list_directory fs path recursive show_hidden =
    list_clean fs (sanitize_path path) recursive show_hidden
