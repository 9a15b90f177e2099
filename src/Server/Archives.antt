-- ===== src/Server/Archives.antt =====
-- internal/server/grpc.go: the checks of an archive before and after it is unpacked.
use runixo_agent.Prelude.{
  ℕ, Bool, true, false, not, ◌&&◌, ◌||◌, Option, none, some, List, [], ◌∷◌, ◌++◌, Text, codes,
  has_prefix, contains, if◌then◌else◌,
}
use runixo_agent.Security.Path.{is_abs, clean, join_path, dir_path, abs_path}
use runixo_agent.Plugin.Archive.{is_inside}
pub mod Accepted

pub data ArchiveError : Type 0 where
  cannot_open not_gzip bad_tar climbs absolute_link link_climbs : ArchiveError

-- An entry is a link, symbolic or hard, to a name, or something else.
pub data EntryKind : Type 0 where
  link : Text → EntryKind
  other : EntryKind

pub record Entry : Type 0 where
  pub name : Text
  pub kind : EntryKind

-- What the file is: not there, not compressed, or entries, and whether the archive ends after them.
pub data TarFile : Type 0 where
  missing uncompressed : TarFile
  entries : List Entry → Bool → TarFile

abbrev pub resolved_link : Text → Text → Text
resolved_link target name = join_path (dir_path target) (clean name)

unfoldable pub check_link : Text → Text → EntryKind → Option ArchiveError
check_link dest target other = none
check_link dest target (link name) =
    if is_abs (clean name)
    then some absolute_link
    else if not (is_inside dest (resolved_link target name))
    then some link_climbs
    else none

abbrev pub and_then : Option ArchiveError → Option ArchiveError → Option ArchiveError
and_then (some e) rest = some e
and_then none rest = rest

abbrev pub target_in : Text → Text → Text
target_in dest name = join_path dest (clean name)

unfoldable pub check_entry : Text → Entry → Option ArchiveError
check_entry dest e =
    if contains (clean e.name) (codes "..")
    then some climbs
    else if not (is_inside dest (target_in dest e.name))
    then some climbs
    else check_link dest (target_in dest e.name) e.kind

unfoldable pub check_entries : Text → List Entry → Bool → Option ArchiveError
check_entries dest [] true = none
check_entries dest [] false = some bad_tar
check_entries dest (e ∷ es) ends = and_then (check_entry dest e) (check_entries dest es ends)

unfoldable pub check_tar : Text → TarFile → Option ArchiveError
check_tar dest missing = some cannot_open
check_tar dest uncompressed = some not_gzip
check_tar dest (entries es ends) = check_entries dest es ends

-- `cwd` is the working directory.
unfoldable pub validate_tar_gz_before_extract : Text → Text → TarFile → Option ArchiveError
validate_tar_gz_before_extract cwd extract_to tar = check_tar (abs_path cwd extract_to) tar

-- Where the paths under the directory lead, those left out that cannot be resolved. The prefix is
-- compared without a slash after it.
unfoldable pub check_walked : Text → List (Option Text) → Bool
check_walked dest [] = true
check_walked dest (none ∷ reals) = check_walked dest reals
check_walked dest (some real ∷ reals) = has_prefix real dest && check_walked dest reals

unfoldable pub validate_extracted_files : Text → Text → List (Option Text) → Bool
validate_extracted_files cwd extract_to reals = check_walked (abs_path cwd extract_to) reals
