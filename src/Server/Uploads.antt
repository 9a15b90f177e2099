-- ===== src/Server/Uploads.antt =====
-- UploadFile of internal/server/grpc.go: a stream of messages, a file, and an archive unpacked.
use runixo_agent.Prelude.{
  ℕ, ◌+◌, ◌*◌, Bool, true, false, not, ◌&&◌, ◌||◌, Option, none, some, List, [], ◌∷◌, ◌++◌, Text,
  text_eq, length, ltb, if◌then◌else◌,
}
use runixo_agent.Security.Config.{default_security_config}
use runixo_agent.Security.Path.{dir_path}
use runixo_agent.Security.Paths.{PathError, validate_path_for_write, sanitize_path}
use runixo_agent.Server.Archives.{
  ArchiveError, TarFile, validate_tar_gz_before_extract, validate_extracted_files,
}
pub mod Limits
pub mod Safe

abbrev pub max_upload_size : ℕ
max_upload_size = 1024 * 1024 * 1024

pub record Start : Type 0 where
  pub path : Text
  pub total_size : ℕ
  pub is_tar_gz : Bool
  pub extract_to : Text
  pub create_dirs : Bool

pub data Message : Type 0 where
  start : Start → Message
  chunk : Text → Message
  finish : Message

pub data UploadError : Type 0 where
  too_large bad_path system_error no_start received_too_much broken_stream : UploadError
  unpack_failed left_directory no_data : UploadError
  denied : PathError → UploadError
  bad_archive : ArchiveError → UploadError

pub data Result (A : Type 0) : Type 0 where
  ok : A → Result A
  err : UploadError → Result A

-- The file that is open: its path and what was written to it; `received` counts all bytes.
pub record Upload : Type 0 where
  pub path : Text
  pub content : Text
  pub received : ℕ
  pub is_tar_gz : Bool
  pub extract_to : Text

-- The answers of the file system; `tar` is what a file is as an archive, and `walked` where the
-- paths under a directory lead after the archive is unpacked.
pub record Disk : Type 0 where
  pub cwd : Text
  pub eval_symlinks : Text → Option Text
  pub makes_dirs : Text → Bool
  pub opens : Text → Bool
  pub writes : Text → Bool
  pub tar : Text → TarFile
  pub unpacks : Text → Bool
  pub walked : Text → List (Option Text)

abbrev pub check_write : Disk → Text → Option PathError
check_write d path = validate_path_for_write d.eval_symlinks default_security_config path

abbrev pub received_of : Option Upload → ℕ
received_of none = 0
received_of (some u) = u.received

-- The count of bytes goes on from an earlier start.
unfoldable pub open_file : Disk → Option Upload → Start → Text → Text → Result Upload
open_file d o s path extract_to =
    if s.create_dirs && not (d.makes_dirs (dir_path path))
    then err system_error
    else if d.opens path
    then ok (record {
      path = path;
      content = [];
      received = received_of o;
      is_tar_gz = s.is_tar_gz;
      extract_to = extract_to;
    })
    else err system_error

unfoldable pub check_extract :
    Disk → Option Upload → Start → Text → Text → Option PathError → Result Upload
check_extract d o s path extract_to (some e) = err (denied e)
check_extract d o s path extract_to none = open_file d o s path extract_to

unfoldable pub clean_extract : Disk → Option Upload → Start → Text → Option Text → Result Upload
clean_extract d o s path none = err bad_path
clean_extract d o s path (some extract_to) =
    check_extract d o s path extract_to (check_write d extract_to)

abbrev pub wants_extract : Bool → Text → Bool
wants_extract is_tar_gz extract_to = is_tar_gz && not (text_eq extract_to [])

unfoldable pub start_checked :
    Disk → Option Upload → Start → Text → Option PathError → Result Upload
start_checked d o s path (some e) = err (denied e)
start_checked d o s path none =
    if wants_extract s.is_tar_gz s.extract_to
    then clean_extract d o s path (sanitize_path s.extract_to)
    else open_file d o s path s.extract_to

unfoldable pub start_clean : Disk → Option Upload → Start → Option Text → Result Upload
start_clean d o s none = err bad_path
start_clean d o s (some path) = start_checked d o s path (check_write d path)

unfoldable pub receive_start : Disk → Option Upload → Start → Result Upload
receive_start d o s =
    if ltb max_upload_size s.total_size
    then err too_large
    else start_clean d o s (sanitize_path s.path)

unfoldable pub receive_chunk : Disk → Text → Upload → Result Upload
receive_chunk d bytes u =
    let received = u.received + length bytes in
    if not (d.writes bytes)
    then err system_error
    else if ltb max_upload_size received
    then err received_too_much
    else ok (record u { content = u.content ++ bytes; received = received })

abbrev pub opened : Result Upload → Result (Option Upload)
opened (ok u) = ok (some u)
opened (err e) = err e

unfoldable pub receive : Disk → Message → Option Upload → Result (Option Upload)
receive d (start s) o = opened (receive_start d o s)
receive d (chunk bytes) none = err no_start
receive d (chunk bytes) (some u) = opened (receive_chunk d bytes u)
receive d finish o = ok o

abbrev pub and_then :
    Result (Option Upload) → (Option Upload → Result (Option Upload)) → Result (Option Upload)
and_then (ok o) f = f o
and_then (err e) f = err e

unfoldable pub receive_all : Disk → List Message → Option Upload → Result (Option Upload)
receive_all d [] o = ok o
receive_all d (m ∷ ms) o = and_then (receive d m o) (receive_all d ms)

-- What was stored: a file, or an archive that was unpacked and removed.
pub data Stored : Type 0 where
  file : Upload → Stored
  extracted : Upload → Stored

unfoldable pub extract_checked : Disk → Upload → Option ArchiveError → Result Stored
extract_checked d u (some e) = err (bad_archive e)
extract_checked d u none =
    if not (d.unpacks u.content)
    then err unpack_failed
    else if not (validate_extracted_files d.cwd u.extract_to (d.walked u.extract_to))
    then err left_directory
    else ok (extracted u)

unfoldable pub extract_upload : Disk → Upload → Result Stored
extract_upload d u =
    if not (d.makes_dirs u.extract_to)
    then err system_error
    else extract_checked d u (validate_tar_gz_before_extract d.cwd u.extract_to (d.tar u.content))

-- At the end of the stream.
unfoldable pub finish_upload : Disk → Option Upload → Result Stored
finish_upload d none = err no_data
finish_upload d (some u) =
    if wants_extract u.is_tar_gz u.extract_to then extract_upload d u else ok (file u)

abbrev pub finish_if : Disk → Bool → Result (Option Upload) → Result Stored
finish_if d ended (err e) = err e
finish_if d true (ok o) = finish_upload d o
finish_if d false (ok o) = err broken_stream

-- The messages, and whether the stream ends after them or breaks off.
unfoldable pub upload_file : Disk → List Message → Bool → Result Stored
upload_file d ms ended = finish_if d ended (receive_all d ms none)
