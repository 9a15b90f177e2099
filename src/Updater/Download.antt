-- ===== src/Updater/Download.antt =====
-- internal/updater/updater.go: the download of an archive, its checksum, and the binary in it.
use runixo_agent.Prelude.{
  ℕ, ◌≡◌, Bool, true, false, not, ◌&&◌, ◌||◌, Option, none, some, List, [], ◌∷◌, ◌++◌, Text, codes,
  text_eq, length, take, leb, ltb, ◌==◌, if◌then◌else◌, Dict, lookup, insert, delete, split, fields,
  prepend,
}
use runixo_agent.Security.Path.{join_path}
use runixo_agent.Security.Regex.{joined}
use runixo_agent.Updater.{
  UpdateInfo, UpdateError, download_failed, no_checksum, checksum_missing, checksum_mismatch,
  unpack_failed, system_error, not_available, Result, ok, failure, Updater, Body, World,
}
use runixo_agent.Updater.Check.{asset_name, check_update}
pub mod Untouched
pub mod Verified

-- The loop that reads and writes: what stands in the file, and whether every write succeeded.
unfoldable pub write_pieces : World → Text → Text → List Text → Text × Bool
write_pieces w path written [] = (written, true)
write_pieces w path written (piece ∷ pieces) =
    let rest = write_pieces w path (written ++ piece) pieces in
    if text_eq piece [] || w.writes path (written ++ piece) then rest else (written, false)

unfoldable pub store_body : World → Text → Option Body → Dict Text → Bool × Dict Text
store_body w path none files = (false, files)
store_body w path (some body) files = if not (w.writes path []) then (false, files) else (
  (write_pieces w path [] body.pieces).1 && body.ended,
  insert path (write_pieces w path [] body.pieces).0 files,
)

unfoldable pub download_file : World → Text → Text → Dict Text → Bool × Dict Text
download_file w url path files = store_body w path (w.fetch url) files

-- A line of two fields, the second of them the name of the file.
unfoldable pub checksum_in : Text → List Text → Option Text
checksum_in filename (sum ∷ name ∷ []) = if text_eq name filename then some sum else none
checksum_in filename _ = none

abbrev or_next : Option Text → Option Text → Option Text
or_next none rest = rest
or_next (some sum) rest = some sum

unfoldable pub find_checksum : Text → List Text → Option Text
find_checksum filename [] = none
find_checksum filename (line ∷ lines) =
    or_next (checksum_in filename (fields line)) (find_checksum filename lines)

-- The first 64 KB; a body that breaks off after them does no harm.
unfoldable pub read_checksums : Option Body → Option Text
read_checksums none = none
read_checksums (some body) =
    let s = joined body.pieces in
    if body.ended || leb 65536 (length s) then some (take 65536 s) else none

abbrev search_checksums : Text → Option Text → Option Text
search_checksums filename none = none
search_checksums filename (some s) = find_checksum filename (split b'\n' s)

unfoldable pub fetch_checksum_for_file : World → Text → Text → Option Text
fetch_checksum_for_file w url filename = search_checksums filename (read_checksums (w.fetch url))

unfoldable pub verify_checksum : World → Option Text → Text → Result Bool
verify_checksum w none expected = failure system_error
verify_checksum w (some content) expected = ok (text_eq (w.sha256 content) expected)

abbrev pub binary_name : World → Text
binary_name w =
    if text_eq w.os (codes "windows") then codes "runixo-agent.exe" else codes "runixo-agent"

abbrev pub download_dir : Updater → Text
download_dir u = join_path u.data_dir (codes "downloads")

abbrev pub tar_path : Updater → UpdateInfo → Text
tar_path u info =
    join_path (download_dir u) (codes "runixo-agent-" ++ (info.latest_version ++ codes ".tar.gz"))

abbrev pub binary_path : World → Updater → Text
binary_path w u = join_path (download_dir u) (binary_name w)

-- The archive is removed in any case.
unfoldable pub store_binary :
    World → UpdateInfo → Updater → Dict Text → Option Text → Result Text × Dict Text
store_binary w info u files none = (failure unpack_failed, delete (tar_path u info) files)
store_binary w info u files (some binary) =
    (ok (binary_path w u), delete (tar_path u info) (insert (binary_path w u) binary files))

abbrev untar_file : World → Option Text → Option Text
untar_file w none = none
untar_file w (some content) = w.untar content

unfoldable pub unpack_verified :
    World → UpdateInfo → Updater → Dict Text → Result Bool → Result Text × Dict Text
unpack_verified w info u files (failure e) = (failure e, delete (tar_path u info) files)
unpack_verified w info u files (ok false) =
    (failure checksum_mismatch, delete (tar_path u info) files)
unpack_verified w info u files (ok true) =
    store_binary w info u files (untar_file w (lookup (tar_path u info) files))

unfoldable pub check_archive :
    World → UpdateInfo → Updater → Dict Text → Option Text → Result Text × Dict Text
check_archive w info u files none = (failure checksum_missing, delete (tar_path u info) files)
check_archive w info u files (some sum) =
    unpack_verified w info u files (verify_checksum w (lookup (tar_path u info) files) sum)

unfoldable pub after_download :
    World → UpdateInfo → Updater → Bool × Dict Text → Result Text × Dict Text
after_download w info u (false, files) = (failure download_failed, files)
after_download w info u (true, files) =
    if text_eq info.checksum []
    then (failure no_checksum, delete (tar_path u info) files)
    else check_archive w info u files (fetch_checksum_for_file w info.checksum (asset_name w))

unfoldable pub download_and_extract : World → UpdateInfo → Updater → Result Text × Dict Text
download_and_extract w info u =
    if not (w.makes_dir (download_dir u))
    then (failure system_error, u.files)
    else after_download w info u (download_file w info.download_url (tar_path u info) u.files)

unfoldable pub download_checked : World → Text → Result UpdateInfo × Updater → Result Text × Updater
download_checked w version (failure e, u) = (failure e, u)
download_checked w version (ok info, u) =
    if not info.available || not (text_eq info.latest_version version)
    then (failure not_available, u)
    else let (r, files) = download_and_extract w info u in (r, record u { files = files })

unfoldable pub download_update : World → ℕ → Text → Updater → Result Text × Updater
download_update w now version u = download_checked w version (check_update w now u)
