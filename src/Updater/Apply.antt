-- ===== src/Updater/Apply.antt =====
-- internal/updater/updater.go: the new binary takes the place of the running one.
use runixo_agent.Prelude.{
  ℕ, ◌-◌, ◌≡◌, Bool, true, false, not, ◌&&◌, ◌||◌, Option, none, some, List, [], ◌∷◌, ◌++◌, Text,
  codes, text_eq, ltb, is_some, if◌then◌else◌, Dict, lookup, insert, delete,
}
use runixo_agent.Updater.{
  Config, UpdateInfo, UpdateError, bad_version, cooling_down, nothing_available, no_binary,
  no_executable, backup_failed, install_failed, Result, ok, failure, Updater, World, apply_cooldown,
  is_version, record_update,
}
use runixo_agent.Updater.Check.{check_update}
use runixo_agent.Updater.Download.{download_and_extract}
pub mod Safe
pub mod Repeat
pub mod Calls

abbrev move : Text → Text → Dict Text → Option Text → Option (Dict Text)
move from to files none = none
move from to files (some content) = some (insert to content (delete from files))

unfoldable pub rename : World → Text → Text → Dict Text → Option (Dict Text)
rename w from to files = if w.renames from to then move from to files (lookup from files) else none

abbrev pub leave : Text → Option Text → Dict Text → Dict Text
leave path none files = files
leave path (some content) files = insert path content files

unfoldable pub copy_file : World → Text → Option Text → Dict Text → Bool × Dict Text
copy_file w to none files = (false, files)
copy_file w to (some content) files =
    if w.writes to content
    then (true, insert to content files)
    else (false, leave to w.leaves files)

abbrev pub backup_path : Text → Text
backup_path exe = exe ++ codes ".backup"

abbrev or_stay : Dict Text → Option (Dict Text) → Dict Text
or_stay files none = files
or_stay files (some files') = files'

-- After the copy: the copied binary is removed, or the backup is moved back.
unfoldable pub after_copy : World → Text → Text → Bool × Dict Text → Bool × Dict Text
after_copy w path exe (true, files) = (true, delete path files)
after_copy w path exe (false, files) = (false, or_stay files (rename w (backup_path exe) exe files))

unfoldable pub or_copy : World → Text → Text → Dict Text → Option (Dict Text) → Bool × Dict Text
or_copy w path exe files (some files') = (true, files')
or_copy w path exe files none = after_copy w path exe (copy_file w exe (lookup path files) files)

-- Moved where that is possible, and copied otherwise.
unfoldable pub install_binary : World → Text → Text → Dict Text → Bool × Dict Text
install_binary w path exe files = or_copy w path exe files (rename w path exe files)

-- The new files, or the error and what it leaves.
unfoldable pub after_backup :
    World → Text → Text → Dict Text → Option (Dict Text) → Option UpdateError × Dict Text
after_backup w path exe files none = (some backup_failed, files)
after_backup w path exe files (some files') =
    let out = install_binary w path exe files' in
    (if out.0 then none else some install_failed, out.1)

unfoldable pub replace_executable :
    World → Text → Option Text → Dict Text → Option UpdateError × Dict Text
replace_executable w path none files = (some no_executable, files)
replace_executable w path (some exe) files =
    after_backup w path exe files (rename w exe (backup_path exe) files)

unfoldable pub replace_binary : World → Text → Dict Text → Option UpdateError × Dict Text
replace_binary w path files =
    if not (is_some (lookup path files))
    then (some no_binary, files)
    else replace_executable w path w.executable files

-- Only an update that succeeds is recorded; the service is then restarted.
unfoldable pub note_applied :
    World → ℕ → Text → Option UpdateError × Dict Text → Updater → Option UpdateError × Updater
note_applied w now version (some e, files) u = (some e, record u { files = files })
note_applied w now version (none, files) u =
    (none, record_update w now version none (record u { files = files }))

unfoldable pub apply_binary : World → ℕ → Text → Text → Updater → Option UpdateError × Updater
apply_binary w now path version u = note_applied w now version (replace_binary w path u.files) u

unfoldable pub apply_downloaded :
    World → ℕ → Text → Updater → Result Text × Dict Text → Option UpdateError × Updater
apply_downloaded w now version u (failure e, files) = (some e, record u { files = files })
apply_downloaded w now version u (ok path, files) =
    apply_binary w now path version (record u { files = files })

unfoldable pub download_and_apply :
    World → ℕ → UpdateInfo → Text → Updater → Option UpdateError × Updater
download_and_apply w now info version u =
    apply_downloaded w now version u (download_and_extract w info u)

unfoldable pub apply_checked :
    World → ℕ → Text → Result UpdateInfo × Updater → Option UpdateError × Updater
apply_checked w now version (failure e, u) = (some e, u)
apply_checked w now version (ok info, u) =
    if not info.available
    then (some nothing_available, u)
    else download_and_apply w now info version u

-- The time of the call is kept before the version is looked at.
unfoldable pub apply_update : World → ℕ → Text → Updater → Option UpdateError × Updater
apply_update w now version u =
    let u' = record u { last_apply = now } in
    if ltb (now - u.last_apply) apply_cooldown
    then (some cooling_down, u)
    else if not (is_version version)
    then (some bad_version, u')
    else apply_checked w now version (check_update w now u')

unfoldable pub note_failure : World → ℕ → Text → Option UpdateError × Updater → Updater
note_failure w now version (none, u) = u
note_failure w now version (some e, u) = record_update w now version (some e) u

-- What the automatic check does with what it found.
unfoldable pub act_on : World → ℕ → Result UpdateInfo × Updater → Updater
act_on w now (failure e, u) = u
act_on w now (ok info, u) =
    if not info.available
    then u
    else if u.config.notify_only && not info.is_critical
    then u
    else note_failure w now info.latest_version
        (download_and_apply w now info info.latest_version u)

unfoldable pub check_and_update : World → ℕ → Updater → Updater
check_and_update w now u = act_on w now (check_update w now u)
