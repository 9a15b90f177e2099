-- ===== src/Updater/Apply/Calls.antt =====
-- ApplyUpdate as a whole: what it installs, what it records, and how often it runs.
use runixo_agent.Prelude.{
  ℕ, ◌-◌, ◌≡◌, refl, Bool, true, false, not, Option, none, some, Text, ltb, if◌then◌else◌, lookup,
}
use runixo_agent.Updater.{
  UpdateInfo, UpdateError, bad_version, cooling_down, nothing_available, Result, ok, failure,
  Updater, World, apply_cooldown, is_version,
}
use runixo_agent.Updater.Check.{check_release, note_check, check_update}
use runixo_agent.Updater.Download.Verified.{IsVerified}
use runixo_agent.Updater.Apply.{backup_path, download_and_apply, apply_checked, apply_update}
use runixo_agent.Updater.Apply.Safe.{IsApart, IsSafe, download_and_apply-IsSafe}

-- A call that succeeds leaves the verified binary of the latest release, which was available; one
-- that fails leaves the program.
abbrev pub IsSafeCall : World → Text → Text → Updater → Option UpdateError × Updater → Type 0
IsSafeCall w version exe u (some e, u') = lookup exe u'.files ≡ lookup exe u.files
IsSafeCall w version exe u (none, u') =
    (info : UpdateInfo) × (check_release w u.current_version w.latest ≡ ok info)
    × (info.available ≡ true)
    × (is_version version ≡ true)
    × IsVerified w info (lookup exe u'.files)

-- Whatever the version that is asked for and wherever the call fails, ApplyUpdate leaves the
-- running program as it was; and where it succeeds, that version has the form of a version, the
-- latest release is available, and the program is the binary of its archive, downloaded whole,
-- with the SHA-256 that the file of checksums lists for it. The downloads are kept apart from the
-- program, and its backup can be moved back.
pub apply_update-IsSafeCall :
    (w : World) (now : ℕ) (version : Text) (u : Updater) (exe : Text)
    → ((info : UpdateInfo)
        → check_release w u.current_version w.latest ≡ ok info
        → IsApart w info u exe)
    → w.executable ≡ some exe
    → w.renames (backup_path exe) exe ≡ true
    → IsSafeCall w version exe u (apply_update w now version u)
unfolding apply_update apply_checked check_update note_check
apply_update-IsSafeCall w now version u exe apart runs back =
    by_cooldown (ltb (now - u.last_apply) apply_cooldown)
  where
    u' : Updater
    u' = note_check w now (record u { last_apply = now })

    by_available :
        (info : UpdateInfo) (b : Bool)
        → info.available ≡ b
        → check_release w u.current_version w.latest ≡ ok info
        → is_version version ≡ true
        → IsSafeCall w version exe u (
            if not b
            then (some nothing_available, u')
            else download_and_apply w now info version u')
    by_available info false e checked valid = refl
    by_available info true e checked valid = by_outcome (download_and_apply w now info version u') (
        download_and_apply-IsSafe w now info version u' exe
          (let a = apart info checked in
            record {
              not_archive = a.not_archive;
              not_binary = a.not_binary;
              not_backup = a.not_backup;
              distinct = a.distinct;
            })
          runs back)
      where
        by_outcome :
            (out : Option UpdateError × Updater)
            → IsSafe w info exe u' out
            → IsSafeCall w version exe u out
        by_outcome (none, v) s = (info, checked, e, valid, s)
        by_outcome (some x, v) s = s

    by_check :
        (r : Result UpdateInfo)
        → check_release w u.current_version w.latest ≡ r
        → is_version version ≡ true
        → IsSafeCall w version exe u (apply_checked w now version (r, u'))
    by_check (failure e) checked valid = refl
    by_check (ok info) checked valid = by_available info info.available refl checked valid

    by_version :
        (b : Bool)
        → is_version version ≡ b
        → IsSafeCall w version exe u (
            if not b
            then (some bad_version, record u { last_apply = now })
            else apply_checked w now version (check_release w u.current_version w.latest, u'))
    by_version false valid = refl
    by_version true valid = by_check (check_release w u.current_version w.latest) refl valid

    by_cooldown :
        (b : Bool)
        → IsSafeCall w version exe u (
            if b
            then (some cooling_down, u)
            else if not (is_version version)
            then (some bad_version, record u { last_apply = now })
            else apply_checked w now version (check_release w u.current_version w.latest, u'))
    by_cooldown true = refl
    by_cooldown false = by_version (is_version version) refl
