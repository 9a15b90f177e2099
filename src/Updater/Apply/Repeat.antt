-- ===== src/Updater/Apply/Repeat.antt =====
-- Two calls of ApplyUpdate: within a minute, and with different versions.
use runixo_agent.Prelude.{
  ℕ, ◌-◌, ◌<◌, ◌≡◌, refl, Bool, true, false, not, Option, none, some, Text, ltb, if◌then◌else◌,
  Dict, arith,
}
use runixo_agent.Updater.{
  UpdateInfo, UpdateError, bad_version, cooling_down, nothing_available, Result, ok, failure,
  Updater, World, apply_cooldown, is_version, record_update,
}
use runixo_agent.Updater.Check.{check_release, note_check, check_update}
use runixo_agent.Updater.Download.{download_and_extract}
use runixo_agent.Updater.Apply.{
  replace_binary, note_applied, apply_binary, apply_downloaded, download_and_apply, apply_checked,
  apply_update,
}

last_apply-download_and_apply :
    (w : World) (now : ℕ) (info : UpdateInfo) (version : Text) (u : Updater)
    → (download_and_apply w now info version u).1.last_apply ≡ u.last_apply
unfolding download_and_apply apply_downloaded apply_binary note_applied record_update
last_apply-download_and_apply w now info version u = by_download (download_and_extract w info u)
  where
    by_outcome :
        (out : Option UpdateError × Dict Text) (v : Updater)
        → (note_applied w now version out v).1.last_apply ≡ v.last_apply
    by_outcome (none, files) v = refl
    by_outcome (some e, files) v = refl

    by_download :
        (d : Result Text × Dict Text)
        → (apply_downloaded w now version u d).1.last_apply ≡ u.last_apply
    by_download (failure e, files) = refl
    by_download (ok path, files) =
        by_outcome (replace_binary w path files) (record u { files = files })

last_apply-apply_checked :
    (w : World) (now : ℕ) (version : Text) (r : Result UpdateInfo) (u : Updater)
    → (apply_checked w now version (r, u)).1.last_apply ≡ u.last_apply
unfolding apply_checked
last_apply-apply_checked w now version (failure e) u = refl
last_apply-apply_checked w now version (ok info) u = by_available info.available
  where
    by_available :
        (b : Bool)
        → (if◌then◌else◌ {A = Option UpdateError × Updater}
            (not b)
            (some nothing_available, u)
            (download_and_apply w now info version u)).1.last_apply
          ≡ u.last_apply
    by_available false = refl
    by_available true = last_apply-download_and_apply w now info version u

last_apply-apply_update :
    (w : World) (now : ℕ) (version : Text) (u : Updater)
    → ltb (now - u.last_apply) apply_cooldown ≡ false
    → (apply_update w now version u).1.last_apply ≡ now
unfolding apply_update check_update note_check
last_apply-apply_update w now version u late = rw late (by_version (is_version version))
  where
    u' : Updater
    u' = record u { last_apply = now }

    by_version :
        (b : Bool)
        → (if◌then◌else◌ {A = Option UpdateError × Updater}
            (not b)
            (some bad_version, u')
            (apply_checked w now version (check_update w now u'))).1.last_apply
          ≡ now
    by_version false = refl
    by_version true =
        last_apply-apply_checked w now version (check_release w u.current_version w.latest)
          (note_check w now u')

-- A call that is let through, whatever comes of it, has every call of the next minute refused,
-- with any version, and those change nothing.
apply_update_cools :
    (w w' : World) (now later : ℕ) (version other : Text) (u : Updater)
    → ltb (now - u.last_apply) apply_cooldown ≡ false
    → later - now < apply_cooldown
    → let u' = (apply_update w now version u).1 in
      apply_update w' later other u' ≡ (some cooling_down, u')
unfolding apply_update
apply_update_cools w w' now later version other u late soon =
    refused (apply_update w now version u).1 (last_apply-apply_update w now version u late)
  where
    refused :
        (v : Updater) → v.last_apply ≡ now → apply_update w' later other v ≡ (some cooling_down, v)
    refused v e = by_test (ltb (later - v.last_apply) apply_cooldown) (ground arith)
      where
        by_test :
            (b : Bool)
            → b ≡ true
            → (if b
                then (some cooling_down, v)
                else if not (is_version other)
                then (some bad_version, record v { last_apply = later })
                else apply_checked w' later other
                    (check_update w' later (record v { last_apply = later })))
              ≡ (some cooling_down, v)
        by_test true h = refl
        by_test false h = absurd cc

-- The answer and the files.
abbrev pub effect : Option UpdateError × Updater → Option UpdateError × Dict Text
effect out = (out.0, out.1.files)

effect-download_and_apply :
    (w : World) (now : ℕ) (info : UpdateInfo) (version other : Text) (u : Updater)
    → effect (download_and_apply w now info version u)
      ≡ effect (download_and_apply w now info other u)
unfolding download_and_apply apply_downloaded apply_binary note_applied record_update
effect-download_and_apply w now info version other u = by_download (download_and_extract w info u)
  where
    by_outcome :
        (out : Option UpdateError × Dict Text) (v : Updater)
        → effect (note_applied w now version out v) ≡ effect (note_applied w now other out v)
    by_outcome (none, files) v = refl
    by_outcome (some e, files) v = refl

    by_download :
        (d : Result Text × Dict Text)
        → effect (apply_downloaded w now version u d) ≡ effect (apply_downloaded w now other u d)
    by_download (failure e, files) = refl
    by_download (ok path, files) =
        by_outcome (replace_binary w path files) (record u { files = files })

effect-apply_checked :
    (w : World) (now : ℕ) (version other : Text) (r : Result UpdateInfo) (u : Updater)
    → effect (apply_checked w now version (r, u)) ≡ effect (apply_checked w now other (r, u))
unfolding apply_checked
effect-apply_checked w now version other (failure e) u = refl
effect-apply_checked w now version other (ok info) u = by_available info.available
  where
    with_version : Bool → Text → Option UpdateError × Updater
    with_version b v =
        if not b then (some nothing_available, u) else download_and_apply w now info v u

    by_available : (b : Bool) → effect (with_version b version) ≡ effect (with_version b other)
    by_available false = refl
    by_available true = effect-download_and_apply w now info version other u

-- The version that is asked for has no part in what is installed: with any two versions of the
-- right form, the answer and the files are the same, the latest release's.
apply_update_ignores_version :
    (w : World) (now : ℕ) (version other : Text) (u : Updater)
    → is_version version ≡ true
    → is_version other ≡ true
    → effect (apply_update w now version u) ≡ effect (apply_update w now other u)
unfolding apply_update check_update
apply_update_ignores_version w now version other u v o =
    rw (v, o) (by_cooldown (ltb (now - u.last_apply) apply_cooldown))
  where
    u' : Updater
    u' = record u { last_apply = now }

    with_version : Bool → Text → Option UpdateError × Updater
    with_version b v =
        if b then (some cooling_down, u) else apply_checked w now v (check_update w now u')

    by_cooldown : (b : Bool) → effect (with_version b version) ≡ effect (with_version b other)
    by_cooldown true = refl
    by_cooldown false =
        effect-apply_checked w now version other (check_release w u.current_version w.latest)
          (note_check w now u')
