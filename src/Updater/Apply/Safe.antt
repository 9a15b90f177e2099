-- ===== src/Updater/Apply/Safe.antt =====
-- The running program is replaced by a verified binary, or stays.
use mathlib.Core.Path.{subst}
use runixo_agent.Prelude.{
  ℕ, ◌≡◌, ◌≢◌, refl, sym, ap, ◌∙◌, Bool, true, false, not, Option, none, some, Text, codes, is_some,
  if◌then◌else◌, Dict, lookup, insert, delete, lookup-insert_self, lookup-insert_ne, length,
  length-append, arith,
}
use runixo_agent.Updater.{
  UpdateInfo, UpdateError, no_binary, install_failed, Result, ok, failure, Updater, World,
  record_update,
}
use runixo_agent.Updater.Download.{binary_path, tar_path, download_and_extract}
use runixo_agent.Updater.Download.Untouched.{lookup-delete_ne, download_and_extract-other}
use runixo_agent.Updater.Download.Verified.{IsVerified, download_and_extract-IsVerified}
use runixo_agent.Updater.Apply.{
  move, rename, leave, copy_file, backup_path, or_stay, after_copy, or_copy, install_binary,
  after_backup, replace_executable, replace_binary, note_applied, apply_binary, apply_downloaded,
  download_and_apply,
}

-- Every file but the one that is moved and the one that it replaces stays.
rename_form :
    (w : World) (from to : Text) (files files' : Dict Text)
    → rename w from to files ≡ some files'
    → (content : Text) × (lookup from files ≡ some content)
      × (files' ≡ insert to content (delete from files))
unfolding rename
rename_form w from to files files' h = by_answer (w.renames from to) (lookup from files) refl h
  where
    by_answer :
        (b : Bool) (o : Option Text)
        → lookup from files ≡ o
        → (if b then move from to files o else none) ≡ some files'
        → (content : Text) × (lookup from files ≡ some content)
          × (files' ≡ insert to content (delete from files))
    by_answer true none e h = absurd cc
    by_answer true (some content) e h = (content, e, cc)
    by_answer false o e h = absurd cc

rename_works :
    (w : World) (from to : Text) (files : Dict Text) {content : Text}
    → w.renames from to ≡ true
    → lookup from files ≡ some content
    → rename w from to files ≡ some (insert to content (delete from files))
unfolding rename
rename_works w from to files allowed there = rw (allowed, there) refl

backup_differs : (exe : Text) → backup_path exe ≢ exe
backup_differs exe e = absurd (omega (arith, length-append exe (codes ".backup"), ap length e))

-- What the outcome of a replacement says of the program's path.
Replaced : Text → Option Text → Option Text → Option UpdateError × Dict Text → Type 0
Replaced exe old new (none, files) = lookup exe files ≡ new
Replaced exe old new (some e, files) = lookup exe files ≡ old

module _ (w : World) (path exe : Text) (apart : path ≢ exe)
    (from_backup : w.renames (backup_path exe) exe ≡ true) where
  -- What stands at the program's path: the new binary if the outcome is a success, and else the
  -- old one.
  Good : Text → Text → Bool × Dict Text → Type 0
  Good old new out = lookup exe out.1 ≡ (if out.0 then some new else some old)

  after_copy-Good :
      (files : Dict Text) {old new : Text}
      → lookup (backup_path exe) files ≡ some old
      → lookup path files ≡ some new
      → Good old new (after_copy w path exe (copy_file w exe (lookup path files) files))
  unfolding copy_file after_copy Good
  after_copy-Good files {old} {new} kept there =
      subst (λ o. Good old new (after_copy w path exe (copy_file w exe o files))) (sym there)
        (by_write (w.writes exe new))
    where
      kept_by : (o : Option Text) → lookup (backup_path exe) (leave exe o files) ≡ some old
      kept_by none = kept
      kept_by (some c) =
          lookup-insert_ne exe (backup_path exe) c files (λ e. backup_differs exe (sym e)) ∙ kept

      left : Dict Text
      left = leave exe w.leaves files

      by_write :
          (b : Bool)
          → Good old new (
              after_copy w path exe
                (if◌then◌else◌ {A = Bool × Dict Text} b (true, insert exe new files) (false, left)))
      by_write true =
          lookup-delete_ne path exe (insert exe new files) apart ∙ lookup-insert_self exe new files
      by_write false =
          ap (λ o. lookup exe (or_stay left o))
            (rename_works w (backup_path exe) exe left from_backup (kept_by w.leaves))
          ∙ lookup-insert_self exe old (delete (backup_path exe) left)

  install_binary-Good :
      (files : Dict Text) {old new : Text}
      → lookup (backup_path exe) files ≡ some old
      → lookup path files ≡ some new
      → Good old new (install_binary w path exe files)
  unfolding install_binary or_copy Good
  install_binary-Good files {old} {new} kept there = by_rename (rename w path exe files) refl
    where
      by_rename :
          (o : Option (Dict Text))
          → rename w path exe files ≡ o
          → Good old new (or_copy w path exe files o)
      by_rename none e = after_copy-Good files kept there
      by_rename (some files') e =
          let (content, found, form) = rename_form w path exe files files' e in
          ap (lookup exe) form
          ∙ (lookup-insert_self exe content (delete path files) ∙ (sym found ∙ there))

  replace_executable-Replaced :
      (files : Dict Text) {new : Text}
      → path ≢ backup_path exe
      → lookup path files ≡ some new
      → Replaced exe (lookup exe files) (some new) (replace_executable w path (some exe) files)
  unfolding replace_executable after_backup Replaced Good
  replace_executable-Replaced files {new} not_backup there =
      by_backup (rename w exe (backup_path exe) files) refl
    where
      by_installed :
          (old : Text) (out : Bool × Dict Text)
          → lookup exe files ≡ some old
          → Good old new out
          → Replaced exe
              (lookup exe files)
              (some new)
              (if out.0 then none else some install_failed, out.1)
      by_installed old (true, files'') was g = g
      by_installed old (false, files'') was g = g ∙ sym was

      by_backup :
          (o : Option (Dict Text))
          → rename w exe (backup_path exe) files ≡ o
          → Replaced exe (lookup exe files) (some new) (after_backup w path exe files o)
      by_backup none e = refl
      by_backup (some files') e =
          let (old, was, form) = rename_form w exe (backup_path exe) files files' e in
          by_installed old (install_binary w path exe files') was (
            install_binary-Good files'
              (ap (lookup (backup_path exe)) form
                ∙ lookup-insert_self (backup_path exe) old (delete exe files))
              (ap (lookup path) form
                ∙ (lookup-insert_ne (backup_path exe) path old (delete exe files)
                      (λ e. not_backup (sym e))
                    ∙ (lookup-delete_ne exe path files (λ e. apart (sym e)) ∙ there))))

  replace_binary-Replaced :
      (files : Dict Text)
      → path ≢ backup_path exe
      → w.executable ≡ some exe
      → Replaced exe (lookup exe files) (lookup path files) (replace_binary w path files)
  unfolding replace_binary Replaced
  replace_binary-Replaced files not_backup runs = by_binary (lookup path files) refl
    where
      by_binary :
          (o : Option Text)
          → lookup path files ≡ o
          → Replaced exe (lookup exe files) o (
              if◌then◌else◌ {A = Option UpdateError × Dict Text}
                (not (is_some o))
                (some no_binary, files)
                (replace_executable w path w.executable files))
      by_binary none e = refl
      by_binary (some new) e =
          subst
            (λ x. Replaced exe (lookup exe files) (some new) (replace_executable w path x files))
            (sym runs) (replace_executable-Replaced files not_backup e)

-- Where the downloads are kept apart from the running program: it is neither the archive nor the
-- new binary, which is neither the archive nor the program's backup.
pub record IsApart (w : World) (info : UpdateInfo) (u : Updater) (exe : Text) : Type 0 where
  pub not_archive : tar_path u info ≢ exe
  pub not_binary : binary_path w u ≢ exe
  pub not_backup : binary_path w u ≢ backup_path exe
  pub distinct : tar_path u info ≢ binary_path w u

-- The program after a download and its replacement: as it was where there was an error, and else
-- a verified binary.
abbrev pub IsSafe : World → UpdateInfo → Text → Updater → Option UpdateError × Updater → Type 0
IsSafe w info exe u (none, u') = IsVerified w info (lookup exe u'.files)
IsSafe w info exe u (some e, u') = lookup exe u'.files ≡ lookup exe u.files

-- Downloading a release and applying it, wherever it fails, leaves the running program as it was;
-- and where it succeeds, the program is the binary of an archive that was downloaded whole from
-- the address of the release, with the SHA-256 that the file of checksums lists for its name. The
-- downloads are kept apart from the program, and the backup can be moved back.
pub download_and_apply-IsSafe :
    (w : World) (now : ℕ) (info : UpdateInfo) (version : Text) (u : Updater) (exe : Text)
    → IsApart w info u exe
    → w.executable ≡ some exe
    → w.renames (backup_path exe) exe ≡ true
    → IsSafe w info exe u (download_and_apply w now info version u)
unfolding Replaced download_and_apply apply_downloaded apply_binary note_applied record_update
download_and_apply-IsSafe w now info version u exe a runs back =
    by_download (download_and_extract w info u)
      (download_and_extract-IsVerified w info u a.distinct)
      (download_and_extract-other w info u exe a.not_archive a.not_binary)
  where
    by_outcome :
        (old new : Option Text) (v : Updater) (out : Option UpdateError × Dict Text)
        → old ≡ lookup exe u.files
        → IsVerified w info new
        → Replaced exe old new out
        → IsSafe w info exe u (note_applied w now version out v)
    by_outcome old new v (none, files) same good r = subst (IsVerified w info) (sym r) good
    by_outcome old new v (some e, files) same good r = r ∙ same

    by_download :
        (d : Result Text × Dict Text)
        → ((path : Text)
            → d.0 ≡ ok path
            → (path ≡ binary_path w u) × IsVerified w info (lookup path d.1))
        → lookup exe d.1 ≡ lookup exe u.files
        → IsSafe w info exe u (apply_downloaded w now version u d)
    by_download (failure e, files) good same = same
    by_download (ok path, files) good same =
        let (at_binary, verified) = good path refl in
        by_outcome (lookup exe files) (lookup path files) (record u { files = files })
          (replace_binary w path files) same verified
          (replace_binary-Replaced w path exe (λ e. a.not_binary (sym at_binary ∙ e)) back files
            (λ e. a.not_backup (sym at_binary ∙ e)) runs)
