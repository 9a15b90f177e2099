-- ===== src/Server/Handlers/Deletes.antt =====
-- Which files DeleteFile removes.
use runixo_agent.Prelude.{
  ◌≡◌, ◌⊎◌, inl, inr, refl, Bool, true, false, Option, none, some, Text, text_eq, any,
  if◌then◌else◌,
}
use runixo_agent.Security.Paths.{PathError, sanitize_path}
use runixo_agent.Server.Handlers.{
  deleted, system_directory, not_deleted, FileSystem, check_write, kept_directories, delete_at,
  delete_link, delete_real, delete_checked, delete_clean, delete_file,
}

-- A path that is removed: it passed the check for writing, it leads nowhere, to itself or to a
-- path that passed it too, and it is none of the directories of the system.
pub record IsRemoved (fs : FileSystem) (path : Text) : Type 0 where
  pub checked : check_write fs path ≡ none
  pub leads :
      (fs.eval_symlinks path ≡ none)
      ⊎ ((real : Text) × (fs.eval_symlinks path ≡ some real)
          × ((text_eq real path ≡ true) ⊎ (check_write fs real ≡ none)))
  pub no_system : any (text_eq path) kept_directories ≡ false

module _ (fs : FileSystem) (removed : Text) where
  delete_at_same :
      (path : Text)
      → delete_at fs path ≡ deleted removed
      → (path ≡ removed) × (any (text_eq path) kept_directories ≡ false)
  unfolding delete_at
  delete_at_same path h = by_tests (any (text_eq path) kept_directories) (fs.remove_all path) refl h
    where
      by_tests :
          (a b : Bool)
          → any (text_eq path) kept_directories ≡ a
          → (if a then system_directory else if b then deleted path else not_deleted)
            ≡ deleted removed
          → (path ≡ removed) × (any (text_eq path) kept_directories ≡ false)
      by_tests true b e g = absurd cc
      by_tests false false e g = absurd cc
      by_tests false true e g = (cc, e)

  delete_real-IsRemoved :
      (path : Text) (o : Option Text)
      → fs.eval_symlinks path ≡ o
      → check_write fs path ≡ none
      → delete_real fs path o ≡ deleted removed
      → (path ≡ removed) × IsRemoved fs path
  unfolding delete_real delete_link
  delete_real-IsRemoved path none e c h =
      let (same, kept) = delete_at_same path h in
      (same, record { checked = c; leads = inl e; no_system = kept })
  delete_real-IsRemoved path (some real) e c h =
      by_link (text_eq real path) (check_write fs real) refl refl h
    where
      by_link :
          (b : Bool) (o : Option PathError)
          → text_eq real path ≡ b
          → check_write fs real ≡ o
          → (if b then delete_at fs path else delete_link fs path o) ≡ deleted removed
          → (path ≡ removed) × IsRemoved fs path
      by_link true o f g k =
          let (same, kept) = delete_at_same path k in
          (same, record { checked = c; leads = inr (real, e, inl f); no_system = kept })
      by_link false none f g k =
          let (same, kept) = delete_at_same path k in
          (same, record { checked = c; leads = inr (real, e, inr g); no_system = kept })
      by_link false (some x) f g k = absurd cc

  -- A file or directory that is removed is the cleaned path of the request. It passed the check
  -- for writing, and so did the place that its symbolic links lead to, if that is another; and it
  -- is none of the directories of the system that are kept.
  pub delete_file-IsRemoved :
      (path : Text)
      → delete_file fs path ≡ deleted removed
      → (clean_path : Text) × (sanitize_path path ≡ some clean_path)
        × (clean_path ≡ removed)
        × IsRemoved fs clean_path
  unfolding delete_file delete_clean delete_checked
  delete_file-IsRemoved path h = by_clean (sanitize_path path) refl h
    where
      by_check :
          (p : Text) (o : Option PathError)
          → check_write fs p ≡ o
          → delete_checked fs p o ≡ deleted removed
          → (p ≡ removed) × IsRemoved fs p
      by_check p (some e) f g = absurd cc
      by_check p none f g = delete_real-IsRemoved p (fs.eval_symlinks p) refl f g

      by_clean :
          (o : Option Text)
          → sanitize_path path ≡ o
          → delete_clean fs o ≡ deleted removed
          → (clean_path : Text) × (sanitize_path path ≡ some clean_path)
            × (clean_path ≡ removed)
            × IsRemoved fs clean_path
      by_clean none e g = absurd cc
      by_clean (some p) e g =
          let (same, gone) = by_check p (check_write fs p) refl g in (p, e, same, gone)
