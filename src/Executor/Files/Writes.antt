-- ===== src/Executor/Files/Writes.antt =====
-- What a write that succeeds has passed.
use runixo_agent.Prelude.{
  ℕ, ◌≤◌, ◌≡◌, refl, Bool, true, false, Option, none, some, Text, length, ltb, if◌then◌else◌, arith,
}
use runixo_agent.Prelude.Int.{ℤ}
use runixo_agent.Security.Path.{dir_path}
use runixo_agent.Security.Paths.{PathError, sanitize_path}
use runixo_agent.Executor.Files.{
  too_large, system_error, ok, err, FileSystem, max_file_size, check_write, file_mode, write_at,
  write_dir, write_checked, write_clean, write_file,
}

-- A write that succeeds: its path is the cleaned one and passed the check for writing, and so did
-- its directory if that was made; no more than 50 MB were written, with the low 32 bits of the
-- mode that is asked for, or 0644.
pub record IsWritten (fs : FileSystem) (path content : Text) (mode : ℤ) (create_dirs : Bool)
    (clean_path : Text) : Type 0 where
  pub cleaned : sanitize_path path ≡ some clean_path
  pub checked : check_write fs clean_path ≡ none
  pub small : length content ≤ max_file_size
  pub directory : create_dirs ≡ true → check_write fs (dir_path clean_path) ≡ none
  pub done : fs.writes clean_path content (file_mode mode) ≡ true

module _ (fs : FileSystem) (content : Text) (mode : ℤ) (written : Text × Text × ℕ) where
  write_at-true :
      (path : Text)
      → write_at fs path content mode ≡ ok written
      → (written ≡ (path, content, file_mode mode))
        × (fs.writes path content (file_mode mode) ≡ true)
  unfolding write_at
  write_at-true path h = by_write (fs.writes path content (file_mode mode)) refl h
    where
      by_write :
          (b : Bool)
          → fs.writes path content (file_mode mode) ≡ b
          → (if b then ok (path, content, file_mode mode) else err system_error) ≡ ok written
          → (written ≡ (path, content, file_mode mode))
            × (fs.writes path content (file_mode mode) ≡ true)
      by_write true e g = (cc, e)
      by_write false e g = absurd cc

  -- What the two ways to write share.
  Outcome : Text → Bool → Type 0
  Outcome path create_dirs =
      (written ≡ (path, content, file_mode mode))
      × (create_dirs ≡ true → check_write fs (dir_path path) ≡ none)
      × (fs.writes path content (file_mode mode) ≡ true)

  write_dir-Outcome :
      (path : Text) (o : Option PathError)
      → check_write fs (dir_path path) ≡ o
      → write_dir fs path content mode o ≡ ok written
      → Outcome path true
  unfolding write_dir Outcome
  write_dir-Outcome path (some x) e h = absurd cc
  write_dir-Outcome path none e h = by_dir (fs.makes_dirs (dir_path path)) h
    where
      by_dir :
          (b : Bool)
          → (if b then write_at fs path content mode else err system_error) ≡ ok written
          → Outcome path true
      by_dir true g = let (same, done) = write_at-true path g in (same, λ t. e, done)
      by_dir false g = absurd cc

  write_checked-Outcome :
      (path : Text) (create_dirs : Bool)
      → write_checked fs path content mode create_dirs none ≡ ok written
      → (length content ≤ max_file_size) × Outcome path create_dirs
  unfolding write_checked Outcome
  write_checked-Outcome path create_dirs h =
      by_tests (ltb max_file_size (length content)) create_dirs refl h
    where
      by_tests :
          (l d : Bool)
          → ltb max_file_size (length content) ≡ l
          → (if l
              then err too_large
              else if d
              then write_dir fs path content mode (check_write fs (dir_path path))
              else write_at fs path content mode)
            ≡ ok written
          → (length content ≤ max_file_size) × Outcome path d
      by_tests true d e g = absurd cc
      by_tests false true e g =
          (ground arith, write_dir-Outcome path (check_write fs (dir_path path)) refl g)
      by_tests false false e g =
          let (same, done) = write_at-true path g in (ground arith, (same, λ t. absurd cc, done))

  -- A write that succeeds went to the cleaned path, which passed the check for writing, as did its
  -- directory if directories are to be made. The content is no longer than 50 MB and is written
  -- whole, with the low 32 bits of the mode that is asked for, or 0644 where they are 0.
  pub write_file-IsWritten :
      (path : Text) (create_dirs : Bool)
      → write_file fs path content mode create_dirs ≡ ok written
      → (clean_path : Text) × (written ≡ (clean_path, content, file_mode mode))
        × IsWritten fs path content mode create_dirs clean_path
  unfolding write_file write_clean write_checked Outcome
  write_file-IsWritten path create_dirs h = by_clean (sanitize_path path) refl h
    where
      by_check :
          (p : Text) (o : Option PathError)
          → sanitize_path path ≡ some p
          → check_write fs p ≡ o
          → write_checked fs p content mode create_dirs o ≡ ok written
          → (clean_path : Text) × (written ≡ (clean_path, content, file_mode mode))
            × IsWritten fs path content mode create_dirs clean_path
      by_check p (some x) e f g = absurd cc
      by_check p none e f g =
          let (small, (same, directory, done)) = write_checked-Outcome p create_dirs g in
          (
            p,
            same,
            record { cleaned = e; checked = f; small = small; directory = directory; done = done },
          )

      by_clean :
          (o : Option Text)
          → sanitize_path path ≡ o
          → write_clean fs o content mode create_dirs ≡ ok written
          → (clean_path : Text) × (written ≡ (clean_path, content, file_mode mode))
            × IsWritten fs path content mode create_dirs clean_path
      by_clean none e g = absurd cc
      by_clean (some p) e g = by_check p (check_write fs p) e refl g
