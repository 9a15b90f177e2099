-- ===== src/Server/Uploads/Safe.antt =====
-- What is stored by an upload that succeeds.
use mathlib.Core.Path.{subst}
use runixo_agent.Prelude.{
  ◌≡◌, refl, Bool, true, false, not, Option, none, some, List, [], ◌∷◌, Text, All, if◌then◌else◌,
}
use runixo_agent.Security.Path.{is_abs, abs_path}
use runixo_agent.Server.Archives.{
  ArchiveError, Entry, TarFile, missing, uncompressed, entries, check_tar,
  validate_tar_gz_before_extract, validate_extracted_files,
}
use runixo_agent.Server.Archives.Accepted.{IsAccepted, validate_tar_gz-IsAccepted}
use runixo_agent.Server.Uploads.{
  Message, start, chunk, finish, system_error, unpack_failed, left_directory, Result, ok, err,
  Upload, Disk, check_write, wants_extract, receive_start, receive_chunk, opened, receive, and_then,
  receive_all, Stored, file, extracted, extract_checked, extract_upload, finish_upload, finish_if,
  upload_file,
}
use runixo_agent.Server.Uploads.Limits.{
  IsLimited, BothLimited, receive_start-IsLimited, receive_chunk-IsLimited,
}

-- The state after a message that was taken.
opened-BothLimited :
    (d : Disk) (r : Result Upload) (o : Option Upload)
    → ((u : Upload) → r ≡ ok u → IsLimited d u)
    → opened r ≡ ok o
    → BothLimited d o
opened-BothLimited d (ok u) o k h = subst (BothLimited d) (same h) (k u refl)
  where
    same : ok (some u) ≡ ok o → some u ≡ o
    same e = cc
opened-BothLimited d (err e) o k h = absurd cc

receive-BothLimited :
    (d : Disk) (m : Message) (o o' : Option Upload)
    → BothLimited d o
    → receive d m o ≡ ok o'
    → BothLimited d o'
unfolding receive
receive-BothLimited d (start s) o o' l h =
    opened-BothLimited d (receive_start d o s) o' (λ u e. receive_start-IsLimited d o l u s e) h
receive-BothLimited d (chunk bytes) none o' l h = absurd cc
receive-BothLimited d (chunk bytes) (some u) o' l h =
    opened-BothLimited d (receive_chunk d bytes u) o'
      (λ v e. receive_chunk-IsLimited d bytes u v l e) h
receive-BothLimited d finish o o' l h = subst (BothLimited d) (same h) l
  where
    same : ok o ≡ ok o' → o ≡ o'
    same e = cc

receive_all-BothLimited :
    (d : Disk) (ms : List Message) (o o' : Option Upload)
    → BothLimited d o
    → receive_all d ms o ≡ ok o'
    → BothLimited d o'
unfolding receive_all
receive_all-BothLimited d [] o o' l h = subst (BothLimited d) (same h) l
  where
    same : ok o ≡ ok o' → o ≡ o'
    same e = cc
receive_all-BothLimited d (m ∷ ms) o o' l h =
    by_message (receive d m o) refl h (λ p k. receive_all-BothLimited d ms p o' k)
  where
    by_message :
        (r : Result (Option Upload))
        → receive d m o ≡ r
        → and_then r (receive_all d ms) ≡ ok o'
        → ((p : Option Upload) → BothLimited d p → receive_all d ms p ≡ ok o' → BothLimited d o')
        → BothLimited d o'
    by_message (ok p) e g later = later p (receive-BothLimited d m o p l e) g
    by_message (err x) e g later = absurd cc

-- What is stored: a file within the limits, or the entries of an archive, each within a directory
-- that passed the check for writing.
abbrev pub IsStored : Disk → Stored → Type 0
IsStored d (file u) = IsLimited d u
IsStored d (extracted u) =
    IsLimited d u
    × (check_write d u.extract_to ≡ none)
    × ((es : List Entry) × (ends : Bool) × (d.tar u.content ≡ entries es ends)
        × All (IsAccepted (abs_path d.cwd u.extract_to)) es)

module _ (d : Disk) (rooted : is_abs d.cwd ≡ true) (s : Stored) where
  IsAccepted-entries :
      (extract_to : Text) (t : TarFile)
      → validate_tar_gz_before_extract d.cwd extract_to t ≡ none
      → (es : List Entry) × (ends : Bool) × (t ≡ entries es ends)
        × All (IsAccepted (abs_path d.cwd extract_to)) es
  unfolding validate_tar_gz_before_extract check_tar
  IsAccepted-entries extract_to missing h = absurd cc
  IsAccepted-entries extract_to uncompressed h = absurd cc
  IsAccepted-entries extract_to (entries es ends) h =
      (es, ends, refl, validate_tar_gz-IsAccepted d.cwd extract_to es ends rooted h)

  extract_checked-IsStored :
      (u : Upload) (o : Option ArchiveError)
      → validate_tar_gz_before_extract d.cwd u.extract_to (d.tar u.content) ≡ o
      → IsLimited d u
      → check_write d u.extract_to ≡ none
      → extract_checked d u o ≡ ok s
      → IsStored d s
  unfolding extract_checked
  extract_checked-IsStored u (some e) f l c h = absurd cc
  extract_checked-IsStored u none f l c h =
      by_tests (d.unpacks u.content)
        (validate_extracted_files d.cwd u.extract_to (d.walked u.extract_to)) h
    where
      same : ok (extracted u) ≡ ok s → extracted u ≡ s
      same e = cc

      by_tests :
          (a b : Bool)
          → (if not a
              then err unpack_failed
              else if not b
              then err left_directory
              else ok (extracted u))
            ≡ ok s
          → IsStored d s
      by_tests false b g = absurd cc
      by_tests true false g = absurd cc
      by_tests true true g =
          subst (IsStored d) (same g) (l, c, IsAccepted-entries u.extract_to (d.tar u.content) f)

  finish_upload-IsStored :
      (o : Option Upload) → BothLimited d o → finish_upload d o ≡ ok s → IsStored d s
  unfolding finish_upload extract_upload
  finish_upload-IsStored none l h = absurd cc
  finish_upload-IsStored (some u) l h =
      by_tests (wants_extract u.is_tar_gz u.extract_to) (d.makes_dirs u.extract_to) refl h
    where
      checked : Result Stored
      checked =
          extract_checked d u (validate_tar_gz_before_extract d.cwd u.extract_to (d.tar u.content))

      same : ok (file u) ≡ ok s → file u ≡ s
      same e = cc

      by_tests :
          (a b : Bool)
          → wants_extract u.is_tar_gz u.extract_to ≡ a
          → (if a then if not b then err system_error else checked else ok (file u)) ≡ ok s
          → IsStored d s
      by_tests false b e g = subst (IsStored d) (same g) l
      by_tests true false e g = absurd cc
      by_tests true true e g =
          extract_checked-IsStored u
            (validate_tar_gz_before_extract d.cwd u.extract_to (d.tar u.content)) refl l
            (l.directory e) g

  -- Take any messages of an upload, with any number of starts. Where the upload succeeds, its file
  -- is at a path that passed the check for writing and holds no more bytes than were counted, and
  -- no more than 1 GB were; and an archive is unpacked only into a directory that passed that
  -- check, after each of its entries was found to go to a path within the directory. The working
  -- directory is absolute.
  pub upload_file-IsStored :
      (ms : List Message) (ended : Bool) → upload_file d ms ended ≡ ok s → IsStored d s
  unfolding upload_file
  upload_file-IsStored ms ended h = by_state (receive_all d ms none) ended refl h
    where
      by_state :
          (r : Result (Option Upload)) (ended : Bool)
          → receive_all d ms none ≡ r
          → finish_if d ended r ≡ ok s
          → IsStored d s
      by_state (err x) ended e g = absurd cc
      by_state (ok o) false e g = absurd cc
      by_state (ok o) true e g =
          finish_upload-IsStored o (receive_all-BothLimited d ms none o tt e) g
