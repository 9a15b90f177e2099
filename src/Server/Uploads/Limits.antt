-- ===== src/Server/Uploads/Limits.antt =====
-- What holds of an upload after any messages.
use mathlib.Core.Path.{subst}
use runixo_agent.Prelude.{
  ◌+◌, ◌≤◌, ◌≡◌, refl, sym, ◌∙◌, Bool, true, false, not, ◌&&◌, Option, none, some, [], ◌++◌, Text,
  length, length-append, ltb, if◌then◌else◌, arith,
}
use runixo_agent.Security.Path.{dir_path}
use runixo_agent.Security.Paths.{PathError, sanitize_path}
use runixo_agent.Server.Uploads.{
  max_upload_size, Start, too_large, system_error, received_too_much, ok, err, Upload, Disk,
  check_write, received_of, open_file, check_extract, clean_extract, wants_extract, start_checked,
  start_clean, receive_start, receive_chunk,
}

-- The paths that are written passed the check for writing, and the file is within the limit.
pub record IsLimited (d : Disk) (u : Upload) : Type 0 where
  pub checked : check_write d u.path ≡ none
  pub directory : wants_extract u.is_tar_gz u.extract_to ≡ true → check_write d u.extract_to ≡ none
  pub counted : length u.content ≤ u.received
  pub bounded : u.received ≤ max_upload_size

abbrev pub BothLimited : Disk → Option Upload → Type 0
BothLimited d none = Unit
BothLimited d (some u) = IsLimited d u

received-bounded :
    (d : Disk) (o : Option Upload) → BothLimited d o → received_of o ≤ max_upload_size
received-bounded d none l = omega arith
received-bounded d (some u) l = l.bounded

module _ (d : Disk) (o : Option Upload) (l : BothLimited d o) (u : Upload) where
  open_file-IsLimited :
      (s : Start) (path extract_to : Text)
      → check_write d path ≡ none
      → (wants_extract s.is_tar_gz extract_to ≡ true → check_write d extract_to ≡ none)
      → open_file d o s path extract_to ≡ ok u
      → IsLimited d u
  unfolding open_file
  open_file-IsLimited s path extract_to checked directory h =
      by_tests (s.create_dirs && not (d.makes_dirs (dir_path path))) (d.opens path) h
    where
      new : Upload
      new = record {
        path = path;
        content = [];
        received = received_of o;
        is_tar_gz = s.is_tar_gz;
        extract_to = extract_to;
      }

      new-IsLimited : IsLimited d new
      new-IsLimited = record {
        checked = checked;
        directory = directory;
        counted = omega arith;
        bounded = received-bounded d o l;
      }

      same : {v : Upload} → ok new ≡ ok v → new ≡ v
      same e = cc

      by_tests :
          (a b : Bool)
          → (if a then err system_error else if b then ok new else err system_error) ≡ ok u
          → IsLimited d u
      by_tests true b g = absurd cc
      by_tests false false g = absurd cc
      by_tests false true g = subst (IsLimited d) (same g) new-IsLimited

  start_checked-IsLimited :
      (s : Start) (path : Text) (p : Option PathError)
      → check_write d path ≡ p
      → start_checked d o s path p ≡ ok u
      → IsLimited d u
  unfolding start_checked clean_extract check_extract
  start_checked-IsLimited s path (some e) f h = absurd cc
  start_checked-IsLimited s path none f h = by_tar (wants_extract s.is_tar_gz s.extract_to) refl h
    where
      by_check :
          (extract_to : Text) (p : Option PathError)
          → check_write d extract_to ≡ p
          → check_extract d o s path extract_to p ≡ ok u
          → IsLimited d u
      by_check extract_to (some e) g h = absurd cc
      by_check extract_to none g h = open_file-IsLimited s path extract_to f (λ t. g) h

      by_clean : (c : Option Text) → clean_extract d o s path c ≡ ok u → IsLimited d u
      by_clean none h = absurd cc
      by_clean (some extract_to) h = by_check extract_to (check_write d extract_to) refl h

      by_tar :
          (b : Bool)
          → wants_extract s.is_tar_gz s.extract_to ≡ b
          → (if b
              then clean_extract d o s path (sanitize_path s.extract_to)
              else open_file d o s path s.extract_to)
            ≡ ok u
          → IsLimited d u
      by_tar true e h = by_clean (sanitize_path s.extract_to) h
      by_tar false e h =
          open_file-IsLimited s path s.extract_to f (λ t. absurd (differ (sym e ∙ t))) h
        where
          differ : false ≡ true → ⊥
          differ x = cc

  pub receive_start-IsLimited : (s : Start) → receive_start d o s ≡ ok u → IsLimited d u
  unfolding receive_start start_clean
  receive_start-IsLimited s h = by_size (ltb max_upload_size s.total_size) h
    where
      by_clean : (c : Option Text) → start_clean d o s c ≡ ok u → IsLimited d u
      by_clean none h = absurd cc
      by_clean (some path) h = start_checked-IsLimited s path (check_write d path) refl h

      by_size :
          (b : Bool)
          → (if b then err too_large else start_clean d o s (sanitize_path s.path)) ≡ ok u
          → IsLimited d u
      by_size true g = absurd cc
      by_size false g = by_clean (sanitize_path s.path) g

pub receive_chunk-IsLimited :
    (d : Disk) (bytes : Text) (u v : Upload)
    → IsLimited d u
    → receive_chunk d bytes u ≡ ok v
    → IsLimited d v
unfolding receive_chunk
receive_chunk-IsLimited d bytes u v l h =
    by_tests (d.writes bytes) (ltb max_upload_size (u.received + length bytes)) refl h
  where
    new : Upload
    new = record u { content = u.content ++ bytes; received = u.received + length bytes }

    same : {w : Upload} → ok new ≡ ok w → new ≡ w
    same e = cc

    by_tests :
        (a b : Bool)
        → ltb max_upload_size (u.received + length bytes) ≡ b
        → (if not a then err system_error else if b then err received_too_much else ok new) ≡ ok v
        → IsLimited d v
    by_tests false b e g = absurd cc
    by_tests true true e g = absurd cc
    by_tests true false e g = subst (IsLimited d) (same g) (record {
      checked = l.checked;
      directory = l.directory;
      counted = omega (arith, length-append u.content bytes, l.counted);
      bounded = ground arith;
    })
