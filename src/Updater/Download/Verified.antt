-- ===== src/Updater/Download/Verified.antt =====
-- A download that succeeds left the binary of an archive whose checksum is the published one.
use mathlib.Core.Path.{subst}
use runixo_agent.Prelude.{
  append_assoc, append_nil, ◌≡◌, ◌≢◌, refl, sym, ap, ◌∙◌, Bool, true, false, not, ◌&&◌, ◌||◌,
  Option, none, some, List, [], ◌∷◌, ◌++◌, Text, text_eq, text_eq_iff, if◌then◌else◌, Dict, lookup,
  insert, delete, lookup-insert_self, arith,
}
use runixo_agent.Security.Regex.{joined}
use runixo_agent.Updater.{
  UpdateInfo, UpdateError, system_error, download_failed, no_checksum, checksum_missing,
  checksum_mismatch, Result, ok, failure, Updater, Body, World,
}
use runixo_agent.Updater.Check.{asset_name}
use runixo_agent.Updater.Download.Untouched.{lookup-delete_ne}
use runixo_agent.Updater.Download.{
  write_pieces, store_body, download_file, fetch_checksum_for_file, verify_checksum, binary_path,
  tar_path, download_dir, store_binary, untar_file, unpack_verified, check_archive, after_download,
  download_and_extract,
}

-- The archive is the whole body that the address of the release gave; the file of checksums has a
-- line for it with its SHA-256; and the binary is what it holds.
pub record IsVerified (w : World) (info : UpdateInfo) (binary : Option Text) : Type 0 where
  pub body : Body
  pub whole : (w.fetch info.download_url ≡ some body) × (body.ended ≡ true)
  pub sum : Text
  pub listed : fetch_checksum_for_file w info.checksum (asset_name w) ≡ some sum
  pub same : w.sha256 (joined body.pieces) ≡ sum
  pub unpacked : binary ≡ w.untar (joined body.pieces)

-- Where every write succeeds, the file holds the pieces one after the other.
write_pieces_sound :
    (w : World) (path written : Text) (pieces : List Text)
    → (write_pieces w path written pieces).1 ≡ true
    → (write_pieces w path written pieces).0 ≡ written ++ joined pieces
unfolding write_pieces
write_pieces_sound w path written [] h = sym (append_nil written)
write_pieces_sound w path written (piece ∷ pieces) h =
    by_test (text_eq piece [] || w.writes path (written ++ piece))
      (write_pieces w path (written ++ piece) pieces) h
      (write_pieces_sound w path (written ++ piece) pieces)
  where
    by_test :
        (b : Bool) (rest : Text × Bool)
        → (if◌then◌else◌ {A = Text × Bool} b rest (written, false)).1 ≡ true
        → (rest.1 ≡ true → rest.0 ≡ (written ++ piece) ++ joined pieces)
        → (if◌then◌else◌ {A = Text × Bool} b rest (written, false)).0
          ≡ written ++ (piece ++ joined pieces)
    by_test true rest h k = k h ∙ append_assoc written piece (joined pieces)
    by_test false rest h k = absurd cc

module _ (w : World) (info : UpdateInfo) (u : Updater)
    (apart : tar_path u info ≢ binary_path w u) where
  -- What is said of an outcome, if it is a success.
  Sound : Result Text × Dict Text → Type 0
  Sound out =
      (path : Text)
      → out.0 ≡ ok path
      → (path ≡ binary_path w u) × IsVerified w info (lookup path out.1)

  no_success : (e : UpdateError) (files : Dict Text) → Sound (failure e, files)
  unfolding Sound
  no_success e files path h = absurd cc

  store_binary-Sound :
      (files : Dict Text) (o : Option Text)
      → IsVerified w info o
      → Sound (store_binary w info u files o)
  unfolding store_binary Sound
  store_binary-Sound files none v path h = absurd cc
  store_binary-Sound files (some binary) v path h =
      (sym same, subst (IsVerified w info) (sym (ap (λ k. lookup k stored) (sym same) ∙ found)) v)
    where
      stored : Dict Text
      stored = delete (tar_path u info) (insert (binary_path w u) binary files)

      same : binary_path w u ≡ path
      same = cc

      found : lookup (binary_path w u) stored ≡ some binary
      found =
          lookup-delete_ne (tar_path u info) (binary_path w u) _ apart
          ∙ lookup-insert_self (binary_path w u) binary files

  unpack_verified-Sound :
      (files : Dict Text) (r : Result Bool)
      → (r ≡ ok true → IsVerified w info (untar_file w (lookup (tar_path u info) files)))
      → Sound (unpack_verified w info u files r)
  unfolding unpack_verified
  unpack_verified-Sound files (failure e) v = no_success e _
  unpack_verified-Sound files (ok false) v = no_success checksum_mismatch _
  unpack_verified-Sound files (ok true) v = store_binary-Sound files _ (v refl)

  check_archive-Sound :
      (files : Dict Text) (body : Body) (o : Option Text)
      → w.fetch info.download_url ≡ some body
      → body.ended ≡ true
      → lookup (tar_path u info) files ≡ some (joined body.pieces)
      → o ≡ fetch_checksum_for_file w info.checksum (asset_name w)
      → Sound (check_archive w info u files o)
  unfolding check_archive verify_checksum
  check_archive-Sound files body none got ended stored listed = no_success checksum_missing _
  check_archive-Sound files body (some sum) got ended stored listed =
      unpack_verified-Sound files (verify_checksum w (lookup (tar_path u info) files) sum) (λ h.
        record {
          body = body;
          whole = (got, ended);
          sum = sum;
          listed = sym listed;
          same =
              (text_eq_iff (w.sha256 (joined body.pieces)) sum).0
                (true_of (sym (ap (λ o. verify_checksum w o sum) stored) ∙ h));
          unpacked = ap (untar_file w) stored;
        })
    where
      true_of : {b : Bool} → ok b ≡ ok true → b ≡ true
      true_of e = cc

  after_download-Sound :
      (o : Option Body)
      → o ≡ w.fetch info.download_url
      → Sound (after_download w info u (store_body w (tar_path u info) o u.files))
  unfolding after_download store_body
  after_download-Sound none got = no_success download_failed _
  after_download-Sound (some body) got = by_open (not (w.writes (tar_path u info) []))
    where
      content : Text
      content = (write_pieces w (tar_path u info) [] body.pieces).0

      files : Dict Text
      files = insert (tar_path u info) content u.files

      by_listed :
          (b : Bool)
          → content ≡ joined body.pieces
          → body.ended ≡ true
          → Sound (
              if◌then◌else◌ {A = Result Text × Dict Text} b
                (failure no_checksum, delete (tar_path u info) files)
                (check_archive w info u files
                  (fetch_checksum_for_file w info.checksum (asset_name w))))
      by_listed true e ended = no_success no_checksum _
      by_listed false e ended =
          check_archive-Sound files body _ (sym got) ended
            (lookup-insert_self (tar_path u info) content u.files ∙ ap some e) refl

      by_end :
          (b : Bool)
          → ((write_pieces w (tar_path u info) [] body.pieces).1 && body.ended) ≡ b
          → Sound (after_download w info u (b, files))
      by_end false e = no_success download_failed _
      by_end true e =
          by_listed (text_eq info.checksum [])
            (write_pieces_sound w (tar_path u info) [] body.pieces (ground arith)) (ground arith)

      by_open :
          (b : Bool)
          → Sound (
              after_download w info u (
                if◌then◌else◌ {A = Bool × Dict Text} b
                  (false, u.files)
                  ((write_pieces w (tar_path u info) [] body.pieces).1 && body.ended, files)))
      by_open true = no_success download_failed _
      by_open false = by_end _ refl

  pub download_and_extract-IsVerified :
      (path : Text)
      → (download_and_extract w info u).0 ≡ ok path
      → (path ≡ binary_path w u) × IsVerified w info (lookup path (download_and_extract w info u).1)
  unfolding download_and_extract download_file Sound
  download_and_extract-IsVerified = by_dir (not (w.makes_dir (download_dir u)))
    where
      by_dir :
          (b : Bool)
          → Sound (
              if◌then◌else◌ {A = Result Text × Dict Text} b
                (failure system_error, u.files)
                (after_download w info u
                  (download_file w info.download_url (tar_path u info) u.files)))
      by_dir true = no_success system_error _
      by_dir false = after_download-Sound (w.fetch info.download_url) refl
