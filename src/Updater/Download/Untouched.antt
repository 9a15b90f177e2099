-- ===== src/Updater/Download/Untouched.antt =====
-- A download leaves every file but its archive and its binary.
use runixo_agent.Prelude.{
  ◌≡◌, ◌≢◌, refl, ◌∙◌, Bool, true, false, not, ◌&&◌, Option, none, some, [], Text, text_eq,
  text_eq_ne, if◌then◌else◌, Dict, lookup, insert, delete, lookup-insert_ne, lookup-delete,
}
use runixo_agent.Updater.{
  UpdateInfo, system_error, no_checksum, Result, ok, failure, Updater, Body, World,
}
use runixo_agent.Updater.Check.{asset_name}
use runixo_agent.Updater.Download.{
  write_pieces, store_body, download_file, fetch_checksum_for_file, verify_checksum, binary_path,
  tar_path, download_dir, store_binary, untar_file, unpack_verified, check_archive, after_download,
  download_and_extract,
}

pub lookup-delete_ne :
    (k j : Text) (files : Dict Text) → k ≢ j → lookup j (delete k files) ≡ lookup j files
lookup-delete_ne k j files ne = rw (lookup-delete, text_eq_ne k j ne)

-- Files that agree with others at a path which the download does not write.
module _ (w : World) (info : UpdateInfo) (u : Updater) (k : Text) (not_tar : tar_path u info ≢ k)
    (not_binary : binary_path w u ≢ k) where
  delete_tar : (files : Dict Text) → lookup k (delete (tar_path u info) files) ≡ lookup k files
  delete_tar files = lookup-delete_ne (tar_path u info) k files not_tar

  store_binary-other :
      (files : Dict Text) (o : Option Text)
      → lookup k (store_binary w info u files o).1 ≡ lookup k files
  unfolding store_binary
  store_binary-other files none = delete_tar files
  store_binary-other files (some binary) =
      delete_tar (insert (binary_path w u) binary files)
      ∙ lookup-insert_ne (binary_path w u) k binary files not_binary

  unpack_verified-other :
      (files : Dict Text) (r : Result Bool)
      → lookup k (unpack_verified w info u files r).1 ≡ lookup k files
  unfolding unpack_verified
  unpack_verified-other files (failure e) = delete_tar files
  unpack_verified-other files (ok false) = delete_tar files
  unpack_verified-other files (ok true) =
      store_binary-other files (untar_file w (lookup (tar_path u info) files))

  check_archive-other :
      (files : Dict Text) (o : Option Text)
      → lookup k (check_archive w info u files o).1 ≡ lookup k files
  unfolding check_archive
  check_archive-other files none = delete_tar files
  check_archive-other files (some sum) =
      unpack_verified-other files (verify_checksum w (lookup (tar_path u info) files) sum)

  after_download-other :
      (d : Bool × Dict Text) → lookup k (after_download w info u d).1 ≡ lookup k d.1
  unfolding after_download
  after_download-other (false, files) = refl
  after_download-other (true, files) = by_test (text_eq info.checksum [])
    where
      by_test :
          (b : Bool)
          → lookup k
              (if◌then◌else◌ {A = Result Text × Dict Text} b
                (failure no_checksum, delete (tar_path u info) files)
                (check_archive w info u files
                  (fetch_checksum_for_file w info.checksum (asset_name w)))).1
            ≡ lookup k files
      by_test true = delete_tar files
      by_test false =
          check_archive-other files (fetch_checksum_for_file w info.checksum (asset_name w))

  store_body-other :
      (o : Option Body) → lookup k (store_body w (tar_path u info) o u.files).1 ≡ lookup k u.files
  unfolding store_body
  store_body-other none = refl
  store_body-other (some body) = by_test (not (w.writes (tar_path u info) []))
    where
      by_test :
          (b : Bool)
          → lookup k
              (if◌then◌else◌ {A = Bool × Dict Text} b
                (false, u.files)
                (
                  (write_pieces w (tar_path u info) [] body.pieces).1 && body.ended,
                  insert
                      (tar_path u info)
                      (write_pieces w (tar_path u info) [] body.pieces).0
                      u.files,
                )).1
            ≡ lookup k u.files
      by_test true = refl
      by_test false = lookup-insert_ne (tar_path u info) k _ u.files not_tar

  pub download_and_extract-other : lookup k (download_and_extract w info u).1 ≡ lookup k u.files
  unfolding download_and_extract download_file
  download_and_extract-other = by_test (not (w.makes_dir (download_dir u)))
    where
      by_test :
          (b : Bool)
          → lookup k
              (if◌then◌else◌ {A = Result Text × Dict Text} b
                (failure system_error, u.files)
                (after_download w info u
                  (download_file w info.download_url (tar_path u info) u.files))).1
            ≡ lookup k u.files
      by_test true = refl
      by_test false =
          after_download-other (download_file w info.download_url (tar_path u info) u.files)
          ∙ store_body-other (w.fetch info.download_url)
