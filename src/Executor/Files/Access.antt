-- ===== src/Executor/Files/Access.antt =====
-- What a read that succeeds has passed.
use mathlib.Core.Path.{subst}
use runixo_agent.Prelude.{
  ◌≤◌, ◌≡◌, ◌⊎◌, inl, inr, refl, sym, Bool, true, false, Option, none, some, Text, text_eq, ltb,
  if◌then◌else◌, arith,
}
use runixo_agent.Security.Paths.{PathError, sanitize_path}
use runixo_agent.Executor.Files.{
  FileInfo, is_directory, too_large, ok, err, Stat, FileSystem, max_file_size, check, read_content,
  read_stat, read_at, read_link, read_real, read_checked, read_clean, read_file,
}

-- The file at the path is no directory and not too large, and the content is its own.
pub record IsRead (fs : FileSystem) (path : Text) (content : Text) : Type 0 where
  pub stat : Stat
  pub found : fs.stat path ≡ some stat
  pub no_directory : stat.is_dir ≡ false
  pub small : stat.size ≤ max_file_size
  pub same : fs.read path ≡ some content

-- A read that succeeds: the file at the path that is reported passed the check of paths, and it is
-- the cleaned path or where its links lead.
pub record IsAllowed (fs : FileSystem) (clean_path : Text) (content : Text) (info : FileInfo)
    : Type 0 where
  pub checked : check fs info.path ≡ none
  pub place : (info.path ≡ clean_path) ⊎ (fs.eval_symlinks clean_path ≡ some info.path)
  pub read : IsRead fs info.path content

module _ (fs : FileSystem) (content : Text) (info : FileInfo) where
  read_stat-IsRead :
      (path : Text) (s : Option Stat)
      → fs.stat path ≡ s
      → read_stat fs path s ≡ ok (content, info)
      → (info.path ≡ path) × IsRead fs path content
  unfolding read_stat read_content
  read_stat-IsRead path none e h = absurd cc
  read_stat-IsRead path (some s) e h =
      by_tests s.is_dir (ltb max_file_size s.size) (fs.read path) refl refl refl h
    where
      by_tests :
          (d l : Bool) (o : Option Text)
          → s.is_dir ≡ d
          → ltb max_file_size s.size ≡ l
          → fs.read path ≡ o
          → (if d then err is_directory else if l then err too_large else read_content fs path s o)
            ≡ ok (content, info)
          → (info.path ≡ path) × IsRead fs path content
      by_tests true l o f g r h = absurd cc
      by_tests false true o f g r h = absurd cc
      by_tests false false none f g r h = absurd cc
      by_tests false false (some c) f g r h =
          (cc, record { stat = s; found = e; no_directory = f; small = ground arith; same = cc })

  read_at-IsAllowed :
      (clean_path path : Text)
      → check fs path ≡ none
      → (path ≡ clean_path) ⊎ (fs.eval_symlinks clean_path ≡ some path)
      → read_at fs path ≡ ok (content, info)
      → IsAllowed fs clean_path content info
  unfolding read_at
  read_at-IsAllowed clean_path path checked place h =
      let (same, read) = read_stat-IsRead path (fs.stat path) refl h in at_path (sym same) read
    where
      at_path : path ≡ info.path → IsRead fs path content → IsAllowed fs clean_path content info
      at_path e r = record {
        checked = subst (λ p. check fs p ≡ none) e checked;
        place = subst (λ p. (p ≡ clean_path) ⊎ (fs.eval_symlinks clean_path ≡ some p)) e place;
        read = subst (λ p. IsRead fs p content) e r;
      }

  read_real-IsAllowed :
      (path : Text) (o : Option Text)
      → check fs path ≡ none
      → fs.eval_symlinks path ≡ o
      → read_real fs path o ≡ ok (content, info)
      → IsAllowed fs path content info
  unfolding read_real read_at read_link
  read_real-IsAllowed path none checked e h = read_at-IsAllowed path path checked (inl refl) h
  read_real-IsAllowed path (some real) checked e h =
      by_link (text_eq real path) (check fs real) refl h
    where
      by_link :
          (b : Bool) (o : Option PathError)
          → check fs real ≡ o
          → (if b then read_at fs path else read_link fs real o) ≡ ok (content, info)
          → IsAllowed fs path content info
      by_link true o f h = read_at-IsAllowed path path checked (inl refl) h
      by_link false none f h = read_at-IsAllowed path real f (inr e) h
      by_link false (some x) f h = absurd cc

  -- A read that succeeds gives the whole content of one file, which is no directory and holds no
  -- more than 50 MB. It is the cleaned path, or where its symbolic links lead, and the path that
  -- is reported passed the check of paths.
  read_file-IsAllowed :
      (path : Text)
      → read_file fs path ≡ ok (content, info)
      → (clean_path : Text) × (sanitize_path path ≡ some clean_path)
        × IsAllowed fs clean_path content info
  unfolding read_file read_clean read_checked
  read_file-IsAllowed path h = by_clean (sanitize_path path) refl h
    where
      by_check :
          (p : Text) (o : Option PathError)
          → check fs p ≡ o
          → read_checked fs p o ≡ ok (content, info)
          → IsAllowed fs p content info
      by_check p none e h = read_real-IsAllowed p (fs.eval_symlinks p) e refl h
      by_check p (some x) e h = absurd cc

      by_clean :
          (o : Option Text)
          → sanitize_path path ≡ o
          → read_clean fs o ≡ ok (content, info)
          → (clean_path : Text) × (sanitize_path path ≡ some clean_path)
            × IsAllowed fs clean_path content info
      by_clean none e h = absurd cc
      by_clean (some p) e h = (p, e, by_check p (check fs p) refl h)
