-- ===== src/Plugin/Archive/Inside.antt =====
-- Unpacking an archive stays inside the directory of the plugin.
use runixo_agent.Prelude.{
  ◌≡◌, ◌⊎◌, inl, inr, refl, ap, ◌∙◌, Bool, true, false, not, Option, some, List, [], ◌∷◌, ◌++◌,
  Text, codes, text_eq_iff, has_prefix, has_prefix_sound, join, All, All-append, if◌then◌else◌,
  arith,
}
use runixo_agent.Security.Path.{is_abs, clean, join_path, abs_path, dir_path}
use runixo_agent.Security.Path.Rooted.{is_plain, clean_rooted}
use runixo_agent.Plugin.{PluginError, system_error, bad_archive, path_traversal}
use runixo_agent.Plugin.Archive.{
  EntryType, directory, regular, other, Entry, Archive, not_gzip, entries, Change, made_directory,
  made_parent, wrote, Outside, is_inside, extract_entry, extract_then, extract_entries,
  extract_tar_gz,
}

-- The path that a change is about.
abbrev pub target_of : Change → Text
target_of (made_directory target) = target
target_of (made_parent target) = target
target_of (wrote target content) = target

-- The absolute path is names with slashes between them, none of them `..`, and it is that of the
-- directory or begins with it and a slash.
abbrev pub IsWithin : Text → Text → Type 0
IsWithin abs_dest abs_target =
    ((parts : List Text) × (abs_target ≡ b'/' ∷ join b'/' parts)
      × All (λ part. is_plain part ≡ true) parts)
    × ((abs_target ≡ abs_dest) ⊎ ((rest : Text) × (abs_target ≡ abs_dest ++ (b'/' ∷ rest))))

append_one : (s t : Text) → (s ++ codes "/") ++ t ≡ s ++ (b'/' ∷ t)
append_one [] t = refl
append_one (c ∷ s) t = ap (λ u. c ∷ u) (append_one s t)

is_abs-append : (s t : Text) → is_abs s ≡ true → is_abs (s ++ t) ≡ true
unfolding is_abs has_prefix
is_abs-append [] t h = absurd cc
is_abs-append (c ∷ s) t h = h

join_path_form :
    (cwd path : Text)
    → is_abs cwd ≡ true
    → (parts : List Text) × (join_path cwd path ≡ b'/' ∷ join b'/' parts)
      × All (λ part. is_plain part ≡ true) parts
unfolding join_path is_abs has_prefix
join_path_form [] path h = absurd cc
join_path_form (c ∷ s) path h =
    let (parts, form, plain, again) =
      clean_rooted ((c ∷ s) ++ (b'/' ∷ path)) (is_abs-append (c ∷ s) (b'/' ∷ path) h) in
    (parts, form, plain)

abs_path_form :
    (cwd path : Text)
    → is_abs cwd ≡ true
    → (parts : List Text) × (abs_path cwd path ≡ b'/' ∷ join b'/' parts)
      × All (λ part. is_plain part ≡ true) parts
unfolding abs_path
abs_path_form cwd path h = by_test (is_abs path) refl
  where
    by_test :
        (b : Bool)
        → is_abs path ≡ b
        → (parts : List Text) × ((if b then clean path else join_path cwd path)
            ≡ b'/' ∷ join b'/' parts)
          × All (λ part. is_plain part ≡ true) parts
    by_test true e = let (parts, form, plain, again) = clean_rooted path e in (parts, form, plain)
    by_test false e = join_path_form cwd path h

-- The test of prefixes, as a statement on the texts.
is_inside_sound_text :
    (dest target : Text)
    → is_inside dest target ≡ true
    → (target ≡ dest) ⊎ ((rest : Text) × (target ≡ dest ++ (b'/' ∷ rest)))
unfolding is_inside
is_inside_sound_text dest target h = by_test (has_prefix target (dest ++ codes "/")) refl
  where
    by_test :
        (b : Bool)
        → has_prefix target (dest ++ codes "/") ≡ b
        → (target ≡ dest) ⊎ ((rest : Text) × (target ≡ dest ++ (b'/' ∷ rest)))
    by_test true e =
        let (rest, f) = has_prefix_sound target (dest ++ codes "/") e in
        inr (rest, f ∙ append_one dest rest)
    by_test false e = inl ((text_eq_iff target dest).0 (ground arith))

pub abs_path-is_abs : (cwd path : Text) → is_abs cwd ≡ true → is_abs (abs_path cwd path) ≡ true
unfolding is_abs has_prefix
abs_path-is_abs cwd path h = let (parts, form, plain) = abs_path_form cwd path h in ap is_abs form

-- A name joined to an absolute path, where the test of prefixes holds.
pub joined-IsWithin :
    (dest name : Text)
    → is_abs dest ≡ true
    → is_inside dest (join_path dest name) ≡ true
    → IsWithin dest (join_path dest name)
joined-IsWithin dest name rooted h =
    (join_path_form dest name rooted, is_inside_sound_text dest (join_path dest name) h)

module _ (out : Outside) (dest : Text) (rooted : is_abs out.cwd ≡ true) where
  Within : Text → Type 0
  Within target = IsWithin (abs_path out.cwd dest) (abs_path out.cwd target)

  AllWithin : List Change → Type 0
  unfolding Within
  AllWithin changes = All (λ change. Within (target_of change)) changes

  is_inside_sound :
      (target : Text)
      → is_inside (abs_path out.cwd dest) (abs_path out.cwd target) ≡ true
      → Within target
  unfolding Within
  is_inside_sound target h = (
    abs_path_form out.cwd target rooted,
    is_inside_sound_text (abs_path out.cwd dest) (abs_path out.cwd target) h,
  )

  branch_within :
      {E : Type 0} (b : Bool) (x y : List Change × E)
      → (b ≡ true → AllWithin x.0)
      → AllWithin y.0
      → AllWithin (if◌then◌else◌ {A = List Change × E} b x y).0
  branch_within true x y f g = f refl
  branch_within false x y f g = g

  extract_entry-AllWithin :
      (kind : EntryType) (target content : Text)
      → Within target
      → AllWithin (extract_entry out kind target content).0
  unfolding extract_entry AllWithin
  extract_entry-AllWithin directory target content w =
      branch_within (out.mkdir_all target) (made_directory target ∷ [], true) ([], false)
        (λ e. (w, tt)) tt
  extract_entry-AllWithin regular target content w =
      branch_within (not (out.mkdir_all (dir_path target))) ([], false)
        (made_parent target ∷ wrote target content ∷ [], out.write_file target content) (λ e. tt)
        (w, (w, tt))
  extract_entry-AllWithin other target content w = tt

  extract_then-AllWithin :
      (first : List Change × Bool) (rest : List Change × Option PluginError)
      → AllWithin first.0
      → AllWithin rest.0
      → AllWithin (extract_then first rest).0
  unfolding extract_then AllWithin
  extract_then-AllWithin (changes, true) rest a b =
      (All-append (λ change. Within (target_of change)) changes rest.0).1 (a, b)
  extract_then-AllWithin (changes, false) rest a b = a

  extract_entries-AllWithin :
      (es : List Entry) (ends : Bool) → AllWithin (extract_entries out dest es ends).0
  unfolding extract_entries AllWithin
  extract_entries-AllWithin [] true = tt
  extract_entries-AllWithin [] false = tt
  extract_entries-AllWithin (e ∷ es) ends =
      let target = join_path dest e.name in
      branch_within (is_inside (abs_path out.cwd dest) (abs_path out.cwd target))
        (extract_then (extract_entry out e.kind target e.content)
          (extract_entries out dest es ends))
        ([], some path_traversal)
        (λ h.
          extract_then-AllWithin (extract_entry out e.kind target e.content)
            (extract_entries out dest es ends)
            (extract_entry-AllWithin e.kind target e.content (is_inside_sound target h))
            (extract_entries-AllWithin es ends))
        tt

  dest-Within : Within dest
  unfolding Within
  dest-Within = (abs_path_form out.cwd dest rooted, inl refl)

  -- Unpacking any archive, whatever the names of its entries and wherever it fails, touches
  -- only paths within the directory of the plugin: each, made absolute, is names with slashes
  -- between them, none of them `..`, and is that directory or begins with it and a slash. Of the
  -- directory that a file stands in, this is said of the file. The working directory is absolute.
  pub extract_tar_gz-IsWithin :
      (archive : Archive)
      → All
          (λ change. IsWithin (abs_path out.cwd dest) (abs_path out.cwd (target_of change)))
          (extract_tar_gz out dest archive).0
  unfolding extract_tar_gz Within AllWithin
  extract_tar_gz-IsWithin not_gzip =
      branch_within (out.mkdir_all dest) (made_directory dest ∷ [], some bad_archive)
        ([], some system_error) (λ e. (dest-Within, tt)) tt
  extract_tar_gz-IsWithin (entries es ends) =
      branch_within (out.mkdir_all dest)
        (extract_then (made_directory dest ∷ [], true) (extract_entries out dest es ends))
        ([], some system_error)
        (λ e.
          extract_then-AllWithin (made_directory dest ∷ [], true) (extract_entries out dest es ends)
            (dest-Within, tt) (extract_entries-AllWithin es ends))
        tt
