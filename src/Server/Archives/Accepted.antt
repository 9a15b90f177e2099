-- ===== src/Server/Archives/Accepted.antt =====
-- What an archive holds that is accepted.
use runixo_agent.Prelude.{
  ◌≡◌, refl, Bool, true, false, not, Option, none, some, List, [], ◌∷◌, Text, codes, contains, All,
  if◌then◌else◌,
}
use runixo_agent.Security.Path.{is_abs, clean, abs_path}
use runixo_agent.Plugin.Archive.{is_inside}
use runixo_agent.Plugin.Archive.Inside.{IsWithin, abs_path-is_abs, joined-IsWithin}
use runixo_agent.Server.Archives.{
  ArchiveError, climbs, absolute_link, link_climbs, EntryKind, link, other, Entry, entries,
  resolved_link, and_then, check_link, target_in, check_entry, check_entries, check_tar,
  validate_tar_gz_before_extract,
}

-- A link leads to a relative name that stays within the directory.
abbrev pub IsLinkWithin : Text → Text → EntryKind → Type 0
IsLinkWithin dest target other = Unit
IsLinkWithin dest target (link name) =
    (is_abs (clean name) ≡ false) × (is_inside dest (resolved_link target name) ≡ true)

pub record IsAccepted (dest : Text) (e : Entry) : Type 0 where
  pub within : IsWithin dest (target_in dest e.name)
  pub no_dots : contains (clean e.name) (codes "..") ≡ false
  pub leads : IsLinkWithin dest (target_in dest e.name) e.kind

check_link-IsLinkWithin :
    (dest target : Text) (kind : EntryKind)
    → check_link dest target kind ≡ none
    → IsLinkWithin dest target kind
unfolding check_link
check_link-IsLinkWithin dest target other h = tt
check_link-IsLinkWithin dest target (link name) h =
    by_tests (is_abs (clean name)) (is_inside dest (resolved_link target name)) refl refl h
  where
    by_tests :
        (a i : Bool)
        → is_abs (clean name) ≡ a
        → is_inside dest (resolved_link target name) ≡ i
        → (if a then some absolute_link else if not i then some link_climbs else none) ≡ none
        → (is_abs (clean name) ≡ false) × (is_inside dest (resolved_link target name) ≡ true)
    by_tests true i e f g = absurd cc
    by_tests false false e f g = absurd cc
    by_tests false true e f g = (e, f)

check_entry-IsAccepted :
    (dest : Text) (e : Entry) → is_abs dest ≡ true → check_entry dest e ≡ none → IsAccepted dest e
unfolding check_entry
check_entry-IsAccepted dest e rooted h =
    by_tests (contains (clean e.name) (codes "..")) (is_inside dest (target_in dest e.name)) refl
      refl h
  where
    by_tests :
        (d i : Bool)
        → contains (clean e.name) (codes "..") ≡ d
        → is_inside dest (target_in dest e.name) ≡ i
        → (if d
            then some climbs
            else if not i
            then some climbs
            else check_link dest (target_in dest e.name) e.kind)
          ≡ none
        → IsAccepted dest e
    by_tests true i f k g = absurd cc
    by_tests false false f k g = absurd cc
    by_tests false true f k g = record {
      within = joined-IsWithin dest (clean e.name) rooted k;
      no_dots = f;
      leads = check_link-IsLinkWithin dest (target_in dest e.name) e.kind g;
    }

check_entries-IsAccepted :
    (dest : Text) (es : List Entry) (ends : Bool)
    → is_abs dest ≡ true
    → check_entries dest es ends ≡ none
    → All (IsAccepted dest) es
unfolding check_entries
check_entries-IsAccepted dest [] ends rooted h = tt
check_entries-IsAccepted dest (e ∷ es) ends rooted h =
    by_entry (check_entry dest e) refl h (check_entries-IsAccepted dest es ends rooted)
  where
    by_entry :
        (o : Option ArchiveError)
        → check_entry dest e ≡ o
        → and_then o (check_entries dest es ends) ≡ none
        → (check_entries dest es ends ≡ none → All (IsAccepted dest) es)
        → IsAccepted dest e × All (IsAccepted dest) es
    by_entry none f g later = (check_entry-IsAccepted dest e rooted f, later g)
    by_entry (some x) f g later = absurd cc

-- An archive that is accepted is read to its end, and each of its entries goes to a path within
-- the directory: names with slashes between them, none of them `..`, that are the directory's own
-- or begin with them. A link leads to a relative name that, seen from the link, is within it too.
pub validate_tar_gz-IsAccepted :
    (cwd extract_to : Text) (es : List Entry) (ends : Bool)
    → is_abs cwd ≡ true
    → validate_tar_gz_before_extract cwd extract_to (entries es ends) ≡ none
    → All (IsAccepted (abs_path cwd extract_to)) es
unfolding validate_tar_gz_before_extract check_tar
validate_tar_gz-IsAccepted cwd extract_to es ends rooted h =
    check_entries-IsAccepted (abs_path cwd extract_to) es ends
      (abs_path-is_abs cwd extract_to rooted) h
