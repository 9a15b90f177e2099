-- ===== src/Updater/Check.antt =====
-- CheckUpdate of internal/updater/updater.go: the latest release, and its archive for this system.
use runixo_agent.Prelude.{
  ℕ, false, not, ◌&&◌, Option, none, some, List, [], ◌∷◌, ◌++◌, Text, codes, text_eq, if◌then◌else◌,
}
use runixo_agent.Updater.{
  UpdateInfo, no_response, bad_version, Result, ok, failure, Updater, Asset, Release, World,
  is_version,
}

abbrev pub asset_name : World → Text
asset_name w = codes "runixo-agent-" ++ (w.os ++ (codes "_" ++ (w.arch ++ codes ".tar.gz")))

-- What the loop over the assets has found so far.
pub record Found : Type 0 where
  pub download_url : Text
  pub size : ℕ
  pub checksum : Text

abbrev pub found_none : Found
found_none = record { download_url = []; size = 0; checksum = [] }

abbrev note_archive : Text → Asset → Found → Found
note_archive name a f =
    if text_eq a.name name then record f { download_url = a.url; size = a.size } else f

abbrev note_checksums : Asset → Found → Found
note_checksums a f =
    if text_eq a.name (codes "checksums.txt") then record f { checksum = a.url } else f

-- A later asset of the same name takes the place of an earlier one.
unfoldable pub find_assets : Text → List Asset → Found → Found
find_assets name [] f = f
find_assets name (a ∷ rest) f = find_assets name rest (note_checksums a (note_archive name a f))

unfoldable pub info_of : Text → Release → Found → UpdateInfo
info_of current r f = record {
  available = not (text_eq f.download_url []) && not (text_eq r.tag_name current);
  current_version = current;
  latest_version = r.tag_name;
  release_notes = r.body;
  download_url = f.download_url;
  size = f.size;
  checksum = f.checksum;
  release_date = r.published_at;
  is_critical = false;
}

unfoldable pub check_release : World → Text → Option Release → Result UpdateInfo
check_release w current none = failure no_response
check_release w current (some r) =
    if not (is_version r.tag_name)
    then failure bad_version
    else ok (info_of current r (find_assets (asset_name w) r.assets found_none))

-- The time of the check is saved first. A failure to write the file is not looked at.
unfoldable pub note_check : World → ℕ → Updater → Updater
note_check w now u =
    let c = record u.config { last_check = w.rfc3339 now } in
    record u { config = c; saved_config = if w.saves_config c then some c else u.saved_config }

unfoldable pub check_update : World → ℕ → Updater → Result UpdateInfo × Updater
check_update w now u = (check_release w u.current_version w.latest, note_check w now u)
