-- ===== src/Updater/Tests.antt =====
-- The theorems of the updater at concrete inputs, and runs of the code.
use mathlib.Core.Path.{subst}
use runixo_agent.Prelude.{
  fields, last_of, ◌⊎◌, ℕ, sym, ◌∙◌, ne_of_text_eq, ◌≤◌, ◌≡◌, refl, true, false, Option, none, some,
  [], ◌∷◌, ◌++◌, Text, codes, length, lookup, insert, delete, text_eq, split, join, has_prefix,
}
use runixo_agent.Security.Path.{join_path, clean, is_abs, clean_parts, push_part, go_up, or_dot}
use runixo_agent.Security.Regex.{nullable, derive}
use runixo_agent.Updater.{
  Config, default_config, UpdateInfo, cooling_down, Updater, new_updater, World, Release, Body, ok,
  full_match, is_version, record_update, keep_last,
}
use runixo_agent.Updater.History.{Update, record_all, records_of, record_all_lem}
use runixo_agent.Updater.Check.{check_update, note_check, check_release, find_assets, info_of}
use runixo_agent.Updater.Download.{
  download_and_extract, after_download, check_archive, unpack_verified, store_binary,
  verify_checksum, fetch_checksum_for_file, read_checksums, find_checksum, checksum_in,
  download_file, store_body, write_pieces,
}
use runixo_agent.Updater.Apply.{
  apply_update, apply_checked, download_and_apply, apply_downloaded, apply_binary, note_applied,
  replace_binary, replace_executable, after_backup, install_binary, or_copy, rename,
}
use runixo_agent.Updater.Apply.Safe.{IsApart}
use runixo_agent.Updater.Apply.Calls.{IsSafeCall, apply_update-IsSafeCall}
use runixo_agent.Updater.Ticker.{
  waiting, ended, Ticking, new_ticking, start, set_config, checked, ticks, here, next,
}
use runixo_agent.Updater.Ticker.Silence.{set_config_ends_checks}

abbrev release : Release
release = record {
  tag_name = codes "v1.2.0";
  body = [];
  assets =
      record { name = codes "runixo-agent-linux_amd64.tar.gz"; size = 3; url = codes "a" }
      ∷ record { name = codes "checksums.txt"; size = 3; url = codes "c" }
      ∷ [];
  published_at = [];
}

abbrev answer : Text → Option Body
answer url = elim (text_eq url (codes "a")) [
  | true ↦ some (record { pieces = codes "ta" ∷ codes "r" ∷ []; ended = true })
  | false ↦
      some (record { pieces = codes "5a  runixo-agent-linux_amd64.tar.gz" ∷ []; ended = true })
]

abbrev world : World
world = record {
  os = codes "linux";
  arch = codes "amd64";
  latest = some release;
  fetch = answer;
  sha256 = λ content. codes "5a";
  untar = λ content. some (codes "new");
  makes_dir = λ path. true;
  writes = λ path content. true;
  leaves = none;
  renames = λ from to. true;
  saves_history = λ h. true;
  saves_config = λ c. true;
  rfc3339 = λ time. codes "2026-01-01T00:00:00Z";
  executable = some (codes "/b/agent");
}

abbrev exe : Text
exe = codes "/b/agent"

abbrev updater : Updater
updater = new_updater (codes "v1.1.0") (codes "/d") none [] ((codes "/b/agent", codes "old") ∷ [])

abbrev minute : ℕ
minute = 60_000_000_000

-- The forms of a version.
version_forms :
    (is_version (codes "v1.2.0") ≡ true)
    × (is_version (codes "v1.2.0-rc.1") ≡ true)
    × (is_version (codes "1.2.0") ≡ false)
    × (is_version (codes "v1.2") ≡ false)
unfolding is_version full_match nullable derive
version_forms = (refl, refl, refl, refl)

abbrev the_info : UpdateInfo
the_info = record {
  available = true;
  current_version = codes "v1.1.0";
  latest_version = codes "v1.2.0";
  release_notes = [];
  download_url = codes "a";
  size = 3;
  checksum = codes "c";
  release_date = [];
  is_critical = false;
}

the_info_found : check_release world (codes "v1.1.0") (some release) ≡ ok the_info
unfolding check_release info_of find_assets is_version full_match nullable derive text_eq
the_info_found = refl

the_info-IsApart : IsApart world the_info updater exe
unfolding join_path clean is_abs clean_parts push_part go_up or_dot split join has_prefix text_eq
    new_updater
the_info-IsApart = record {
  not_archive = ne_of_text_eq refl;
  not_binary = ne_of_text_eq refl;
  not_backup = ne_of_text_eq refl;
  distinct = ne_of_text_eq refl;
}

apart :
    (info : UpdateInfo)
    → check_release world (codes "v1.1.0") (some release) ≡ ok info
    → IsApart world info updater exe
apart info h = subst (λ i. IsApart world i updater exe) same the_info-IsApart
  where
    found : ok the_info ≡ ok info
    found = sym the_info_found ∙ h

    same : the_info ≡ info
    same = cc found

-- The update goes through, and the new binary is in place.
applies :
    let out = apply_update world minute (codes "v1.2.0") updater in
    (out.0 ≡ none) × (lookup exe out.1.files ≡ some (codes "new"))
unfolding apply_update apply_checked download_and_apply apply_downloaded apply_binary note_applied
    replace_binary replace_executable after_backup install_binary or_copy rename
    download_and_extract after_download check_archive unpack_verified store_binary verify_checksum
    fetch_checksum_for_file read_checksums find_checksum fields checksum_in download_file store_body
    write_pieces check_update note_check check_release info_of find_assets record_update keep_last
    new_updater is_version full_match nullable derive join_path clean is_abs clean_parts push_part
    go_up or_dot has_prefix split join text_eq lookup insert delete
applies = (refl, refl)

apply_update-IsSafeCall_example :
    IsSafeCall world
      (codes "v1.2.0")
      exe
      updater
      (apply_update world minute (codes "v1.2.0") updater)
unfolding new_updater
apply_update-IsSafeCall_example =
    apply_update-IsSafeCall world minute (codes "v1.2.0") updater exe apart refl refl

abbrev one_failure : Update
one_failure = (5, codes "v1.2.0", some cooling_down)

record_all_lem_example :
    let u' = record_all world (one_failure ∷ one_failure ∷ []) updater in
    (u'.history
      ≡ last_of 50
          (updater.history ++ records_of updater.current_version (one_failure ∷ one_failure ∷ [])))
    × (length u'.history ≤ 50)
    × ((u'.saved_history ≡ u'.history) ⊎ (world.saves_history u'.history ≡ false))
record_all_lem_example = record_all_lem world one_failure (one_failure ∷ []) updater

abbrev automatic : Config
automatic = record default_config { auto_update = true }

-- After its first check the goroutine waits on the first ticker.
abbrev first_wait : Ticking
first_wait = record (start (new_ticking automatic)) { loop = waiting 0 }

-- The new ticker ticks, and nobody receives that.
abbrev unheard : Ticking
unheard = record (set_config true automatic first_wait) { full = 1 ∷ [] }

set_config_ends_checks_example : (unheard.loop ≡ waiting 0) ⊎ (unheard.loop ≡ ended)
unfolding start new_ticking set_config
set_config_ends_checks_example =
    set_config_ends_checks automatic automatic true 0 (next here (checked 0 refl refl)) refl tt
      (next here (ticks 1 refl refl))
