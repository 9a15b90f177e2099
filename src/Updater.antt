-- ===== src/Updater.antt =====
-- internal/updater/updater.go: the records of the updater, and what it asks of the outside.
use runixo_agent.Prelude.{
  ℕ, ◌+◌, ◌-◌, Bool, true, false, not, ◌&&◌, ◌||◌, Option, none, some, List, [], ◌∷◌, ◌++◌, Text,
  codes, length, drop, leb, ltb, ◌==◌, if◌then◌else◌, Dict, insert,
}
use runixo_agent.Prelude.Int.{ℤ}
use runixo_agent.Prelude.Clock.{unix_seconds}
use runixo_agent.Security.Regex.{Regex, never, done, one, then_, either, star, nullable, derive}
pub mod History
pub mod Check
pub mod Download
pub mod Apply
pub mod Ticker
mod Tests

pub record Config : Type 0 where
  pub auto_update : Bool
  pub check_interval : ℕ
  pub update_channel : Text
  pub last_check : Text
  pub notify_only : Bool

abbrev pub default_config : Config
default_config = record {
  auto_update = false;
  check_interval = 3600;
  update_channel = codes "stable";
  last_check = [];
  notify_only = true;
}

pub record UpdateInfo : Type 0 where
  pub available : Bool
  pub current_version : Text
  pub latest_version : Text
  pub release_notes : Text
  pub download_url : Text
  pub size : ℕ
  pub checksum : Text
  pub release_date : Text
  pub is_critical : Bool

pub data UpdateError : Type 0 where
  no_response bad_version cooling_down nothing_available not_available : UpdateError
  download_failed no_checksum checksum_missing checksum_mismatch unpack_failed : UpdateError
  no_binary no_executable backup_failed install_failed system_error : UpdateError

pub data Result (A : Type 0) : Type 0 where
  ok : A → Result A
  failure : UpdateError → Result A

pub record UpdateRecord : Type 0 where
  pub version : Text
  pub from_version : Text
  pub timestamp : ℤ
  pub error : Option UpdateError

-- Files by their paths. `last_apply` is the zero time before the first call.
pub record Updater : Type 0 where
  pub config : Config
  pub current_version : Text
  pub data_dir : Text
  pub history : List UpdateRecord
  pub saved_config : Option Config
  pub saved_history : List UpdateRecord
  pub last_apply : ℕ
  pub files : Dict Text

pub record Asset : Type 0 where
  pub name : Text
  pub size : ℕ
  pub url : Text

pub record Release : Type 0 where
  pub tag_name : Text
  pub body : Text
  pub assets : List Asset
  pub published_at : Text

-- What a request for a file gives: the pieces of the body as they are read, and whether the body
-- ended or broke off.
pub record Body : Type 0 where
  pub pieces : List Text
  pub ended : Bool

-- The answers of the servers and of the operating system. `none` is a failure; `untar` is the
-- binary in the content of an archive, `leaves` what a copy that fails leaves behind, and
-- `executable` the path of the running program with its symbolic links resolved, `saves_history`
-- and `saves_config` whether the two files can be written, and `rfc3339` how a time is written.
pub record World : Type 0 where
  pub os : Text
  pub arch : Text
  pub latest : Option Release
  pub fetch : Text → Option Body
  pub sha256 : Text → Text
  pub untar : Text → Option Text
  pub makes_dir : Text → Bool
  pub writes : Text → Text → Bool
  pub leaves : Option Text
  pub renames : Text → Text → Bool
  pub executable : Option Text
  pub saves_history : List UpdateRecord → Bool
  pub saves_config : Config → Bool
  pub rfc3339 : ℕ → Text

-- 60 seconds.
abbrev pub apply_cooldown : ℕ
apply_cooldown = 60_000_000_000

unfoldable pub full_match : Regex → Text → Bool
full_match r [] = nullable r
full_match r (c ∷ s) = full_match (derive c r) s

abbrev pub is_digit : ℕ → Bool
is_digit c = leb b'0' c && leb c b'9'

-- `[\w.]`.
abbrev is_word_or_dot : ℕ → Bool
is_word_or_dot c =
    is_digit c
    || (leb b'a' c && leb c b'z' || (leb b'A' c && leb c b'Z' || (c == b'_' || c == b'.')))

abbrev some_digits : Regex
some_digits = then_ (one is_digit) (star (one is_digit))

abbrev letter : ℕ → Regex
letter x = one (λ c. c == x)

-- `^v\d+\.\d+\.\d+(-[\w.]+)?$`
abbrev pub version_regex : Regex
version_regex = then_ (letter b'v') (
    then_ some_digits (
      then_ (letter b'.') (
        then_ some_digits (
          then_ (letter b'.') (
            then_ some_digits (
              either done
                (then_ (letter b'-') (then_ (one is_word_or_dot) (star (one is_word_or_dot))))))))))

unfoldable pub is_version : Text → Bool
unfolding full_match
is_version s = full_match version_regex s

-- The last 50 records.
unfoldable pub keep_last : List UpdateRecord → List UpdateRecord
keep_last h = if ltb 50 (length h) then drop (length h - 50) h else h

-- The time is kept in seconds since 1970. A failure to write the file is not looked at.
unfoldable pub record_update : World → ℕ → Text → Option UpdateError → Updater → Updater
record_update w now version error u =
    let h = keep_last (
      u.history
      ++ (record {
        version = version;
        from_version = u.current_version;
        timestamp = unix_seconds now;
        error = error;
      }
          ∷ [])) in
    record u { history = h; saved_history = if w.saves_history h then h else u.saved_history }

unfoldable pub get_history : Updater → List UpdateRecord
get_history u = u.history

unfoldable pub get_config : Updater → Config
get_config u = u.config

unfoldable pub get_current_version : Updater → Text
get_current_version u = u.current_version

abbrev pub config_or_default : Option Config → Config
config_or_default none = default_config
config_or_default (some c) = c

-- From the two files, `none` and `[]` where they cannot be read.
unfoldable pub new_updater : Text → Text → Option Config → List UpdateRecord → Dict Text → Updater
new_updater current_version data_dir config history files = record {
  config = config_or_default config;
  current_version = current_version;
  data_dir = data_dir;
  history = history;
  saved_config = config;
  saved_history = history;
  last_apply = 0;
  files = files;
}
