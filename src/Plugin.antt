-- ===== src/Plugin.antt =====
-- internal/plugin: the records of installed plugins.
use runixo_agent.Prelude.{
  ℕ, ◌≡◌, ◌↔◌, Bool, true, false, Option, none, some, List, [], ◌∷◌, Text, codes, text_eq,
  if◌then◌else◌, arith, Dict,
}
pub mod Instances
pub mod Archive
pub mod Manager
mod Tests

pub data PluginState : Type 0 where
  installed enabled disabled failed updating : PluginState

abbrev pub is_enabled : PluginState → Bool
is_enabled enabled = true
is_enabled _ = false

abbrev pub is_disabled : PluginState → Bool
is_disabled disabled = true
is_disabled _ = false

-- The type is a string of the manifest, and may be none of the three.
pub data PluginType : Type 0 where
  client agent hybrid : PluginType
  other : Text → PluginType

abbrev pub is_client : PluginType → Bool
is_client client = true
is_client _ = false

-- A `map[string]any`: each value is its JSON text.
abbrev pub Settings : Type 0
Settings = Dict Text

pub record PluginManifest : Type 0 where
  pub id : Text
  pub name : Text
  pub version : Text
  pub plugin_type : PluginType
  pub permissions : List Text
  pub entry_point : Text
  pub config : Settings
  pub dependencies : List Text

pub data PluginError : Type 0 where
  already_installed not_installed unknown_source absent no_api_token : PluginError
  bad_settings manager_refused bad_archive path_traversal no_manifest not_running : PluginError
  download_failed system_error : PluginError

pub record InstalledPlugin : Type 0 where
  pub manifest : PluginManifest
  pub state : PluginState
  pub installed_at : ℕ
  pub updated_at : ℕ
  pub config : Settings
  pub error : Option PluginError

pub record PluginStatus : Type 0 where
  pub plugin_id : Text
  pub state : PluginState
  pub running : Bool
  pub error : Option PluginError
  pub uptime : ℕ
  pub stats : Dict Text
