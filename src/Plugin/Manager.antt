-- ===== src/Plugin/Manager.antt =====
-- internal/plugin/manager.go: the registry of plugins, its lock and its operations.
use runixo_agent.Prelude.{
  ℕ, ◌-◌, ◌/◌, ◌≡◌, Bool, true, false, not, ◌&&◌, Option, none, some, List, [], ◌∷◌, ◌++◌, Text,
  codes, text_eq, if◌then◌else◌, Dict, lookup, insert, delete, values,
}
use runixo_agent.Security.Path.{join_path}
use runixo_agent.Plugin.{
  PluginState, installed, enabled, disabled, failed, is_enabled, is_disabled, is_client, Settings,
  PluginManifest, PluginError, already_installed, not_installed, unknown_source, absent,
  no_manifest, bad_settings, system_error, InstalledPlugin, PluginStatus,
}
use runixo_agent.Plugin.Instances.{
  Security, Instance, generic, cloudflare, new_generic_plugin, new_cloudflare_plugin, start, stop,
  get_status,
}
use runixo_agent.Plugin.Archive.{Outside, Change, fetch}
pub mod Calls
pub mod Keeps
pub mod Requests
pub mod Bodies
pub mod Deadlock
pub mod Runtimes

-- A runtime is in the map only while it runs.
pub record PluginRuntime : Type 0 where
  pub running : Bool
  pub start_time : ℕ
  pub instance_of : Instance

-- What reading `installed.json` gives.
pub data RegistryFile : Type 0 where
  missing unreadable : RegistryFile
  holds : List InstalledPlugin → RegistryFile

-- `write_locked` says that a goroutine holds `mu` for writing. `file` is what `installed.json`
-- would give, and `lost` are the runtimes that still run and that no entry of the map holds any
-- more.
pub record Manager : Type 0 where
  pub plugins_dir : Text
  pub plugins : Dict InstalledPlugin
  pub runtimes : Dict PluginRuntime
  pub lost : List PluginRuntime
  pub write_locked : Bool
  pub file : RegistryFile

-- The answers of what is outside. `after_unpack` and `after_remove` are what `installed.json` gives
-- after an archive was unpacked into a directory, or the directory was removed, wholly or in part:
-- the directory can hold that file, or be it.
pub record Host : Type 0 where
  pub out : Outside
  pub security : Security
  pub manifest : Text → Option PluginManifest
  pub remove_all : Text → Bool
  pub encodes : Settings → Bool
  pub write_config : Text → Settings → Bool
  pub write_registry : List InstalledPlugin → Bool
  pub after_unpack : Text → RegistryFile → RegistryFile
  pub after_remove : Text → RegistryFile → RegistryFile

unfoldable pub add_loaded : List InstalledPlugin → Dict InstalledPlugin → Dict InstalledPlugin
add_loaded [] m = m
add_loaded (p ∷ ps) m = add_loaded ps (insert p.manifest.id p m)

-- A file that cannot be read is logged.
unfoldable pub load_plugins : RegistryFile → Dict InstalledPlugin
load_plugins missing = []
load_plugins unreadable = []
load_plugins (holds ps) = add_loaded ps []

unfoldable pub new_manager : Text → RegistryFile → Manager
new_manager plugins_dir file = record {
  plugins_dir = plugins_dir;
  plugins = load_plugins file;
  runtimes = [];
  lost = [];
  write_locked = false;
  file = file;
}

-- A call returns, or waits for the lock for ever.
pub data Outcome (A : Type 0) : Type 0 where
  returned : A → Manager → Outcome A
  blocked : Manager → Outcome A

unfoldable pub unlock : {A : Type 0} → Outcome A → Outcome A
unlock (returned a m) = returned a (record m { write_locked = false })
unlock (blocked m) = blocked m

-- `m.mu.Lock()` with its deferred `Unlock`, round the body of a method.
unfoldable pub locked : {A : Type 0} → (Manager → Outcome A) → Manager → Outcome A
unfolding unlock
locked body m =
    if m.write_locked then blocked m else unlock (body (record m { write_locked = true }))

-- `m.mu.RLock()` with its release, round a body that only reads.
unfoldable pub read_locked : {A : Type 0} → (Manager → A) → Manager → Outcome A
read_locked body m = if m.write_locked then blocked m else returned (body m) m

-- `savePlugins` takes the lock for reading itself. A failure to write is logged.
unfoldable pub save_plugins : {A : Type 0} → Host → A → Manager → Outcome A
save_plugins host a m =
    if m.write_locked
    then blocked m
    else if host.write_registry (values m.plugins)
    then returned a (record m { file = holds (values m.plugins) })
    else returned a m

unfoldable pub create_plugin_instance : Text → InstalledPlugin → Instance
create_plugin_instance plugins_dir p =
    if text_eq p.manifest.id (codes "cloudflare-security")
    then cloudflare (new_cloudflare_plugin plugins_dir p.manifest.id)
    else generic (new_generic_plugin p.manifest.id)

-- A runtime that an entry held is displaced by a new one, and not stopped.
abbrev pub displaced : Option PluginRuntime → List PluginRuntime → List PluginRuntime
displaced none lost = lost
displaced (some r) lost = r ∷ lost

unfoldable pub keep_started :
    ℕ → Text → Manager → Option PluginError × Instance → Option PluginError × Manager
keep_started now id m (some e, i) = (some e, m)
keep_started now id m (none, i) = (
  none,
  record m {
    runtimes = insert id (record { running = true; start_time = now; instance_of = i }) m.runtimes;
    lost = displaced (lookup id m.runtimes) m.lost;
  },
)

unfoldable pub start_found :
    Host → ℕ → Text → Option InstalledPlugin → Manager → Option PluginError × Manager
start_found host now id none m = (some absent, m)
start_found host now id (some p) m =
    if is_client p.manifest.plugin_type
    then (none, m)
    else keep_started now id m
        (start host.security p.config (create_plugin_instance m.plugins_dir p))

unfoldable pub start_plugin_locked : Host → ℕ → Text → Manager → Option PluginError × Manager
start_plugin_locked host now id m = start_found host now id (lookup id m.plugins) m

unfoldable pub drop_stopped :
    Text → Manager → Option PluginError × Instance → Option PluginError × Manager
drop_stopped id m (some e, i) = (some e, m)
drop_stopped id m (none, i) = (none, record m { runtimes = delete id m.runtimes })

unfoldable pub stop_found : Text → Option PluginRuntime → Manager → Option PluginError × Manager
stop_found id none m = (none, m)
stop_found id (some r) m =
    if not r.running then (none, m) else drop_stopped id m (stop r.instance_of)

unfoldable pub stop_plugin_locked : Text → Manager → Option PluginError × Manager
stop_plugin_locked id m = stop_found id (lookup id m.runtimes) m

unfoldable pub list_plugins : Manager → Outcome (List InstalledPlugin)
list_plugins = read_locked (λ m. values m.plugins)

unfoldable pub get_plugin : Text → Manager → Outcome (Option InstalledPlugin)
get_plugin id = read_locked (λ m. lookup id m.plugins)

abbrev config_of : Option InstalledPlugin → Option Settings
config_of none = none
config_of (some p) = some p.config

unfoldable pub get_plugin_config : Text → Manager → Outcome (Option Settings)
get_plugin_config id = read_locked (λ m. config_of (lookup id m.plugins))

unfoldable pub runtime_status : Host → ℕ → Option PluginRuntime → PluginStatus → PluginStatus
runtime_status host now none s = s
runtime_status host now (some r) s = if not r.running then s else record s {
  running = true;
  uptime = (now - r.start_time) / 1_000_000_000;
  stats = get_status host.security r.instance_of;
}

unfoldable pub status_of :
    Host → ℕ → Text → Option InstalledPlugin → Option PluginRuntime → Option PluginStatus
status_of host now id none r = none
status_of host now id (some p) r = some (
    runtime_status host now r (record {
      plugin_id = id;
      state = p.state;
      running = false;
      error = p.error;
      uptime = 0;
      stats = [];
    }))

unfoldable pub get_plugin_status : Host → ℕ → Text → Manager → Outcome (Option PluginStatus)
get_plugin_status host now id =
    read_locked (λ m. status_of host now id (lookup id m.plugins) (lookup id m.runtimes))
