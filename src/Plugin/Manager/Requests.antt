-- ===== src/Plugin/Manager/Requests.antt =====
-- The calls of the plugin manager as requests, and which of them leave before a save.
use runixo_agent.Prelude.{
  ℕ, ◌≡◌, Bool, true, false, not, ◌&&◌, ◌||◌, Option, none, some, List, [], ◌∷◌, Text, codes,
  is_some, lookup,
}
use runixo_agent.Security.Path.{join_path}
use runixo_agent.Plugin.{is_enabled, is_disabled, is_client, Settings, InstalledPlugin}
use runixo_agent.Plugin.Instances.{start}
use runixo_agent.Plugin.Archive.{fetch}
use runixo_agent.Plugin.Manager.{
  Manager, Host, RegistryFile, Outcome, returned, blocked, create_plugin_instance, list_plugins,
  get_plugin, get_plugin_config, get_plugin_status,
}
use runixo_agent.Plugin.Manager.Calls.{
  is_source, install_plugin, uninstall_plugin, enable_plugin, disable_plugin, set_plugin_config,
  start_enabled_plugins, stop_all_plugins,
}

pub data Request : Type 0 where
  lists : Request
  gets : Text → Request
  gets_config : Text → Request
  gets_status : ℕ → Text → Request
  installs : ℕ → Text → Text → Text → Text → Request
  uninstalls : Text → Request
  enables : ℕ → Text → Request
  disables : Text → Request
  configures : ℕ → Text → Settings → Request
  starts_enabled : ℕ → Request
  stops_all : Request

-- Work on the directory of a plugin leaves `installed.json` as it is.
abbrev pub Spares : Host → Text → Type 0
Spares host dir =
    (file : RegistryFile)
    → (host.after_unpack dir file ≡ file) × (host.after_remove dir file ≡ file)

-- The directories that a request works on.
abbrev pub SparesAll : Host → Text → Request → Type 0
SparesAll host dir (installs now id source url content) = Spares host (join_path dir id)
SparesAll host dir (uninstalls id) = Spares host (join_path dir id)
SparesAll host dir _ = Unit {0}

-- Whether a call returns, and the manager as it leaves it.
abbrev pub settle : {A : Type 0} → Outcome A → Bool × Manager
settle (returned a m) = (true, m)
settle (blocked m) = (false, m)

unfoldable pub perform : Host → Request → Manager → Bool × Manager
perform host lists m = settle (list_plugins m)
perform host (gets id) m = settle (get_plugin id m)
perform host (gets_config id) m = settle (get_plugin_config id m)
perform host (gets_status now id) m = settle (get_plugin_status host now id m)
perform host (installs now id source url content) m =
    settle (install_plugin host now id source url content m)
perform host (uninstalls id) m = settle (uninstall_plugin host id m)
perform host (enables now id) m = settle (enable_plugin host now id m)
perform host (disables id) m = settle (disable_plugin host id m)
perform host (configures now id config) m = settle (set_plugin_config host now id config m)
perform host (starts_enabled now) m = settle (start_enabled_plugins host now m)
perform host stops_all m = settle (stop_all_plugins m)

-- Some requests in turn, each in its own goroutine: which of them return, and the manager.
unfoldable pub perform_all : Host → List Request → Manager → List Bool × Manager
perform_all host [] m = ([], m)
perform_all host (r ∷ rs) m =
    let (answer, m') = perform host r m in
    let (answers, m'') = perform_all host rs m' in (answer ∷ answers, m'')

abbrev pub enable_exit : Host → Text → Option InstalledPlugin → Bool
enable_exit host dir none = true
enable_exit host dir (some p) =
    is_enabled p.state
    || (not (is_client p.manifest.plugin_type)
        && is_some (start host.security p.config (create_plugin_instance dir p)).0)

abbrev pub disable_exit : Option InstalledPlugin → Bool
disable_exit none = true
disable_exit (some p) = is_disabled p.state

-- The exits before `savePlugins`: for an installation, the plugin is there already, its source is
-- unknown, it cannot be fetched or it has no manifest; for a removal, it is not there or its
-- directory cannot be removed; to enable it, it is not there, enabled already or does not start;
-- to disable it, it is not there or disabled already; for a configuration, it is not there or the
-- file cannot be written. The other methods do not save.
abbrev pub exits_early : Host → Request → Manager → Bool
exits_early host (installs now id source url content) m =
    is_some (lookup id m.plugins)
    || (not (is_source source)
        || (is_some (fetch host.out id source url content (join_path m.plugins_dir id)).1
            || not (is_some (host.manifest (join_path m.plugins_dir id)))))
exits_early host (uninstalls id) m =
    not (is_some (lookup id m.plugins)) || not (host.remove_all (join_path m.plugins_dir id))
exits_early host (enables now id) m = enable_exit host m.plugins_dir (lookup id m.plugins)
exits_early host (disables id) m = disable_exit (lookup id m.plugins)
exits_early host (configures now id config) m =
    not (is_some (lookup id m.plugins))
    || (not (host.encodes config)
        || not (
            host.write_config (join_path (join_path m.plugins_dir id) (codes "config.json"))
              config))
exits_early host _ m = true
