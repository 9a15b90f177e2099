-- ===== src/Plugin/Manager/Calls.antt =====
-- The methods of the plugin manager that change it: each body runs with the lock held.
use runixo_agent.Prelude.{
  ℕ, Bool, ◌||◌, text_eq, not, Option, none, some, [], ◌∷◌, Text, codes, is_some, if◌then◌else◌,
  Dict, lookup, insert, delete,
}
use runixo_agent.Security.Path.{join_path}
use runixo_agent.Plugin.{
  installed, enabled, disabled, failed, is_enabled, is_disabled, Settings, PluginManifest,
  PluginError, already_installed, not_installed, no_manifest, bad_settings, system_error,
  unknown_source, InstalledPlugin,
}
use runixo_agent.Plugin.Archive.{fetch}
use runixo_agent.Plugin.Manager.{
  PluginRuntime, Manager, Host, Outcome, returned, locked, save_plugins, start_plugin_locked,
  stop_plugin_locked,
}

unfoldable pub installed_plugin : ℕ → PluginManifest → InstalledPlugin
installed_plugin now manifest = record {
  manifest = manifest;
  state = installed;
  installed_at = now;
  updated_at = now;
  config = manifest.config;
  error = none;
}

abbrev pub unpacked : Host → Text → Manager → Manager
unpacked host dir m = record m { file = host.after_unpack dir m.file }

abbrev pub removed : Host → Text → Manager → Manager
removed host dir m = record m { file = host.after_remove dir m.file }

unfoldable pub install_manifest :
    Host → ℕ → Text → Option PluginManifest → Manager → Outcome (Option PluginError)
install_manifest host now id none m =
    returned (some no_manifest) (removed host (join_path m.plugins_dir id) m)
install_manifest host now id (some manifest) m =
    save_plugins host none
      (record m { plugins = insert id (installed_plugin now manifest) m.plugins })

-- After an error the directory of the plugin is removed.
unfoldable pub install_fetched :
    Host → ℕ → Text → Option PluginError → Manager → Outcome (Option PluginError)
install_fetched host now id (some e) m =
    returned (some e) (removed host (join_path m.plugins_dir id) m)
install_fetched host now id none m =
    install_manifest host now id (host.manifest (join_path m.plugins_dir id)) m

-- The sources of plugins.
abbrev pub is_source : Text → Bool
is_source source =
    text_eq source (codes "official")
    || (text_eq source (codes "url") || text_eq source (codes "local"))

unfoldable pub install_plugin :
    Host → ℕ → Text → Text → Text → Text → Manager → Outcome (Option PluginError)
install_plugin host now id source url content = locked (λ m.
    if is_some (lookup id m.plugins)
    then returned (some already_installed) m
    else if not (is_source source)
    then returned (some unknown_source) m
    else install_fetched host now id
        (fetch host.out id source url content (join_path m.plugins_dir id)).1
        (unpacked host (join_path m.plugins_dir id) m))

-- The registry without the plugin, if its directory could be removed.
unfoldable pub remove_plugin : Host → Text → Manager → Outcome (Option PluginError)
remove_plugin host id m =
    if not (host.remove_all (join_path m.plugins_dir id))
    then returned (some system_error) (removed host (join_path m.plugins_dir id) m)
    else save_plugins host none (record (removed host (join_path m.plugins_dir id) m) {
      plugins = delete id m.plugins;
      runtimes = delete id m.runtimes;
    })

-- A failure to stop the plugin is logged.
unfoldable pub uninstall_plugin : Host → Text → Manager → Outcome (Option PluginError)
uninstall_plugin host id = locked (λ m.
    if not (is_some (lookup id m.plugins))
    then returned (some not_installed) m
    else remove_plugin host id (stop_plugin_locked id m).1)

unfoldable pub enable_started :
    Host → Text → InstalledPlugin → Option PluginError × Manager → Outcome (Option PluginError)
enable_started host id p (some e, m) =
    returned (some e)
      (record m { plugins = insert id (record p { state = failed; error = some e }) m.plugins })
enable_started host id p (none, m) =
    save_plugins host none
      (record m { plugins = insert id (record p { state = enabled; error = none }) m.plugins })

unfoldable pub enable_found :
    Host → ℕ → Text → Option InstalledPlugin → Manager → Outcome (Option PluginError)
enable_found host now id none m = returned (some not_installed) m
enable_found host now id (some p) m =
    if is_enabled p.state
    then returned none m
    else enable_started host id p (start_plugin_locked host now id m)

unfoldable pub enable_plugin : Host → ℕ → Text → Manager → Outcome (Option PluginError)
enable_plugin host now id = locked (λ m. enable_found host now id (lookup id m.plugins) m)

unfoldable pub disable_stopped :
    Host → Text → InstalledPlugin → Manager → Outcome (Option PluginError)
disable_stopped host id p m =
    save_plugins host none
      (record m { plugins = insert id (record p { state = disabled }) m.plugins })

unfoldable pub disable_found :
    Host → Text → Option InstalledPlugin → Manager → Outcome (Option PluginError)
disable_found host id none m = returned (some not_installed) m
disable_found host id (some p) m =
    if is_disabled p.state
    then returned none m
    else disable_stopped host id p (stop_plugin_locked id m).1

unfoldable pub disable_plugin : Host → Text → Manager → Outcome (Option PluginError)
disable_plugin host id = locked (λ m. disable_found host id (lookup id m.plugins) m)

-- A running plugin is stopped and started; the errors of both are dropped.
unfoldable pub restart_running : Host → ℕ → Text → Option PluginRuntime → Manager → Manager
restart_running host now id none m = m
restart_running host now id (some r) m =
    if r.running then (start_plugin_locked host now id (stop_plugin_locked id m).1).1 else m

unfoldable pub configure_plugin :
    Host → ℕ → Text → Settings → InstalledPlugin → Manager → Outcome (Option PluginError)
configure_plugin host now id config p m =
    let m' = record m {
      plugins = insert id (record p { config = config; updated_at = now }) m.plugins;
    } in
    if not (host.encodes config)
    then returned (some bad_settings) m'
    else if not
        (host.write_config (join_path (join_path m.plugins_dir id) (codes "config.json")) config)
    then returned (some system_error) m'
    else save_plugins host none (restart_running host now id (lookup id m'.runtimes) m')

unfoldable pub configure_found :
    Host → ℕ → Text → Settings → Option InstalledPlugin → Manager → Outcome (Option PluginError)
configure_found host now id config none m = returned (some not_installed) m
configure_found host now id config (some p) m = configure_plugin host now id config p m

unfoldable pub set_plugin_config :
    Host → ℕ → Text → Settings → Manager → Outcome (Option PluginError)
set_plugin_config host now id config =
    locked (λ m. configure_found host now id config (lookup id m.plugins) m)

unfoldable pub mark_start : Text → InstalledPlugin → Option PluginError × Manager → Manager
mark_start id p (none, m) = m
mark_start id p (some e, m) = record m {
  plugins = insert id (record p { state = failed; error = some e }) m.plugins;
}

-- The loop over the map, in some order. An entry is changed only at its own turn.
unfoldable pub start_each : Host → ℕ → Dict InstalledPlugin → Manager → Manager
start_each host now [] m = m
start_each host now ((id, p) ∷ ps) m =
    if is_enabled p.state
    then start_each host now ps (mark_start id p (start_plugin_locked host now id m))
    else start_each host now ps m

unfoldable pub start_enabled_plugins : Host → ℕ → Manager → Outcome (Unit {0})
start_enabled_plugins host now = locked (λ m. returned tt (start_each host now m.plugins m))

-- The loop over the running plugins; a failure is logged.
unfoldable pub stop_each : Dict PluginRuntime → Manager → Manager
stop_each [] m = m
stop_each ((id, r) ∷ rs) m = stop_each rs (stop_plugin_locked id m).1

unfoldable pub stop_all_plugins : Manager → Outcome (Unit {0})
stop_all_plugins = locked (λ m. returned tt (stop_each m.runtimes m))
