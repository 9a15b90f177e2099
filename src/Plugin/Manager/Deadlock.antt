-- ===== src/Plugin/Manager/Deadlock.antt =====
-- Which calls of the plugin manager return: `savePlugins` waits for the lock that its caller holds.
use mathlib.Core.Path.{subst}
use runixo_agent.Prelude.{
  ℕ, ◌≡◌, refl, sym, ap, ◌∙◌, Bool, true, false, not, ◌&&◌, ◌||◌, Option, none, some, List, [], ◌∷◌,
  Text, is_some, if◌then◌else◌, lookup, Dict, any, Bool-cases, ◌⊎◌, inl, inr,
}
use runixo_agent.Security.Path.{join_path}
use runixo_agent.Plugin.{
  Settings, PluginError, already_installed, unknown_source, not_installed, InstalledPlugin,
}
use runixo_agent.Plugin.Archive.{fetch}
use runixo_agent.Plugin.Manager.{
  Manager, Host, RegistryFile, new_manager, Outcome, returned, blocked, unlock, locked, read_locked,
  list_plugins, get_plugin, get_plugin_config, get_plugin_status, stop_plugin_locked,
}
use runixo_agent.Plugin.Manager.Calls.{
  is_source, unpacked, install_fetched, install_plugin, remove_plugin, uninstall_plugin,
  enable_found, enable_plugin, disable_found, disable_plugin, configure_found, set_plugin_config,
  start_each, start_enabled_plugins, stop_each, stop_all_plugins,
}
use runixo_agent.Plugin.Manager.Keeps.{
  Keeps, AllRunning, Keeps-refl, start_each-Keeps, stop_each-Keeps, stop_plugin_locked-Keeps,
}
use runixo_agent.Plugin.Manager.Requests.{
  Request, lists, gets, gets_config, gets_status, installs, uninstalls, enables, disables,
  configures, starts_enabled, stops_all, settle, perform, perform_all, exits_early, SparesAll,
}
use runixo_agent.Plugin.Manager.Bodies.{
  Ends, returned-Ends, Ends-after, branch-Ends, unpacked-Keeps, install_fetched-Ends,
  remove_plugin-Ends, enable_found-Ends, disable_found-Ends, configure_found-Ends,
}
pub mod Forever

-- A call on a free lock: it returns and frees the lock, or does neither; `S` is enough for the
-- file to stay.
pub record Settles (S : Type 0) (early : Bool) (m : Manager) (out : Bool × Manager) : Type 0 where
  pub answered : out.0 ≡ early
  pub lock : out.1.write_locked ≡ not early
  pub dir : out.1.plugins_dir ≡ m.plugins_dir
  pub saved : S → out.1.file ≡ m.file
  pub running : AllRunning m.runtimes → AllRunning out.1.runtimes

unlock-Settles :
    {S : Type 0} {A : Type 0} (e : Bool) (m : Manager) (o : Outcome A)
    → Ends S e (record m { write_locked = true }) (settle o)
    → Settles S e m (settle (unlock o))
unfolding unlock
unlock-Settles true m (returned a m') h = record {
  answered = refl;
  lock = refl;
  dir = h.keeps.dir;
  saved = h.keeps.saved;
  running = h.keeps.running;
}
unlock-Settles false m (returned a m') h = absurd cc h.answered
unlock-Settles true m (blocked m') h = absurd cc h.answered
unlock-Settles false m (blocked m') h = record {
  answered = refl;
  lock = h.keeps.lock;
  dir = h.keeps.dir;
  saved = h.keeps.saved;
  running = h.keeps.running;
}

locked-Settles :
    {S : Type 0} {A : Type 0} {e : Bool} (body : Manager → Outcome A) (m : Manager)
    → m.write_locked ≡ false
    → Ends S e (record m { write_locked = true }) (settle (body (record m { write_locked = true })))
    → Settles S e m (settle (locked body m))
unfolding locked
locked-Settles {S} {A} {e} body m free h = by_lock m.write_locked free
  where
    by_lock :
        (b : Bool)
        → b ≡ false
        → Settles S e m
            (settle (if b then blocked m else unlock (body (record m { write_locked = true }))))
    by_lock true f = absurd cc
    by_lock false f = unlock-Settles e m (body (record m { write_locked = true })) h

read_locked-Settles :
    {S : Type 0} {A : Type 0} (body : Manager → A) (m : Manager)
    → m.write_locked ≡ false
    → Settles S true m (settle (read_locked body m))
unfolding read_locked
read_locked-Settles {S} {A} body m free = by_lock m.write_locked free
  where
    by_lock :
        (b : Bool)
        → b ≡ false
        → Settles S true m (settle (if b then blocked m else returned (body m) m))
    by_lock true f = absurd cc
    by_lock false f = record {
      answered = refl;
      lock = free;
      dir = refl;
      saved = λ s. refl;
      running = λ all. all;
    }

pub perform-Settles :
    (host : Host) (r : Request) (m : Manager)
    → m.write_locked ≡ false
    → Settles (SparesAll host m.plugins_dir r) (exits_early host r m) m (perform host r m)
unfolding perform list_plugins get_plugin get_plugin_config get_plugin_status install_plugin
    uninstall_plugin enable_plugin disable_plugin set_plugin_config start_enabled_plugins
    stop_all_plugins
perform-Settles host lists m free = read_locked-Settles _ m free
perform-Settles host (gets id) m free = read_locked-Settles _ m free
perform-Settles host (gets_config id) m free = read_locked-Settles _ m free
perform-Settles host (gets_status now id) m free = read_locked-Settles _ m free
perform-Settles host (installs now id source url content) m free =
    let held = record m { write_locked = true } in
    let dir = join_path m.plugins_dir id in
    let fetched = (fetch host.out id source url content dir).1 in
    let ready = unpacked host dir held in
    locked-Settles _ m free (
      branch-Ends (is_some (lookup id m.plugins)) (returned (some already_installed) held)
        (if not (is_source source)
          then returned (some unknown_source) held
          else install_fetched host now id fetched ready)
        (returned-Ends (some already_installed) held)
        (branch-Ends (not (is_source source)) (returned (some unknown_source) held)
          (install_fetched host now id fetched ready) (returned-Ends (some unknown_source) held)
          (Ends-after (unpacked-Keeps host held dir (λ s. s))
            (install_fetched-Ends host ready refl now id fetched (λ s. s)))))
perform-Settles host (uninstalls id) m free =
    let held = record m { write_locked = true } in
    let stopped = (stop_plugin_locked id held).1 in
    locked-Settles _ m free (
      branch-Ends (not (is_some (lookup id m.plugins))) (returned (some not_installed) held)
        (remove_plugin host id stopped) (returned-Ends (some not_installed) held)
        (remove_plugin-Ends host held refl id (stop_plugin_locked-Keeps id held) (λ s. s)))
perform-Settles host (enables now id) m free =
    let held = record m { write_locked = true } in
    locked-Settles _ m free (enable_found-Ends host held refl now id (lookup id m.plugins) refl)
perform-Settles host (disables id) m free =
    let held = record m { write_locked = true } in
    locked-Settles _ m free (disable_found-Ends host held refl id (lookup id m.plugins))
perform-Settles host (configures now id config) m free =
    let held = record m { write_locked = true } in
    locked-Settles _ m free
      (configure_found-Ends host held refl now id config (lookup id m.plugins))
perform-Settles host (starts_enabled now) m free =
    let held = record m { write_locked = true } in
    locked-Settles _ m free (
      Ends-after (start_each-Keeps host now m.plugins held)
        (returned-Ends {A = Unit {0}} tt (start_each host now m.plugins held)))
perform-Settles host stops_all m free =
    let held = record m { write_locked = true } in
    locked-Settles _ m free (
      Ends-after (stop_each-Keeps m.runtimes held)
        (returned-Ends {A = Unit {0}} tt (stop_each m.runtimes held)))

-- On a free lock, a call of the plugin manager returns exactly when it leaves before it saves: the
-- methods that read, start the enabled plugins or stop all return always; an installation, a
-- removal, an activation, a deactivation and a configuration return only where they have nothing
-- to do or fail.
pub perform_returns :
    (host : Host) (r : Request) (m : Manager)
    → m.write_locked ≡ false
    → (perform host r m).0 ≡ exits_early host r m
perform_returns host r m free = (perform-Settles host r m free).answered
