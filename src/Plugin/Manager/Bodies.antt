-- ===== src/Plugin/Manager/Bodies.antt =====
-- How the bodies of the methods end that run with the lock held.
use runixo_agent.Prelude.{
  ℕ, ◌≡◌, refl, sym, ap, ◌∙◌, Bool, true, false, not, ◌&&◌, ◌||◌, Option, none, some, Text, codes,
  is_some, if◌then◌else◌, lookup, insert, delete, Dict, values,
}
use mathlib.Core.Path.{subst}
use runixo_agent.Security.Path.{join_path}
use runixo_agent.Plugin.{
  is_enabled, is_disabled, is_client, Settings, PluginManifest, PluginError, no_manifest,
  not_installed, bad_settings, system_error, InstalledPlugin,
}
use runixo_agent.Plugin.Instances.{start, Instance}
use runixo_agent.Plugin.Manager.{
  Manager, Host, Outcome, holds, returned, blocked, save_plugins, create_plugin_instance,
  keep_started, start_found, start_plugin_locked, stop_plugin_locked,
}
use runixo_agent.Plugin.Manager.Calls.{
  unpacked, removed, install_manifest, install_fetched, remove_plugin, enable_started, enable_found,
  disable_stopped, disable_found, restart_running, configure_plugin, configure_found,
}
use runixo_agent.Plugin.Manager.Keeps.{
  Keeps, delete-AllRunning, Keeps-refl, Keeps-trans, start_plugin_locked-Keeps,
  stop_plugin_locked-Keeps, restart_running-Keeps,
}
use runixo_agent.Plugin.Manager.Requests.{Spares, settle, enable_exit, disable_exit}

-- How a body ends that runs with the lock held: whether it returns, and what it leaves as it is.
pub record Ends (S : Type 0) (early : Bool) (m : Manager) (out : Bool × Manager) : Type 0 where
  pub answered : out.0 ≡ early
  pub keeps : Keeps S m out.1

start_fails :
    (host : Host) (m : Manager) (now : ℕ) (id : Text) {p : InstalledPlugin}
    → some p ≡ lookup id m.plugins
    → is_some (start_plugin_locked host now id m).0 ≡ (
        not (is_client p.manifest.plugin_type)
        && is_some (start host.security p.config (create_plugin_instance m.plugins_dir p)).0)
unfolding start_plugin_locked start_found keep_started
start_fails host m now id {p} e =
    ap (λ o. is_some (start_found host now id o m).0) (sym e)
    ∙ by_type (is_client p.manifest.plugin_type)
        (start host.security p.config (create_plugin_instance m.plugins_dir p))
  where
    by_type :
        (b : Bool) (r : Option PluginError × Instance)
        → is_some
            (if◌then◌else◌ {A = Option PluginError × Manager} b
              (none, m)
              (keep_started now id m r)).0
          ≡ (not b && is_some r.0)
    by_type true r = refl
    by_type false (none, i) = refl
    by_type false (some x, i) = refl

module _ {S : Type 0} where
  pub returned-Ends : {A : Type 0} (a : A) (m : Manager) → Ends S true m (settle (returned a m))
  returned-Ends a m = record { answered = refl; keeps = Keeps-refl m }

  pub Ends-after :
      {early : Bool} {a b : Manager} {out : Bool × Manager}
      → Keeps S a b
      → Ends S early b out
      → Ends S early a out
  Ends-after k e = record { answered = e.answered; keeps = Keeps-trans k e.keeps }

  save_plugins-Ends :
      {A : Type 0} (host : Host) (a : A) (m : Manager)
      → m.write_locked ≡ true
      → Ends S false m (settle (save_plugins host a m))
  unfolding save_plugins
  save_plugins-Ends {A} host a m h = by_lock m.write_locked h
    where
      saved : Outcome A
      saved =
          if host.write_registry (values m.plugins)
          then returned a (record m { file = holds (values m.plugins) })
          else returned a m

      by_lock : (b : Bool) → b ≡ true → Ends S false m (settle (if b then blocked m else saved))
      by_lock true e = record { answered = refl; keeps = Keeps-refl m }
      by_lock false e = absurd cc

  -- A save after changes to the plugins and the runtimes.
  saved_after :
      {A : Type 0} (host : Host) (a : A) {m m' : Manager}
      → Keeps S m m'
      → m.write_locked ≡ true
      → Ends S false m (settle (save_plugins host a m'))
  saved_after host a {m} {m'} k h = Ends-after k (save_plugins-Ends host a m' (k.lock ∙ h))

  pub branch-Ends :
      {A : Type 0} {e : Bool} {m : Manager} (b : Bool) (x y : Outcome A)
      → Ends S true m (settle x)
      → Ends S e m (settle y)
      → Ends S (b || e) m (settle (if b then x else y))
  branch-Ends true x y f g = f
  branch-Ends false x y f g = g

  branch_saved :
      {A : Type 0} {m : Manager} (b : Bool) (x y : Outcome A)
      → Ends S true m (settle x)
      → Ends S false m (settle y)
      → Ends S b m (settle (if b then x else y))
  branch_saved true x y f g = f
  branch_saved false x y f g = g

  plugins_keep : (m : Manager) (ps : Dict InstalledPlugin) → Keeps S m (record m { plugins = ps })
  plugins_keep m ps = record { dir = refl; lock = refl; saved = λ s. refl; running = λ all. all }

  module _ (host : Host) (m : Manager) where
    pub unpacked-Keeps : (dir : Text) → (S → Spares host dir) → Keeps S m (unpacked host dir m)
    unpacked-Keeps dir spares = record {
      dir = refl;
      lock = refl;
      saved = λ s. (spares s m.file).0;
      running = λ all. all;
    }

    removed-Keeps : (dir : Text) → (S → Spares host dir) → Keeps S m (removed host dir m)
    removed-Keeps dir spares = record {
      dir = refl;
      lock = refl;
      saved = λ s. (spares s m.file).1;
      running = λ all. all;
    }

  module _ (host : Host) (m : Manager) (held : m.write_locked ≡ true) where
    install_manifest-Ends :
        (now : ℕ) (id : Text) (o : Option PluginManifest)
        → (S → Spares host (join_path m.plugins_dir id))
        → Ends S (not (is_some o)) m (settle (install_manifest host now id o m))
    unfolding install_manifest
    install_manifest-Ends now id none spares =
        Ends-after (removed-Keeps host m (join_path m.plugins_dir id) spares)
          (returned-Ends (some no_manifest) (removed host (join_path m.plugins_dir id) m))
    install_manifest-Ends now id (some manifest) spares =
        saved_after host none (plugins_keep m _) held

    pub install_fetched-Ends :
        (now : ℕ) (id : Text) (o : Option PluginError)
        → (S → Spares host (join_path m.plugins_dir id))
        → Ends S
            (is_some o || not (is_some (host.manifest (join_path m.plugins_dir id))))
            m
            (settle (install_fetched host now id o m))
    unfolding install_fetched
    install_fetched-Ends now id (some e) spares =
        Ends-after (removed-Keeps host m (join_path m.plugins_dir id) spares)
          (returned-Ends (some e) (removed host (join_path m.plugins_dir id) m))
    install_fetched-Ends now id none spares =
        install_manifest-Ends now id (host.manifest (join_path m.plugins_dir id)) spares

    pub remove_plugin-Ends :
        (id : Text) {m' : Manager}
        → Keeps S m m'
        → (S → Spares host (join_path m.plugins_dir id))
        → Ends S
            (not (host.remove_all (join_path m.plugins_dir id)))
            m
            (settle (remove_plugin host id m'))
    unfolding remove_plugin
    remove_plugin-Ends id {m'} k spares =
        subst
          (λ dir.
            Ends S (not (host.remove_all (join_path dir id))) m (settle (remove_plugin host id m')))
          k.dir
          (branch_saved (not (host.remove_all (join_path m'.plugins_dir id)))
            (returned (some system_error) m'') (save_plugins host none forgotten)
            (Ends-after gone (returned-Ends (some system_error) m''))
            (saved_after host none
              (Keeps-trans gone (record {
                dir = refl;
                lock = refl;
                saved = λ s. refl;
                running = λ all. delete-AllRunning id m'.runtimes all;
              }))
              held))
      where
        m'' : Manager
        m'' = removed host (join_path m'.plugins_dir id) m'

        forgotten : Manager
        forgotten = record m'' { plugins = delete id m'.plugins; runtimes = delete id m'.runtimes }

        gone : Keeps S m m''
        gone = Keeps-trans k (
            removed-Keeps host m' (join_path m'.plugins_dir id)
              (λ s. subst (λ dir. Spares host (join_path dir id)) (sym k.dir) (spares s)))

    enable_started-Ends :
        (id : Text) (p : InstalledPlugin) (r : Option PluginError × Manager)
        → Keeps S m r.1
        → Ends S (is_some r.0) m (settle (enable_started host id p r))
    unfolding enable_started
    enable_started-Ends id p (some e, m') k =
        Ends-after (Keeps-trans k (plugins_keep m' _)) (returned-Ends (some e) _)
    enable_started-Ends id p (none, m') k =
        saved_after host none (Keeps-trans k (plugins_keep m' _)) held

    pub disable_found-Ends :
        (id : Text) (o : Option InstalledPlugin)
        → Ends S (disable_exit o) m (settle (disable_found host id o m))
    unfolding disable_found disable_stopped
    disable_found-Ends id none = returned-Ends (some not_installed) m
    disable_found-Ends id (some p) =
        let m' = (stop_plugin_locked id m).1 in
        branch_saved (is_disabled p.state) (returned none m) (disable_stopped host id p m')
          (returned-Ends {A = Option PluginError} none m)
          (saved_after host none (Keeps-trans (stop_plugin_locked-Keeps id m) (plugins_keep m' _))
            held)

    pub configure_found-Ends :
        (now : ℕ) (id : Text) (config : Settings) (o : Option InstalledPlugin)
        → Ends S
            (not (is_some o)
              || (not (host.encodes config)
                  || not (
                      host.write_config
                        (join_path (join_path m.plugins_dir id) (codes "config.json"))
                        config)))
            m
            (settle (configure_found host now id config o m))
    unfolding configure_found configure_plugin
    configure_found-Ends now id config none = returned-Ends (some not_installed) m
    configure_found-Ends now id config (some p) =
        branch-Ends (not (host.encodes config)) (returned (some bad_settings) m') written
          (Ends-after (plugins_keep m ps) (returned-Ends (some bad_settings) m'))
          (branch_saved
            (not (
              host.write_config (join_path (join_path m.plugins_dir id) (codes "config.json"))
                config))
            (returned (some system_error) m') restarted
            (Ends-after (plugins_keep m ps) (returned-Ends (some system_error) m'))
            (saved_after host none
              (Keeps-trans (plugins_keep m ps)
                (restart_running-Keeps host now id (lookup id m.runtimes) m'))
              held))
      where
        ps : Dict InstalledPlugin
        ps = insert id (record p { config = config; updated_at = now }) m.plugins

        m' : Manager
        m' = record m { plugins = ps }

        restarted : Outcome (Option PluginError)
        restarted = save_plugins host none (restart_running host now id (lookup id m.runtimes) m')

        written : Outcome (Option PluginError)
        written =
            if not (
              host.write_config (join_path (join_path m.plugins_dir id) (codes "config.json"))
                config)
            then returned (some system_error) m'
            else restarted

    pub enable_found-Ends :
        (now : ℕ) (id : Text) (o : Option InstalledPlugin)
        → o ≡ lookup id m.plugins
        → Ends S (enable_exit host m.plugins_dir o) m (settle (enable_found host now id o m))
    unfolding enable_found
    enable_found-Ends now id none e = returned-Ends (some not_installed) m
    enable_found-Ends now id (some p) e =
        branch-Ends (is_enabled p.state) (returned none m)
          (enable_started host id p (start_plugin_locked host now id m))
          (returned-Ends {A = Option PluginError} none m)
          (subst
            (λ b.
              Ends S b m (settle (enable_started host id p (start_plugin_locked host now id m))))
            (start_fails host m now id e)
            (enable_started-Ends id p (start_plugin_locked host now id m)
              (start_plugin_locked-Keeps host now id m)))
