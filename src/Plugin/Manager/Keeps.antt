-- ===== src/Plugin/Manager/Keeps.antt =====
-- What no call of the plugin manager changes: its directory and, as no save is reached, its file.
use runixo_agent.Prelude.{
  ℕ, ◌≡◌, refl, sym, ◌∙◌, Bool, true, false, not, Option, none, some, [], ◌∷◌, Text, text_eq,
  if◌then◌else◌, lookup, insert, delete, lookup-insert, lookup-delete, Dict, arith,
}
use runixo_agent.Plugin.{is_enabled, is_client, PluginError, InstalledPlugin}
use runixo_agent.Plugin.Instances.{start, stop, Instance}
use runixo_agent.Plugin.Manager.{
  PluginRuntime, Manager, Host, create_plugin_instance, keep_started, start_found,
  start_plugin_locked, drop_stopped, stop_found, stop_plugin_locked,
}
use runixo_agent.Plugin.Manager.Calls.{restart_running, mark_start, start_each, stop_each}

-- Every runtime in the map is running.
abbrev pub AllRunning : Dict PluginRuntime → Type 0
AllRunning rs = (id : Text) (r : PluginRuntime) → lookup id rs ≡ some r → r.running ≡ true

insert-AllRunning :
    (id : Text) (r : PluginRuntime) (rs : Dict PluginRuntime)
    → r.running ≡ true
    → AllRunning rs
    → AllRunning (insert id r rs)
insert-AllRunning id r rs on all j s h = by_key (text_eq id j) (sym (lookup-insert id j r rs) ∙ h)
  where
    by_key : (b : Bool) → (if b then some r else lookup j rs) ≡ some s → s.running ≡ true
    by_key true e = ground arith
    by_key false e = all j s e

pub delete-AllRunning :
    (id : Text) (rs : Dict PluginRuntime) → AllRunning rs → AllRunning (delete id rs)
delete-AllRunning id rs all j s h = by_key (text_eq id j) (sym (lookup-delete id j rs) ∙ h)
  where
    by_key : (b : Bool) → (if b then none else lookup j rs) ≡ some s → s.running ≡ true
    by_key true e = cc
    by_key false e = all j s e

-- The directory and the lock stay, a running runtime stays running, and `S` is enough for the
-- file to stay.
pub record Keeps (S : Type 0) (m m' : Manager) : Type 0 where
  pub dir : m'.plugins_dir ≡ m.plugins_dir
  pub lock : m'.write_locked ≡ m.write_locked
  pub saved : S → m'.file ≡ m.file
  pub running : AllRunning m.runtimes → AllRunning m'.runtimes

module _ {S : Type 0} where
  pub Keeps-refl : (m : Manager) → Keeps S m m
  Keeps-refl m = record { dir = refl; lock = refl; saved = λ s. refl; running = λ all. all }

  pub Keeps-trans : {a b c : Manager} → Keeps S a b → Keeps S b c → Keeps S a c
  Keeps-trans k l = record {
    dir = l.dir ∙ k.dir;
    lock = l.lock ∙ k.lock;
    saved = λ s. l.saved s ∙ k.saved s;
    running = λ all. l.running (k.running all);
  }

  keep_started-Keeps :
      (now : ℕ) (id : Text) (m : Manager) (r : Option PluginError × Instance)
      → Keeps S m (keep_started now id m r).1
  unfolding keep_started
  keep_started-Keeps now id m (some e, i) = Keeps-refl m
  keep_started-Keeps now id m (none, i) = record {
    dir = refl;
    lock = refl;
    saved = λ s. refl;
    running = λ all. insert-AllRunning id _ m.runtimes refl all;
  }

  pub start_plugin_locked-Keeps :
      (host : Host) (now : ℕ) (id : Text) (m : Manager)
      → Keeps S m (start_plugin_locked host now id m).1
  unfolding start_plugin_locked start_found
  start_plugin_locked-Keeps host now id m = by_plugin (lookup id m.plugins)
    where
      by_type :
          (b : Bool) (r : Option PluginError × Instance)
          → Keeps S m
              (if◌then◌else◌ {A = Option PluginError × Manager} b
                (none, m)
                (keep_started now id m r)).1
      by_type true r = Keeps-refl m
      by_type false r = keep_started-Keeps now id m r

      by_plugin : (o : Option InstalledPlugin) → Keeps S m (start_found host now id o m).1
      by_plugin none = Keeps-refl m
      by_plugin (some p) =
          by_type (is_client p.manifest.plugin_type)
            (start host.security p.config (create_plugin_instance m.plugins_dir p))

  drop_stopped-Keeps :
      (id : Text) (m : Manager) (r : Option PluginError × Instance)
      → Keeps S m (drop_stopped id m r).1
  unfolding drop_stopped
  drop_stopped-Keeps id m (some e, i) = Keeps-refl m
  drop_stopped-Keeps id m (none, i) = record {
    dir = refl;
    lock = refl;
    saved = λ s. refl;
    running = λ all. delete-AllRunning id m.runtimes all;
  }

  pub stop_plugin_locked-Keeps : (id : Text) (m : Manager) → Keeps S m (stop_plugin_locked id m).1
  unfolding stop_plugin_locked stop_found
  stop_plugin_locked-Keeps id m = by_runtime (lookup id m.runtimes)
    where
      by_running :
          (b : Bool) (r : Option PluginError × Instance)
          → Keeps S m
              (if◌then◌else◌ {A = Option PluginError × Manager}
                (not b)
                (none, m)
                (drop_stopped id m r)).1
      by_running false r = Keeps-refl m
      by_running true r = drop_stopped-Keeps id m r

      by_runtime : (o : Option PluginRuntime) → Keeps S m (stop_found id o m).1
      by_runtime none = Keeps-refl m
      by_runtime (some r) = by_running r.running (stop r.instance_of)

  pub restart_running-Keeps :
      (host : Host) (now : ℕ) (id : Text) (o : Option PluginRuntime) (m : Manager)
      → Keeps S m (restart_running host now id o m)
  unfolding restart_running
  restart_running-Keeps host now id none m = Keeps-refl m
  restart_running-Keeps host now id (some r) m = by_running r.running
    where
      by_running :
          (b : Bool)
          → Keeps S m
              (if b then (start_plugin_locked host now id (stop_plugin_locked id m).1).1 else m)
      by_running true =
          Keeps-trans (stop_plugin_locked-Keeps id m)
            (start_plugin_locked-Keeps host now id (stop_plugin_locked id m).1)
      by_running false = Keeps-refl m

  mark_start-Keeps :
      (id : Text) (p : InstalledPlugin) (r : Option PluginError × Manager)
      → Keeps S r.1 (mark_start id p r)
  unfolding mark_start
  mark_start-Keeps id p (none, m) = Keeps-refl m
  mark_start-Keeps id p (some e, m) = record {
    dir = refl;
    lock = refl;
    saved = λ s. refl;
    running = λ all. all;
  }

  pub start_each-Keeps :
      (host : Host) (now : ℕ) (ps : Dict InstalledPlugin) (m : Manager)
      → Keeps S m (start_each host now ps m)
  unfolding start_each
  start_each-Keeps host now [] m = Keeps-refl m
  start_each-Keeps host now ((id, p) ∷ ps) m =
      by_state (is_enabled p.state) (λ m'. start_each-Keeps host now ps m')
    where
      by_state :
          (b : Bool)
          → ((m' : Manager) → Keeps S m' (start_each host now ps m'))
          → Keeps S m (
              if b
              then start_each host now ps (mark_start id p (start_plugin_locked host now id m))
              else start_each host now ps m)
      by_state true k =
          Keeps-trans (start_plugin_locked-Keeps host now id m)
            (Keeps-trans (mark_start-Keeps id p (start_plugin_locked host now id m)) (k _))
      by_state false k = k m

  pub stop_each-Keeps : (rs : Dict PluginRuntime) (m : Manager) → Keeps S m (stop_each rs m)
  unfolding stop_each
  stop_each-Keeps [] m = Keeps-refl m
  stop_each-Keeps ((id, r) ∷ rs) m =
      Keeps-trans (stop_plugin_locked-Keeps id m) (stop_each-Keeps rs (stop_plugin_locked id m).1)
