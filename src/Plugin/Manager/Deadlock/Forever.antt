-- ===== src/Plugin/Manager/Deadlock/Forever.antt =====
-- What a save under the lock does to the plugin manager: no later call returns, and nothing is
-- written.
use mathlib.Core.Path.{subst}
use runixo_agent.Security.Path.{join_path}
use runixo_agent.Prelude.{
  ◌≡◌, ◌≢◌, sym, codes, All, refl, ap, ◌∙◌, Bool, true, false, not, List, [], ◌∷◌, Text, map,
  if◌then◌else◌, Bool-cases, inl, inr,
}
use runixo_agent.Plugin.Manager.{
  Manager, Host, RegistryFile, new_manager, Outcome, returned, blocked, unlock, locked, read_locked,
  list_plugins, get_plugin, get_plugin_config, get_plugin_status,
}
use runixo_agent.Plugin.Manager.Calls.{
  install_plugin, uninstall_plugin, enable_plugin, disable_plugin, set_plugin_config,
  start_enabled_plugins, stop_all_plugins,
}
use runixo_agent.Plugin.Manager.Requests.{
  Request, lists, gets, gets_config, gets_status, installs, uninstalls, enables, disables,
  configures, starts_enabled, stops_all, settle, perform, perform_all, exits_early, Spares,
  SparesAll,
}
use runixo_agent.Plugin.Manager.Deadlock.{perform-Settles}

locked_blocks :
    {A : Type 0} (body : Manager → Outcome A) (m : Manager)
    → m.write_locked ≡ true
    → settle (locked body m) ≡ (false, m)
unfolding locked
locked_blocks {A} body m held = by_lock m.write_locked held
  where
    by_lock :
        (b : Bool)
        → b ≡ true
        → settle (if b then blocked m else unlock (body (record m { write_locked = true })))
          ≡ (false, m)
    by_lock true h = refl
    by_lock false h = absurd cc

read_locked_blocks :
    {A : Type 0} (body : Manager → A) (m : Manager)
    → m.write_locked ≡ true
    → settle (read_locked body m) ≡ (false, m)
unfolding read_locked
read_locked_blocks {A} body m held = by_lock m.write_locked held
  where
    by_lock :
        (b : Bool) → b ≡ true → settle (if b then blocked m else returned (body m) m) ≡ (false, m)
    by_lock true h = refl
    by_lock false h = absurd cc

pub perform_blocks :
    (host : Host) (r : Request) (m : Manager)
    → m.write_locked ≡ true
    → perform host r m ≡ (false, m)
unfolding perform list_plugins get_plugin get_plugin_config get_plugin_status install_plugin
    uninstall_plugin enable_plugin disable_plugin set_plugin_config start_enabled_plugins
    stop_all_plugins
perform_blocks host lists m held = read_locked_blocks _ m held
perform_blocks host (gets id) m held = read_locked_blocks _ m held
perform_blocks host (gets_config id) m held = read_locked_blocks _ m held
perform_blocks host (gets_status now id) m held = read_locked_blocks _ m held
perform_blocks host (installs now id source url content) m held = locked_blocks _ m held
perform_blocks host (uninstalls id) m held = locked_blocks _ m held
perform_blocks host (enables now id) m held = locked_blocks _ m held
perform_blocks host (disables id) m held = locked_blocks _ m held
perform_blocks host (configures now id config) m held = locked_blocks _ m held
perform_blocks host (starts_enabled now) m held = locked_blocks _ m held
perform_blocks host stops_all m held = locked_blocks _ m held

abbrev answered : Bool → List Bool × Manager → List Bool × Manager
answered b out = (b ∷ out.0, out.1)

abbrev and_then : Host → List Request → Bool × Manager → List Bool × Manager
and_then host rs out = answered out.0 (perform_all host rs out.1)

all_block :
    (host : Host) (rs : List Request) (m : Manager)
    → m.write_locked ≡ true
    → perform_all host rs m ≡ (map (λ r. false) rs, m)
unfolding perform_all
all_block host [] m held = refl
all_block host (r ∷ rs) m held =
    ap (and_then host rs) (perform_blocks host r m held)
    ∙ ap (answered false) (all_block host rs m held)

-- Where a call on a free lock does not leave before it saves, no call after it returns, of
-- whatever method, and none of them changes the manager.
pub deadlock_forever :
    (host : Host) (r : Request) (m : Manager) (rs : List Request)
    → m.write_locked ≡ false
    → exits_early host r m ≡ false
    → perform_all host rs (perform host r m).1 ≡ (map (λ r. false) rs, (perform host r m).1)
deadlock_forever host r m rs free saves =
    all_block host rs (perform host r m).1 ((perform-Settles host r m free).lock ∙ ap not saves)

-- The directory of the manager stays, and its file where the directory of a request does not hold
-- it.
record Stays (host : Host) (r : Request) (m m' : Manager) : Type 0 where
  dir : m'.plugins_dir ≡ m.plugins_dir
  saved : SparesAll host m.plugins_dir r → m'.file ≡ m.file

step-Stays : (host : Host) (r : Request) (m : Manager) → Stays host r m (perform host r m).1
step-Stays host r m = elim (Bool-cases m.write_locked) [
  | inl held ↦
      let same = perform_blocks host r m held in
      record { dir = ap (λ out. out.1.plugins_dir) same; saved = λ s. ap (λ out. out.1.file) same }
  | inr free ↦
      let settled = perform-Settles host r m free in
      record { dir = settled.dir; saved = settled.saved }
]

-- The name of one file, other than `installed.json`.
abbrev pub IsPlain : Text → Type 0
IsPlain id =
    (id ≢ [])
    × (All (λ c. c ≢ b'/') id
        × ((id ≢ codes ".") × ((id ≢ codes "..") × (id ≢ codes "installed.json"))))

-- The plugins that a request installs or removes have plain names.
abbrev pub HasPlain : Request → Type 0
HasPlain (installs now id source url content) = IsPlain id
HasPlain (uninstalls id) = IsPlain id
HasPlain _ = Unit {0}

-- The operating system changes nothing beside a directory that it works on.
abbrev pub SparesPlain : Host → Text → Type 0
SparesPlain host dir = (id : Text) → IsPlain id → Spares host (join_path dir id)

plain-SparesAll :
    (host : Host) (dir : Text) (r : Request)
    → SparesPlain host dir
    → HasPlain r
    → SparesAll host dir r
plain-SparesAll host dir (installs now id source url content) h p = h id p
plain-SparesAll host dir (uninstalls id) h p = h id p
plain-SparesAll host dir lists h p = tt
plain-SparesAll host dir (gets id) h p = tt
plain-SparesAll host dir (gets_config id) h p = tt
plain-SparesAll host dir (gets_status now id) h p = tt
plain-SparesAll host dir (enables now id) h p = tt
plain-SparesAll host dir (disables id) h p = tt
plain-SparesAll host dir (configures now id config) h p = tt
plain-SparesAll host dir (starts_enabled now) h p = tt
plain-SparesAll host dir stops_all h p = tt

file_stays :
    (host : Host) (rs : List Request) (m : Manager)
    → SparesPlain host m.plugins_dir
    → All HasPlain rs
    → (perform_all host rs m).1.file ≡ m.file
unfolding perform_all
file_stays host [] m h p = refl
file_stays host (r ∷ rs) m h p =
    let step = step-Stays host r m in
    file_stays host rs (perform host r m).1 (subst (SparesPlain host) (sym step.dir) h) p.1
    ∙ step.saved (plain-SparesAll host m.plugins_dir r h p.0)

-- Where the plugins that are installed and removed have plain names, no calls change
-- `installed.json`: a manager that starts after them from its file is the one that started before
-- them, with the plugins that it had then.
pub restart_forgets :
    (host : Host) (dir : Text) (file : RegistryFile) (rs : List Request)
    → SparesPlain host dir
    → All HasPlain rs
    → new_manager dir (perform_all host rs (new_manager dir file)).1.file ≡ new_manager dir file
unfolding new_manager
restart_forgets host dir file rs h p =
    ap (new_manager dir) (file_stays host rs (new_manager dir file) h p)
