-- ===== src/Plugin/Tests.antt =====
-- The theorems of the plugin manager at concrete inputs, and runs of the code.
use runixo_agent.Prelude.{
  ℕ, ◌≢◌, ne_of_text_eq, ◌≡◌, refl, true, false, none, some, List, [], ◌∷◌, Text, codes, All,
  length, has_prefix, split, join, text_eq, lookup, insert,
}
use runixo_agent.Security.Path.{
  is_abs, clean, clean_parts, push_part, go_up, or_dot, join_path, abs_path,
}
use runixo_agent.Plugin.{enabled, agent, PluginManifest, InstalledPlugin}
use runixo_agent.Plugin.Instances.{Security}
use runixo_agent.Plugin.Archive.{
  regular, Entry, entries, Outside, extract_tar_gz, extract_entries, extract_entry, extract_then,
  is_inside,
}
use runixo_agent.Plugin.Archive.Inside.{IsWithin, target_of, extract_tar_gz-IsWithin}
use runixo_agent.Plugin.Manager.{
  Manager, Host, holds, missing, new_manager, load_plugins, add_loaded,
}
use runixo_agent.Plugin.Manager.Requests.{
  Request, installs, enables, disables, lists, starts_enabled, perform, perform_all, exits_early,
}
use runixo_agent.Plugin.Manager.Deadlock.{perform_returns}
use runixo_agent.Plugin.Manager.Deadlock.Forever.{deadlock_forever, restart_forgets, IsPlain}

abbrev outside : Outside
outside = record {
  cwd = codes "/w";
  mkdir_all = λ path. true;
  write_file = λ path content. true;
  temporary = true;
  unpack = λ content. entries [] true;
  get = λ url. none;
}

abbrev entry : Text → Entry
entry name = record { name = name; kind = regular; content = codes "x" }

abbrev manifest : PluginManifest
manifest = record {
  id = codes "p";
  name = codes "P";
  version = codes "1";
  plugin_type = agent;
  permissions = [];
  entry_point = [];
  config = [];
  dependencies = [];
}

abbrev enabled_plugin : InstalledPlugin
enabled_plugin = record {
  manifest = manifest;
  state = enabled;
  installed_at = 0;
  updated_at = 0;
  config = [];
  error = none;
}

abbrev security : Security
security = record {
  decode = λ config. none;
  creates = λ config. true;
  configures = λ token account. true;
  starts = λ config. true;
  adds_path = λ path. true;
  status = [];
}

abbrev host : Host
host = record {
  out = outside;
  security = security;
  manifest = λ dir. some manifest;
  remove_all = λ dir. true;
  encodes = λ config. true;
  write_config = λ path config. true;
  write_registry = λ ps. true;
  after_unpack = λ dir file. file;
  after_remove = λ dir file. file;
}

abbrev dir : Text
dir = codes "/p"

abbrev two : List Entry
two = entry (codes "a/b") ∷ entry (codes "../c") ∷ []

-- The second entry leaves the directory, and ends the loop.
climb : length (extract_tar_gz outside (codes "d") (entries two true)).0 ≡ 3
unfolding extract_tar_gz extract_entries extract_entry extract_then is_inside join_path abs_path
    clean is_abs clean_parts push_part go_up or_dot has_prefix split join text_eq
climb = refl

extract_tar_gz-IsWithin_example :
    All
      (λ change.
        IsWithin (abs_path (codes "/w") (codes "d")) (abs_path (codes "/w") (target_of change)))
      (extract_tar_gz outside (codes "d") (entries two true)).0
unfolding is_abs has_prefix
extract_tar_gz-IsWithin_example =
    extract_tar_gz-IsWithin outside (codes "d") refl (entries two true)

-- A manager whose file has one enabled plugin.
abbrev start_file : Manager
start_file = new_manager dir (holds (enabled_plugin ∷ []))

perform_returns_example :
    (perform host (disables (codes "p")) start_file).0
    ≡ exits_early host (disables (codes "p")) start_file
unfolding new_manager
perform_returns_example = perform_returns host (disables (codes "p")) start_file refl

deadlock_forever_example :
    perform_all host
      (lists ∷ enables 1 (codes "p") ∷ [])
      (perform host (disables (codes "p")) start_file).1
    ≡ (false ∷ false ∷ [], (perform host (disables (codes "p")) start_file).1)
unfolding new_manager load_plugins add_loaded lookup insert text_eq
deadlock_forever_example =
    deadlock_forever host (disables (codes "p")) start_file (lists ∷ enables 1 (codes "p") ∷ [])
      refl refl

abbrev install : List Request
install = installs 1 (codes "q") (codes "local") [] (codes "data") ∷ []

IsPlain-id : IsPlain (codes "q")
unfolding text_eq
IsPlain-id = (
  ne_of_text_eq refl,
  ((no_slash, tt), (ne_of_text_eq refl, (ne_of_text_eq refl, ne_of_text_eq refl))),
)
  where
    no_slash : ◌≢◌ {A = ℕ} b'q' b'/'
    no_slash h = cc

restart_forgets_example :
    new_manager dir (perform_all host install (new_manager dir missing)).1.file
    ≡ new_manager dir missing
restart_forgets_example =
    restart_forgets host dir missing install (λ id plain file. (refl, refl)) (IsPlain-id, tt)

abbrev after_start : Manager
after_start = (perform_all host (starts_enabled 5 ∷ starts_enabled 6 ∷ []) start_file).1
