-- ===== src/Plugin/Instances.antt =====
-- internal/plugin/instances.go: the two kinds of running plugins, and the scheduled task.
use runixo_agent.Prelude.{
  ℕ, ◌≡◌, Bool, true, false, not, Option, none, some, List, [], ◌∷◌, ◌++◌, Text, codes, text_eq,
  ltb, if◌then◌else◌, Dict, keep,
}
use runixo_agent.Prelude.Int.{ℤ, pos, ltb_ℤ}
use runixo_agent.Security.Path.{join_path}
use runixo_agent.Plugin.{
  Settings, PluginError, no_api_token, bad_settings, manager_refused, not_running,
}
pub mod Scheduled

pub record GenericPlugin : Type 0 where
  pub plugin_id : Text
  pub config : Settings
  pub running : Bool

pub record CloudflareConfig : Type 0 where
  pub api_token : Text
  pub account_id : Text
  pub auto_block : Bool
  pub block_threshold : ℤ
  pub block_duration : ℤ
  pub monitor_paths : List Text
  pub enabled : Bool

-- What of the configuration of the security manager this package sets, from its defaults.
pub record SecurityConfig : Type 0 where
  pub data_path : Text
  pub block_threshold : ℤ
  pub default_block_duration : ℤ
  pub auto_block_enabled : Bool

-- The answers of the JSON decoder and of the security manager. A map of JSON values is encoded
-- without an error.
pub record Security : Type 0 where
  pub decode : Settings → Option CloudflareConfig
  pub creates : SecurityConfig → Bool
  pub configures : Text → Text → Bool
  pub starts : SecurityConfig → Bool
  pub adds_path : Text → Bool
  pub status : Dict Text

-- A security manager that was started: with what, and what it watches.
pub record SecurityManager : Type 0 where
  pub config : SecurityConfig
  pub paths : List Text
  pub stopped : Bool

-- `following` is the goroutine of `processEvents`, which ends when it is cancelled.
pub record CloudflarePlugin : Type 0 where
  pub plugins_dir : Text
  pub plugin_id : Text
  pub manager : Option SecurityManager
  pub config : Option CloudflareConfig
  pub running : Bool
  pub following : Bool

pub data Instance : Type 0 where
  generic : GenericPlugin → Instance
  cloudflare : CloudflarePlugin → Instance

unfoldable pub new_generic_plugin : Text → GenericPlugin
new_generic_plugin plugin_id = record { plugin_id = plugin_id; config = []; running = false }

unfoldable pub new_cloudflare_plugin : Text → Text → CloudflarePlugin
new_cloudflare_plugin plugins_dir plugin_id = record {
  plugins_dir = plugins_dir;
  plugin_id = plugin_id;
  manager = none;
  config = none;
  running = false;
  following = false;
}

unfoldable pub start_generic : Settings → GenericPlugin → GenericPlugin
start_generic config p = record p { config = config; running = true }

unfoldable pub stop_generic : GenericPlugin → GenericPlugin
stop_generic p = record p { running = false }

-- The defaults, with a threshold and a duration of its own where they are positive.
unfoldable pub security_config : Text → Text → CloudflareConfig → SecurityConfig
security_config plugins_dir plugin_id c = record {
  data_path = join_path (join_path plugins_dir plugin_id) (codes "data");
  block_threshold = if ltb_ℤ (pos 0) c.block_threshold then c.block_threshold else pos 100;
  default_block_duration = if ltb_ℤ (pos 0) c.block_duration then c.block_duration else pos 3600;
  auto_block_enabled = c.auto_block;
}

-- The manager is made, configured and started, and then told the paths; a path that it refuses is
-- logged.
unfoldable pub start_manager :
    Security → CloudflareConfig → CloudflarePlugin → Option PluginError × CloudflarePlugin
start_manager sec c p =
    let sc = security_config p.plugins_dir p.plugin_id c in
    if not (sec.creates sc)
    then (some manager_refused, p)
    else if not (sec.configures c.api_token c.account_id)
    then (some manager_refused, p)
    else if not (sec.starts sc)
    then (some manager_refused, p)
    else (
      none,
      record p {
        manager =
            some
              (record { config = sc; paths = keep sec.adds_path c.monitor_paths; stopped = false });
        running = true;
        following = true;
      },
    )

unfoldable pub start_decoded :
    Security → Option CloudflareConfig → CloudflarePlugin → Option PluginError × CloudflarePlugin
start_decoded sec none p = (some bad_settings, p)
start_decoded sec (some c) p =
    let p' = record p { config = some c } in
    if not c.enabled
    then (none, p')
    else if text_eq c.api_token []
    then (some no_api_token, p')
    else start_manager sec c p'

unfoldable pub start_cloudflare :
    Security → Settings → CloudflarePlugin → Option PluginError × CloudflarePlugin
start_cloudflare sec config p = start_decoded sec (sec.decode config) p

abbrev pub stop_manager : Option SecurityManager → Option SecurityManager
stop_manager none = none
stop_manager (some manager) = some (record manager { stopped = true })

unfoldable pub stop_cloudflare : CloudflarePlugin → CloudflarePlugin
stop_cloudflare p = record p {
  following = false;
  manager = stop_manager p.manager;
  running = false;
}

-- Stop does not fail, so the start always follows.
unfoldable pub update_config :
    Security → Settings → CloudflarePlugin → Option PluginError × CloudflarePlugin
update_config sec config p = start_cloudflare sec config (stop_cloudflare p)

-- The interface of the instances.
unfoldable pub start : Security → Settings → Instance → Option PluginError × Instance
start sec config (generic p) = (none, generic (start_generic config p))
start sec config (cloudflare p) =
    let out = start_cloudflare sec config p in (out.0, cloudflare out.1)

unfoldable pub stop : Instance → Option PluginError × Instance
stop (generic p) = (none, generic (stop_generic p))
stop (cloudflare p) = (none, cloudflare (stop_cloudflare p))

abbrev bool_text : Bool → Text
bool_text true = codes "true"
bool_text false = codes "false"

abbrev manager_status : Security → Option SecurityManager → Dict Text
manager_status sec none = []
manager_status sec (some manager) = sec.status

unfoldable pub get_status : Security → Instance → Dict Text
get_status sec (generic p) = (codes "running", bool_text p.running) ∷ []
get_status sec (cloudflare p) =
    (codes "running", bool_text p.running) ∷ manager_status sec p.manager

-- What a call of `BlockIP` or `UnblockIP` forwards to: the manager, if there is one.
unfoldable pub get_manager : CloudflarePlugin → Option SecurityManager
get_manager p = p.manager
