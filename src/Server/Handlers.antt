-- ===== src/Server/Handlers.antt =====
-- internal/server/grpc.go: the handlers that check or change what they forward.
use runixo_agent.Prelude.{
  ℕ, ◌+◌, ◌*◌, Bool, true, false, not, ◌&&◌, ◌||◌, Option, none, some, List, [], ◌∷◌, ◌++◌, Text,
  codes, text_eq, take, drop, length, any, leb, ltb, ◌==◌, if◌then◌else◌,
}
use runixo_agent.Prelude.Int.{ℤ, pos, negsuc, leb_ℤ, ltb_ℤ, eq_ℤ}
use runixo_agent.Security.Config.{default_security_config}
use runixo_agent.Security.Paths.{PathError, validate_path, validate_path_for_write, sanitize_path}
use runixo_agent.Emergency.Target.{KillRecord}
use runixo_agent.Emergency.Monitor.{
  Manager, enable, disable, set_config, get_status, samples_required,
}
use runixo_agent.Executor.{Outside, Options, Result, execute}
use runixo_agent.Executor.Services.{service_action}
pub mod Deletes

-- The token of the server, and that of the request. An answer expires after 24 hours.
unfoldable pub authenticate : Text → Text → Bool
authenticate [] given = true
authenticate (c ∷ token) given = text_eq given (c ∷ token)

-- In nanoseconds: less than a second is two.
unfoldable pub metrics_interval : ℤ → ℤ
metrics_interval seconds = if ltb_ℤ seconds (pos 1) then pos 2 else seconds

-- A percentage is a number of millionths, and `scan` what `fmt.Sscanf` with `%f` makes of a text.
abbrev default_threshold : ℕ
default_threshold = 95_000_000

abbrev threshold_or_default : Option ℕ → ℕ
threshold_or_default none = default_threshold
threshold_or_default (some v) = v

abbrev pub thresholds : (Text → Option ℕ) → List Text → ℕ × ℕ
thresholds scan (cpu ∷ mem ∷ more) =
    (threshold_or_default (scan cpu), threshold_or_default (scan mem))
thresholds scan _ = (default_threshold, default_threshold)

pub data EmergencyReply : Type 0 where
  was_enabled was_disabled : EmergencyReply
  status : Bool → ℕ → ℕ → List KillRecord → EmergencyReply

abbrev status_reply : Bool × ℕ × List KillRecord → EmergencyReply
status_reply (enabled, consecutive, history) = status enabled consecutive samples_required history

-- `none` where the command is not one of the three.
unfoldable pub handle_emergency_command :
    (Text → Option ℕ) → Text → List Text → Manager → Option EmergencyReply × Manager
handle_emergency_command scan command args m =
    if text_eq command (codes "__emergency:enable")
    then (
      some was_enabled,
      enable (
          set_config
            (record {
              cpu_threshold = (thresholds scan args).0;
              mem_threshold = (thresholds scan args).1;
            })
            m),
    )
    else if text_eq command (codes "__emergency:disable")
    then (some was_disabled, disable m)
    else if text_eq command (codes "__emergency:status")
    then (some (status_reply (get_status m)), m)
    else (none, m)

pub data CommandReply : Type 0 where
  emergency : EmergencyReply → CommandReply
  ran : Result → CommandReply
  failed : CommandReply

-- A timeout of 0 is a minute.
abbrev pub with_timeout : Options → Options
with_timeout opts = record opts {
  timeout = if opts.timeout == 0 then 60_000_000_000 else opts.timeout;
}

abbrev reply_of : Option Result → CommandReply
reply_of none = failed
reply_of (some r) = ran r

unfoldable pub run_or_reply :
    Outside → Text → List Text → Options → Option EmergencyReply × Manager → CommandReply × Manager
run_or_reply os command args opts (some r, m) = (emergency r, m)
run_or_reply os command args opts (none, m) =
    (reply_of (execute os command args (with_timeout opts)), m)

unfoldable pub execute_command :
    (Text → Option ℕ) → Outside → Text → List Text → Options → Manager → CommandReply × Manager
execute_command scan os command args opts m =
    run_or_reply os command args opts (handle_emergency_command scan command args m)

-- What `RemoveAll` is given, or why the file is kept.
pub data DeleteReply : Type 0 where
  deleted : Text → DeleteReply
  bad_path system_directory not_deleted : DeleteReply
  denied denied_link : PathError → DeleteReply

pub record FileSystem : Type 0 where
  pub eval_symlinks : Text → Option Text
  pub remove_all : Text → Bool

abbrev pub check_write : FileSystem → Text → Option PathError
check_write fs path = validate_path_for_write fs.eval_symlinks default_security_config path

abbrev pub kept_directories : List Text
kept_directories =
    codes "/"
    ∷ codes "/bin"
    ∷ codes "/sbin"
    ∷ codes "/usr"
    ∷ codes "/etc"
    ∷ codes "/var"
    ∷ codes "/boot"
    ∷ codes "/root"
    ∷ codes "/home"
    ∷ []

unfoldable pub delete_at : FileSystem → Text → DeleteReply
delete_at fs path =
    if any (text_eq path) kept_directories
    then system_directory
    else if fs.remove_all path
    then deleted path
    else not_deleted

unfoldable pub delete_link : FileSystem → Text → Option PathError → DeleteReply
delete_link fs path (some e) = denied_link e
delete_link fs path none = delete_at fs path

unfoldable pub delete_real : FileSystem → Text → Option Text → DeleteReply
delete_real fs path none = delete_at fs path
delete_real fs path (some real) =
    if text_eq real path then delete_at fs path else delete_link fs path (check_write fs real)

unfoldable pub delete_checked : FileSystem → Text → Option PathError → DeleteReply
delete_checked fs path (some e) = denied e
delete_checked fs path none = delete_real fs path (fs.eval_symlinks path)

unfoldable pub delete_clean : FileSystem → Option Text → DeleteReply
delete_clean fs none = bad_path
delete_clean fs (some path) = delete_checked fs path (check_write fs path)

unfoldable pub delete_file : FileSystem → Text → DeleteReply
delete_file fs path = delete_clean fs (sanitize_path path)

pub data ServiceAction : Type 0 where
  service_start service_stop service_restart service_enable service_disable : ServiceAction
  service_other : ℕ → ServiceAction

abbrev pub action_name : ServiceAction → Option Text
action_name service_start = some (codes "start")
action_name service_stop = some (codes "stop")
action_name service_restart = some (codes "restart")
action_name service_enable = some (codes "enable")
action_name service_disable = some (codes "disable")
action_name (service_other n) = none

-- The size and the number of the page of results that is asked for.
unfoldable pub search_page : ℤ → ℤ → ℤ × ℤ
search_page page_size page = (
  (if leb_ℤ page_size (pos 0) || ltb_ℤ (pos 100) page_size then pos 25 else page_size),
  (if leb_ℤ page (pos 0) then pos 1 else page),
)
