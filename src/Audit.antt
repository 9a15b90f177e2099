-- ===== src/Audit.antt =====
-- The audit log of internal/audit/audit.go: what is logged, the queue, and the files. `encode` is
-- `json.Marshal`, `opens` says whether the log file can be opened.
use runixo_agent.Prelude.{
  ℕ, suc, ◌+◌, ◌*◌, Bool, true, false, not, ◌&&◌, ◌||◌, Option, none, some, List, [], ◌∷◌, ◌++◌,
  Text, codes, length, leb, ltb, ◌==◌, text_eq, if◌then◌else◌,
}
pub mod Files
pub mod Rotation
mod Tests

-- The details by the call that makes them.
pub data Details : Type 0 where
  no_details : Details
  of_command : Text → List Text → ℕ → Details
  of_path : Text → Details
  of_duration : ℕ → Details

pub record Event : Type 0 where
  pub id : Text
  pub timestamp : ℕ
  pub event_type : Text
  pub level : Text
  pub action : Text
  pub client_ip : Text
  pub success : Bool
  pub message : Text
  pub details : Details

-- Without the path of the log, which only names the file.
pub record Config : Type 0 where
  pub enabled : Bool
  pub max_size_mb : ℕ
  pub max_backups : ℕ
  pub min_level : Text
  pub log_success_auth : Bool
  pub log_commands : Bool
  pub log_file_ops : Bool

abbrev pub default_config : Config
default_config = record {
  enabled = true;
  max_size_mb = 50;
  max_backups = 5;
  min_level = codes "info";
  log_success_auth = false;
  log_commands = true;
  log_file_ops = false;
}

-- The place of a level; one that is not in the table counts as 0.
abbrev pub rank : Text → ℕ
rank level =
    if text_eq level (codes "warning")
    then 1
    else if text_eq level (codes "error")
    then 2
    else if text_eq level (codes "critical")
    then 3
    else 0

unfoldable pub is_level_at_least : Text → Text → Bool
is_level_at_least level min_level = leb (rank min_level) (rank level)

unfoldable pub should_log : Config → Event → Bool
unfolding is_level_at_least
should_log config event =
    if not (is_level_at_least event.level config.min_level)
    then false
    else if text_eq event.event_type (codes "auth")
    then not (event.success && not config.log_success_auth)
    else if text_eq event.event_type (codes "command")
    then config.log_commands
    else if text_eq event.event_type (codes "file")
    then config.log_file_ops
    else true

-- The room of the channel.
abbrev pub event_room : ℕ
event_room = 1000

-- `Log`, on the configuration and the queue; an event that finds the queue full is dropped.
-- `generated` is the id of `generateEventID`.
unfoldable pub log : Text → ℕ → Config → Event → List Event → List Event
unfolding should_log
log generated now config event queue =
    if not config.enabled
    then queue
    else if not (should_log config event)
    then queue
    else if ltb (length queue) event_room
    then queue
      ++ (record event {
        id = if text_eq event.id [] then generated else event.id;
        timestamp = if event.timestamp == 0 then now else event.timestamp;
      }
          ∷ [])
    else queue

-- What the four `Log…` methods and the interceptor hand to `log`.
abbrev event_of : Text → Text → Text → Text → Bool → Text → Details → Event
event_of event_type level action client_ip success message details = record {
  id = [];
  timestamp = 0;
  event_type = event_type;
  level = level;
  action = action;
  client_ip = client_ip;
  success = success;
  message = message;
  details = details;
}

unfoldable pub auth_event : Text → Bool → Text → Event
auth_event client_ip success message =
    event_of (codes "auth") (if success then codes "info" else codes "warning")
      (codes "authenticate") client_ip success message no_details

unfoldable pub command_event : Text → Text → List Text → ℕ → Event
command_event client_ip command args exit_code =
    event_of (codes "command") (codes "info") (codes "execute_command") client_ip (exit_code == 0)
      [] (of_command command args exit_code)

unfoldable pub file_event : Text → Text → Text → Bool → Event
file_event client_ip action path success =
    event_of (codes "file") (codes "info") action client_ip success [] (of_path path)

unfoldable pub security_event : Text → Text → Text → Text → Event
security_event client_ip action message level =
    event_of (codes "security") level action client_ip false message no_details
