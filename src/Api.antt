-- ===== src/Api.antt =====
-- The REST API of internal/api/api.go: its table of failed attempts, the middlewares and the
-- routes. Times are nanoseconds since the zero time of Go, and each operation reads the clock
-- once. The answers of internal/collector are the parameter `Collector`.
use Prim.Native.String.{String}
use runixo_agent.Prelude.{
  ℕ, suc, ◌+◌, Bool, true, false, not, ◌&&◌, Option, none, some, List, [], ◌∷◌, ◌++◌, Text, codes,
  Dict, lookup, insert, delete, retain, ltb, leb, text_eq, if◌then◌else◌,
}
use runixo_agent.Prelude.Int.{ℤ}
use runixo_agent.Prelude.Clock.{unix_seconds}
use runixo_agent.Auth.Token.{strip_bearer, constant_time_compare}
pub mod Gate
mod Tests

pub record ApiAttemptInfo : Type 0 where
  pub count : ℕ
  pub locked_until : ℕ
  pub last_attempt : ℕ

pub record Server : Type 0 where
  pub token : Text
  pub version : Text
  pub failed_attempts : Dict ApiAttemptInfo

unfoldable pub new_server : Text → Text → Server
new_server token version = record { token = token; version = version; failed_attempts = [] }

-- What `cleanupLoop` deletes.
unfoldable pub is_stale : ℕ → ApiAttemptInfo → Bool
is_stale now info = ltb info.locked_until now && ltb (info.last_attempt + 1_800_000_000_000) now

-- One tick of `cleanupLoop`.
unfoldable pub cleanup : ℕ → Server → Server
unfolding is_stale
cleanup now s = record s {
  failed_attempts = retain (λ info. not (is_stale now info)) s.failed_attempts;
}

abbrev pub info_or_new : Option ApiAttemptInfo → ApiAttemptInfo
info_or_new none = record { count = 0; locked_until = 0; last_attempt = 0 }
info_or_new (some info) = info

-- The entry of an address after one more failure: five lock it for fifteen minutes.
unfoldable pub count_info : ℕ → ApiAttemptInfo → ApiAttemptInfo
count_info now info = record {
  count = suc info.count;
  locked_until = if leb 5 (suc info.count) then now + 900_000_000_000 else info.locked_until;
  last_attempt = now;
}

unfoldable pub record_api_failed_attempt : ℕ → Text → Server → Server
unfolding count_info
record_api_failed_attempt now ip s = record s {
  failed_attempts =
      insert ip (count_info now (info_or_new (lookup ip s.failed_attempts))) s.failed_attempts;
}

-- The answers of the handlers: a status and a time, a version and a name, and what the collector
-- gives.
pub data Data : Type 0 where
  health : Text → ℤ → Data
  version_info : Text → Text → Data
  collected : Text → Data

pub data Response : Type 0 where
  succeeded : Data → Response
  failed : Text → Response

-- What a handler has written: the headers it set, the status, and the body.
pub record Writer : Type 0 where
  pub headers : Dict Text
  pub status : ℕ
  pub body : Option Response

abbrev pub set_header : String → String → Writer → Writer
set_header name value w = record w { headers = insert (codes name) (codes value) w.headers }

unfoldable pub json_response : Data → Writer → Writer
json_response data_ w = record (set_header "Content-Type" "application/json" w) {
  body = some (succeeded data_);
}

unfoldable pub json_error : Text → ℕ → Writer → Writer
json_error message code w = record (set_header "Content-Type" "application/json" w) {
  status = code;
  body = some (failed message);
}

-- The address is host and port; the header is the empty text where it is missing.
pub record Request : Type 0 where
  pub remote_addr : Text
  pub authorization : Text
  pub path : Text

unfoldable pub is_locked : ℕ → Text → Server → Bool
is_locked now ip s = elim (lookup ip s.failed_attempts) [
  | none ↦ false
  | some info ↦ ltb now info.locked_until
]

-- The checks after that of the lock; `next` is the handler that the middleware guards.
unfoldable pub check_token : (Writer → Writer) → ℕ → Request → Server → Writer → Server × Writer
unfolding record_api_failed_attempt json_error strip_bearer constant_time_compare
check_token next now r s w =
    let refused = record_api_failed_attempt now r.remote_addr s in
    if text_eq r.authorization []
    then (refused, json_error (codes "Missing authorization header") 401 w)
    else if not (constant_time_compare (strip_bearer r.authorization) s.token)
    then (refused, json_error (codes "Invalid token") 401 w)
    else (record s { failed_attempts = delete r.remote_addr s.failed_attempts }, next w)

unfoldable pub auth_middleware : (Writer → Writer) → ℕ → Request → Server → Writer → Server × Writer
unfolding is_locked check_token json_error
auth_middleware next now r s w =
    if is_locked now r.remote_addr s
    then (s, json_error (codes "Too many failed attempts") 429 (set_header "Retry-After" "900" w))
    else check_token next now r s w

abbrev pub security_headers : Writer → Writer
security_headers w =
    set_header "X-Frame-Options" "DENY" (set_header "X-Content-Type-Options" "nosniff" w)

-- What the collector answers: its data as JSON, or the text of an error.
pub data Answer : Type 0 where
  data_of : Text → Answer
  error_of : Text → Answer

pub record Collector : Type 0 where
  pub get_system_info : Answer
  pub get_metrics : Answer
  pub list_processes : Answer

unfoldable pub handle_answer : String → Answer → Writer → Writer
unfolding json_response json_error
handle_answer message (data_of text) w = json_response (collected text) w
handle_answer message (error_of e) w = json_error (codes message ++ e) 500 w

abbrev pub handle_system_info : Collector → Writer → Writer
handle_system_info c w = handle_answer "Failed to get system info: " c.get_system_info w

abbrev pub handle_metrics : Collector → Writer → Writer
handle_metrics c w = handle_answer "Failed to get metrics: " c.get_metrics w

abbrev pub handle_processes : Collector → Writer → Writer
handle_processes c w = handle_answer "Failed to list processes: " c.list_processes w

abbrev pub api_path : String → Text
api_path name = codes "/api/" ++ codes name

unfoldable pub handle_health : ℕ → Writer → Writer
unfolding json_response
handle_health now w = json_response (health (codes "healthy") (unix_seconds now)) w

unfoldable pub handle_version : Server → Writer → Writer
unfolding json_response
handle_version s w = json_response (version_info s.version (codes "Runixo Agent")) w

-- The handlers behind the middleware of authentication.
unfoldable pub handle_protected : Collector → Text → Option (Writer → Writer)
unfolding handle_answer
handle_protected c path =
    if text_eq path (api_path "system")
    then some (handle_system_info c)
    else if text_eq path (api_path "metrics")
    then some (handle_metrics c)
    else if text_eq path (api_path "processes")
    then some (handle_processes c)
    else none

guard_route : Option (Writer → Writer) → ℕ → Request → Server → Writer → Option (Server × Writer)
unfolding auth_middleware
guard_route none now r s w = none
guard_route (some next) now r s w = some (auth_middleware next now r s w)

abbrev pub new_writer : Writer
new_writer = record { headers = []; status = 200; body = none }

-- The routes of `RegisterRoutes`; `none` is a path that the mux does not know.
unfoldable pub serve : Collector → ℕ → Request → Server → Option (Server × Writer)
unfolding handle_health handle_version handle_protected guard_route
serve c now r s =
    let w = security_headers new_writer in
    if text_eq r.path (api_path "health")
    then some (s, handle_health now w)
    else if text_eq r.path (api_path "version")
    then some (s, handle_version s w)
    else guard_route (handle_protected c r.path) now r s w
