-- ===== src/Executor/Services.antt =====
-- ListServices, ServiceAction and KillProcess of internal/executor/executor.go.
use runixo_agent.Prelude.{
  ℕ, ◌-◌, ◌≡◌, Bool, true, false, not, ◌&&◌, ◌||◌, Option, none, some, List, [], ◌∷◌, ◌++◌, Text,
  codes, text_eq, length, take, drop, any, leb, ltb, ◌==◌, has_prefix, split, fields, if◌then◌else◌,
}
use runixo_agent.Prelude.Int.{ℤ, pos, negsuc, leb_ℤ, eq_ℤ}
pub mod Signals

pub record ServiceInfo : Type 0 where
  pub name : Text
  pub status : Text

-- Go's `strings.TrimSuffix` of ".service".
unfoldable pub trim_service : Text → Text
trim_service s =
    let n = length s - 8 in if text_eq (drop n s) (codes ".service") then take n s else s

abbrev add_service : List Text → List ServiceInfo → List ServiceInfo
add_service (unit ∷ load ∷ active ∷ sub ∷ more) rest =
    record { name = trim_service unit; status = sub } ∷ rest
add_service _ rest = rest

-- The loop over the lines, to the first empty one.
unfoldable pub parse_services : List Text → List ServiceInfo
parse_services [] = []
parse_services (line ∷ lines) =
    let rest = parse_services lines in
    if text_eq line [] then [] else add_service (fields line) rest

-- The lines of `systemctl list-units`, the first of which is the head of the table.
unfoldable pub list_services : List Text → List ServiceInfo
list_services lines = parse_services (drop 1 lines)

abbrev pub allowed_actions : List Text
allowed_actions =
    codes "start"
    ∷ codes "stop"
    ∷ codes "restart"
    ∷ codes "reload"
    ∷ codes "status"
    ∷ codes "enable"
    ∷ codes "disable"
    ∷ []

-- ;|&$`(){}[]<>\"' and white space.
abbrev pub bad_characters : Text
bad_characters = codes ";|&$`(){}[]<>" ++ (92 ∷ 34 ∷ 39 ∷ 32 ∷ 9 ∷ 10 ∷ 13 ∷ [])

-- Go's `strings.ContainsAny`.
unfoldable pub contains_any : Text → Text → Bool
contains_any s chars = any (λ c. any (λ d. c == d) chars) s

-- What runs: the action of systemctl on the service; `none` is a refusal.
unfoldable pub service_action : Text → Text → Option (List Text)
service_action name action =
    if not (any (text_eq action) allowed_actions)
    then none
    else if contains_any name bad_characters
    then none
    else some (codes "systemctl" ∷ action ∷ name ∷ [])

abbrev pub allowed_signals : List ℕ
allowed_signals = 15 ∷ 9 ∷ 2 ∷ 1 ∷ []

-- SIGTERM, where the request gives none.
abbrev pub signal_of : ℤ → ℤ
signal_of signal = if eq_ℤ signal (pos 0) then pos 15 else signal

-- The process and the signal that it is sent; `none` is a refusal. On Unix a process is always
-- found.
unfoldable pub kill_process : ℤ → ℤ → Option (ℤ × ℤ)
kill_process pid signal =
    if leb_ℤ pid (pos 1)
    then none
    else if not (any (λ n. eq_ℤ (signal_of signal) (pos n)) allowed_signals)
    then none
    else some (pid, signal_of signal)
