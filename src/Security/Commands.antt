-- ===== src/Security/Commands.antt =====
-- The check of commands in internal/security/security.go.
use runixo_agent.Prelude.{
  or_else, ℕ, Bool, true, false, not, ◌&&◌, ◌||◌, Option, none, some, List, [], ◌∷◌, ◌++◌, Text,
  codes, length, any, text_eq, join, contains, to_lower, leb, ltb, ◌==◌, if◌then◌else◌,
}
use runixo_agent.Security.Config.{SecurityConfig}
use runixo_agent.Security.Path.{base}
use runixo_agent.Security.Regex.{Regex, done, one, then_, either, star, match_string}
pub mod Accepted

pub data DangerousPattern : Type 0 where
  rm_command disk_redirect disk_write fork_bomb : DangerousPattern

-- The errors, in the order of the checks.
pub data CommandError : Type 0 where
  too_long too_many_arguments sudo_disabled sudo_not_allowed : CommandError
  dangerous_command : Text → CommandError
  dangerous_pattern : DangerousPattern → CommandError
  not_listed : CommandError

abbrev byte : ℕ → Regex
byte c = one (λ x. x == c)

abbrev literal : Text → Regex
literal [] = done
literal (c ∷ s) = then_ (byte c) (literal s)

abbrev plus : Regex → Regex
plus r = then_ r (star r)

-- `\s`, `.`, `[a-z]`, `[rf]` and `[sh]`.
abbrev blank : Regex
blank = one (λ c. c == 9 || (c == 10 || (c == 12 || (c == 13 || c == 32))))

abbrev anything : Regex
anything = one (λ c. not (c == 10))

abbrev letter : Regex
letter = one (λ c. leb b'a' c && leb c b'z')

abbrev of_two : ℕ → ℕ → Regex
of_two a b = one (λ c. c == a || c == b)

abbrev disk : Regex
disk = then_ (literal (codes "/dev/")) (then_ (of_two b's' b'h') (then_ (byte b'd') letter))

-- The four patterns of `checkDangerousCommand`.
abbrev pub pattern_of : DangerousPattern → Regex
pattern_of rm_command = then_ (literal (codes "rm")) (
    then_ (plus blank) (
      then_ (star (then_ (byte b'-') (then_ (plus (of_two b'r' b'f')) (plus blank))))
        (either (then_ (byte b'/') blank) (either (literal (codes "/*")) (literal (codes ".."))))))
pattern_of disk_redirect = then_ (byte b'>') (then_ (star blank) disk)
pattern_of disk_write =
    then_ (literal (codes "dd"))
      (then_ (plus blank) (then_ (star anything) (then_ (literal (codes "of=")) disk)))
pattern_of fork_bomb =
    then_ (literal (codes ":()"))
      (then_ (star blank) (then_ (byte 123) (then_ (star anything) (byte 125))))

abbrev pub dangerous_patterns : List DangerousPattern
dangerous_patterns = rm_command ∷ disk_redirect ∷ disk_write ∷ fork_bomb ∷ []

abbrev pub sudo_whitelist : List Text
sudo_whitelist =
    codes "systemctl"
    ∷ codes "service"
    ∷ codes "journalctl"
    ∷ codes "apt"
    ∷ codes "apt-get"
    ∷ codes "yum"
    ∷ codes "dnf"
    ∷ codes "pacman"
    ∷ codes "zypper"
    ∷ codes "mkdir"
    ∷ codes "chown"
    ∷ codes "chmod"
    ∷ codes "cp"
    ∷ codes "mv"
    ∷ codes "docker"
    ∷ codes "runixo"
    ∷ []

abbrev pub full_command : Text → List Text → Text
full_command command args = command ++ (b' ' ∷ join b' ' args)

unfoldable pub find_pattern : Text → List DangerousPattern → Option CommandError
find_pattern lower_cmd [] = none
find_pattern lower_cmd (p ∷ ps) =
    if match_string (pattern_of p) lower_cmd
    then some (dangerous_pattern p)
    else find_pattern lower_cmd ps

unfoldable pub find_dangerous : (Text → Text) → Text → List Text → Option CommandError
find_dangerous unicode_lower lower_cmd [] = find_pattern lower_cmd dangerous_patterns
find_dangerous unicode_lower lower_cmd (dangerous ∷ rest) =
    if contains lower_cmd (to_lower unicode_lower dangerous)
    then some (dangerous_command dangerous)
    else find_dangerous unicode_lower lower_cmd rest

unfoldable pub check_dangerous_command : (Text → Text) → SecurityConfig → Text → Option CommandError
check_dangerous_command unicode_lower config full =
    find_dangerous unicode_lower (to_lower unicode_lower full) config.dangerous_commands

unfoldable pub is_command_allowed : SecurityConfig → Text → Bool
is_command_allowed config command =
    any (λ allowed. text_eq (base command) allowed || text_eq command allowed)
      config.command_whitelist

-- `none` is success.
unfoldable pub validate_command :
    (Text → Text) → SecurityConfig → Text → List Text → Bool → Option CommandError
validate_command unicode_lower config command args sudo =
    let full = full_command command args in
    if ltb config.max_command_length (length full)
    then some too_long
    else if ltb config.max_arguments (length args)
    then some too_many_arguments
    else if sudo && not config.allow_sudo
    then some sudo_disabled
    else if sudo && not (any (text_eq command) sudo_whitelist)
    then some sudo_not_allowed
    else or_else (check_dangerous_command unicode_lower config full) (
        if config.enable_command_whitelist && not (is_command_allowed config command)
        then some not_listed
        else none)
