-- ===== src/Security/Tests.antt =====
-- The theorems of the checks at concrete inputs, and runs of the code.
use runixo_agent.Prelude.{
  ◌≡◌, ◌↔◌, refl, Bool, true, false, Option, none, some, [], ◌∷◌, Text, codes, text_eq, join,
  Occurs, has_prefix, split, contains, contains_iff, search_from, to_lower,
}
use runixo_agent.Security.Config.{default_security_config}
use runixo_agent.Security.Path.{is_abs, clean, base, or_dot}
use runixo_agent.Security.Regex.{match_string}
use runixo_agent.Security.Commands.{
  rm_command, disk_redirect, disk_write, fork_bomb, pattern_of, validate_command,
  check_dangerous_command, find_dangerous, find_pattern, is_command_allowed, dangerous_command,
  sudo_disabled, not_listed,
}
use runixo_agent.Security.Commands.Accepted.{IsAccepted, validate_command_iff}
use runixo_agent.Security.Paths.{
  forbidden, write_restricted, check_real, find_prefix, validate_path, validate_path_for_write,
  write_restricted_paths,
}
use runixo_agent.Security.Paths.Decision.{
  HasNone, effective, validate_path_iff, write_through_link, find_prefix_iff,
}

cleans :
    (clean (codes "/a//b/./../c/") ≡ codes "/a/c")
    × (clean (codes "../../a/..") ≡ codes "../..")
    × (clean (codes "/..") ≡ codes "/")
    × (clean [] ≡ codes ".")
    × (base (codes "/usr/bin/ls/") ≡ codes "ls")
    × (base (codes "//") ≡ codes "/")
unfolding clean base text_eq has_prefix join split or_dot
cleans = (refl, refl, refl, refl, refl, refl)

patterns :
    (match_string (pattern_of rm_command) (codes "x; rm -rf -f /*") ≡ true)
    × (match_string (pattern_of rm_command) (codes "rm -x /tmp") ≡ false)
    × (match_string (pattern_of disk_redirect) (codes "cat a >  /dev/sda") ≡ true)
    × (match_string (pattern_of disk_write) (codes "dd if=a of=/dev/hdb") ≡ true)
    × (match_string (pattern_of fork_bomb) (codes ":() { :|:& };:") ≡ true)
unfolding match_string
patterns = (refl, refl, refl, refl, refl)

abbrev as_is : Text → Text
as_is s = s

commands :
    (validate_command as_is default_security_config (codes "/bin/ls") (codes "-l" ∷ []) false
      ≡ none)
    × (validate_command as_is default_security_config (codes "ls") [] true ≡ some sudo_disabled)
    × (validate_command as_is default_security_config (codes "echo") (codes "MKFS" ∷ []) false
        ≡ some (dangerous_command (codes "mkfs")))
    × (validate_command as_is default_security_config (codes "bash") [] false ≡ some not_listed)
unfolding validate_command text_eq join check_dangerous_command find_dangerous contains search_from
    to_lower find_pattern match_string is_command_allowed base split
commands = (refl, refl, refl, refl)

not_found : contains (codes "/tmp/x") (codes "..") ≡ true → ⊥
unfolding contains search_from text_eq
not_found h = cc

-- A link of that name to a system program.
abbrev links : Text → Option Text
links path = if_link (text_eq path (codes "/tmp/x"))
  where
    if_link : Bool → Option Text
    if_link true = some (codes "/usr/bin/ls")
    if_link false = none

validate_command_iff_example :
    (validate_command as_is default_security_config (codes "/bin/ls") (codes "-l" ∷ []) false
      ≡ none)
    ↔ IsAccepted as_is default_security_config (codes "/bin/ls") (codes "-l" ∷ []) false
validate_command_iff_example =
    validate_command_iff as_is default_security_config (codes "/bin/ls") (codes "-l" ∷ []) false

absolute : is_abs (codes "/a//../b") ≡ true
unfolding is_abs has_prefix
absolute = refl

validate_path_iff_example :
    (validate_path links default_security_config (codes "/tmp/x") ≡ none) ↔ (
      (is_abs (codes "/tmp/x") ≡ true)
      × (¬ (Occurs (codes "..") (codes "/tmp/x") × Occurs (codes "..") (clean (codes "/tmp/x"))))
      × HasNone default_security_config.forbidden_paths
          (effective (clean (codes "/tmp/x")) (links (clean (codes "/tmp/x")))))
validate_path_iff_example = validate_path_iff links default_security_config (codes "/tmp/x")

not_forbidden : HasNone default_security_config.forbidden_paths (codes "/usr/bin/ls")
unfolding find_prefix has_prefix
not_forbidden =
    (find_prefix_iff forbidden default_security_config.forbidden_paths (codes "/usr/bin/ls")).0 refl

leads : links (clean (codes "/tmp/x")) ≡ some (codes "/usr/bin/ls")
unfolding clean text_eq has_prefix join split or_dot
leads = refl

absolute_link : is_abs (codes "/tmp/x") ≡ true
unfolding is_abs has_prefix
absolute_link = refl

no_dots : ¬ Occurs (codes "..") (codes "/tmp/x")
no_dots o = not_found ((contains_iff (codes "/tmp/x") (codes "..")).1 o)

not_restricted : HasNone write_restricted_paths (clean (codes "/tmp/x"))
unfolding find_prefix clean text_eq has_prefix join split or_dot
not_restricted =
    (find_prefix_iff write_restricted write_restricted_paths (clean (codes "/tmp/x"))).0 refl

write_through_link_example :
    validate_path_for_write links default_security_config (codes "/tmp/x") ≡ none
write_through_link_example =
    write_through_link links default_security_config (codes "/tmp/x") (codes "/usr/bin/ls") leads
      absolute_link no_dots not_forbidden not_restricted

-- The link is written through, and the program itself is not.
writes :
    (validate_path_for_write links default_security_config (codes "/tmp/x") ≡ none)
    × (validate_path_for_write links default_security_config (codes "/usr/bin/ls")
        ≡ some (write_restricted (codes "/usr/bin")))
    × (validate_path links default_security_config (codes "/etc/../etc/shadow")
        ≡ some (forbidden (codes "/etc/shadow")))
unfolding validate_path_for_write validate_path check_real find_prefix text_eq has_prefix join split
    or_dot clean contains search_from is_abs
writes = (refl, refl, refl)
