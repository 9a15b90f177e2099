-- ===== src/Audit/Tests.antt =====
-- The rotation at a concrete input, and runs of the audit log.
use runixo_agent.Prelude.{
  ◌≡◌, refl, true, false, none, some, [], codes, length, text_eq, ◌==◌, if◌then◌else◌,
}
use runixo_agent.Audit.{
  default_config, should_log, log, auth_event, command_event, file_event, security_event,
}
use runixo_agent.Audit.Files.{current, backup, Files, rotate_files, remove, rename, shift}
use runixo_agent.Audit.Rotation.{rotated, rotate_files_lem}

filters :
    (should_log default_config (auth_event [] true []) ≡ false)
    × (should_log default_config (auth_event [] false []) ≡ true)
    × (should_log default_config (file_event [] [] [] true) ≡ false)
    × (should_log
          (record default_config { min_level = codes "error" })
          (security_event [] [] [] (codes "critical"))
        ≡ true)
    × (length (log (codes "1") 5 default_config (command_event [] (codes "ls") [] 0) []) ≡ 1)
unfolding should_log log auth_event command_event file_event security_event text_eq
filters = (refl, refl, refl, refl, refl)

-- The log and its first and third backup.
abbrev three_files : Files
three_files current = some (codes "now")
three_files (backup n) =
    if n == 1 then some (codes "one") else if n == 3 then some (codes "three") else none

rotate_files_lem_example : rotate_files 3 three_files (backup 2) ≡ rotated 2 three_files (backup 2)
rotate_files_lem_example = rotate_files_lem 2 three_files (backup 2)

rotates :
    (rotate_files 3 three_files current ≡ none)
    × (rotate_files 3 three_files (backup 1) ≡ some (codes "now"))
    × (rotate_files 3 three_files (backup 2) ≡ some (codes "one"))
    × (rotate_files 3 three_files (backup 3) ≡ none)
    × (rotate_files 0 three_files (backup 1) ≡ some (codes "now"))
unfolding rotate_files remove rename shift
rotates = (refl, refl, refl, refl, refl)
