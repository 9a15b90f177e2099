-- ===== src/Security/Paths.antt =====
-- The checks of paths in internal/security/security.go.
use runixo_agent.Prelude.{
  or_else, ℕ, Bool, true, false, not, ◌&&◌, Option, none, some, List, [], ◌∷◌, Text, codes, text_eq,
  has_prefix, contains, if◌then◌else◌,
}
use runixo_agent.Security.Config.{SecurityConfig}
use runixo_agent.Security.Path.{is_abs, clean}
pub mod Decision

pub data PathError : Type 0 where
  traversal not_absolute : PathError
  link_forbidden forbidden write_restricted : Text → PathError

-- The first of the prefixes that the path has.
unfoldable pub find_prefix : (Text → PathError) → List Text → Text → Option PathError
find_prefix error [] path = none
find_prefix error (prefix ∷ prefixes) path =
    if has_prefix path prefix then some (error prefix) else find_prefix error prefixes path

-- `real` is what `filepath.EvalSymlinks` makes of the cleaned path, if it succeeds.
unfoldable pub check_real : SecurityConfig → Text → Option Text → Option PathError
check_real config clean_path none = find_prefix forbidden config.forbidden_paths clean_path
check_real config clean_path (some real) =
    if text_eq real clean_path
    then find_prefix forbidden config.forbidden_paths clean_path
    else or_else (find_prefix link_forbidden config.forbidden_paths real)
        (find_prefix forbidden config.forbidden_paths real)

-- `none` is success.
unfoldable pub validate_path : (Text → Option Text) → SecurityConfig → Text → Option PathError
validate_path eval_symlinks config path =
    let clean_path = clean path in
    if contains path (codes "..") && contains clean_path (codes "..")
    then some traversal
    else if not (is_abs clean_path)
    then some not_absolute
    else check_real config clean_path (eval_symlinks clean_path)

abbrev pub write_restricted_paths : List Text
write_restricted_paths =
    codes "/etc/passwd"
    ∷ codes "/etc/group"
    ∷ codes "/etc/shadow"
    ∷ codes "/etc/sudoers"
    ∷ codes "/etc/ssh/sshd_config"
    ∷ codes "/etc/crontab"
    ∷ codes "/boot"
    ∷ codes "/usr/bin"
    ∷ codes "/usr/sbin"
    ∷ codes "/bin"
    ∷ codes "/sbin"
    ∷ []

unfoldable pub validate_path_for_write :
    (Text → Option Text) → SecurityConfig → Text → Option PathError
validate_path_for_write eval_symlinks config path =
    or_else (validate_path eval_symlinks config path)
      (find_prefix write_restricted write_restricted_paths (clean path))

-- `none` is an error.
unfoldable pub sanitize_path : Text → Option Text
sanitize_path path =
    let clean_path = clean path in
    if not (is_abs clean_path)
    then none
    else if contains clean_path (codes "..")
    then none
    else some clean_path
