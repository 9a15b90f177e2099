-- ===== src/Security/Commands/Accepted.antt =====
-- Which commands are accepted.
use runixo_agent.Prelude.{
  guard_iff, then_iff, ltb, ◌≤◌, ◌≡◌, ◌↔◌, ◌⊎◌, inl, inr, refl, Bool, true, false, not, ◌&&◌, ◌||◌,
  none, some, List, [], ◌∷◌, Text, length, any, All, Any, any_iff, text_eq, text_eq_iff, Occurs,
  contains, contains_iff, to_lower, if◌then◌else◌, arith,
}
use runixo_agent.Security.Config.{SecurityConfig}
use runixo_agent.Security.Path.{base}
use runixo_agent.Security.Regex.{match_string}
use runixo_agent.Security.Regex.Search.{Holds, match_string_iff}
use runixo_agent.Security.Commands.{
  DangerousPattern, dangerous_pattern, dangerous_command, too_long, too_many_arguments,
  sudo_disabled, sudo_not_allowed, not_listed, pattern_of, dangerous_patterns, sudo_whitelist,
  full_command, find_pattern, find_dangerous, check_dangerous_command, is_command_allowed,
  validate_command,
}

find_pattern_iff :
    (cmd : Text) (ps : List DangerousPattern)
    → (find_pattern cmd ps ≡ none) ↔ All (λ p. ¬ Holds (pattern_of p) cmd) ps
unfolding find_pattern
find_pattern_iff cmd [] = (λ h. tt, λ h. refl)
find_pattern_iff cmd (p ∷ ps) =
    guard_iff (match_string (pattern_of p) cmd) (dangerous_pattern p)
      (match_string_iff (pattern_of p) cmd) (find_pattern_iff cmd ps)

module _ (unicode_lower : Text → Text) where
  abbrev NotDangerous : Text → List Text → Type 0
  NotDangerous cmd ds =
      All (λ d. ¬ Occurs (to_lower unicode_lower d) cmd) ds
      × All (λ p. ¬ Holds (pattern_of p) cmd) dangerous_patterns

  find_dangerous_iff :
      (cmd : Text) (ds : List Text)
      → (find_dangerous unicode_lower cmd ds ≡ none) ↔ NotDangerous cmd ds
  unfolding find_dangerous
  find_dangerous_iff cmd [] =
      let h = find_pattern_iff cmd dangerous_patterns in (λ e. (tt, h.0 e), λ a. h.1 a.1)
  find_dangerous_iff cmd (d ∷ ds) =
      let h =
        guard_iff (contains cmd (to_lower unicode_lower d)) (dangerous_command d)
          (contains_iff cmd (to_lower unicode_lower d)) (find_dangerous_iff cmd ds) in
      (λ e. let g = h.0 e in ((g.0, g.1.0), g.1.1), λ a. h.1 (a.0.0, (a.0.1, a.1)))

-- What the accepted commands are.
abbrev pub IsAccepted : (Text → Text) → SecurityConfig → Text → List Text → Bool → Type 0
IsAccepted unicode_lower config command args sudo =
    let lower_cmd = to_lower unicode_lower (full_command command args) in
    (length (full_command command args) ≤ config.max_command_length)
    × (length args ≤ config.max_arguments)
    × (sudo ≡ true → (config.allow_sudo ≡ true) × Any (λ name. command ≡ name) sudo_whitelist)
    × All (λ d. ¬ Occurs (to_lower unicode_lower d) lower_cmd) config.dangerous_commands
    × All (λ p. ¬ Holds (pattern_of p) lower_cmd) dangerous_patterns
    × (config.enable_command_whitelist ≡ true
        → Any (λ name. (base command ≡ name) ⊎ (command ≡ name)) config.command_whitelist)

is_command_allowed_iff :
    (config : SecurityConfig) (command : Text)
    → (is_command_allowed config command ≡ true)
      ↔ Any (λ name. (base command ≡ name) ⊎ (command ≡ name)) config.command_whitelist
unfolding is_command_allowed
is_command_allowed_iff config command = any_iff _ either_name config.command_whitelist
  where
    either_name :
        (name : Text)
        → ((text_eq (base command) name || text_eq command name) ≡ true)
          ↔ ((base command ≡ name) ⊎ (command ≡ name))
    either_name name = (
      forth (text_eq (base command) name) refl,
      λ h. elim h [
        | inl e ↦ ground (arith, text_eq_iff (base command) name)
        | inr e ↦ ground (arith, text_eq_iff command name)
      ],
    )
      where
        forth :
            (b : Bool)
            → text_eq (base command) name ≡ b
            → (b || text_eq command name) ≡ true
            → (base command ≡ name) ⊎ (command ≡ name)
        forth true e h = inl ((text_eq_iff (base command) name).0 e)
        forth false e h = inr ((text_eq_iff command name).0 h)

same : (P : Type 0) → P ↔ P
same P = (λ x. x, λ x. x)

-- The tests of the code, each with the answer that goes on.
abbrev Checks : (Text → Text) → SecurityConfig → Text → List Text → Bool → Type 0
Checks unicode_lower config command args sudo =
    (¬ (ltb config.max_command_length (length (full_command command args)) ≡ true))
    × ((¬ (ltb config.max_arguments (length args) ≡ true))
        × ((¬ ((sudo && not config.allow_sudo) ≡ true))
            × ((¬ ((sudo && not (any (text_eq command) sudo_whitelist)) ≡ true))
                × (NotDangerous unicode_lower (to_lower unicode_lower (full_command command args))
                      config.dangerous_commands
                    × ((¬ (
                          (config.enable_command_whitelist
                            && not (is_command_allowed config command))
                          ≡ true))
                        × Unit {0})))))

-- A command is accepted exactly when it, with its arguments, is not longer than the limit; the
-- arguments are not too many; sudo, where it is asked for, is switched on and the command is in
-- the list of those that may use it; none of the dangerous commands occurs in it and none of the
-- four patterns matches in it, both in lower case; and, in the whitelist mode, its base name or
-- the command itself is in the whitelist.
pub validate_command_iff :
    (unicode_lower : Text → Text) (config : SecurityConfig) (command : Text) (args : List Text)
    (sudo : Bool)
    → (validate_command unicode_lower config command args sudo ≡ none)
      ↔ IsAccepted unicode_lower config command args sudo
unfolding validate_command check_dangerous_command
validate_command_iff unicode_lower config command args sudo = (forth, back)
  where
    dangers :
        (check_dangerous_command unicode_lower config (full_command command args) ≡ none)
        ↔ NotDangerous unicode_lower
            (to_lower unicode_lower (full_command command args))
            config.dangerous_commands
    dangers = find_dangerous_iff unicode_lower _ config.dangerous_commands

    listed :
        ((if config.enable_command_whitelist && not (is_command_allowed config command)
            then some not_listed
            else none)
          ≡ none)
        ↔ ((¬ ((config.enable_command_whitelist && not (is_command_allowed config command)) ≡ true))
            × Unit {0})
    listed =
        guard_iff (config.enable_command_whitelist && not (is_command_allowed config command))
          not_listed (same _) (λ e. tt, λ e. refl)

    checks :
        (validate_command unicode_lower config command args sudo ≡ none)
        ↔ Checks unicode_lower config command args sudo
    checks =
        guard_iff (ltb config.max_command_length (length (full_command command args))) too_long
          (same _)
          (guard_iff (ltb config.max_arguments (length args)) too_many_arguments (same _) (
            guard_iff (sudo && not config.allow_sudo) sudo_disabled (same _) (
              guard_iff (sudo && not (any (text_eq command) sudo_whitelist)) sudo_not_allowed
                (same _)
                (then_iff (check_dangerous_command unicode_lower config (full_command command args))
                  dangers listed))))

    forth :
        validate_command unicode_lower config command args sudo ≡ none
        → IsAccepted unicode_lower config command args sudo
    forth h =
        let (n1, (n2, (n3, (n4, ((d, p), (w, u)))))) = checks.0 h in
        (
          ground arith,
          ground arith,
          λ e. (
            ground (arith, n3),
            (any_iff (text_eq command) (text_eq_iff command) sudo_whitelist).0 (ground (arith, n4)),
          ),
          d,
          p,
          λ e. (is_command_allowed_iff config command).0 (ground (arith, w)),
        )

    back :
        IsAccepted unicode_lower config command args sudo
        → validate_command unicode_lower config command args sudo ≡ none
    back (l, n, s, d, p, w) = checks.1 (
      λ e. ground arith,
      (
        λ e. ground arith,
        (
          λ e. ground (arith, s),
          (
            λ e. ground (
              arith,
              λ (f : sudo ≡ true).
                  (any_iff (text_eq command) (text_eq_iff command) sudo_whitelist).1 (s f).1,
            ),
            (
              (d, p),
              (
                λ e. ground (
                  arith,
                  λ (f : config.enable_command_whitelist ≡ true).
                      (is_command_allowed_iff config command).1 (w f),
                ),
                tt,
              ),
            ),
          ),
        ),
      ),
    )
