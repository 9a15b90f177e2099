-- ===== src/Security/Paths/Decision.antt =====
-- Which paths are accepted.
use runixo_agent.Prelude.{
  ◌≡◌, ◌↔◌, inl, inr, refl, sym, ap, ◌∙◌, Bool, true, false, not, ◌&&◌, Option, none, some, List,
  [], ◌∷◌, ◌++◌, Text, codes, All, text_eq, text_eq_iff, has_prefix, has_prefix_sound,
  has_prefix_complete, contains, contains_iff, Occurs, Bool-cases, guard_iff, or_else, then_iff,
  if◌then◌else◌, arith,
}
use mathlib.Core.Path.{subst}
use runixo_agent.Security.Config.{SecurityConfig}
use runixo_agent.Security.Path.{is_abs, clean}
use runixo_agent.Security.Path.Rooted.{clean_rooted}
use runixo_agent.Security.Path.Relative.{is_abs-clean}
use runixo_agent.Security.Paths.{
  PathError, traversal, not_absolute, write_restricted, forbidden, link_forbidden, find_prefix,
  check_real, validate_path, validate_path_for_write, write_restricted_paths, sanitize_path,
}

-- No text of the list is a prefix of the path.
abbrev pub HasNone : List Text → Text → Type 0
HasNone prefixes path = All (λ p. ¬ ((rest : Text) × (path ≡ p ++ rest))) prefixes

has_prefix_iff : (s p : Text) → (has_prefix s p ≡ true) ↔ ((rest : Text) × (s ≡ p ++ rest))
has_prefix_iff s p =
    (has_prefix_sound s p, λ h. ap (λ t. has_prefix t p) h.1 ∙ has_prefix_complete p h.0)

pub find_prefix_iff :
    (error : Text → PathError) (prefixes : List Text) (path : Text)
    → (find_prefix error prefixes path ≡ none) ↔ HasNone prefixes path
unfolding find_prefix
find_prefix_iff error [] path = (λ h. tt, λ h. refl)
find_prefix_iff error (p ∷ ps) path =
    guard_iff (has_prefix path p) (error p) (has_prefix_iff path p) (find_prefix_iff error ps path)

-- The path that counts: where the links lead, if that can be found out.
abbrev pub effective : Text → Option Text → Text
effective clean_path none = clean_path
effective clean_path (some real) = real

check_real_iff :
    (config : SecurityConfig) (clean_path : Text) (real : Option Text)
    → (check_real config clean_path real ≡ none)
      ↔ HasNone config.forbidden_paths (effective clean_path real)
unfolding check_real
check_real_iff config clean_path none = find_prefix_iff forbidden config.forbidden_paths clean_path
check_real_iff config clean_path (some real) = by_test (text_eq real clean_path) refl
  where
    by_test :
        (b : Bool)
        → text_eq real clean_path ≡ b
        → ((if b
              then find_prefix forbidden config.forbidden_paths clean_path
              else or_else
                  (find_prefix link_forbidden config.forbidden_paths real)
                  (find_prefix forbidden config.forbidden_paths real))
            ≡ none)
          ↔ HasNone config.forbidden_paths real
    by_test true e =
        subst
          (λ p.
            (find_prefix forbidden config.forbidden_paths clean_path ≡ none)
            ↔ HasNone config.forbidden_paths p)
          (sym ((text_eq_iff real clean_path).0 e))
          (find_prefix_iff forbidden config.forbidden_paths clean_path)
    by_test false e =
        let h =
          then_iff (find_prefix link_forbidden config.forbidden_paths real)
            (find_prefix_iff link_forbidden config.forbidden_paths real)
            (find_prefix_iff forbidden config.forbidden_paths real) in
        (λ x. (h.0 x).0, λ x. h.1 (x, x))

module _ (eval_symlinks : Text → Option Text) (config : SecurityConfig) where
  -- A path may be read exactly when it is absolute, `..` is not left in it after cleaning, and no
  -- forbidden path is a prefix of what it leads to: the target of the symbolic links, or the
  -- cleaned path where that cannot be found out. The allowed paths of the configuration have no
  -- part in it.
  pub validate_path_iff :
      (path : Text)
      → (validate_path eval_symlinks config path ≡ none) ↔ (
          (is_abs path ≡ true)
          × (¬ (Occurs (codes "..") path × Occurs (codes "..") (clean path)))
          × HasNone config.forbidden_paths (effective (clean path) (eval_symlinks (clean path))))
  unfolding validate_path
  validate_path_iff path = (
    λ x. let (n, (a, f)) = checks.0 x in (absolute (is_abs path) refl a, n, f),
    λ (a, n, f). checks.1 (n, (λ e. ground (arith, a, is_abs-clean path), f)),
  )
    where
      dots :
          ((contains path (codes "..") && contains (clean path) (codes "..")) ≡ true)
          ↔ (Occurs (codes "..") path × Occurs (codes "..") (clean path))
      dots = (
        λ h. (
          (contains_iff path (codes "..")).0 (ground arith),
          (contains_iff (clean path) (codes "..")).0 (ground arith),
        ),
        λ h. ground (
          arith,
          (contains_iff path (codes "..")).1 h.0,
          (contains_iff (clean path) (codes "..")).1 h.1,
        ),
      )

      checks : (validate_path eval_symlinks config path ≡ none) ↔ (
          (¬ (Occurs (codes "..") path × Occurs (codes "..") (clean path)))
          × ((¬ (not (is_abs (clean path)) ≡ true))
              × HasNone config.forbidden_paths
                  (effective (clean path) (eval_symlinks (clean path)))))
      checks =
          guard_iff (contains path (codes "..") && contains (clean path) (codes "..")) traversal
            dots
            (guard_iff (not (is_abs (clean path))) not_absolute (λ h. h, λ h. h)
              (check_real_iff config (clean path) (eval_symlinks (clean path))))

      absolute :
          (b : Bool) → is_abs path ≡ b → ¬ (not (is_abs (clean path)) ≡ true) → is_abs path ≡ true
      absolute true e n = e
      absolute false e n = absurd (ground (arith, is_abs-clean path, e, n))

  -- A path may be written exactly when it may be read and no restricted path is a prefix of the
  -- cleaned path.
  validate_path_for_write_iff :
      (path : Text)
      → (validate_path_for_write eval_symlinks config path ≡ none) ↔ (
          (validate_path eval_symlinks config path ≡ none)
          × HasNone write_restricted_paths (clean path))
  unfolding validate_path_for_write
  validate_path_for_write_iff path =
      then_iff (validate_path eval_symlinks config path) (λ h. h, λ h. h)
        (find_prefix_iff write_restricted write_restricted_paths (clean path))

  -- A link with an absolute name, no `..` and no restricted prefix may be written, wherever it
  -- leads, unless a forbidden path is a prefix of its target: the restricted paths do not count
  -- for the target.
  pub write_through_link :
      (path target : Text)
      → eval_symlinks (clean path) ≡ some target
      → is_abs path ≡ true
      → ¬ Occurs (codes "..") path
      → HasNone config.forbidden_paths target
      → HasNone write_restricted_paths (clean path)
      → validate_path_for_write eval_symlinks config path ≡ none
  write_through_link path target e a n f r = (validate_path_for_write_iff path).1 (
    (validate_path_iff path).1 (
      a,
      λ o. n o.0,
      subst (λ real. HasNone config.forbidden_paths (effective (clean path) real)) (sym e) f,
    ),
    r,
  )

-- A path is sanitized exactly when it is absolute and `..` does not occur in it after cleaning;
-- the result is the cleaned path. Sanitizing the cleaned path has the same result.
sanitize_path_lem :
    (path result : Text)
    → ((sanitize_path path ≡ some result)
        ↔ ((is_abs path ≡ true) × (¬ Occurs (codes "..") (clean path)) × (result ≡ clean path)))
      × (sanitize_path (clean path) ≡ sanitize_path path)
unfolding sanitize_path
sanitize_path_lem path result = ((forth, back), again (is_abs path) refl)
  where
    by_tests :
        (a d : Bool)
        → is_abs (clean path) ≡ a
        → contains (clean path) (codes "..") ≡ d
        → (if not a then none else if d then none else some (clean path)) ≡ some result
        → (is_abs path ≡ true) × (¬ Occurs (codes "..") (clean path)) × (result ≡ clean path)
    by_tests false d f g h = absurd cc
    by_tests true true f g h = absurd cc
    by_tests true false f g h = (
      sym (is_abs-clean path) ∙ f,
      (λ o. absurd (ground (arith, g, (contains_iff (clean path) (codes "..")).1 o))),
      cc,
    )

    forth :
        sanitize_path path ≡ some result
        → (is_abs path ≡ true) × (¬ Occurs (codes "..") (clean path)) × (result ≡ clean path)
    forth h = by_tests (is_abs (clean path)) (contains (clean path) (codes "..")) refl refl h

    accepts :
        (c : Text)
        → is_abs c ≡ true
        → ¬ Occurs (codes "..") c
        → (if not (is_abs c) then none else if contains c (codes "..") then none else some c)
          ≡ some c
    accepts c a n = elim (Bool-cases (contains c (codes ".."))) [
      | inl d ↦ absurd (n ((contains_iff c (codes "..")).0 d))
      | inr d ↦ ground arith
    ]

    back :
        (is_abs path ≡ true) × (¬ Occurs (codes "..") (clean path)) × (result ≡ clean path)
        → sanitize_path path ≡ some result
    back (a, n, e) = accepts (clean path) (is_abs-clean path ∙ a) n ∙ ap some (sym e)

    tests : Text → Option Text
    tests c = if not (is_abs c) then none else if contains c (codes "..") then none else some c

    again : (a : Bool) → is_abs path ≡ a → tests (clean (clean path)) ≡ tests (clean path)
    again true e = ap tests (clean_rooted path e).3
    again false e =
        refused (clean (clean path)) (is_abs-clean (clean path) ∙ (is_abs-clean path ∙ e))
        ∙ sym (refused (clean path) (is_abs-clean path ∙ e))
      where
        refused : (c : Text) → is_abs c ≡ false → tests c ≡ none
        refused c h = ground arith
