-- ===== src/RateLimit/Methods/Interceptor.antt =====
-- What the interceptors let through, and by which of a client's buckets.
use runixo_agent.Prelude.{
  ℕ, ◌≡◌, ◌↔◌, refl, ap, ◌++◌, true, Option, List, Text, length, length-append, leb, Occurs,
  search_from_iff, if◌then◌else◌, arith, Any, any_iff,
}
use runixo_agent.RateLimit.Limiter.{Limiter, allow_request, allow_command, allow_file_op}
use runixo_agent.RateLimit.Limiter.Kinds.{Kind, request, command, file_op, allow_kind}
use runixo_agent.RateLimit.Limiter.Isolation.{allow_kind_off}
use runixo_agent.RateLimit.Methods.{
  contains, is_command_method, is_file_method, command_methods, file_methods, handled,
  resource_exhausted, unary_interceptor, stream_interceptor,
}

Occurs-length : (s sub : Text) → Occurs sub s → leb (length sub) (length s) ≡ true
Occurs-length s sub o =
    ground (arith, ap length o.2, length-append o.0 (sub ++ o.1), length-append sub o.1)

pub contains_iff : (s sub : Text) → (contains s sub ≡ true) ↔ Occurs sub s
unfolding contains
contains_iff s sub = (
  λ h. (search_from_iff s sub).0 (ground arith),
  λ o. ground (arith, Occurs-length s sub o, (search_from_iff s sub).1 o),
)

-- Some text of the list stands in the method's name.
abbrev pub Mentions : List Text → Text → Type 0
Mentions names method = Any (λ name. Occurs name method) names

-- A method counts as a command exactly when one of the four command names stands in it, and as a
-- file operation exactly when one of the six file names does.
is_command_method_iff :
    (method : Text)
    → ((is_command_method method ≡ true) ↔ Mentions command_methods method)
      × ((is_file_method method ≡ true) ↔ Mentions file_methods method)
unfolding is_command_method is_file_method
is_command_method_iff method = (
  any_iff (contains method) (contains_iff method) command_methods,
  any_iff (contains method) (contains_iff method) file_methods,
)

-- The bucket that a method draws on; the command names come first.
abbrev pub kind_of : Text → Kind
kind_of method =
    if is_command_method method then command else if is_file_method method then file_op else request

chosen_kind :
    (method : Text) (now : ℕ) (peer : Option Text) (l : Limiter)
    → (if is_command_method method
        then allow_command now peer l
        else if is_file_method method
        then allow_file_op now peer l
        else allow_request now peer l)
      ≡ allow_kind (kind_of method) now peer l
unfolding allow_kind
chosen_kind method now peer l = ground arith

as_request :
    (now : ℕ) (peer : Option Text) (l : Limiter)
    → allow_request now peer l ≡ allow_kind request now peer l
unfolding allow_kind
as_request now peer l = refl

module _ {ℓ κ} {World : Type ℓ} {A : Type κ} (handler : World → World × A) (now : ℕ)
    (peer : Option Text) (l : Limiter) (w : World) where
  -- A unary call reaches the handler exactly when the bucket of the method's kind allows it or the
  -- limiter is off; refused, it is answered with an error and the handler is not run.
  pub unary_interceptor_gate :
      (method : Text)
      → let (l', allowed) = allow_kind (kind_of method) now peer l in
        unary_interceptor handler now peer method l w ≡ (
          if allowed
          then (l', (handler w).0, handled (handler w).1)
          else (l', w, resource_exhausted))
  unfolding unary_interceptor
  unary_interceptor_gate method =
      rw (chosen_kind method now peer l)
        (ground (arith, allow_kind_off (kind_of method) now peer l))

  pub stream_interceptor_gate :
      let (l', allowed) = allow_kind request now peer l in
      stream_interceptor handler now peer l w ≡ (
        if allowed then (l', (handler w).0, handled (handler w).1) else (l', w, resource_exhausted))
  unfolding stream_interceptor
  stream_interceptor_gate =
      rw (as_request now peer l) (ground (arith, allow_kind_off request now peer l))
