-- ===== src/RateLimit/Methods.antt =====
-- The interceptors of internal/ratelimit/ratelimit.go, and how they tell the methods apart.
use runixo_agent.Prelude.{
  ℕ, ◌-◌, ◌≡◌, ◌↔◌, refl, Bool, true, false, not, ◌&&◌, Option, List, [], ◌∷◌, Text, codes, text_eq,
  length, leb, any, search_from, substring_rounds, Occurs, search_from_iff, if◌then◌else◌, arith,
}
use runixo_agent.RateLimit.Limiter.{Limiter, allow_request, allow_command, allow_file_op}
pub mod Interceptor

unfoldable pub find_substring : Text → Text → Bool
unfolding search_from text_eq
find_substring s substr = search_from (substring_rounds s substr) s substr

unfoldable pub contains : Text → Text → Bool
unfolding find_substring
contains s substr = leb (length substr) (length s) && find_substring s substr

abbrev pub command_methods : List Text
command_methods =
    codes "ExecuteCommand" ∷ codes "ExecuteShell" ∷ codes "ServiceAction" ∷ codes "KillProcess" ∷ []

abbrev pub file_methods : List Text
file_methods =
    codes "ReadFile"
    ∷ codes "WriteFile"
    ∷ codes "DeleteFile"
    ∷ codes "ListDirectory"
    ∷ codes "UploadFile"
    ∷ codes "DownloadFile"
    ∷ []

unfoldable pub is_command_method : Text → Bool
unfolding contains
is_command_method method = any (contains method) command_methods

unfoldable pub is_file_method : Text → Bool
unfolding contains
is_file_method method = any (contains method) file_methods

-- `handled` carries what the handler returned.
pub data Reply {ℓ} (A : Type ℓ) : Type ℓ where
  handled : A → Reply A
  resource_exhausted : Reply A

module _ {ℓ κ} {World : Type ℓ} {A : Type κ} where
  -- The handler acts on the world that it is given, and is not called when the request is refused.
  unfoldable pub unary_interceptor :
      (World → World × A) → ℕ → Option Text → Text → Limiter → World → Limiter × World × Reply A
  unary_interceptor handler now peer method l w =
      let (done, a) = handler w in
      let (l', allowed) =
        (if is_command_method method
          then allow_command now peer l
          else if is_file_method method
          then allow_file_op now peer l
          else allow_request now peer l) in
      if not l.config.enabled
      then (l, done, handled a)
      else if not allowed
      then (l', w, resource_exhausted)
      else (l', done, handled a)

  unfoldable pub stream_interceptor :
      (World → World × A) → ℕ → Option Text → Limiter → World → Limiter × World × Reply A
  stream_interceptor handler now peer l w =
      let (done, a) = handler w in
      let (l', allowed) = allow_request now peer l in
      if not l.config.enabled
      then (l, done, handled a)
      else if not allowed
      then (l', w, resource_exhausted)
      else (l', done, handled a)
