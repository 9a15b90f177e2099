-- ===== src/Api/Gate.antt =====
-- What the authentication of internal/api/api.go lets through, and what its lockout counts.
use runixo_agent.Prelude.{
  ℕ, ◌≡◌, ◌≢◌, ◌⊎◌, inl, inr, refl, sym, ap, ◌∙◌, true, false, none, List, [], ◌∷◌, map, Text,
  lookup, lookup-insert_ne, text_eq, text_eq_iff, ne_of_text_eq, All, Bool-cases,
}
use runixo_agent.Auth.Token.{strip_bearer, constant_time_compare}
use runixo_agent.Api.{
  Server, Request, Writer, is_locked, record_api_failed_attempt, json_error, set_header,
  check_token, auth_middleware, new_writer,
}

-- The request has a header that holds the token, after `Bearer ` or alone.
abbrev pub Presents : Request → Text → Type 0
Presents r token = (r.authorization ≢ []) × (strip_bearer r.authorization ≡ token)

-- The answer `w'` is an error with a status, and nothing but that was written to `w`.
abbrev pub IsRefusal : ℕ → Writer → Writer → Type 0
IsRefusal code w w' = (message : Text) × (w' ≡ json_error message code w)

module _ (next : Writer → Writer) (now : ℕ) (r : Request) (s : Server) (w : Writer) where
  abbrev pub Outcome : Server × Writer → Type 0
  Outcome result =
      (Presents r s.token × (result.1 ≡ next w))
      ⊎ ((¬ Presents r s.token)
          × ((result.0 ≡ record_api_failed_attempt now r.remote_addr s) × IsRefusal 401 w result.1))

  check_token-Outcome : Outcome (check_token next now r s w)
  unfolding check_token constant_time_compare json_error
  check_token-Outcome = elim (Bool-cases (text_eq r.authorization [])) [
    | inl e ↦ rw e (inr (λ p. p.0 ((text_eq_iff r.authorization []).0 e), (refl, (_, refl))))
    | inr e ↦ elim (Bool-cases (text_eq (strip_bearer r.authorization) s.token)) [
      | inl same ↦ rw e (
          rw same (
            inl (
              (ne_of_text_eq e, (text_eq_iff (strip_bearer r.authorization) s.token).0 same),
              refl,
            )))
      | inr other ↦ rw e (rw other (inr (λ p. ne_of_text_eq other p.1, (refl, (_, refl)))))
    ]
  ]

  -- A request that is not locked out and presents the token is answered by the handler. Any other
  -- is refused by an error that is written without running the handler, by status 429 where its
  -- address is locked and else by 401, which is counted for its address.
  pub auth_middleware_gate :
      ((is_locked now r.remote_addr s ≡ false) × Outcome (auth_middleware next now r s w))
      ⊎ ((is_locked now r.remote_addr s ≡ true)
          × (((auth_middleware next now r s w).0 ≡ s)
              × IsRefusal 429
                  (set_header "Retry-After" "900" w)
                  (auth_middleware next now r s w).1))
  unfolding auth_middleware json_error
  auth_middleware_gate = elim (Bool-cases (is_locked now r.remote_addr s)) [
    | inl e ↦ inr (e, rw e (refl, (_, refl)))
    | inr e ↦ inl (e, rw e check_token-Outcome)
  ]

-- The requests in their order, with the times they come at, and the statuses they are answered by.
abbrev pub statuses : (Writer → Writer) → Server → List (ℕ × Request) → List ℕ
statuses next s [] = []
statuses next s ((now, r) ∷ requests) =
    let result = auth_middleware next now r s new_writer in
    result.1.status ∷ statuses next result.0 requests

-- Each request comes from an address of its own, and does not show the token.
abbrev pub IsSpread : Text → List (ℕ × Request) → Type 0
IsSpread token [] = Unit
IsSpread token ((now, r) ∷ requests) =
    (¬ Presents r token)
    × (All (λ g. r.remote_addr ≢ g.1.remote_addr) requests × IsSpread token requests)

abbrev pub IsNew : Server → List (ℕ × Request) → Type 0
IsNew s requests = All (λ g. lookup g.1.remote_addr s.failed_attempts ≡ none) requests

abbrev pub all_unauthorized : List (ℕ × Request) → List ℕ
all_unauthorized requests = map (λ g. 401) requests

unlocked :
    (now : ℕ) (ip : Text) (s : Server)
    → lookup ip s.failed_attempts ≡ none
    → is_locked now ip s ≡ false
unfolding is_locked
unlocked now ip s h = rw (h, is_locked) refl

unauthorized : (w w' : Writer) → IsRefusal 401 w w' → w'.status ≡ 401
unfolding json_error
unauthorized w w' h = ap (λ v. v.status) h.1

refused_once :
    (next : Writer → Writer) (now : ℕ) (r : Request) (s : Server)
    → lookup r.remote_addr s.failed_attempts ≡ none
    → ¬ Presents r s.token
    → ((auth_middleware next now r s new_writer).0 ≡ record_api_failed_attempt now r.remote_addr s)
      × ((auth_middleware next now r s new_writer).1.status ≡ 401)
refused_once next now r s unknown wrong = elim (auth_middleware_gate next now r s new_writer) [
  | inl (e, inl p) ↦ absurd (wrong p.0)
  | inl (e, inr p) ↦ (p.1.0, unauthorized new_writer _ p.1.1)
  | inr (e, p) ↦ absurd (differs (sym (unlocked now r.remote_addr s unknown) ∙ e))
]
  where
    differs : false ≡ true → ⊥
    differs x = cc

-- The address of a request is host and port: wrong tokens that come from ports not seen before are
-- all answered by 401, and no number of them locks the host out.
pub new_ports_never_lock :
    (next : Writer → Writer) (s : Server) (requests : List (ℕ × Request))
    → IsSpread s.token requests
    → IsNew s requests
    → statuses next s requests ≡ all_unauthorized requests
unfolding record_api_failed_attempt
new_ports_never_lock next s [] spread new = refl
new_ports_never_lock next s ((now, r) ∷ requests) spread new =
    let (is_counted, is_refused) = refused_once next now r s new.0 spread.0 in
    rw is_refused (
      rw is_counted (
        ap (λ x. 401 ∷ x)
          (new_ports_never_lock next (record_api_failed_attempt now r.remote_addr s) requests
            spread.1.1 (still_new requests spread.1.0 new.1))))
  where
    still_new :
        (rest : List (ℕ × Request))
        → All (λ g. r.remote_addr ≢ g.1.remote_addr) rest
        → IsNew s rest
        → IsNew (record_api_failed_attempt now r.remote_addr s) rest
    still_new [] ne h = tt
    still_new ((t, q) ∷ rest) ne h = (
      lookup-insert_ne r.remote_addr q.remote_addr _ s.failed_attempts ne.0 ∙ h.0,
      still_new rest ne.1 h.1,
    )
