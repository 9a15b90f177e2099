-- ===== src/Auth/Lockout/Decision.antt =====
-- Who gets past the interceptor.
use runixo_agent.Prelude.{
  ℕ, ◌≡◌, ◌↔◌, ◌⊎◌, inl, inr, refl, sym, ◌∙◌, ap, true, false, Option, none, some, List, [], ◌∷◌,
  Text, text_eq, text_eq_iff, ne_of_text_eq, Bool-cases, arith, Option-cases,
}
use runixo_agent.Auth.Token.{strip_bearer, constant_time_compare}
use runixo_agent.Auth.Lockout.{
  AuthInterceptor, Context, Denial, locked_out, get_client_ip, is_locked, check_token, check_values,
  authorize, handled, denied, unary, authenticate_method,
}

-- The call's first `authorization` value is the token, with or without "Bearer ".
abbrev pub Presents : Text → Option (List Text) → Type 0
Presents token incoming =
    (value : Text) × (rest : List Text) × (incoming ≡ some (value ∷ rest))
    × (strip_bearer value ≡ token)

check_token_iff :
    (now : ℕ) (ip value : Text) (a : AuthInterceptor)
    → ((check_token now ip value a).1 ≡ none) ↔ (strip_bearer value ≡ a.token)
unfolding check_token constant_time_compare
check_token_iff now ip value a = ground (arith, text_eq_iff (strip_bearer value) a.token)

first_value : {v w : Text} {r s : List Text} → some (v ∷ r) ≡ some (w ∷ s) → v ≡ w
first_value h = cc

check_values_iff :
    (now : ℕ) (ip : Text) (incoming : Option (List Text)) (a : AuthInterceptor)
    → ((check_values now ip incoming a).1 ≡ none) ↔ Presents a.token incoming
unfolding check_values
check_values_iff now ip none a = (λ h. absurd (cc), λ p. absurd (cc (p.2)))
check_values_iff now ip (some []) a = (λ h. absurd (cc), λ p. absurd (cc (p.2)))
check_values_iff now ip (some (value ∷ rest)) a = (
  λ h. (value, rest, refl, (check_token_iff now ip value a).0 h),
  λ p. (check_token_iff now ip value a).1 (ap strip_bearer (first_value p.2) ∙ p.3),
)

pub authorize_iff :
    (now : ℕ) (ctx : Context) (a : AuthInterceptor)
    → ((authorize now ctx a).1 ≡ none)
      ↔ ((is_locked now (get_client_ip ctx) a ≡ false) × Presents a.token ctx.incoming)
unfolding authorize
authorize_iff now ctx a = elim (Bool-cases (is_locked now (get_client_ip ctx) a)) [
  | inl locked ↦ rw locked (λ h. absurd (cc), λ p. absurd (cc (p.0)))
  | inr free ↦ rw free (
    λ h. (refl, (check_values_iff now (get_client_ip ctx) ctx.incoming a).0 h),
    λ p. (check_values_iff now (get_client_ip ctx) ctx.incoming a).1 p.1,
  )
]

pub authorize_locked :
    (now : ℕ) (ctx : Context) (a : AuthInterceptor)
    → is_locked now (get_client_ip ctx) a ≡ true
    → authorize now ctx a ≡ (a, some locked_out)
unfolding authorize
authorize_locked now ctx a locked = rw locked

-- What lets a call through: the method that authenticates, or the token from a free client.
abbrev pub Admitted : ℕ → Context → Text → AuthInterceptor → Type 0
Admitted now ctx method a =
    (method ≡ authenticate_method)
    ⊎ ((is_locked now (get_client_ip ctx) a ≡ false) × Presents a.token ctx.incoming)

not-Admitted :
    (now : ℕ) (ctx : Context) (method : Text) (a : AuthInterceptor) (d : Denial)
    → text_eq method authenticate_method ≡ false
    → (authorize now ctx a).1 ≡ some d
    → ¬ Admitted now ctx method a
not-Admitted now ctx method a d other refused (inl same) = ne_of_text_eq other same
not-Admitted now ctx method a d other refused (inr p) =
    absurd_some (sym refused ∙ (authorize_iff now ctx a).1 p)
  where
    absurd_some : some d ≡ none → ⊥
    absurd_some e = absurd (cc)

module _ {ℓ κ} {World : Type ℓ} {A : Type κ} (handler : World → World × A) (now : ℕ) (ctx : Context)
    (method : Text) (a : AuthInterceptor) (w : World) where
  -- A unary call that is admitted is run by the handler. Any other is denied and its handler is not
  -- run: the world stays as it was.
  pub unary_gate :
      let (a', w', reply) = unary handler now ctx method a w in
      (Admitted now ctx method a × (w' ≡ (handler w).0) × (reply ≡ handled (handler w).1))
      ⊎ ((¬ Admitted now ctx method a) × (w' ≡ w) × ((d : Denial) × (reply ≡ denied d)))
  unfolding unary
  unary_gate = elim (Bool-cases (text_eq method authenticate_method)) [
    | inl same ↦ rw same (inl (inl ((text_eq_iff _ _).0 same), refl, refl))
    | inr other ↦ rw other (elim (Option-cases (authorize now ctx a).1) [
      | inl passed ↦ inl (inr ((authorize_iff now ctx a).0 passed), ground arith, ground arith)
      | inr (d, refused) ↦
          inr (not-Admitted now ctx method a d other refused, ground arith, (d, ground arith))
    ])
  ]
