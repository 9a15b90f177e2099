-- ===== src/Auth/Signed/RoundTrip.antt =====
-- Which tokens ValidateSignedToken of internal/auth/auth.go accepts, and that it accepts those that
-- GenerateSignedToken makes.
use mathlib.Core.Path.{subst}
use runixo_agent.Prelude.{
  ℕ, ◌≡◌, ◌↔◌, refl, ap, ◌∙◌, inl, inr, Bool, true, false, Option, none, some, List, [], ◌∷◌, ◌++◌,
  Text, ◌==◌, text_eq, text_eq_iff, text_eq_refl, ==_iff, if◌then◌else◌, Bool-cases, Option-cases,
  some-injective,
}
use runixo_agent.Auth.Token.{generate_token, hex_encode, hex_encode-bytes, constant_time_compare}
use runixo_agent.Auth.Base64.{
  Lacks, IsBytes, encode_base64, decode_base64, decode_base64-encode_base64, encode_base64-Lacks,
}
use runixo_agent.Auth.Signed.{
  TokenClaims, claims_json, new_claims, cut, signature, generate_signed_token, check_claims,
  check_parts, validate_signed_token,
}
use runixo_agent.Auth.Signed.Json.{claims_json-IsBytes}

cut_complete : (sep : ℕ) (a b : Text) → Lacks sep a → cut sep (a ++ (sep ∷ b)) ≡ some (a, b)
unfolding cut
cut_complete sep [] b h = rw ((==_iff sep sep).1 refl) refl
cut_complete sep (c ∷ a) b h = elim (Bool-cases (c == sep)) [
  | inl e ↦ absurd (h.0 ((==_iff c sep).0 e))
  | inr e ↦ rw e (rw (cut_complete sep a b h.1) refl)
]

-- The text before the first separator, and the text after it.
IsCut : ℕ → Text → Text × Text → Type 0
IsCut sep s p = Lacks sep p.0 × (s ≡ p.0 ++ (sep ∷ p.1))

IsCut-step :
    (sep c : ℕ) (s : Text) (test : Bool)
    → (c == sep) ≡ test
    → (parts : Option (Text × Text)) → ((q : Text × Text) → parts ≡ some q → IsCut sep s q)
    → (p : Text × Text)
    → (if test then some ([], s) else elim parts [ none ↦ none | some q ↦ some (c ∷ q.0, q.1) ])
      ≡ some p
    → IsCut sep (c ∷ s) p
unfolding IsCut
IsCut-step sep c s true e parts ih p h =
    subst (IsCut sep (c ∷ s)) (some-injective h) (tt, ap (λ x. x ∷ s) ((==_iff c sep).0 e))
IsCut-step sep c s false e none ih p h = absurd cc
IsCut-step sep c s false e (some q) ih p h =
    subst (IsCut sep (c ∷ s)) (some-injective h)
      ((λ x. differs ((==_iff c sep).1 x), (ih q refl).0), ap (λ x. c ∷ x) (ih q refl).1)
  where
    differs : (c == sep) ≡ true → ⊥
    differs x = cc

cut_sound : (sep : ℕ) (s : Text) (p : Text × Text) → cut sep s ≡ some p → IsCut sep s p
unfolding cut
cut_sound sep [] p e = absurd cc
cut_sound sep (c ∷ s) p e =
    IsCut-step sep c s (c == sep) refl (cut sep s) (λ q h. cut_sound sep s q h) p e

module _ (hmac : Text → Text → List ℕ) (unmarshal : Text → Option TokenClaims) where
  -- The token is a payload and its signature, and the payload decodes to claims.
  abbrev pub IsSigned : Text → Text → Type 0
  IsSigned key token =
      (payload : Text) × ((bytes : List ℕ) × ((claims : TokenClaims) × (Lacks b'.' payload
            × ((token ≡ payload ++ (b'.' ∷ signature hmac key payload))
                × ((decode_base64 payload ≡ some bytes) × (unmarshal bytes ≡ some claims))))))

  check_claims_sound :
      (decoded : Option (List ℕ))
      → check_claims hmac unmarshal decoded ≡ none
      → (bytes : List ℕ) × ((claims : TokenClaims) × ((decoded ≡ some bytes)
            × (unmarshal bytes ≡ some claims)))
  unfolding check_claims
  check_claims_sound none h = absurd cc
  check_claims_sound (some bytes) h = elim (Option-cases (unmarshal bytes)) [
    | inl e ↦ absurd cc
    | inr (claims, e) ↦ (bytes, (claims, (refl, e)))
  ]

  check_parts_sound :
      (token key : Text) (parts : Option (Text × Text))
      → ((p : Text × Text) → parts ≡ some p → IsCut b'.' token p)
      → check_parts hmac unmarshal key parts ≡ none
      → IsSigned key token
  unfolding check_parts IsCut constant_time_compare
  check_parts_sound token key none cuts h = absurd cc
  check_parts_sound token key (some (payload, sig)) cuts h =
      elim (Bool-cases (text_eq sig (signature hmac key payload))) [
        | inl e ↦
            let (bytes, (claims, (decodes, reads))) =
              check_claims_sound (decode_base64 payload) cc in
            (
              payload,
              (
                bytes,
                (
                  claims,
                  (
                    (cuts (payload, sig) refl).0,
                    (
                      (cuts (payload, sig) refl).1
                          ∙ ap (λ x. payload ++ (b'.' ∷ x))
                              ((text_eq_iff sig (signature hmac key payload)).0 e),
                      (decodes, reads),
                    ),
                  ),
                ),
              ),
            )
        | inr e ↦ absurd cc
      ]

  check_parts_complete :
      (key payload : Text) (bytes : List ℕ) (claims : TokenClaims)
      → decode_base64 payload ≡ some bytes
      → unmarshal bytes ≡ some claims
      → check_parts hmac unmarshal key (some (payload, signature hmac key payload)) ≡ none
  unfolding check_parts check_claims constant_time_compare
  check_parts_complete key payload bytes claims decodes reads =
      rw (text_eq_refl (signature hmac key payload)) (rw decodes (rw (reads, check_claims) refl))

  -- A token is accepted exactly when it is a payload, a point and the signature of that payload
  -- under the key, and the payload decodes to claims; the time is not asked for.
  pub validate_signed_token_iff :
      (token key : Text)
      → (validate_signed_token hmac unmarshal token key ≡ none) ↔ IsSigned key token
  unfolding validate_signed_token
  validate_signed_token_iff token key = (
    check_parts_sound token key (cut b'.' token) (cut_sound b'.' token),
    λ (payload, (bytes, (claims, (lacks, (is_joined, (decodes, reads)))))). rw is_joined (
        rw (cut_complete b'.' payload (signature hmac key payload) lacks)
          (check_parts_complete key payload bytes claims decodes reads)),
  )

  encoded-IsSigned :
      (key json : Text) (claims : TokenClaims)
      → IsBytes json
      → unmarshal json ≡ some claims
      → IsSigned key (encode_base64 json ++ (b'.' ∷ signature hmac key (encode_base64 json)))
  encoded-IsSigned key json claims h reads = (
    encode_base64 json,
    (
      json,
      (claims, (encode_base64-Lacks json, (refl, (decode_base64-encode_base64 json h, reads)))),
    ),
  )

  -- Where `json.Unmarshal` reads back the claims that `json.Marshal` wrote, a token that is made
  -- from random bytes, at any time and with any lifetime, is accepted under its key for ever.
  pub validate_signed_token-generate_signed_token :
      (key : Text) (ttl now : ℕ) (bytes : List ℕ)
      → IsBytes bytes
      → unmarshal (claims_json (new_claims now ttl (hex_encode bytes)))
        ≡ some (new_claims now ttl (hex_encode bytes))
      → (token : Text) × ((generate_signed_token hmac key ttl now (some bytes) ≡ some token)
          × (validate_signed_token hmac unmarshal token key ≡ none))
  unfolding generate_signed_token generate_token
  validate_signed_token-generate_signed_token key ttl now bytes h reads =
      let claims = new_claims now ttl (hex_encode bytes) in
      (
        _,
        (
          refl,
          (validate_signed_token_iff _ key).1 (
              encoded-IsSigned key (claims_json claims) claims
                (claims_json-IsBytes claims (hex_encode-bytes bytes h)) reads),
        ),
      )
