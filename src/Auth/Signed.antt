-- ===== src/Auth/Signed.antt =====
-- The signed tokens of internal/auth/auth.go: GenerateSignedToken and ValidateSignedToken. Times
-- are seconds since 1970 as ℕ, and a lifetime is nanoseconds as ℕ. HMAC-SHA256 is the parameter
-- `hmac`, of a key and a message, and `json.Unmarshal` into the claims is the parameter
-- `unmarshal`.
use runixo_agent.Prelude.{
  ℕ, zero, suc, ◌+◌, ◌/◌, ◌%◌, Bool, Option, none, some, List, [], ◌∷◌, ◌++◌, Text, codes, ltb,
  ◌==◌, if◌then◌else◌,
}
use runixo_agent.Auth.Token.{generate_token, constant_time_compare}
use runixo_agent.Auth.Base64.{encode_base64, decode_base64}
pub mod Json
pub mod RoundTrip
mod Tests

pub record TokenClaims : Type 0 where
  pub token : Text
  pub issued_at : ℕ
  pub expires_at : ℕ

pub data TokenError : Type 0 where
  invalid_format : TokenError
  invalid_signature : TokenError
  invalid_payload : TokenError
  invalid_claims : TokenError

-- The digits of a number, through a number of divisions by ten.
unfoldable pub decimal_digits : ℕ → ℕ → Text
decimal_digits zero n = (n % 10 + b'0') ∷ []
decimal_digits (suc fuel) n =
    let rest = decimal_digits fuel (n / 10) in
    if ltb n 10 then (n + b'0') ∷ [] else rest ++ ((n % 10 + b'0') ∷ [])

-- Go's `json.Marshal` of an `int64` that is not negative: it has at most nineteen digits.
unfoldable pub decimal : ℕ → Text
unfolding decimal_digits
decimal n = decimal_digits 19 n

-- Go's `json.Marshal` of the claims; the token is hexadecimal digits, which need no escapes.
unfoldable pub claims_json : TokenClaims → Text
unfolding decimal
claims_json claims =
    codes "{\"tok\":\""
    ++ (claims.token
        ++ (codes "\",\"iat\":"
            ++ (decimal claims.issued_at
                ++ (codes ",\"exp\":" ++ (decimal claims.expires_at ++ codes "}")))))

abbrev pub new_claims : ℕ → ℕ → Text → TokenClaims
new_claims now ttl raw = record {
  token = raw;
  issued_at = now;
  expires_at = now + ttl / 1_000_000_000;
}

-- Go's `strings.SplitN(s, sep, 2)` by one character, where it gives two parts.
unfoldable pub cut : ℕ → Text → Option (Text × Text)
cut sep [] = none
cut sep (c ∷ s) =
    let parts = cut sep s in
    if c == sep then some ([], s) else elim parts [ none ↦ none | some p ↦ some (c ∷ p.0, p.1) ]

module _ (hmac : Text → Text → List ℕ) where
  unfoldable pub signature : Text → Text → Text
  unfolding encode_base64
  signature key payload = encode_base64 (hmac key payload)

  -- From the answer of the random source.
  unfoldable pub generate_signed_token : Text → ℕ → ℕ → Option (List ℕ) → Option Text
  unfolding generate_token signature claims_json encode_base64
  generate_signed_token key ttl now random = elim (generate_token random) [
    | none ↦ none
    | some raw ↦
        let payload = encode_base64 (claims_json (new_claims now ttl raw)) in
        some (payload ++ (b'.' ∷ signature key payload))
  ]

  module _ (unmarshal : Text → Option TokenClaims) where
    check_claims : Option (List ℕ) → Option TokenError
    check_claims none = some invalid_payload
    check_claims (some bytes) = elim (unmarshal bytes) [
      | none ↦ some invalid_claims
      | some claims ↦ none
    ]

    unfoldable pub check_parts : Text → Option (Text × Text) → Option TokenError
    unfolding check_claims signature decode_base64 constant_time_compare
    check_parts key none = some invalid_format
    check_parts key (some (payload, sig)) =
        if constant_time_compare sig (signature key payload)
        then check_claims (decode_base64 payload)
        else some invalid_signature

    unfoldable pub validate_signed_token : Text → Text → Option TokenError
    unfolding check_parts cut
    validate_signed_token token key = check_parts key (cut b'.' token)
