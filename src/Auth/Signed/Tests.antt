-- ===== src/Auth/Signed/Tests.antt =====
-- The theorems of the signed tokens at concrete inputs, and runs of the code.
use runixo_agent.Prelude.{
  ℕ, ◌%◌, ◌≡◌, ◌↔◌, refl, Option, none, some, List, [], ◌∷◌, Text, codes, length, text_eq,
  if◌then◌else◌, arith,
}
use runixo_agent.Auth.Token.{hex_encode}
use runixo_agent.Auth.Base64.{encode_base64, decode_base64}
use runixo_agent.Auth.Signed.{
  TokenClaims, invalid_format, decimal, claims_json, new_claims, cut, check_parts,
  generate_signed_token, validate_signed_token,
}
use runixo_agent.Auth.Signed.RoundTrip.{
  IsSigned, validate_signed_token_iff, validate_signed_token-generate_signed_token,
}

abbrev key : Text
key = codes "key"

-- A toy in the place of HMAC-SHA256.
abbrev toy_mac : Text → Text → List ℕ
toy_mac k message = length k ∷ length message % 256 ∷ []

abbrev random_bytes : List ℕ
random_bytes = 10 ∷ 255 ∷ []

abbrev hour : ℕ
hour = 3_600_000_000_000

abbrev now : ℕ
now = 1_700_000_000

abbrev claims : TokenClaims
claims = record { token = codes "0aff"; issued_at = now; expires_at = 1_700_003_600 }

abbrev written : Text
written = codes "{\"tok\":\"0aff\",\"iat\":1700000000,\"exp\":1700003600}"

abbrev reads_claims : Text → Option TokenClaims
reads_claims text = if text_eq text written then some claims else none

base64_text : encode_base64 (codes "light w") ≡ codes "bGlnaHQgdw"
unfolding encode_base64
base64_text = refl

base64_bytes : decode_base64 (codes "bGln\naHQgdw") ≡ some (codes "light w")
unfolding decode_base64
base64_bytes = refl

base64_bad : decode_base64 (codes "bGlna") ≡ none
unfolding decode_base64
base64_bad = refl

written_claims : claims_json (new_claims now hour (hex_encode random_bytes)) ≡ written
unfolding claims_json decimal hex_encode
written_claims = refl

no_point : validate_signed_token toy_mac reads_claims (codes "abc") key ≡ some invalid_format
unfolding validate_signed_token cut check_parts
no_point = refl

validate_signed_token_iff_example :
    (validate_signed_token toy_mac reads_claims (codes "bGk.AwM") key ≡ none)
    ↔ IsSigned toy_mac reads_claims key (codes "bGk.AwM")
validate_signed_token_iff_example =
    validate_signed_token_iff toy_mac reads_claims (codes "bGk.AwM") key

reads_written :
    reads_claims (claims_json (new_claims now hour (hex_encode random_bytes)))
    ≡ some (new_claims now hour (hex_encode random_bytes))
unfolding claims_json decimal hex_encode text_eq
reads_written = refl

validate_signed_token-generate_signed_token_example :
    (token : Text) × ((generate_signed_token toy_mac key hour now (some random_bytes) ≡ some token)
      × (validate_signed_token toy_mac reads_claims token key ≡ none))
validate_signed_token-generate_signed_token_example =
    validate_signed_token-generate_signed_token toy_mac reads_claims key hour now random_bytes
      (omega arith, (omega arith, tt)) reads_written
