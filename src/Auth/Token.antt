-- ===== src/Auth/Token.antt =====
-- How internal/auth/auth.go makes and compares tokens.
use runixo_agent.Prelude.{
  ℕ, ◌+◌, ◌-◌, ◌*◌, ◌/◌, ◌%◌, ◌≡◌, refl, Bool, true, Option, none, some, List, [], ◌∷◌, Text, codes,
  length, drop, leb, ltb, All, ◌<◌, text_eq, has_prefix, if◌then◌else◌, arith,
}

abbrev pub token_min_length : ℕ
token_min_length = 32

hex_digit : ℕ → ℕ
hex_digit n = if ltb n 10 then n + b'0' else n - 10 + b'a'

-- Go's `hex.EncodeToString`.
unfoldable pub hex_encode : List ℕ → Text
unfolding hex_digit
hex_encode [] = []
hex_encode (b ∷ bs) = hex_digit (b / 16) ∷ hex_digit (b % 16) ∷ hex_encode bs

-- The random source answers with its bytes or with an error.
unfoldable pub generate_token : Option (List ℕ) → Option Text
unfolding hex_encode
generate_token none = none
generate_token (some bytes) = some (hex_encode bytes)

unfoldable pub validate_token : Text → Bool
validate_token token = leb token_min_length (length token)

-- Go's `strings.TrimPrefix` of "Bearer ", under its test.
unfoldable pub strip_bearer : Text → Text
strip_bearer token = if has_prefix token (codes "Bearer ") then drop 7 token else token

-- `subtle.ConstantTimeCompare(x, y) == 1`: the two are equal.
unfoldable pub constant_time_compare : Text → Text → Bool
constant_time_compare x y = text_eq x y

length-hex_encode : (bytes : List ℕ) → length (hex_encode bytes) ≡ 2 * length bytes
unfolding hex_encode
length-hex_encode [] = refl
length-hex_encode (b ∷ bs) = omega (arith, length-hex_encode bs)

-- The digits are bytes again.
pub hex_encode-bytes :
    (bytes : List ℕ) → All (λ b. b < 256) bytes → All (λ b. b < 256) (hex_encode bytes)
unfolding hex_encode hex_digit
hex_encode-bytes [] h = tt
hex_encode-bytes (b ∷ bs) h = (ground arith, (ground arith, hex_encode-bytes bs h.1))

-- A token made from 32 random bytes has 64 digits, and passes the format check.
generate_token_valid :
    (bytes : List ℕ) {token : Text}
    → length bytes ≡ 32
    → generate_token (some bytes) ≡ some token
    → (length token ≡ 64) × (validate_token token ≡ true)
unfolding generate_token validate_token
generate_token_valid bytes h e = ground (arith, length-hex_encode bytes)
