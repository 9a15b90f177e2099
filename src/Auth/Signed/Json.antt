-- ===== src/Auth/Signed/Json.antt =====
-- The claims that GenerateSignedToken of internal/auth/auth.go writes as JSON.
use runixo_agent.Prelude.{
  ℕ, zero, suc, ◌+◌, ◌-◌, ◌*◌, ◌/◌, ◌%◌, ◌<◌, ◌≡◌, refl, [], ◌∷◌, ◌++◌, Text, codes, ltb, ◌∙◌,
  All-append, Bool-cases, inl, inr, arith,
}
use runixo_agent.Auth.Base64.{IsBytes}
use runixo_agent.Auth.Signed.{TokenClaims, decimal_digits, decimal, claims_json}

append-IsBytes : (a b : Text) → IsBytes a → IsBytes b → IsBytes (a ++ b)
append-IsBytes a b ha hb = (All-append (λ c. c < 256) a b).1 (ha, hb)

decimal_digits-IsBytes : (fuel n : ℕ) → IsBytes (decimal_digits fuel n)
unfolding decimal_digits
decimal_digits-IsBytes zero n = (omega arith, tt)
decimal_digits-IsBytes (suc fuel) n = elim (Bool-cases (ltb n 10)) [
  | inl e ↦ rw e (ground arith, tt)
  | inr e ↦ rw e (
      append-IsBytes (decimal_digits fuel (n / 10)) ((n % 10 + b'0') ∷ [])
        (decimal_digits-IsBytes fuel (n / 10)) (omega arith, tt))
]

-- The written claims are bytes, where the token is.
pub claims_json-IsBytes :
    (claims : TokenClaims) → IsBytes claims.token → IsBytes (claims_json claims)
unfolding claims_json decimal
claims_json-IsBytes claims h = append-IsBytes (codes "{\"tok\":\"") _ (ground arith) (
    append-IsBytes claims.token _ h (
      append-IsBytes (codes "\",\"iat\":") _ (ground arith) (
        append-IsBytes (decimal claims.issued_at) _ (decimal_digits-IsBytes 19 claims.issued_at) (
          append-IsBytes (codes ",\"exp\":") _ (ground arith) (
            append-IsBytes (decimal claims.expires_at) (codes "}")
              (decimal_digits-IsBytes 19 claims.expires_at) (ground arith))))))

-- The number that decimal digits stand for.
abbrev read_number : ℕ → Text → ℕ
read_number n [] = n
read_number n (c ∷ s) = read_number (n * 10 + (c - b'0')) s

abbrev ten_to : ℕ → ℕ
ten_to zero = 1
ten_to (suc k) = 10 * ten_to k

read_number-append :
    (n : ℕ) (a : Text) (c : ℕ) → read_number n (a ++ (c ∷ [])) ≡ read_number n a * 10 + (c - b'0')
read_number-append n [] c = refl
read_number-append n (d ∷ a) c = read_number-append (n * 10 + (d - b'0')) a c

read_number-decimal_digits :
    (fuel n : ℕ) → n < ten_to fuel * 10 → read_number 0 (decimal_digits fuel n) ≡ n
unfolding decimal_digits
read_number-decimal_digits zero n h = omega arith
read_number-decimal_digits (suc fuel) n h = elim (Bool-cases (ltb n 10)) [
  | inl e ↦ rw e (ground arith)
  | inr e ↦ rw e (
      read_number-append 0 (decimal_digits fuel (n / 10)) (n % 10 + b'0')
      ∙ rw (read_number-decimal_digits fuel (n / 10) (omega arith)) (omega arith))
]

-- The digits that are written stand for the number: the divisions by ten are enough for every
-- number of an `int64`.
pub read_number-decimal : (n : ℕ) → n < 9_223_372_036_854_775_808 → read_number 0 (decimal n) ≡ n
unfolding decimal
read_number-decimal n h = read_number-decimal_digits 19 n (omega arith)
