-- ===== src/Auth/Base64.antt =====
-- Go's `base64.RawURLEncoding`, which internal/auth/auth.go writes signed tokens in.
use runixo_agent.Prelude.{
  ◌>>=◌, bind_some, ap, ◌≢◌, false, ℕ, ◌+◌, ◌-◌, ◌*◌, ◌/◌, ◌%◌, ◌<◌, ◌≡◌, refl, ◌&&◌, ◌||◌, Option,
  none, some, List, [], ◌∷◌, map, Text, All, ltb, leb, ◌==◌, if◌then◌else◌, arith,
}

sextet_char : ℕ → ℕ
sextet_char n =
    if ltb n 26
    then n + b'A'
    else if ltb n 52
    then n - 26 + b'a'
    else if ltb n 62
    then n - 52 + b'0'
    else if n == 62
    then b'-'
    else b'_'

sextets : List ℕ → List ℕ
sextets [] = []
sextets (a ∷ []) = a / 4 ∷ a % 4 * 16 ∷ []
sextets (a ∷ b ∷ []) = a / 4 ∷ (a % 4 * 16 + b / 16) ∷ b % 16 * 4 ∷ []
sextets (a ∷ b ∷ c ∷ rest) =
    a / 4 ∷ (a % 4 * 16 + b / 16) ∷ (b % 16 * 4 + c / 64) ∷ c % 64 ∷ sextets rest

-- Go's `EncodeToString`.
unfoldable pub encode_base64 : List ℕ → Text
unfolding sextet_char sextets
encode_base64 bytes = map sextet_char (sextets bytes)

char_sextet : ℕ → Option ℕ
char_sextet c =
    if leb b'A' c && leb c b'Z'
    then some (c - b'A')
    else if leb b'a' c && leb c b'z'
    then some (c - b'a' + 26)
    else if leb b'0' c && leb c b'9'
    then some (c - b'0' + 52)
    else if c == b'-'
    then some 62
    else if c == b'_'
    then some 63
    else none

-- Line breaks are skipped, and any other character that is not of the alphabet is an error.
read_sextets : Text → Option (List ℕ)
unfolding char_sextet
read_sextets [] = some []
read_sextets (c ∷ s) =
    let rest = read_sextets s in
    if c == 10 || c == 13 then rest else do n ← char_sextet c; ns ← rest; some (n ∷ ns)

-- The bits that are left over at the end are dropped; one character alone is an error.
join_sextets : List ℕ → Option (List ℕ)
join_sextets [] = some []
join_sextets (v ∷ []) = none
join_sextets (v ∷ w ∷ []) = some ((v * 4 + w / 16) ∷ [])
join_sextets (v ∷ w ∷ x ∷ []) = some ((v * 4 + w / 16) ∷ (w % 16 * 16 + x / 4) ∷ [])
join_sextets (v ∷ w ∷ x ∷ y ∷ rest) = do
  bytes ← join_sextets rest
  some ((v * 4 + w / 16) ∷ (w % 16 * 16 + x / 4) ∷ (x % 4 * 64 + y) ∷ bytes)

-- Go's `DecodeString`.
unfoldable pub decode_base64 : Text → Option (List ℕ)
unfolding read_sextets join_sextets
decode_base64 s = do ns ← read_sextets s; join_sextets ns

abbrev pub IsBytes : List ℕ → Type 0
IsBytes bytes = All (λ b. b < 256) bytes

-- A text without a character.
abbrev pub Lacks : ℕ → Text → Type 0
Lacks c s = All (λ d. d ≢ c) s

char_sextet-sextet_char : (n : ℕ) → n < 64 → char_sextet (sextet_char n) ≡ some n
unfolding char_sextet sextet_char
char_sextet-sextet_char n h = ground arith

sextets_bounded : (bytes : List ℕ) → IsBytes bytes → All (λ n. n < 64) (sextets bytes)
unfolding sextets
sextets_bounded [] h = tt
sextets_bounded (a ∷ []) h = (omega arith, (omega arith, tt))
sextets_bounded (a ∷ b ∷ []) h = (omega arith, (omega arith, (omega arith, tt)))
sextets_bounded (a ∷ b ∷ c ∷ rest) h =
    (omega arith, (omega arith, (omega arith, (omega arith, sextets_bounded rest h.1.1.1))))

first_byte : (a b : ℕ) → b < 256 → a / 4 * 4 + (a % 4 * 16 + b / 16) / 16 ≡ a
first_byte a b h = omega arith

second_byte :
    (a b c : ℕ)
    → c < 256
    → (a % 4 * 16 + b / 16) % 16 * 16 + (b % 16 * 4 + c / 64) / 4 ≡ b / 16 % 16 * 16 + b % 16
second_byte a b c h = omega arith

third_byte : (b c : ℕ) → c < 256 → (b % 16 * 4 + c / 64) % 4 * 64 + c % 64 ≡ c
third_byte b c h = omega arith

join_sextets-sextets : (bytes : List ℕ) → IsBytes bytes → join_sextets (sextets bytes) ≡ some bytes
unfolding join_sextets sextets
join_sextets-sextets [] h = refl
join_sextets-sextets (a ∷ []) h = ap (λ x. some (x ∷ [])) (omega arith)
join_sextets-sextets (a ∷ b ∷ []) h =
    rw (first_byte a b h.1.0) (ap (λ x. some (a ∷ x ∷ [])) (omega arith))
join_sextets-sextets (a ∷ b ∷ c ∷ rest) h = rw (join_sextets-sextets rest h.1.1.1) (
    rw (first_byte a b h.1.0)
      (rw (third_byte b c h.1.1.0) (ap (λ x. some (a ∷ x ∷ c ∷ rest)) (omega arith))))

-- The characters of the alphabet are no line breaks and no points.
line_break_test : (n : ℕ) → (sextet_char n == 10 || sextet_char n == 13) ≡ false
unfolding sextet_char
line_break_test n = ground arith

sextet_char-ne : (n : ℕ) → sextet_char n ≢ b'.'
unfolding sextet_char
sextet_char-ne n h = ground arith

read_sextets-map :
    (ns : List ℕ) → All (λ n. n < 64) ns → read_sextets (map sextet_char ns) ≡ some ns
unfolding read_sextets
read_sextets-map [] h = refl
read_sextets-map (n ∷ ns) h =
    rw (line_break_test n) (rw (char_sextet-sextet_char n h.0) (rw (read_sextets-map ns h.1) refl))

-- Decoding gives the bytes that were encoded.
pub decode_base64-encode_base64 :
    (bytes : List ℕ) → IsBytes bytes → decode_base64 (encode_base64 bytes) ≡ some bytes
unfolding decode_base64 encode_base64
decode_base64-encode_base64 bytes h =
    bind_some join_sextets (read_sextets-map (sextets bytes) (sextets_bounded bytes h))
      (join_sextets-sextets bytes h)

map-Lacks : (ns : List ℕ) → Lacks b'.' (map sextet_char ns)
map-Lacks [] = tt
map-Lacks (n ∷ ns) = (sextet_char-ne n, map-Lacks ns)

-- No character of the encoding is a point.
pub encode_base64-Lacks : (bytes : List ℕ) → Lacks b'.' (encode_base64 bytes)
unfolding encode_base64
encode_base64-Lacks bytes = map-Lacks (sextets bytes)
