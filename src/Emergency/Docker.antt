-- ===== src/Emergency/Docker.antt =====
-- How internal/emergency/emergency.go finds the container of a process in its cgroup file.
use runixo_agent.Prelude.{
  contains, split, ℕ, ◌≡◌, ◌⊎◌, inl, inr, refl, Bool, true, ◌&&◌, ◌||◌, Option, none, some, List,
  [], ◌∷◌, Text, codes, length, take, all, leb, ◌==◌, if◌then◌else◌, arith, Bool-cases, length-take,
  all-take,
}

abbrev pub is_hex_digit : ℕ → Bool
is_hex_digit c = leb b'0' c && leb c b'9' || (leb b'a' c && leb c b'f' || leb b'A' c && leb c b'F')

unfoldable pub is_hex : Text → Bool
is_hex s = all is_hex_digit s

-- The inner loop: the first part that is an id of 64 digits gives its short form.
unfoldable pub find_id : List Text → Option Text
find_id [] = none
find_id (part ∷ parts) =
    if length part == 64 && is_hex part then some (take 12 part) else find_id parts

abbrev pub id_or : Option Text → Text → Text
id_or none rest = rest
id_or (some id) rest = id

-- The outer loop, over the lines.
unfoldable pub find_in_lines : List Text → Text
find_in_lines [] = []
find_in_lines (line ∷ lines) =
    let rest = find_in_lines lines in
    if contains line (codes "docker") || contains line (codes "containerd")
    then id_or (find_id (split b'/' line)) rest
    else rest

-- The output of `cat /proc/<pid>/cgroup`, if it ran.
unfoldable pub detect_docker_container : Option Text → Text
detect_docker_container none = []
detect_docker_container (some output) = find_in_lines (split b'\n' output)

-- The first twelve digits of an id of 64.
abbrev pub IsShortId : Text → Type 0
IsShortId id = (part : Text) × (length part ≡ 64) × (is_hex part ≡ true) × (id ≡ take 12 part)

find_id-IsShortId : (parts : List Text) {id : Text} → find_id parts ≡ some id → IsShortId id
unfolding find_id
find_id-IsShortId [] h = absurd (cc)
find_id-IsShortId (part ∷ parts) h = elim (Bool-cases (length part == 64 && is_hex part)) [
  | inl hit ↦ (part, ground arith, ground arith, ground arith)
  | inr miss ↦ find_id-IsShortId parts (ground arith)
]

id_or-IsShortId :
    (o : Option Text) (rest : Text)
    → ((id : Text) → o ≡ some id → IsShortId id)
    → (rest ≡ []) ⊎ IsShortId rest
    → (id_or o rest ≡ []) ⊎ IsShortId (id_or o rest)
id_or-IsShortId none rest h later = later
id_or-IsShortId (some id) rest h later = inr (h id refl)

find_in_lines-IsShortId :
    (lines : List Text) → (find_in_lines lines ≡ []) ⊎ IsShortId (find_in_lines lines)
unfolding find_in_lines
find_in_lines-IsShortId [] = inl refl
find_in_lines-IsShortId (line ∷ lines) =
    elim (Bool-cases (contains line (codes "docker") || contains line (codes "containerd"))) [
      | inr other ↦ rw other (find_in_lines-IsShortId lines)
      | inl docker ↦ rw docker (
          id_or-IsShortId (find_id (split b'/' line)) (find_in_lines lines)
            (λ id e. find_id-IsShortId (split b'/' line) e) (find_in_lines-IsShortId lines))
    ]

short_form :
    {id : Text} → (id ≡ []) ⊎ IsShortId id → (id ≡ []) ⊎ ((length id ≡ 12) × (is_hex id ≡ true))
unfolding is_hex
short_form (inl e) = inl e
short_form (inr (part, len, hex, e)) =
    inr (rw e (omega (arith, length-take 12 part)), rw e (all-take is_hex_digit 12 part hex))

-- The container of a process is none, or the short form of an id: twelve hexadecimal digits.
detect_docker_container_form :
    (output : Option Text)
    → let id = detect_docker_container output in (id ≡ []) ⊎ ((length id ≡ 12) × (is_hex id ≡ true))
unfolding detect_docker_container
detect_docker_container_form none = inl refl
detect_docker_container_form (some output) =
    short_form (find_in_lines-IsShortId (split b'\n' output))
