-- ===== src/Prelude/GoText.antt =====
-- What the packages use of Go's `strings`.
use Prim.Native.Nat.{ℕ, ◌+◌}
use mathlib.Core.Path.{◌≡◌}
use mathlib.Core.Logic.{◌↔◌}
use mathlib.Core.Bool.{Bool, true, ◌&&◌, ◌||◌}
use mathlib.Core.List.{List, [], ◌∷◌, ◌++◌, map}
use runixo_agent.Prelude.Tests.{◌==◌, leb, ltb, if◌then◌else◌}
use runixo_agent.Prelude.Lists.{all}
use runixo_agent.Prelude.Strings.{Text, text_eq}
use runixo_agent.Prelude.Substring.{search_from, substring_rounds, Occurs, search_from_iff}

abbrev pub prepend : ℕ → List Text → List Text
prepend c [] = (c ∷ []) ∷ []
prepend c (part ∷ parts) = (c ∷ part) ∷ parts

-- Go's `strings.Split` by one character.
unfoldable pub split : ℕ → Text → List Text
split sep [] = [] ∷ []
split sep (c ∷ s) = let parts = split sep s in if c == sep then [] ∷ parts else prepend c parts

-- Go's `strings.Join` by one character.
unfoldable pub join : ℕ → List Text → Text
join sep [] = []
join sep (part ∷ []) = part
join sep (part ∷ next ∷ parts) = part ++ (sep ∷ join sep (next ∷ parts))

-- Go's `strings.Contains`.
unfoldable pub contains : Text → Text → Bool
contains s substr = search_from (substring_rounds s substr) s substr

pub contains_iff : (s substr : Text) → (contains s substr ≡ true) ↔ Occurs substr s
unfolding contains
contains_iff s substr = search_from_iff s substr

abbrev pub is_ascii : Text → Bool
is_ascii s = all (λ c. ltb c 128) s

abbrev lower_byte : ℕ → ℕ
lower_byte c = if leb b'A' c && leb c b'Z' then c + 32 else c

-- Go's `strings.ToLower`; `unicode_lower` is what its tables of Unicode make of a text that is not
-- ASCII.
unfoldable pub to_lower : (Text → Text) → Text → Text
to_lower unicode_lower s = if is_ascii s then map lower_byte s else unicode_lower s

abbrev is_space : ℕ → Bool
is_space c = c == b' ' || (leb 9 c && leb c 13)

split_spaces : Text → List Text
split_spaces [] = [] ∷ []
split_spaces (c ∷ s) =
    let parts = split_spaces s in if is_space c then [] ∷ parts else prepend c parts

drop_empty : List Text → List Text
drop_empty [] = []
drop_empty (part ∷ parts) =
    let rest = drop_empty parts in if text_eq part [] then rest else part ∷ rest

-- Go's `strings.Fields`, for the spaces of ASCII.
unfoldable pub fields : Text → List Text
unfolding split_spaces drop_empty
fields s = drop_empty (split_spaces s)
