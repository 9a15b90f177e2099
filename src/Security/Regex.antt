-- ===== src/Security/Regex.antt =====
-- Regular expressions, as Go's `regexp.MatchString` reads them, by derivatives, with their
-- languages.
use runixo_agent.Prelude.{
  ℕ, ◌≡◌, ◌↔◌, ◌⊎◌, inl, inr, refl, sym, ap, ◌∙◌, Bool, true, false, ◌&&◌, ◌||◌, List, [], ◌∷◌,
  ◌++◌, Text, All, Bool-cases, if◌then◌else◌, arith, ==_iff,
}
pub mod Search

-- A set of bytes is a test.
pub data Regex : Type 0 where
  never done : Regex
  one : (ℕ → Bool) → Regex
  then_ either : Regex → Regex → Regex
  star : Regex → Regex

unfoldable pub nullable : Regex → Bool
nullable never = false
nullable done = true
nullable (one p) = false
nullable (then_ r q) = nullable r && nullable q
nullable (either r q) = nullable r || nullable q
nullable (star r) = true

-- What is left to match after the byte.
unfoldable pub derive : ℕ → Regex → Regex
unfolding nullable
derive c never = never
derive c done = never
derive c (one p) = if p c then done else never
derive c (then_ r q) =
    if nullable r then either (then_ (derive c r) q) (derive c q) else then_ (derive c r) q
derive c (either r q) = either (derive c r) (derive c q)
derive c (star r) = then_ (derive c r) (star r)

-- Some text that the rest starts with matches.
unfoldable pub match_here : Regex → Text → Bool
unfolding nullable derive
match_here r [] = nullable r
match_here r (c ∷ s) = nullable r || match_here (derive c r) s

-- Go's `regexp.MatchString`: a match anywhere.
unfoldable pub match_string : Regex → Text → Bool
unfolding match_here
match_string r [] = match_here r []
match_string r (c ∷ s) = match_here r (c ∷ s) || match_string r s

abbrev pub joined : List Text → Text
joined [] = []
joined (u ∷ us) = u ++ joined us

-- The texts that a regular expression matches as a whole.
abbrev pub Lang : Regex → Text → Type 0
Lang never s = ⊥
Lang done s = s ≡ []
Lang (one p) s = (c : ℕ) × (s ≡ c ∷ []) × (p c ≡ true)
Lang (then_ r q) s = (u : Text) × (v : Text) × (s ≡ u ++ v) × Lang r u × Lang q v
Lang (either r q) s = Lang r s ⊎ Lang q s
Lang (star r) s = (us : List Text) × (s ≡ joined us) × All (λ u. Lang r u) us
