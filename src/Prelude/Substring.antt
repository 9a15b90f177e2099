-- ===== src/Prelude/Substring.antt =====
-- The loop `for i := 0; i <= len(s)-len(substr); i++ { if s[i:i+len(substr)] == substr … }`, of
-- which internal/ratelimit, internal/audit and internal/cloudflare each hold a copy.
use Prim.Native.Nat.{ℕ, zero, suc, ◌-◌, ◌<◌}
use mathlib.Core.Path.{◌≡◌, refl, ap}
use mathlib.Core.Logic.{◌↔◌, inl, inr}
use mathlib.Core.Bool.{Bool, true, false}
use mathlib.Core.List.{[], ◌∷◌, ◌++◌}
use native.Mathlib.Omega.{arith}
use runixo_agent.Prelude.Tests.{if◌then◌else◌, Bool-cases}
use runixo_agent.Prelude.Lists.{length, take, drop, length-append, take-append-drop}
use runixo_agent.Prelude.Strings.{Text, text_eq, text_eq_iff}

-- `rounds` is the number of offsets left, and `s` the text from the present offset on.
unfoldable pub search_from : ℕ → Text → Text → Bool
search_from zero s sub = false
search_from (suc rounds) s sub =
    let later = search_from rounds (drop 1 s) sub in
    if text_eq (take (length sub) s) sub then true else later

-- How many offsets the loop visits; none where `substr` is longer.
abbrev pub substring_rounds : Text → Text → ℕ
substring_rounds s sub = suc (length s) - length sub

-- The text `sub` stands somewhere in `s`.
abbrev pub Occurs : Text → Text → Type 0
Occurs sub s = (before : Text) × (after : Text) × (s ≡ before ++ (sub ++ after))

take-length-append : (xs ys : Text) → take (length xs) (xs ++ ys) ≡ xs
take-length-append [] ys = refl
take-length-append (x ∷ xs) ys = ap (◌∷◌ x) (take-length-append xs ys)

search_from_sound : (rounds : ℕ) (s sub : Text) → search_from rounds s sub ≡ true → Occurs sub s
unfolding search_from
search_from_sound zero s sub h = cc
search_from_sound (suc rounds) s sub h = elim (Bool-cases (text_eq (take (length sub) s) sub)) [
  | inl here ↦ (
    [],
    drop (length sub) s,
    ground (arith, text_eq_iff (take (length sub) s) sub, take-append-drop (length sub) s),
  )
  | inr there ↦ later s (search_from_sound rounds (drop 1 s) sub (ground arith))
]
  where
    later : (s : Text) → Occurs sub (drop 1 s) → Occurs sub s
    later [] o = o
    later (c ∷ s) o = (c ∷ o.0, o.1, ap (◌∷◌ c) o.2)

search_from_complete :
    (rounds : ℕ) (before sub after : Text)
    → length before < rounds
    → search_from rounds (before ++ (sub ++ after)) sub ≡ true
unfolding search_from
search_from_complete zero before sub after h = absurd (omega arith)
search_from_complete (suc rounds) [] sub after h =
    ground (arith, take-length-append sub after, text_eq_iff (take (length sub) (sub ++ after)) sub)
search_from_complete (suc rounds) (c ∷ before) sub after h =
    ground (arith, search_from_complete rounds before sub after)

-- The loop finds `sub` exactly when it occurs.
pub search_from_iff :
    (s sub : Text) → (search_from (substring_rounds s sub) s sub ≡ true) ↔ Occurs sub s
search_from_iff s sub = (search_from_sound (substring_rounds s sub) s sub, λ o. found o.0 o.1 o.2)
  where
    found :
        (before after : Text)
        → s ≡ before ++ (sub ++ after)
        → search_from (substring_rounds s sub) s sub ≡ true
    found before after e = rw e (
        search_from_complete (substring_rounds (before ++ (sub ++ after)) sub) before sub after
          (omega (arith, length-append before (sub ++ after), length-append sub after)))
