-- ===== src/Prelude/Tests.antt =====
-- Boolean tests on the native numbers, the conditional, and ways to split on a computed value.
use Prim.Native.Nat.{ℕ, ◌≤◌, ◌<◌, compare, Ordering}
use mathlib.Core.Path.{◌≡◌, refl}
use mathlib.Core.Logic.{◌↔◌, ◌⊎◌, inl, inr}
use mathlib.Core.Bool.{Bool, true, false}
use mathlib.Core.Option.{Option, none, some}
use native.Mathlib.Omega.{arith}

abbrev pub ltb : ℕ → ℕ → Bool
ltb a b = elim (compare a b) [ Ordering.lt ↦ true | _ ↦ false ]

abbrev pub leb : ℕ → ℕ → Bool
leb a b = elim (compare a b) [ Ordering.gt ↦ false | _ ↦ true ]

infix 50 ◌==◌
abbrev pub ◌==◌ : ℕ → ℕ → Bool
a == b = elim (compare a b) [ Ordering.eq ↦ true | _ ↦ false ]

infix 1 if◌then◌else◌
abbrev pub if◌then◌else◌ {ℓ} : {A : Type ℓ} → Bool → A → A → A
if true then x else y = x
if false then x else y = y

pub ltb→lt : (a b : ℕ) → ltb a b ≡ true → a < b
ltb→lt a b h = ground arith

pub lt→ltb : (a b : ℕ) → a < b → ltb a b ≡ true
lt→ltb a b h = ground arith

pub leb→le : (a b : ℕ) → leb a b ≡ true → a ≤ b
leb→le a b h = ground arith

pub le→leb : (a b : ℕ) → a ≤ b → leb a b ≡ true
le→leb a b h = ground arith

pub ==_iff : (a b : ℕ) → ((a == b) ≡ true) ↔ (a ≡ b)
==_iff a b = ground arith

-- To split on a computed value and keep the equation.
pub Bool-cases : (b : Bool) → (b ≡ true) ⊎ (b ≡ false)
Bool-cases true = inl refl
Bool-cases false = inr refl

module _ {ℓ} {A : Type ℓ} where
  pub Option-cases : (o : Option A) → (o ≡ none) ⊎ ((a : A) × (o ≡ some a))
  Option-cases none = inl refl
  Option-cases (some a) = inr (a, refl)

  pub some-injective : {a b : A} → some a ≡ some b → a ≡ b
  some-injective h = cc

  abbrev pub is_some : Option A → Bool
  is_some none = false
  is_some (some a) = true

  -- An optional value that a test lets through.
  abbrev pub keep_if : (A → Bool) → Option A → Option A
  keep_if p none = none
  keep_if p (some a) = if p a then some a else none

-- An optional value handed to the next step of a `do` block.
infixl 5 ◌>>=◌
abbrev pub ◌>>=◌ {ℓ κ} : {A : Type ℓ} {B : Type κ} → Option A → (A → Option B) → Option B
none >>= f = none
some a >>= f = f a

-- A step of a `do` block that is known to give a value.
pub bind_some {ℓ κ} :
    {A : Type ℓ} {B : Type κ} {o : Option A} {a : A} {r : Option B} (f : A → Option B)
    → o ≡ some a
    → f a ≡ r
    → (o >>= f) ≡ r
bind_some f e h = rw e h

-- A check that returns an error where a test holds, and goes on otherwise.
pub guard_iff {ℓ} :
    {A : Type ℓ} {P Q : Type 0} {o : Option A} (b : Bool) (error : A)
    → (b ≡ true) ↔ P
    → (o ≡ none) ↔ Q
    → ((if b then some error else o) ≡ none) ↔ ((¬ P) × Q)
guard_iff true error p q = (λ h. absurd cc, λ h. absurd (h.0 (p.0 refl)))
guard_iff false error p q = (λ h. (λ x. absurd (differs (p.1 x)), q.0 h), λ h. q.1 h.1)
  where
    differs : false ≡ true → ⊥
    differs e = cc

-- The first error of two checks.
abbrev pub or_else {ℓ} : {A : Type ℓ} → Option A → Option A → Option A
or_else (some e) o = some e
or_else none o = o

-- A check that goes on where an earlier one found no error.
pub then_iff {ℓ} :
    {A : Type ℓ} {P Q : Type 0} {o : Option A} (first : Option A)
    → (first ≡ none) ↔ P
    → (o ≡ none) ↔ Q
    → (or_else first o ≡ none) ↔ (P × Q)
then_iff (some e) p q = (λ h. absurd cc, λ h. p.1 h.0)
then_iff none p q = (λ h. (p.0 refl, q.0 h), λ h. q.1 h.1)
