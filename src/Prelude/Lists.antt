-- ===== src/Prelude/Lists.antt =====
-- Lists measured and indexed by native numbers, under the library's names.
use Prim.Native.Nat.{ℕ, zero, suc, ◌+◌, ◌-◌, ◌≤◌, min}
use mathlib.Core.Path.{◌≡◌, refl, sym, ap, ◌∙◌, subst}
use mathlib.Core.Logic.{◌↔◌, ◌⊎◌, inl, inr}
use mathlib.Core.Bool.{Bool, true, false, ◌||◌, ◌&&◌}
use mathlib.Core.List.{List, [], ◌∷◌, ◌++◌}
use native.Mathlib.Omega.{arith}
use runixo_agent.Prelude.Tests.{if◌then◌else◌, ltb}

module _ {ℓ} {A : Type ℓ} where
  abbrev pub length : List A → ℕ
  length [] = 0
  length (x ∷ xs) = suc (length xs)

  abbrev pub take : ℕ → List A → List A
  take zero xs = []
  take (suc n) [] = []
  take (suc n) (x ∷ xs) = x ∷ take n xs

  abbrev pub drop : ℕ → List A → List A
  drop zero xs = xs
  drop (suc n) [] = []
  drop (suc n) (x ∷ xs) = drop n xs

  abbrev pub any : (A → Bool) → List A → Bool
  any p [] = false
  any p (x ∷ xs) = p x || any p xs

  abbrev pub all : (A → Bool) → List A → Bool
  all p [] = true
  all p (x ∷ xs) = p x && all p xs

  -- The elements that pass a test, in their order.
  abbrev pub keep : (A → Bool) → List A → List A
  keep p [] = []
  keep p (x ∷ xs) = if p x then x ∷ keep p xs else keep p xs

  -- `All P xs` holds when every element has P.
  abbrev pub All {κ} : (A → Type κ) → List A → Type κ
  All P [] = Unit
  All P (x ∷ xs) = P x × All P xs

  -- `Any P xs` holds when some element has P; the value says which.
  abbrev pub Any : (A → Type 0) → List A → Type 0
  Any P [] = ⊥
  Any P (x ∷ xs) = P x ⊎ Any P xs

  pub length-append : (xs ys : List A) → length (xs ++ ys) ≡ length xs + length ys
  length-append [] ys = omega arith
  length-append (x ∷ xs) ys = omega (arith, length-append xs ys)

  pub length-keep-le : (p : A → Bool) (xs : List A) → length (keep p xs) ≤ length xs
  length-keep-le p [] = omega arith
  length-keep-le p (x ∷ xs) = ground (arith, length-keep-le p xs)

  pub length-take : (n : ℕ) (xs : List A) → length (take n xs) ≡ min n (length xs)
  length-take zero xs = omega arith
  length-take (suc n) [] = omega arith
  length-take (suc n) (x ∷ xs) = omega (arith, length-take n xs)

  pub length-drop : (n : ℕ) (xs : List A) → length (drop n xs) ≡ length xs - n
  length-drop zero xs = omega arith
  length-drop (suc n) [] = omega arith
  length-drop (suc n) (x ∷ xs) = omega (arith, length-drop n xs)

  pub take-append-drop : (n : ℕ) (xs : List A) → take n xs ++ drop n xs ≡ xs
  take-append-drop zero xs = refl
  take-append-drop (suc n) [] = refl
  take-append-drop (suc n) (x ∷ xs) = rw (take-append-drop n xs)

  pub All-map {κ μ} :
      {P : A → Type κ} {Q : A → Type μ} (xs : List A) → ((x : A) → P x → Q x) → All P xs → All Q xs
  All-map [] f h = tt
  All-map (x ∷ xs) f h = (f x h.0, All-map xs f h.1)

  pub All-append {κ} : (P : A → Type κ) (xs ys : List A) → All P (xs ++ ys) ↔ (All P xs × All P ys)
  All-append P [] ys = (λ h. (tt, h), λ h. h.1)
  All-append P (x ∷ xs) ys = (
    λ h. let (l, r) = (All-append P xs ys).0 h.1 in ((h.0, l), r),
    λ h. (h.0.0, (All-append P xs ys).1 (h.0.1, h.1)),
  )

  pub Any-map : {P Q : A → Type 0} (xs : List A) → ((x : A) → P x → Q x) → Any P xs → Any Q xs
  Any-map [] f h = h
  Any-map (x ∷ xs) f (inl h) = inl (f x h)
  Any-map (x ∷ xs) f (inr h) = inr (Any-map xs f h)

  pub all-take : (p : A → Bool) (n : ℕ) (xs : List A) → all p xs ≡ true → all p (take n xs) ≡ true
  all-take p zero xs h = refl
  all-take p (suc n) [] h = refl
  all-take p (suc n) (x ∷ xs) h = ground (arith, all-take p n xs)

  any_cons :
      (P : A → Type 0) (p : A → Bool) (x : A) (xs : List A)
      → (p x ≡ true) ↔ P x
      → (any p xs ≡ true) ↔ Any P xs
      → (any p (x ∷ xs) ≡ true) ↔ Any P (x ∷ xs)
  any_cons P p x xs here there = (forth (p x) refl, back)
    where
      forth : (b : Bool) → p x ≡ b → (p x || any p xs) ≡ true → P x ⊎ Any P xs
      forth true e g = inl (here.0 e)
      forth false e g = inr (there.0 (rw e at g))

      back : P x ⊎ Any P xs → (p x || any p xs) ≡ true
      back (inl m) = rw (here.1 m)
      back (inr m) = ground (arith, there.1 m)

  pub any_iff :
      {P : A → Type 0} (p : A → Bool)
      → ((x : A) → (p x ≡ true) ↔ P x)
      → (xs : List A) → (any p xs ≡ true) ↔ Any P xs
  any_iff p h [] = (λ e. absurd (cc), λ m. elim m [ ])
  any_iff {P} p h (x ∷ xs) = any_cons P p x xs (h x) (any_iff p h xs)

-- The last `n` elements.
abbrev pub last_of {ℓ} : {A : Type ℓ} → ℕ → List A → List A
last_of n xs = drop (length xs - n) xs

module _ {ℓ} {A : Type ℓ} where
  pub append_assoc : (xs ys zs : List A) → (xs ++ ys) ++ zs ≡ xs ++ (ys ++ zs)
  append_assoc [] ys zs = refl
  append_assoc (x ∷ xs) ys zs = ap (◌∷◌ x) (append_assoc xs ys zs)

  pub append_nil : (xs : List A) → xs ++ [] ≡ xs
  append_nil [] = refl
  append_nil (x ∷ xs) = ap (◌∷◌ x) (append_nil xs)

  drop_nil : (n : ℕ) → drop {A = A} n [] ≡ []
  drop_nil zero = refl
  drop_nil (suc n) = refl

  drop-drop : (m n : ℕ) (xs : List A) → drop m (drop n xs) ≡ drop (n + m) xs
  drop-drop m zero xs = ap (λ k. drop k xs) (zero_add m)
    where
      zero_add : (m : ℕ) → m ≡ 0 + m
      zero_add m = omega arith
  drop-drop m (suc n) [] = drop_nil m ∙ sym (drop_nil (suc n + m))
  drop-drop m (suc n) (x ∷ xs) = drop-drop m n xs ∙ ap (λ k. drop k (x ∷ xs)) (suc_add n m)
    where
      suc_add : (n m : ℕ) → suc (n + m) ≡ suc n + m
      suc_add n m = omega arith

  drop-append : (n : ℕ) (xs ys : List A) → n ≤ length xs → drop n (xs ++ ys) ≡ drop n xs ++ ys
  drop-append zero xs ys le = refl
  drop-append (suc n) [] ys le = absurd (omega arith)
  drop-append (suc n) (x ∷ xs) ys le = drop-append n xs ys (omega arith)

  -- Keeping the last elements before more come makes no difference.
  pub last_of-append :
      (n : ℕ) (xs ys : List A) → last_of n (last_of n xs ++ ys) ≡ last_of n (xs ++ ys)
  last_of-append n xs ys =
      ap (last_of n) (sym (drop-append (length xs - n) xs ys (omega arith)))
      ∙ (drop-drop (length (drop (length xs - n) (xs ++ ys)) - n) (length xs - n) (xs ++ ys)
          ∙ ap (λ k. drop k (xs ++ ys)) count)
    where
      count : length xs - n + (length (drop (length xs - n) (xs ++ ys)) - n) ≡ length (xs ++ ys) - n
      count = omega (arith, length-drop (length xs - n) (xs ++ ys), length-append xs ys)

  -- Dropping elements only where there are more than `n`.
  pub last_of_few :
      (n : ℕ) (xs : List A) → (if ltb n (length xs) then last_of n xs else xs) ≡ last_of n xs
  last_of_few n xs = by_test (ltb n (length xs)) refl
    where
      by_test : (b : Bool) → ltb n (length xs) ≡ b → (if b then last_of n xs else xs) ≡ last_of n xs
      by_test true e = refl
      by_test false e = ap (λ k. drop k xs) few
        where
          few : 0 ≡ length xs - n
          few = ground arith

  pub length-last_of-le : (n : ℕ) (xs : List A) → length (last_of n xs) ≤ n
  length-last_of-le n xs = omega (arith, length-drop (length xs - n) xs)

pub All-at {κ} :
    {A : Type 0} (P : A → Type κ) {b : A} (xs : List A) → All P xs → Any (λ x. b ≡ x) xs → P b
All-at P [] h m = absurd m
All-at P (x ∷ xs) h (inl e) = subst P (sym e) h.0
All-at P (x ∷ xs) h (inr m) = All-at P xs h.1 m
