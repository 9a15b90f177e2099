-- ===== src/Security/Regex/Search.antt =====
-- The matcher finds a match exactly when the language has one in the text.
use runixo_agent.Prelude.{
  ℕ, ◌≡◌, ◌↔◌, ◌⊎◌, inl, inr, refl, sym, ap, ◌∙◌, Bool, true, false, ◌&&◌, ◌||◌, List, [], ◌∷◌,
  ◌++◌, Text, All, if◌then◌else◌, arith,
}
use mathlib.Core.Path.{subst}
use runixo_agent.Security.Regex.{
  Regex, never, done, one, then_, either, star, nullable, derive, match_here, match_string, Lang,
  joined,
}

empty_ends : (u v : Text) → [] ≡ u ++ v → (u ≡ []) × (v ≡ [])
empty_ends [] v e = (refl, sym e)
empty_ends (x ∷ u) v e = absurd (cc)

Empties : Regex → Type 0
Empties r = (nullable r ≡ true) ↔ Lang r []

nullable_then : (r q : Regex) → Empties r → Empties q → Empties (then_ r q)
unfolding Empties nullable
nullable_then r q er eq = (
  λ h. ([], [], refl, er.0 (ground arith), eq.0 (ground arith)),
  λ (u, v, e, l, k). both (empty_ends u v e) l k,
)
  where
    both :
        {u v : Text} → (u ≡ []) × (v ≡ []) → Lang r u → Lang q v → (nullable r && nullable q) ≡ true
    both e l k = ground (arith, er.1 (subst (Lang r) e.0 l), eq.1 (subst (Lang q) e.1 k))

nullable_either : (r q : Regex) → Empties r → Empties q → Empties (either r q)
unfolding Empties nullable
nullable_either r q er eq = (
  from (nullable r) refl,
  λ h. elim h [ inl l ↦ ground (arith, er.1 l) | inr l ↦ ground (arith, eq.1 l) ],
)
  where
    from : (b : Bool) → nullable r ≡ b → (b || nullable q) ≡ true → Lang r [] ⊎ Lang q []
    from true e h = inl (er.0 e)
    from false e h = inr (eq.0 h)

nullable_iff : (r : Regex) → Empties r
unfolding Empties nullable
nullable_iff never = (λ h. absurd cc, λ h. absurd h)
nullable_iff done = (λ h. refl, λ h. refl)
nullable_iff (one p) = (λ h. absurd cc, λ h. absurd (cons_nil h.0 h.1))
  where
    cons_nil : (c : ℕ) → [] ≡ c ∷ [] → ⊥
    cons_nil c e = cc
nullable_iff (then_ r q) = nullable_then r q (nullable_iff r) (nullable_iff q)
nullable_iff (either r q) = nullable_either r q (nullable_iff r) (nullable_iff q)
nullable_iff (star r) = (λ h. ([], refl, tt), λ h. refl)

-- A text that begins with `c` cut in two: either the first half is empty or it begins with `c`.
cut :
    (u v s : Text) (c : ℕ)
    → c ∷ s ≡ u ++ v
    → ((u ≡ []) × (v ≡ c ∷ s)) ⊎ ((u' : Text) × (u ≡ c ∷ u') × (s ≡ u' ++ v))
cut [] v s c e = inl (refl, sym e)
cut (x ∷ u) v s c e = inr (u, cc, cc)

Derives : ℕ → Regex → Type 0
Derives c r = (s : Text) → Lang (derive c r) s ↔ Lang r (c ∷ s)

derive_one : (c : ℕ) (p : ℕ → Bool) → Derives c (one p)
unfolding Derives derive
derive_one c p s = by_test (p c) refl
  where
    by_test : (b : Bool) → p c ≡ b → Lang (if b then done else never) s ↔ Lang (one p) (c ∷ s)
    by_test true e = (λ h. (c, ap (◌∷◌ c) h, e), λ h. cc)
    by_test false e = (λ h. absurd h, λ h. absurd (differs h.0 h.1 h.2))
      where
        differs : (d : ℕ) → c ∷ s ≡ d ∷ [] → p d ≡ true → ⊥
        differs d f g = cc

derive_then : (c : ℕ) (r q : Regex) → Derives c r → Derives c q → Derives c (then_ r q)
unfolding Derives derive Empties
derive_then c r q dr dq s = by_test (nullable r) refl
  where
    longer : Lang (then_ (derive c r) q) s → Lang (then_ r q) (c ∷ s)
    longer (u, v, e, l, k) = (c ∷ u, v, ap (◌∷◌ c) e, (dr u).0 l, k)

    parts :
        (l : Lang (then_ r q) (c ∷ s))
        → (Lang r [] × Lang (derive c q) s) ⊎ Lang (then_ (derive c r) q) s
    parts (u, v, e, l, k) = elim (cut u v s c e) [
      | inl (f, g) ↦ inl (subst (Lang r) f l, (dq s).1 (subst (Lang q) g k))
      | inr (u', f, g) ↦ inr (u', v, g, (dr u').1 (subst (Lang r) f l), k)
    ]

    by_test :
        (b : Bool)
        → nullable r ≡ b
        → Lang (if b then either (then_ (derive c r) q) (derive c q) else then_ (derive c r) q) s
          ↔ Lang (then_ r q) (c ∷ s)
    by_test true e = (
      λ h. elim h [
        | inl l ↦ longer l
        | inr l ↦ ([], c ∷ s, refl, (nullable_iff r).0 e, (dq s).0 l)
      ],
      λ h. elim (parts h) [ inl l ↦ inr l.1 | inr l ↦ inl l ],
    )
    by_test false e = (longer, λ h. elim (parts h) [ inl l ↦ absurd (not_empty l.0) | inr l ↦ l ])
      where
        not_empty : Lang r [] → ⊥
        not_empty l = ground (arith, (nullable_iff r).1 l)

derive_star : (c : ℕ) (r : Regex) → Derives c r → Derives c (star r)
unfolding Derives derive
derive_star c r dr s = (
  λ (u, v, e, l, (us, f, a)). ((c ∷ u) ∷ us, ap (◌∷◌ c) (e ∙ ap (λ t. u ++ t) f), ((dr u).0 l, a)),
  λ (us, e, a). back us e a,
)
  where
    back :
        (us : List Text)
        → c ∷ s ≡ joined us
        → All (λ u. Lang r u) us
        → Lang (then_ (derive c r) (star r)) s
    back [] e a = absurd (cc)
    back (u ∷ us) e a = elim (cut u (joined us) s c e) [
      | inl (f, g) ↦ back us (sym g) a.1
      | inr (u', f, g) ↦ (u', joined us, g, (dr u').1 (subst (Lang r) f a.0), (us, refl, a.1))
    ]

derive_iff : (c : ℕ) (r : Regex) → Derives c r
unfolding Derives derive
derive_iff c never s = (λ h. absurd h, λ h. absurd h)
derive_iff c done s = (λ h. absurd h, λ h. absurd (cc))
derive_iff c (one p) s = derive_one c p s
derive_iff c (then_ r q) s = derive_then c r q (derive_iff c r) (derive_iff c q) s
derive_iff c (either r q) s = (
  λ h. elim h [ inl l ↦ inl ((derive_iff c r s).0 l) | inr l ↦ inr ((derive_iff c q s).0 l) ],
  λ h. elim h [ inl l ↦ inl ((derive_iff c r s).1 l) | inr l ↦ inr ((derive_iff c q s).1 l) ],
)
derive_iff c (star r) s = derive_star c r (derive_iff c r) s

-- A match at the beginning of the text.
Starts : Regex → Text → Type 0
Starts r s = (u : Text) × (after : Text) × (s ≡ u ++ after) × Lang r u

match_here_iff : (r : Regex) (s : Text) → (match_here r s ≡ true) ↔ Starts r s
unfolding match_here Starts Empties Derives
match_here_iff r [] = (
  λ h. ([], [], refl, (nullable_iff r).0 h),
  λ (u, after, e, l). (nullable_iff r).1 (subst (Lang r) (empty_ends u after e).0 l),
)
match_here_iff r (c ∷ s) = step (match_here_iff (derive c r) s)
  where
    step :
        (match_here (derive c r) s ≡ true) ↔ Starts (derive c r) s
        → (match_here r (c ∷ s) ≡ true) ↔ Starts r (c ∷ s)
    step ih = (forth (nullable r) refl, back)
      where
        forth :
            (b : Bool) → nullable r ≡ b → (b || match_here (derive c r) s) ≡ true → Starts r (c ∷ s)
        forth true e h = ([], c ∷ s, refl, (nullable_iff r).0 e)
        forth false e h =
            let (u, after, f, l) = ih.0 h in (c ∷ u, after, ap (◌∷◌ c) f, (derive_iff c r u).0 l)

        back : Starts r (c ∷ s) → (nullable r || match_here (derive c r) s) ≡ true
        back (u, after, e, l) = elim (cut u after s c e) [
          | inl (f, g) ↦ ground (arith, (nullable_iff r).1 (subst (Lang r) f l))
          | inr (u', f, g) ↦
              ground (arith, ih.1 (u', after, g, (derive_iff c r u').1 (subst (Lang r) f l)))
        ]

-- A text of the language stands somewhere in `s`.
abbrev pub Holds : Regex → Text → Type 0
Holds r s = (before : Text) × (u : Text) × (after : Text) × (s ≡ before ++ (u ++ after)) × Lang r u

-- The matcher answers true exactly when some piece of the text belongs to the language of the
-- regular expression.
pub match_string_iff : (r : Regex) (s : Text) → (match_string r s ≡ true) ↔ Holds r s
unfolding match_string Starts
match_string_iff r [] = (
  λ h. let (u, after, e, l) = (match_here_iff r []).0 h in ([], u, after, e, l),
  λ (before, u, after, e, l).
      (match_here_iff r []).1 (u, after, sym (empty_ends before (u ++ after) e).1, l),
)
match_string_iff r (c ∷ s) = step (match_string_iff r s)
  where
    step : (match_string r s ≡ true) ↔ Holds r s → (match_string r (c ∷ s) ≡ true) ↔ Holds r (c ∷ s)
    step ih = (forth (match_here r (c ∷ s)) refl, back)
      where
        forth :
            (b : Bool) → match_here r (c ∷ s) ≡ b → (b || match_string r s) ≡ true → Holds r (c ∷ s)
        forth true e h =
            let (u, after, f, l) = (match_here_iff r (c ∷ s)).0 e in ([], u, after, f, l)
        forth false e h =
            let (before, u, after, f, l) = ih.0 h in (c ∷ before, u, after, ap (◌∷◌ c) f, l)

        back : Holds r (c ∷ s) → (match_here r (c ∷ s) || match_string r s) ≡ true
        back (before, u, after, e, l) = elim (cut before (u ++ after) s c e) [
          | inl (f, g) ↦ ground (arith, (match_here_iff r (c ∷ s)).1 (u, after, sym g, l))
          | inr (before', f, g) ↦ ground (arith, ih.1 (before', u, after, g, l))
        ]
