-- ===== src/Cloudflare/Rules/Best.antt =====
-- Matching gives an enabled rule that fits the threat, of the highest priority among those.
use runixo_agent.Prelude.{
  ◌≡◌, ◌↔◌, ◌⊎◌, inl, inr, refl, sym, ap, Bool, true, false, ◌&&◌, Option, none, some, List, [],
  ◌∷◌, All, Any, All-map, All-at, Any-map, Option, Bool-cases, arith,
}
use mathlib.Core.Path.{subst}
use runixo_agent.Prelude.Int.{ℤ, pos, negsuc, ltb_ℤ, ◌≤ℤ◌, ◌<ℤ◌, ≤ℤ_antisymm}
use runixo_agent.Cloudflare.Threat.{Threat}
use runixo_agent.Cloudflare.Rules.{
  SecurityRule, RuleCond, match_condition, match_conditions, match_from, match_threat,
}

-- The rule is enabled and every condition of it holds of the threat.
abbrev pub IsCandidate : Threat → SecurityRule → Type 0
IsCandidate threat rule =
    (rule.enabled ≡ true) × All (λ cond. match_condition cond threat ≡ true) rule.conditions

match_conditions_iff :
    (threat : Threat) (conds : List RuleCond)
    → (match_conditions conds threat ≡ true)
      ↔ All (λ cond. match_condition cond threat ≡ true) conds
unfolding match_conditions
match_conditions_iff threat [] = (λ h. tt, λ h. refl)
match_conditions_iff threat (cond ∷ conds) = (
  λ h. (ground arith, (match_conditions_iff threat conds).0 (ground arith)),
  λ h. rw h.0 ((match_conditions_iff threat conds).1 h.1),
)

-- The test of the loop.
abbrev hits : Threat → ℤ → SecurityRule → Bool
hits threat highest rule =
    rule.enabled && (match_conditions rule.conditions threat && ltb_ℤ highest rule.priority)

hits_iff :
    (threat : Threat) (highest : ℤ) (rule : SecurityRule)
    → (hits threat highest rule ≡ true) ↔ (IsCandidate threat rule × (highest <ℤ rule.priority))
hits_iff threat highest rule = (
  λ h. (
    (ground arith, (match_conditions_iff threat rule.conditions).0 (ground arith)),
    ground arith,
  ),
  λ h. ground (arith, (match_conditions_iff threat rule.conditions).1 h.0.1, h.0.0, h.1),
)

abbrev Beats : Threat → List SecurityRule → ℤ → Option SecurityRule → Type 0
Beats threat rules highest r =
    (best : SecurityRule) × (r ≡ some best)
    × Any (λ rule. (best ≡ rule) × IsCandidate threat rule) rules
    × (highest <ℤ best.priority)
    × All (λ rule. IsCandidate threat rule → rule.priority ≤ℤ best.priority) rules

abbrev Keeps : Threat → List SecurityRule → ℤ → Option SecurityRule → Option SecurityRule → Type 0
Keeps threat rules highest matched r =
    (r ≡ matched) × All (λ rule. IsCandidate threat rule → rule.priority ≤ℤ highest) rules

module _ (threat : Threat) (rule : SecurityRule) (rules : List SecurityRule) (highest : ℤ) where
  after_hit :
      {r : Option SecurityRule}
      → IsCandidate threat rule × (highest <ℤ rule.priority)
      → Keeps threat rules rule.priority (some rule) r ⊎ Beats threat rules rule.priority r
      → Beats threat (rule ∷ rules) highest r
  after_hit h (inl (e, low)) = (rule, e, inl (refl, h.0), h.1, (λ c. omega arith, low))
  after_hit h (inr (best, e, among, above, low)) =
      (best, e, inr among, omega arith, (λ c. omega arith, low))

  after_miss :
      {r matched : Option SecurityRule}
      → ¬ (IsCandidate threat rule × (highest <ℤ rule.priority))
      → Keeps threat rules highest matched r ⊎ Beats threat rules highest r
      → Keeps threat (rule ∷ rules) highest matched r ⊎ Beats threat (rule ∷ rules) highest r
  after_miss h (inl (e, low)) = inl (e, (λ c. not_above (λ lt. h (c, lt)), low))
    where
      not_above : ¬ (highest <ℤ rule.priority) → rule.priority ≤ℤ highest
      not_above n = omega arith
  after_miss h (inr (best, e, among, above, low)) =
      inr (best, e, inr among, above, (λ c. below (λ lt. h (c, lt)), low))
    where
      below : ¬ (highest <ℤ rule.priority) → rule.priority ≤ℤ best.priority
      below n = omega arith

match_from-cases :
    (threat : Threat) (rules : List SecurityRule) (matched : Option SecurityRule) (highest : ℤ)
    → Keeps threat rules highest matched (match_from threat rules matched highest)
      ⊎ Beats threat rules highest (match_from threat rules matched highest)
unfolding match_from
match_from-cases threat [] matched highest = inl (refl, tt)
match_from-cases threat (rule ∷ rules) matched highest =
    elim (Bool-cases (hits threat highest rule)) [
      | inl hit ↦ rw hit (
          inr (
            after_hit threat rule rules highest ((hits_iff threat highest rule).0 hit)
              (match_from-cases threat rules (some rule) rule.priority)))
      | inr miss ↦ rw miss (
          after_miss threat rule rules highest (missed miss)
            (match_from-cases threat rules matched highest))
    ]
  where
    missed :
        hits threat highest rule ≡ false → ¬ (IsCandidate threat rule × (highest <ℤ rule.priority))
    missed f c = absurd (ground (arith, f, (hits_iff threat highest rule).1 c))

-- What the answer says of the rules.
abbrev pub IsBest : Threat → List SecurityRule → Option SecurityRule → Type 0
IsBest threat rules none = All (λ rule. IsCandidate threat rule → rule.priority <ℤ pos 0) rules
IsBest threat rules (some best) =
    Any (λ rule. (best ≡ rule) × IsCandidate threat rule) rules
    × All (λ rule. IsCandidate threat rule → rule.priority ≤ℤ best.priority) rules
    × (pos 0 ≤ℤ best.priority)

-- In whatever order the rules come, the answer is one of them that is enabled and whose
-- conditions all hold of the threat; no such rule has a higher priority, and its priority is not
-- negative. There is no answer exactly where every such rule has a negative priority.
pub match_threat-IsBest :
    (threat : Threat) (rules : List SecurityRule) → IsBest threat rules (match_threat threat rules)
unfolding match_threat
match_threat-IsBest threat rules = best_of (match_from-cases threat rules none (negsuc 0))
  where
    best_of :
        {r : Option SecurityRule}
        → Keeps threat rules (negsuc 0) none r ⊎ Beats threat rules (negsuc 0) r
        → IsBest threat rules r
    best_of (inl (e, low)) =
        subst (IsBest threat rules) (sym e)
          (All-map rules (λ rule h c. below rule.priority (h c)) low)
      where
        below : (p : ℤ) → p ≤ℤ negsuc 0 → p <ℤ pos 0
        below p h = omega arith
    best_of (inr (best, e, among, above, low)) =
        subst (IsBest threat rules) (sym e) (among, low, omega arith)

-- The two lists hold the same rules, in any order and number.
abbrev pub SameRules : List SecurityRule → List SecurityRule → Type 0
SameRules xs ys = (rule : SecurityRule) → Any (λ x. rule ≡ x) xs ↔ Any (λ y. rule ≡ y) ys

abbrev pub priority_of : Option SecurityRule → Option ℤ
priority_of none = none
priority_of (some rule) = some rule.priority

flip : (xs ys : List SecurityRule) → SameRules xs ys → SameRules ys xs
flip xs ys s rule = ((s rule).1, (s rule).0)

module _ (threat : Threat) where
  qualifies :
      (best : SecurityRule) (xs : List SecurityRule)
      → Any (λ x. (best ≡ x) × IsCandidate threat x) xs
      → IsCandidate threat best
  qualifies best [] m = absurd m
  qualifies best (x ∷ xs) (inl (e, c)) = subst (IsCandidate threat) (sym e) c
  qualifies best (x ∷ xs) (inr m) = qualifies best xs m

  -- A candidate of one list is bounded by what bounds the other's.
  bounded_by :
      (best : SecurityRule) (P : SecurityRule → Type 0) (xs ys : List SecurityRule)
      → SameRules xs ys
      → Any (λ x. (best ≡ x) × IsCandidate threat x) xs
      → All (λ rule. IsCandidate threat rule → P rule) ys
      → P best
  bounded_by best P xs ys s m h =
      All-at (λ rule. IsCandidate threat rule → P rule) ys h
        ((s best).0 (Any-map xs (λ x p. p.0) m)) (qualifies best xs m)

  same_priority :
      (xs ys : List SecurityRule)
      → SameRules xs ys
      → (r q : Option SecurityRule) → IsBest threat xs r
      → IsBest threat ys q
      → priority_of r ≡ priority_of q
  same_priority xs ys s none none b c = refl
  same_priority xs ys s none (some q) b c =
      absurd (
        omega
          (arith, bounded_by q (λ rule. rule.priority <ℤ pos 0) ys xs (flip xs ys s) c.0 b, c.2))
  same_priority xs ys s (some r) none b c =
      absurd (omega (arith, bounded_by r (λ rule. rule.priority <ℤ pos 0) xs ys s b.0 c, b.2))
  same_priority xs ys s (some r) (some q) b c = ap some (
      ≤ℤ_antisymm r.priority q.priority
        (bounded_by r (λ rule. rule.priority ≤ℤ q.priority) xs ys s b.0 c.1)
        (bounded_by q (λ rule. rule.priority ≤ℤ r.priority) ys xs (flip xs ys s) c.0 b.1))

-- The map gives its rules in any order, and the priority that wins does not depend on it.
match_threat_order :
    (threat : Threat) (xs ys : List SecurityRule)
    → SameRules xs ys
    → priority_of (match_threat threat xs) ≡ priority_of (match_threat threat ys)
match_threat_order threat xs ys s =
    same_priority threat xs ys s _ _ (match_threat-IsBest threat xs) (match_threat-IsBest threat ys)
