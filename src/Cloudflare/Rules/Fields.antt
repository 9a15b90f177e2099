-- ===== src/Cloudflare/Rules/Fields.antt =====
-- The fields and the operators that a rule can match with.
use runixo_agent.Prelude.{
  Bool, true, false, ◌&&◌, ◌||◌, List, [], ◌∷◌, Text, codes, ◌≡◌, refl, text_eq, All, any, arith,
}
use runixo_agent.Prelude.Int.{ℤ}
use runixo_agent.Cloudflare.Threat.{Threat}
use runixo_agent.Cloudflare.Rules.{
  RuleCond, match_condition, match_conditions, compare_string, compare_numeric, compare_int,
}
use runixo_agent.Cloudflare.Rules.Templates.{rate_limit_general}

abbrev pub is_one_of : List Text → Text → Bool
is_one_of names s = any (λ name. text_eq s name) names

-- The type or the address of the threat compared as a text, or its score compared as a number.
abbrev pub is_known : RuleCond → Bool
is_known cond =
    (is_one_of (codes "threat_type" ∷ codes "ip" ∷ []) cond.field
      && is_one_of (codes "eq" ∷ codes "ne" ∷ codes "contains" ∷ []) cond.operator)
    || (text_eq cond.field (codes "score")
        && is_one_of
            (codes "eq" ∷ codes "ne" ∷ codes "gt" ∷ codes "gte" ∷ codes "lt" ∷ codes "lte" ∷ [])
            cond.operator)

string_operator :
    (value operator target : Text)
    → compare_string value operator target ≡ true
    → is_one_of (codes "eq" ∷ codes "ne" ∷ codes "contains" ∷ []) operator ≡ true
unfolding compare_string
string_operator value operator target h = ground arith

int_operator :
    (value target : ℤ) (operator : Text)
    → compare_int value operator target ≡ true
    → is_one_of
        (codes "eq" ∷ codes "ne" ∷ codes "gt" ∷ codes "gte" ∷ codes "lt" ∷ codes "lte" ∷ [])
        operator
      ≡ true
int_operator value target operator h = ground arith

numeric_operator :
    (value : ℤ) (operator target : Text)
    → compare_numeric value operator target ≡ true
    → is_one_of
        (codes "eq" ∷ codes "ne" ∷ codes "gt" ∷ codes "gte" ∷ codes "lt" ∷ codes "lte" ∷ [])
        operator
      ≡ true
unfolding compare_numeric
numeric_operator value operator target h = ground (arith, λ (n : ℤ). int_operator value n operator)

match_condition-known :
    (cond : RuleCond) (threat : Threat) → match_condition cond threat ≡ true → is_known cond ≡ true
unfolding match_condition
match_condition-known cond threat h = ground (
  arith,
  string_operator threat.threat_type cond.operator cond.value,
  string_operator threat.ip cond.operator cond.value,
  numeric_operator threat.score cond.operator cond.value,
)

-- Conditions that match some threat all read the type, the address or the score of it, with an
-- operator for texts or for numbers: no other field and no other operator ever matches.
match_conditions-known :
    (threat : Threat) (conds : List RuleCond)
    → match_conditions conds threat ≡ true
    → All (λ cond. is_known cond ≡ true) conds
unfolding match_conditions
match_conditions-known threat [] h = tt
match_conditions-known threat (cond ∷ conds) h = (
  match_condition-known cond threat (ground arith),
  match_conditions-known threat conds (ground arith),
)

-- So a rule made of the template for rate limits matches no threat.
rate_limit_never_matches :
    (threat : Threat) → match_conditions rate_limit_general.rule.conditions threat ≡ false
unfolding match_conditions match_condition text_eq
rate_limit_never_matches threat = refl
