-- ===== src/Cloudflare/Tests.antt =====
-- The theorems of the rules at concrete inputs, and runs of the code.
use runixo_agent.Prelude.{
  ℕ, ◌≡◌, refl, true, ◌+◌, none, some, List, [], ◌∷◌, Text, codes, text_eq, inl, inr,
}
use runixo_agent.Prelude.Int.{pos, negsuc}
use runixo_agent.Cloudflare.Threat.{Threat}
use runixo_agent.Cloudflare.Rules.{SecurityRule, RuleCond, unmarshal_int}
use runixo_agent.Cloudflare.Rules
use runixo_agent.Cloudflare.Rules.Best.{IsBest, SameRules, match_threat-IsBest}
use runixo_agent.Cloudflare.Rules.Templates.{ssh_brute_force, web_scanner}
use runixo_agent.Cloudflare.Rules.Store.{
  missing, garbage, done, RuleManager, stamped, new_rule_manager,
}
use runixo_agent.Cloudflare.Rules.Store.Persistence.{
  Edit, create, delete, disable, after_edits, restart_keeps_rules,
}

abbrev guessing : Threat
guessing = record {
  id = codes "t1";
  ip = codes "10.0.0.1";
  threat_type = codes "brute_force";
  score = pos 100;
  description = [];
  source = [];
  line = [];
  timestamp = 0;
  count = pos 5;
}

abbrev two_rules : List SecurityRule
two_rules = web_scanner.rule ∷ ssh_brute_force.rule ∷ []

abbrev two_rules' : List SecurityRule
two_rules' = ssh_brute_force.rule ∷ web_scanner.rule ∷ []

parses :
    (unmarshal_int (codes " -12 ") ≡ some (negsuc 11))
    × (unmarshal_int (codes "012") ≡ none)
    × (unmarshal_int (codes "9223372036854775808") ≡ none)
    × (unmarshal_int (codes "null") ≡ some (pos 0))
unfolding unmarshal_int
parses = (refl, refl, refl, refl)

match_threat-IsBest_example : IsBest guessing two_rules (Rules.match_threat guessing two_rules)
match_threat-IsBest_example = match_threat-IsBest guessing two_rules

finds_ssh : Rules.match_threat guessing two_rules ≡ some ssh_brute_force.rule
unfolding Rules.match_threat Rules.match_from Rules.match_conditions Rules.match_condition text_eq
    unmarshal_int
finds_ssh = refl

swapped : SameRules two_rules two_rules'
swapped rule = (
  λ m. elim m [ inl e ↦ inr (inl e) | inr (inl e) ↦ inl e | inr (inr b) ↦ absurd b ],
  λ m. elim m [ inl e ↦ inr (inl e) | inr (inl e) ↦ inl e | inr (inr b) ↦ absurd b ],
)

ssh_matches : Rules.match_conditions ssh_brute_force.rule.conditions guessing ≡ true
unfolding Rules.match_conditions Rules.match_condition text_eq unmarshal_int
ssh_matches = refl

abbrev numbered : ℕ → Text
numbered n = (48 + n) ∷ []

abbrev some_edits : List Edit
some_edits =
    create (codes "a") 5 web_scanner.rule ∷ disable 6 (codes "a") ∷ delete 7 (codes "b") ∷ []

restart_keeps_rules_example :
    let rm = after_edits some_edits (new_rule_manager missing done numbered 1) in
    (new_rule_manager rm.disk done numbered 9).rules ≡ rm.rules
restart_keeps_rules_example = restart_keeps_rules missing numbered numbered 1 9 some_edits

abbrev one_rule : RuleManager
one_rule = record {
  rules = (codes "a", stamped (codes "a") 1 web_scanner.rule) ∷ [];
  templates = [];
  disk = garbage;
}
