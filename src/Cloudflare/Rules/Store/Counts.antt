-- ===== src/Cloudflare/Rules/Store/Counts.antt =====
-- What the statistics of the rules count.
use runixo_agent.Prelude.{
  ℕ, suc, ◌+◌, ◌≡◌, refl, ap, List, [], ◌∷◌, Text, Dict, lookup, insert, values, length, keep,
  lookup-insert, text_eq, text_eq_iff, if◌then◌else◌, arith,
}
use runixo_agent.Cloudflare.Rules.{SecurityRule}
use runixo_agent.Cloudflare.Rules.Store.{
  RuleManager, Stats, count_at, count_rule, count_rules, get_rules, get_stats, get_enabled_rules,
}

length-values : {V : Type 0} (m : Dict V) → length (values m) ≡ length m
length-values [] = refl
length-values ((k, v) ∷ m) = ap suc (length-values m)

count_at-insert :
    (t u : Text) (n : ℕ) (m : Dict ℕ)
    → count_at t (insert u n m) ≡ (if text_eq u t then n else count_at t m)
unfolding count_at
count_at-insert t u n m = ground (arith, lookup-insert u t n m)

by_type-count_rule :
    (t : Text) (r : SecurityRule) (stats : Stats)
    → count_at t (count_rule r stats).by_type
      ≡ (if text_eq r.rule_type t then suc (count_at t stats.by_type) else count_at t stats.by_type)
by_type-count_rule t r stats = ground (
  arith,
  count_at-insert t r.rule_type (suc (count_at r.rule_type stats.by_type)) stats.by_type,
  text_eq_iff r.rule_type t,
)

count_rules_lem :
    (t : Text) (rs : List SecurityRule) (stats : Stats)
    → let s = count_rules rs stats in
      (s.total_rules ≡ stats.total_rules)
      × (s.enabled_rules ≡ stats.enabled_rules + length (keep (λ r. r.enabled) rs))
      × (s.enabled_rules + s.disabled_rules
          ≡ stats.enabled_rules + (stats.disabled_rules + length rs))
      × (count_at t s.by_type
          ≡ count_at t stats.by_type + length (keep (λ r. text_eq r.rule_type t) rs))
unfolding count_rules
count_rules_lem t [] stats = (refl, omega arith, omega arith, omega arith)
count_rules_lem t (r ∷ rs) stats =
    let (total, on, all_, typed) = count_rules_lem t rs (count_rule r stats) in
    (
      total,
      ground (arith, on),
      ground (arith, all_),
      ground (arith, typed, by_type-count_rule t r stats),
    )

-- The statistics count every rule once: the total is the number of rules and the sum of those
-- that are enabled and those that are not, the enabled are those that `GetEnabledRules` lists,
-- and the entry of a type is the number of rules of that type, 0 where there is none.
get_stats_lem :
    (rm : RuleManager) (t : Text)
    → let s = get_stats rm in
      (s.total_rules ≡ length rm.rules)
      × (s.enabled_rules + s.disabled_rules ≡ s.total_rules)
      × (s.enabled_rules ≡ length (get_enabled_rules rm))
      × (count_at t s.by_type ≡ length (keep (λ r. text_eq r.rule_type t) (get_rules rm)))
unfolding get_stats get_enabled_rules get_rules count_at lookup
get_stats_lem rm t =
    let (total, on, all_, typed) = count_rules_lem t (values rm.rules) (record {
      total_rules = length rm.rules;
      enabled_rules = 0;
      disabled_rules = 0;
      by_type = [];
    }) in
    (
      total,
      omega (arith, total, all_, length-values rm.rules),
      omega (arith, on),
      omega (arith, typed),
    )
