-- ===== src/Cloudflare/Rules/Store/Edits.antt =====
-- What each edit of the rule manager does to each of the rules.
use runixo_agent.Prelude.{
  ℕ, ◌≡◌, refl, sym, ap, ◌∙◌, Bool, true, false, ◌&&◌, Option, none, some, Text, lookup, insert,
  is_some, lookup-insert, lookup-delete, text_eq, text_eq_iff, if◌then◌else◌, arith,
}
use runixo_agent.Cloudflare.Rules.{SecurityRule}
use runixo_agent.Cloudflare.Rules.Store.{
  Write, RuleManager, save_rules, stamped, rule_id, create_rule, update_rule, delete_rule, get_rule,
  switch_rule, enable_rule, disable_rule,
}

-- The rule with the switch set and the time of the change.
abbrev pub switched : Bool → ℕ → Option SecurityRule → Option SecurityRule
switched on now none = none
switched on now (some rule) = some (record rule { enabled = on; updated_at = now })

module _ (w : Write) (now : ℕ) (j : Text) (rm : RuleManager) where
  get_rule-create :
      (generated : Text) (rule : SecurityRule)
      → get_rule j (create_rule w generated now rule rm) ≡ (
          if text_eq (rule_id generated rule) j
          then some (stamped (rule_id generated rule) now rule)
          else get_rule j rm)
  unfolding get_rule create_rule save_rules
  get_rule-create generated rule = lookup-insert _ j _ rm.rules

  get_rule-update :
      (rule : SecurityRule)
      → get_rule j (update_rule w now rule rm) ≡ (
          if text_eq rule.id j && is_some (get_rule rule.id rm)
          then some (record rule { updated_at = now })
          else get_rule j rm)
  unfolding get_rule update_rule save_rules
  get_rule-update rule =
      ground (arith, lookup-insert rule.id j (record rule { updated_at = now }) rm.rules)

  get_rule-delete :
      (id : Text)
      → get_rule j (delete_rule w id rm) ≡ (if text_eq id j then none else get_rule j rm)
  unfolding get_rule delete_rule save_rules
  get_rule-delete id = ground (arith, lookup-delete id j rm.rules, text_eq_iff id j)

  get_rule-switch :
      (on : Bool) (id : Text)
      → get_rule j (switch_rule on w now id rm)
        ≡ (if text_eq id j then switched on now (get_rule id rm) else get_rule j rm)
  unfolding get_rule switch_rule save_rules
  get_rule-switch on id = by_old (lookup id rm.rules) refl
    where
      none_there :
          (b : Bool)
          → (b ≡ true → id ≡ j)
          → lookup id rm.rules ≡ none
          → lookup j rm.rules ≡ (if b then none else lookup j rm.rules)
      none_there true h e = ap (λ x. lookup x rm.rules) (sym (h refl)) ∙ e
      none_there false h e = refl

      by_old :
          (old : Option SecurityRule)
          → lookup id rm.rules ≡ old
          → lookup j
              (elim old as (λ x. RuleManager) [
                | none ↦ rm
                | some rule ↦ save_rules w (record rm {
                  rules = insert id (record rule { enabled = on; updated_at = now }) rm.rules;
                })
              ]).rules
            ≡ (if text_eq id j then switched on now old else lookup j rm.rules)
      by_old none e = none_there (text_eq id j) (λ h. (text_eq_iff id j).0 h) e
      by_old (some rule) e =
          lookup-insert id j (record rule { enabled = on; updated_at = now }) rm.rules

-- What the rule `j` is after an edit, whatever the write to the file did. A creation sets the rule
-- under its id, or under the generated one where it has none, with both times the present one. An
-- update replaces a rule that is there and adds none; a deletion takes the rule out; enabling and
-- disabling set the switch of a rule that is there. Every other rule is as it was.
rule_edits :
    (w : Write) (now : ℕ) (j : Text) (rm : RuleManager) (generated id : Text) (rule : SecurityRule)
    → (get_rule j (create_rule w generated now rule rm) ≡ (
        if text_eq (rule_id generated rule) j
        then some (stamped (rule_id generated rule) now rule)
        else get_rule j rm))
      × (get_rule j (update_rule w now rule rm) ≡ (
          if text_eq rule.id j && is_some (get_rule rule.id rm)
          then some (record rule { updated_at = now })
          else get_rule j rm))
      × (get_rule j (delete_rule w id rm) ≡ (if text_eq id j then none else get_rule j rm))
      × (get_rule j (enable_rule w now id rm)
          ≡ (if text_eq id j then switched true now (get_rule id rm) else get_rule j rm))
      × (get_rule j (disable_rule w now id rm)
          ≡ (if text_eq id j then switched false now (get_rule id rm) else get_rule j rm))
unfolding enable_rule disable_rule
rule_edits w now j rm generated id rule = (
  get_rule-create w now j rm generated rule,
  get_rule-update w now j rm rule,
  get_rule-delete w now j rm id,
  get_rule-switch w now j rm true id,
  get_rule-switch w now j rm false id,
)
