-- ===== src/Cloudflare/Rules/Store.antt =====
-- The rule manager of internal/cloudflare/rules.go: its map of rules and the file that keeps it.
-- The file is modelled by what reading it back gives. A rule that a caller passes in is copied.
use runixo_agent.Prelude.{
  ℕ, suc, ◌+◌, Bool, true, false, Option, none, some, List, [], ◌∷◌, Text, Dict, lookup, insert,
  delete, values, length, keep, text_eq, if◌then◌else◌,
}
use runixo_agent.Cloudflare.Threat.{Threat}
use runixo_agent.Cloudflare.Rules.{SecurityRule}
use runixo_agent.Cloudflare.Rules
use runixo_agent.Cloudflare.Rules.Templates.{RuleTemplate, templates, default_templates}
pub mod Persistence
pub mod Edits
pub mod Counts

-- No file that can be read, a file that is no map of rules, or the rules that it holds.
pub data Disk : Type 0 where
  missing garbage : Disk
  holds : Dict SecurityRule → Disk

-- How a write ends: done, refused before the file was touched, or broken off.
pub data Write : Type 0 where
  done refused broken : Write

-- Without the path of the data, which only names the file.
pub record RuleManager : Type 0 where
  pub rules : Dict SecurityRule
  pub templates : Dict RuleTemplate
  pub disk : Disk

unfoldable pub written : Write → Dict SecurityRule → Disk → Disk
written done rules disk = holds rules
written refused rules disk = disk
written broken rules disk = garbage

unfoldable pub save_rules : Write → RuleManager → RuleManager
save_rules w rm = record rm { disk = written w rm.rules rm.disk }

-- A rule under a new id, at the present time.
unfoldable pub stamped : Text → ℕ → SecurityRule → SecurityRule
stamped id now rule = record rule { id = id; created_at = now; updated_at = now }

unfoldable pub get_template : Text → RuleManager → Option RuleTemplate
get_template id rm = lookup id rm.templates

unfoldable pub get_templates : RuleManager → List RuleTemplate
get_templates rm = values rm.templates

-- `generated` is what `generateRuleID` gives.
unfoldable pub create_rule_from_template :
    Write → Text → ℕ → Text → RuleManager → RuleManager × Option SecurityRule
create_rule_from_template w generated now template_id rm = elim (lookup template_id rm.templates) [
  | none ↦ (rm, none)
  | some template ↦
      let rule = stamped generated now template.rule in
      (save_rules w (record rm { rules = insert generated rule rm.rules }), some rule)
]

unfoldable pub rule_id : Text → SecurityRule → Text
rule_id generated rule = if text_eq rule.id [] then generated else rule.id

unfoldable pub create_rule : Write → Text → ℕ → SecurityRule → RuleManager → RuleManager
create_rule w generated now rule rm =
    let id = rule_id generated rule in
    save_rules w (record rm { rules = insert id (stamped id now rule) rm.rules })

unfoldable pub update_rule : Write → ℕ → SecurityRule → RuleManager → RuleManager
update_rule w now rule rm = elim (lookup rule.id rm.rules) [
  | none ↦ rm
  | some old ↦
      save_rules w
        (record rm { rules = insert rule.id (record rule { updated_at = now }) rm.rules })
]

unfoldable pub delete_rule : Write → Text → RuleManager → RuleManager
delete_rule w id rm = elim (lookup id rm.rules) [
  | none ↦ rm
  | some old ↦ save_rules w (record rm { rules = delete id rm.rules })
]

unfoldable pub get_rule : Text → RuleManager → Option SecurityRule
get_rule id rm = lookup id rm.rules

unfoldable pub get_rules : RuleManager → List SecurityRule
get_rules rm = values rm.rules

unfoldable pub get_enabled_rules : RuleManager → List SecurityRule
get_enabled_rules rm = keep (λ r. r.enabled) (values rm.rules)

-- `EnableRule` and `DisableRule` write through the pointer that the map holds.
unfoldable pub switch_rule : Bool → Write → ℕ → Text → RuleManager → RuleManager
switch_rule on w now id rm = elim (lookup id rm.rules) [
  | none ↦ rm
  | some rule ↦
      save_rules w
        (record rm { rules = insert id (record rule { enabled = on; updated_at = now }) rm.rules })
]

unfoldable pub enable_rule : Write → ℕ → Text → RuleManager → RuleManager
enable_rule = switch_rule true

unfoldable pub disable_rule : Write → ℕ → Text → RuleManager → RuleManager
disable_rule = switch_rule false

unfoldable pub match_threat : Threat → RuleManager → Option SecurityRule
match_threat threat rm = Rules.match_threat threat (values rm.rules)

-- The loop of `initDefaultRules`; `generate k` is the id that the k-th call of `generateRuleID`
-- gives.
unfoldable pub add_defaults :
    (ℕ → Text) → ℕ → ℕ → List Text → Dict RuleTemplate → Dict SecurityRule → Dict SecurityRule
add_defaults generate k now [] ts rules = rules
add_defaults generate k now (id ∷ ids) ts rules =
    add_defaults generate (suc k) now ids ts (elim (lookup id ts) [
      | none ↦ rules
      | some template ↦ insert (generate k) (stamped (generate k) now template.rule) rules
    ])

unfoldable pub init_default_rules : Write → (ℕ → Text) → ℕ → RuleManager → RuleManager
init_default_rules w generate now rm =
    save_rules w
      (record rm { rules = add_defaults generate 0 now default_templates rm.templates rm.rules })

unfoldable pub load_from : Disk → Write → (ℕ → Text) → ℕ → RuleManager → RuleManager
load_from missing w generate now rm = init_default_rules w generate now rm
load_from garbage w generate now rm = init_default_rules w generate now rm
load_from (holds rules) w generate now rm = record rm { rules = rules }

unfoldable pub load_rules : Write → (ℕ → Text) → ℕ → RuleManager → RuleManager
load_rules w generate now rm = load_from rm.disk w generate now rm

unfoldable pub new_rule_manager : Disk → Write → (ℕ → Text) → ℕ → RuleManager
new_rule_manager disk w generate now =
    load_rules w generate now (record { rules = []; templates = templates; disk = disk })

pub record Stats : Type 0 where
  pub total_rules : ℕ
  pub enabled_rules : ℕ
  pub disabled_rules : ℕ
  pub by_type : Dict ℕ

-- A map's entry, or the 0 that Go reads where there is none.
unfoldable pub count_at : Text → Dict ℕ → ℕ
count_at t m = elim (lookup t m) [ none ↦ 0 | some n ↦ n ]

abbrev pub count_rule : SecurityRule → Stats → Stats
count_rule r stats = record stats {
  enabled_rules = if r.enabled then suc stats.enabled_rules else stats.enabled_rules;
  disabled_rules = if r.enabled then stats.disabled_rules else suc stats.disabled_rules;
  by_type = insert r.rule_type (suc (count_at r.rule_type stats.by_type)) stats.by_type;
}

-- The loop of `GetStats`.
unfoldable pub count_rules : List SecurityRule → Stats → Stats
count_rules [] stats = stats
count_rules (r ∷ rs) stats = count_rules rs (count_rule r stats)

unfoldable pub get_stats : RuleManager → Stats
get_stats rm =
    count_rules (values rm.rules) (record {
      total_rules = length rm.rules;
      enabled_rules = 0;
      disabled_rules = 0;
      by_type = [];
    })
