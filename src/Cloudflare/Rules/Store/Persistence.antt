-- ===== src/Cloudflare/Rules/Store/Persistence.antt =====
-- The file keeps up with the rules, so that a restart has the rules of before.
use runixo_agent.Prelude.{ℕ, ◌≡◌, refl, ap, ◌∙◌, List, [], ◌∷◌, Text, Dict, arith}
use runixo_agent.Cloudflare.Rules.{SecurityRule}
use runixo_agent.Cloudflare.Rules.Store.{
  Disk, missing, garbage, holds, done, RuleManager, save_rules, written, create_rule_from_template,
  create_rule, update_rule, delete_rule, switch_rule, enable_rule, disable_rule, init_default_rules,
  load_from, load_rules, new_rule_manager,
}

-- The calls that may change the rules, each with its time and the id that it generates.
pub data Edit : Type 0 where
  from_template : Text → ℕ → Text → Edit
  create : Text → ℕ → SecurityRule → Edit
  update : ℕ → SecurityRule → Edit
  delete enable disable : ℕ → Text → Edit

unfoldable pub edit_step : Edit → RuleManager → RuleManager
edit_step (from_template generated now id) rm =
    (create_rule_from_template done generated now id rm).0
edit_step (create generated now rule) rm = create_rule done generated now rule rm
edit_step (update now rule) rm = update_rule done now rule rm
edit_step (delete now id) rm = delete_rule done id rm
edit_step (enable now id) rm = enable_rule done now id rm
edit_step (disable now id) rm = disable_rule done now id rm

unfoldable pub after_edits : List Edit → RuleManager → RuleManager
after_edits [] rm = rm
after_edits (e ∷ es) rm = after_edits es (edit_step e rm)

abbrev IsSaved : RuleManager → Type 0
IsSaved rm = rm.disk ≡ holds rm.rules

edit_step-IsSaved : (e : Edit) (rm : RuleManager) → IsSaved rm → IsSaved (edit_step e rm)
unfolding edit_step create_rule_from_template create_rule update_rule delete_rule enable_rule
    disable_rule switch_rule save_rules written
edit_step-IsSaved (from_template generated now id) rm s = ground arith
edit_step-IsSaved (create generated now rule) rm s = refl
edit_step-IsSaved (update now rule) rm s = ground arith
edit_step-IsSaved (delete now id) rm s = ground arith
edit_step-IsSaved (enable now id) rm s = ground arith
edit_step-IsSaved (disable now id) rm s = ground arith

after_edits-IsSaved : (es : List Edit) (rm : RuleManager) → IsSaved rm → IsSaved (after_edits es rm)
unfolding after_edits
after_edits-IsSaved [] rm s = s
after_edits-IsSaved (e ∷ es) rm s =
    after_edits-IsSaved es (edit_step e rm) (edit_step-IsSaved e rm s)

new_rule_manager-IsSaved :
    (disk : Disk) (generate : ℕ → Text) (now : ℕ)
    → IsSaved (new_rule_manager disk done generate now)
unfolding new_rule_manager load_rules load_from init_default_rules save_rules written
new_rule_manager-IsSaved missing generate now = refl
new_rule_manager-IsSaved garbage generate now = refl
new_rule_manager-IsSaved (holds rules) generate now = refl

reload :
    (rules : Dict SecurityRule) (generate : ℕ → Text) (now : ℕ)
    → (new_rule_manager (holds rules) done generate now).rules ≡ rules
unfolding new_rule_manager load_rules load_from
reload rules generate now = refl

-- Start from any file, make any edits, and start again from the file that they left: the rules are
-- those of before the restart. Every write is taken to succeed.
pub restart_keeps_rules :
    (disk : Disk) (generate generate' : ℕ → Text) (now later : ℕ) (es : List Edit)
    → let rm = after_edits es (new_rule_manager disk done generate now) in
      (new_rule_manager rm.disk done generate' later).rules ≡ rm.rules
restart_keeps_rules disk generate generate' now later es =
    let rm : RuleManager = after_edits es (new_rule_manager disk done generate now) in
    let saved : IsSaved rm =
      after_edits-IsSaved es _ (new_rule_manager-IsSaved disk generate now) in
    ap (λ d. (new_rule_manager d done generate' later).rules) saved
    ∙ reload rm.rules generate' later
