-- ===== src/Cloudflare/Rules.antt =====
-- The rules of internal/cloudflare/rules.go and how a threat is matched against them.
use runixo_agent.Prelude.{
  ℕ, suc, ◌+◌, ◌-◌, ◌*◌, Bool, true, false, not, ◌&&◌, ◌||◌, Option, none, some, List, [], ◌∷◌,
  Text, codes, length, any, all, leb, ltb, ◌==◌, text_eq, search_from, substring_rounds,
  if◌then◌else◌,
}
use runixo_agent.Prelude.Int.{ℤ, pos, negsuc, ltb_ℤ, leb_ℤ, eq_ℤ}
use runixo_agent.Cloudflare.Threat.{Threat}
pub mod Best
pub mod Fields
pub mod Templates
pub mod Store

pub record RuleCond : Type 0 where
  pub field : Text
  pub operator : Text
  pub value : Text

pub record RuleAction : Type 0 where
  pub action_type : Text
  pub duration : ℤ
  pub message : Text

pub record SecurityRule : Type 0 where
  pub id : Text
  pub name : Text
  pub description : Text
  pub rule_type : Text
  pub enabled : Bool
  pub priority : ℤ
  pub conditions : List RuleCond
  pub action : RuleAction
  pub created_at : ℕ
  pub updated_at : ℕ

unfoldable pub contains_string : Text → Text → Bool
contains_string s substr = search_from (substring_rounds s substr) s substr

unfoldable pub compare_string : Text → Text → Text → Bool
unfolding contains_string
compare_string value operator target =
    if text_eq operator (codes "eq")
    then text_eq value target
    else if text_eq operator (codes "ne")
    then not (text_eq value target)
    else if text_eq operator (codes "contains")
    then leb (length target) (length value) && contains_string value target
    else false

-- Go's `json.Unmarshal` into an `int`: a number of the grammar of JSON with no fraction and no
-- exponent that fits 64 bits, or `null`, which leaves the 0 that is there; blanks around it are
-- skipped, and anything else is an error.
abbrev is_blank : ℕ → Bool
is_blank c = c == b' ' || (c == 9 || (c == 10 || c == 13))

skip_blanks : Text → Text
skip_blanks [] = []
skip_blanks (c ∷ s) = if is_blank c then skip_blanks s else c ∷ s

-- The digits up to the end of the text, blanks left out.
digits_to_end : Text → ℕ → Option ℕ
digits_to_end [] n = some n
digits_to_end (c ∷ s) n =
    let more = digits_to_end s (n * 10 + (c - b'0')) in
    if leb b'0' c && leb c b'9' then more else if is_blank c && all is_blank s then some n else none

unsigned : Text → Option ℕ
unfolding digits_to_end
unsigned [] = none
unsigned (c ∷ s) =
    if c == b'0'
    then (if all is_blank s then some 0 else none)
    else if leb b'1' c && leb c b'9'
    then digits_to_end s (c - b'0')
    else none

abbrev in_range : ℕ → (ℕ → ℤ) → Option ℕ → Option ℤ
in_range top sign none = none
in_range top sign (some n) = if leb n top then some (sign n) else none

negated : ℕ → ℤ
negated n = if n == 0 then pos 0 else negsuc (n - 1)

signed : Text → Option ℤ
unfolding unsigned negated
signed [] = none
signed (c ∷ s) =
    if c == b'-'
    then in_range 9_223_372_036_854_775_808 negated (unsigned s)
    else in_range 9_223_372_036_854_775_807 pos (unsigned (c ∷ s))

is_null : Text → Bool
is_null (n ∷ u ∷ l ∷ k ∷ s) =
    n == b'n' && (u == b'u' && (l == b'l' && (k == b'l' && all is_blank s)))
is_null _ = false

unfoldable pub unmarshal_int : Text → Option ℤ
unfolding skip_blanks signed is_null
unmarshal_int s =
    let t = skip_blanks s in let number = signed t in if is_null t then some (pos 0) else number

abbrev pub compare_int : ℤ → Text → ℤ → Bool
compare_int value operator target =
    if text_eq operator (codes "eq")
    then eq_ℤ value target
    else if text_eq operator (codes "ne")
    then not (eq_ℤ value target)
    else if text_eq operator (codes "gt")
    then ltb_ℤ target value
    else if text_eq operator (codes "gte")
    then leb_ℤ target value
    else if text_eq operator (codes "lt")
    then ltb_ℤ value target
    else if text_eq operator (codes "lte")
    then leb_ℤ value target
    else false

unfoldable pub compare_numeric : ℤ → Text → Text → Bool
compare_numeric value operator target = elim (unmarshal_int target) [
  | none ↦ false
  | some n ↦ compare_int value operator n
]

unfoldable pub match_condition : RuleCond → Threat → Bool
unfolding compare_string compare_numeric
match_condition cond threat =
    if text_eq cond.field (codes "threat_type")
    then compare_string threat.threat_type cond.operator cond.value
    else if text_eq cond.field (codes "ip")
    then compare_string threat.ip cond.operator cond.value
    else if text_eq cond.field (codes "score")
    then compare_numeric threat.score cond.operator cond.value
    else false

unfoldable pub match_conditions : List RuleCond → Threat → Bool
match_conditions [] threat = true
match_conditions (cond ∷ conds) threat =
    if not (match_condition cond threat) then false else match_conditions conds threat

-- The loop of `MatchThreat`, over the rules in the order in which the map gives them, with the best
-- rule and the highest priority so far.
unfoldable pub match_from :
    Threat → List SecurityRule → Option SecurityRule → ℤ → Option SecurityRule
match_from threat [] matched highest = matched
match_from threat (rule ∷ rules) matched highest =
    let hit =
      rule.enabled && (match_conditions rule.conditions threat && ltb_ℤ highest rule.priority) in
    match_from threat rules (if hit then some rule else matched)
      (if hit then rule.priority else highest)

unfoldable pub match_threat : Threat → List SecurityRule → Option SecurityRule
match_threat threat rules = match_from threat rules none (negsuc 0)
