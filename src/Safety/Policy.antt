-- ===== src/Safety/Policy.antt =====
-- internal/safety/policy: rules with a pattern, a severity and an action. A compiled pattern is the
-- test that Go's regexp makes of it; `compile` stands for regexp.MustCompile.
use ironclaw_go.Shared.{
  String, Bool, false, Option, none, some, List, [], ◌∷◌, ◌++◌, Bytes, if◌then◌else◌,
}

-- Severity
pub data Severity : Type 0 where
  low medium high critical : Severity

-- Action
pub data Action : Type 0 where
  flag block sanitize : Action

-- Rule
pub record Rule : Type 0 where
  pub id : String
  pub description : String
  pub pattern : Option (Bytes → Bool)
  pub severity : Severity
  pub action : Action

-- Violation
pub record Violation : Type 0 where
  pub rule_id : String
  pub description : String
  pub severity : Severity
  pub action : Action
  pub matched_text : Bytes

-- Policy
pub record Policy : Type 0 where
  pub rules : List Rule

-- New
unfoldable pub new_policy : Policy
new_policy = record { rules = [] }

-- Policy.AddRule
unfoldable pub add_rule : Rule → Policy → Policy
add_rule r p = record { rules = p.rules ++ r ∷ [] }

-- rule.Pattern != nil && rule.Pattern.MatchString(content)
unfoldable pub fires : Rule → Bytes → Bool
fires rule content = elim rule.pattern [ none ↦ false | some test ↦ test content ]

-- The violation of a rule that fires.
abbrev pub violation_of : Rule → Bytes → Violation
violation_of rule content = record {
  rule_id = rule.id;
  description = rule.description;
  severity = rule.severity;
  action = rule.action;
  matched_text = content;
}

-- The loop of Evaluate.
unfoldable pub violations : List Rule → Bytes → List Violation
unfolding fires
violations [] content = []
violations (rule ∷ rules) content =
    let rest = violations rules content in
    if fires rule content then violation_of rule content ∷ rest else rest

-- Policy.Evaluate
unfoldable pub evaluate : Policy → Bytes → List Violation
unfolding violations
evaluate p content = violations p.rules content

-- A rule of LoadDefaults: each blocks.
abbrev default_rule : (String → Bytes → Bool) → String → String → String → Severity → Rule
default_rule compile id description pattern severity = record {
  id = id;
  description = description;
  pattern = some (compile pattern);
  severity = severity;
  action = block;
}

-- Policy.LoadDefaults
unfoldable pub load_defaults : (String → Bytes → Bool) → Policy → Policy
unfolding add_rule
load_defaults compile p =
    let rule = default_rule compile in
    let p1 =
      add_rule
        (rule "ignore-previous" "Attempt to override previous instructions"
          "(?i)ignore\\s+(all\\s+)?previous\\s+(instructions|commands)" high)
        p in
    let p2 =
      add_rule
        (rule "disregard-prior" "Attempt to disregard prior instructions"
          "(?i)disregard\\s+(all\\s+)?(prior|previous)" medium)
        p1 in
    let p3 =
      add_rule (rule "forget-everything" "Attempt to reset context" "(?i)forget\\s+everything" high)
        p2 in
    let p4 =
      add_rule (rule "system-prompt" "Attempt to access system prompt" "(?i)system\\s+prompt" high)
        p3 in
    let p5 =
      add_rule
        (rule "dan-mode" "Attempt to enable jailbreak mode" "(?i)DAN\\s*mode|jailbreak" critical)
        p4 in
    add_rule
      (rule "xml-injection" "Potential XML tag injection" "(?i)<\\/\\s*(system|instructions)\\s*>"
        high)
      p5
