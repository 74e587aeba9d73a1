-- ===== src/Gate/Risk.antt =====
-- internal/gate/risk.go: approval requirements from the risk of a call, the user's trust level and
-- the approvals learned before.
pub mod Laws
pub mod Tests
use ironclaw_go.Shared.{
  ℕ, ◌+◌, ◌*◌, ◌^◌, String, Bool, true, false, not, ◌&&◌, ◌||◌, Option, none, some, List, [], ◌∷◌,
  Params, Value, string, other, Dict, get, put, retain, length, text_at, concat, contains,
  starts_with, any, ltb, ◌==◌, if◌then◌else◌,
}
use ironclaw_go.Gate.{ApprovalRequirement, never, unless_auto_approved, always}

-- RiskLevel
pub data RiskLevel : Type 0 where
  risk_low risk_medium risk_high : RiskLevel

-- TrustLevel
pub data TrustLevel : Type 0 where
  trust_cautious trust_balanced trust_permissive : TrustLevel

-- AutoApproveEntry
pub record AutoApproveEntry : Type 0 where
  pub key : String
  pub user_id : String
  pub approved_at : ℕ
  pub last_used : ℕ

-- learnedAutoApproveTTL: seven days
abbrev pub learned_auto_approve_ttl : ℕ
learned_auto_approve_ttl = 7 * 24 * 3600 * 10 ^ 9

-- RiskBasedEvaluator
pub record RiskBasedEvaluator : Type 0 where
  pub trust_level : TrustLevel
  pub learned : Dict AutoApproveEntry

-- NewRiskBasedEvaluator
unfoldable pub new_risk_based_evaluator : TrustLevel → RiskBasedEvaluator
new_risk_based_evaluator trust = record { trust_level = trust; learned = [] }

abbrev pub local_prefixes : List String
local_prefixes = "localhost" ∷ "127.0.0.1" ∷ "0.0.0.0" ∷ "::1" ∷ []

abbrev pub private_prefixes : List String
private_prefixes =
    "192.168." ∷ "10." ∷ "172.16." ∷ "172.17." ∷ "172.18." ∷ "172.19." ∷ "172.20." ∷ "172.21."
    ∷ "172.22." ∷ "172.23." ∷ "172.24." ∷ "172.25." ∷ "172.26." ∷ "172.27." ∷ "172.28." ∷ "172.29."
    ∷ "172.30." ∷ "172.31." ∷ []

-- isExternalDomain
unfoldable pub is_external_domain : String → Bool
is_external_domain url =
    if url == ""
    then false
    else if any (contains url) local_prefixes
    then false
    else if any
        (λ p.
          starts_with url (concat ("http://" ∷ p ∷ []))
          || starts_with url (concat ("https://" ∷ p ∷ [])))
        private_prefixes
    then false
    else true

-- RiskBasedEvaluator.assessRisk
unfoldable pub assess_risk : String → Params → RiskLevel
assess_risk tool params =
    if tool == "shell"
    then risk_high
    else if tool == "file"
    then (let action = text_at "action" params in
        if action == "read"
        then risk_low
        else if action == "write"
        then risk_medium
        else if action == "delete" || action == "mkdir"
        then risk_high
        else risk_medium)
    else if tool == "http"
    then (let method = text_at "method" params in
        if method == "GET" || method == "HEAD"
        then risk_low
        else if is_external_domain (text_at "url" params)
        then risk_high
        else risk_medium)
    else if tool == "memory"
    then (if text_at "action" params == "get" then risk_low else risk_medium)
    else if tool == "echo" || tool == "time" || tool == "json"
    then risk_low
    else risk_medium

-- autoApproveKey
unfoldable pub auto_approve_key : String → Params → String
auto_approve_key tool params = concat (tool ∷ ":" ∷ text_at "action" params ∷ [])

-- The key of a learned approval: userID + "/" + autoApproveKey(...)
unfoldable pub learned_key : String → String → Params → String
unfolding auto_approve_key
learned_key user tool params = concat (user ∷ "/" ∷ auto_approve_key tool params ∷ [])

-- time.Since(entry.LastUsed) > learnedAutoApproveTTL
unfoldable pub has_lapsed : ℕ → AutoApproveEntry → Bool
has_lapsed now entry = ltb (entry.last_used + learned_auto_approve_ttl) now

-- An entry that is there and has not lapsed.
unfoldable pub in_force : ℕ → Option AutoApproveEntry → Bool
unfolding has_lapsed
in_force now none = false
in_force now (some entry) = if has_lapsed now entry then false else true

-- RiskBasedEvaluator.isLearnedApproved
unfoldable pub is_learned_approved : ℕ → String → Params → String → RiskBasedEvaluator → Bool
unfolding in_force
is_learned_approved now tool params user e =
    in_force now (get (learned_key user tool params) e.learned)

-- The inner switch of Evaluate, on a medium risk.
unfoldable pub at_medium : TrustLevel → Bool → ApprovalRequirement
at_medium trust_permissive learned = never
at_medium trust_cautious learned = unless_auto_approved
at_medium trust_balanced learned = if learned then never else unless_auto_approved

-- The outer switch of Evaluate.
unfoldable pub at_risk : RiskLevel → TrustLevel → Bool → ApprovalRequirement
unfolding at_medium
at_risk risk_low trust learned = never
at_risk risk_high trust learned = always
at_risk risk_medium trust learned = at_medium trust learned

-- RiskBasedEvaluator.Evaluate
unfoldable pub evaluate : ℕ → String → Params → String → RiskBasedEvaluator → ApprovalRequirement
unfolding at_risk
evaluate now tool params user e =
    at_risk (assess_risk tool params) e.trust_level (is_learned_approved now tool params user e)

-- RiskBasedEvaluator.RecordApproval
unfoldable pub record_approval :
    ℕ → String → Params → String → RiskBasedEvaluator → RiskBasedEvaluator
record_approval now tool params user e = record e { learned = put k entry e.learned }
  where
    k : String
    k = learned_key user tool params

    entry : AutoApproveEntry
    entry = record { key = k; user_id = user; approved_at = now; last_used = now }

-- RiskBasedEvaluator.UpdateLastUsed
unfoldable pub update_last_used :
    ℕ → String → Params → String → RiskBasedEvaluator → RiskBasedEvaluator
update_last_used now tool params user e = elim (get (learned_key user tool params) e.learned) [
  | none ↦ e
  | some entry ↦ record e {
    learned = put (learned_key user tool params) (record entry { last_used = now }) e.learned;
  }
]

-- RiskBasedEvaluator.CleanupExpired
unfoldable pub cleanup_expired : ℕ → RiskBasedEvaluator → RiskBasedEvaluator
unfolding has_lapsed
cleanup_expired now e = record e {
  learned = retain (λ key entry. not (has_lapsed now entry)) e.learned;
}

-- RiskBasedEvaluator.LearnedCount
unfoldable pub learned_count : RiskBasedEvaluator → ℕ
learned_count e = length e.learned
