-- ===== src/Gate/Risk/Laws.antt =====
-- What the risk evaluator of gate/risk.go promises.
use ironclaw_go.Shared.{
  ℕ, ◌+◌, ◌≤◌, String, Bool, ◌≡◌, refl, ◌↔◌, Params, get-put, get-retain, eq_refl, ◌==◌,
  if◌then◌else◌, not, arith, ltb,
}
use ironclaw_go.Gate.{ApprovalRequirement, never, unless_auto_approved, always}
use ironclaw_go.Gate.Risk.{
  RiskLevel, risk_low, risk_medium, risk_high, TrustLevel, trust_cautious, trust_balanced,
  trust_permissive, RiskBasedEvaluator, learned_auto_approve_ttl, assess_risk, learned_key,
  is_learned_approved, at_risk, evaluate, record_approval, cleanup_expired,
}

-- How much a requirement asks of the user.
abbrev pub rank : ApprovalRequirement → ℕ
rank never = 0
rank unless_auto_approved = 1
rank always = 2

-- How careful a trust level is.
abbrev pub care : TrustLevel → ℕ
care trust_permissive = 0
care trust_balanced = 1
care trust_cautious = 2

at_risk_mono :
    (r : RiskLevel) (t u : TrustLevel) (b : Bool)
    → care t ≤ care u
    → rank (at_risk r t b) ≤ rank (at_risk r u b)
unfolding at_risk
at_risk_mono risk_low t u b h = omega arith
at_risk_mono risk_high t u b h = omega arith
at_risk_mono risk_medium t u b h = ground arith

-- What is asked of a call when its learned approval is in force.
abbrev pub at_high : RiskLevel → ApprovalRequirement
at_high risk_low = never
at_high risk_medium = never
at_high risk_high = always

-- A more careful trust level, with the same learned approvals, never asks less of the user for a
-- call.
pub evaluate_mono :
    (now : ℕ) (tool : String) (params : Params) (user : String) (t u : TrustLevel)
    (e : RiskBasedEvaluator)
    → care t ≤ care u
    → rank (evaluate now tool params user (record e { trust_level = t }))
      ≤ rank (evaluate now tool params user (record e { trust_level = u }))
unfolding evaluate is_learned_approved
evaluate_mono now tool params user t u e h =
    at_risk_mono (assess_risk tool params) t u (is_learned_approved now tool params user e) h

at_risk-always :
    (r : RiskLevel) (t : TrustLevel) (b : Bool) → (at_risk r t b ≡ always) ↔ (r ≡ risk_high)
unfolding at_risk
at_risk-always risk_low t b = ((λ h. ground arith), (λ h. ground arith))
at_risk-always risk_medium t b = ((λ h. absurd (ground arith)), (λ h. ground arith))
at_risk-always risk_high t b = ((λ h. refl), (λ h. refl))

-- Whatever the trust level and the learned approvals, an approval that cannot be given in advance is
-- required exactly for the calls of high risk.
pub evaluate-always :
    (now : ℕ) (tool : String) (params : Params) (user : String) (e : RiskBasedEvaluator)
    → (evaluate now tool params user e ≡ always) ↔ (assess_risk tool params ≡ risk_high)
unfolding evaluate
evaluate-always now tool params user e =
    at_risk-always (assess_risk tool params) e.trust_level
      (is_learned_approved now tool params user e)

-- After an approval is recorded, a call of the same key (the user, tool and action joined) counts as
-- approved exactly until seven days have passed since, whatever was learned before, and a call of
-- another key counts as it did before.
pub is_learned_approved-record_approval :
    (t now : ℕ) (tool tool' user user' : String) (params params' : Params) (e : RiskBasedEvaluator)
    → is_learned_approved now tool' params' user' (record_approval t tool params user e) ≡ (
        if learned_key user tool params == learned_key user' tool' params'
        then not (ltb (t + learned_auto_approve_ttl) now)
        else is_learned_approved now tool' params' user' e)
unfolding is_learned_approved record_approval
is_learned_approved-record_approval t now tool tool' user user' params params' e =
    rw (get-put (learned_key user tool params) (learned_key user' tool' params') _ e.learned)
      (ground arith)

-- Deleting the lapsed entries changes no answer at that time or later.
pub is_learned_approved-cleanup_expired :
    (now later : ℕ) (tool : String) (params : Params) (user : String) (e : RiskBasedEvaluator)
    → now ≤ later
    → is_learned_approved later tool params user (cleanup_expired now e)
      ≡ is_learned_approved later tool params user e
unfolding is_learned_approved cleanup_expired
is_learned_approved-cleanup_expired now later tool params user e h =
    rw (get-retain _ (learned_key user tool params) e.learned) (ground arith)

-- With a trust level that learns, a recorded approval makes a call of the same user, tool and action
-- free of approval for seven days unless its risk is high, in which case it still requires one.
pub evaluate-record_approval :
    (t now : ℕ) (tool user : String) (params : Params) (e : RiskBasedEvaluator)
    → now ≤ t + learned_auto_approve_ttl
    → e.trust_level ≡ trust_balanced
    → evaluate now tool params user (record_approval t tool params user e)
      ≡ at_high (assess_risk tool params)
unfolding evaluate
evaluate-record_approval t now tool user params e h b =
    rw (is_learned_approved-record_approval t now tool tool user user params params e)
      (unfold record_approval in rw (b, eq_refl (learned_key user tool params)) (ground arith))
