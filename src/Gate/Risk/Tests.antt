-- ===== src/Gate/Risk/Tests.antt =====
-- The risk evaluator of gate/risk.go at small inputs.
use ironclaw_go.Shared.{[], ◌∷◌, Params, string}
use ironclaw_go.Gate.Risk.{RiskBasedEvaluator, trust_balanced, record_approval}

abbrev writes : Params
writes = ("action", string "write") ∷ []

abbrev balanced : RiskBasedEvaluator
balanced = record { trust_level = trust_balanced; learned = [] }

abbrev learned_file : RiskBasedEvaluator
learned_file = record_approval 50 "file" writes "ann" balanced
