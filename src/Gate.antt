-- ===== src/Gate.antt =====
-- internal/gate: the execution gates of tool calls. The types of gate.go; the modules below model
-- approval.go, store.go and risk.go.
-- Times and durations are numbers of nanoseconds; an operation reads the clock once, and takes that
-- reading as an argument.
pub mod Approval
pub mod Store
pub mod Risk
use ironclaw_go.Shared.{ℕ, String, Bool, true, false, Dict, Params, ltb}

-- gate.go: ApprovalRequirement
pub data ApprovalRequirement : Type 0 where
  never unless_auto_approved always : ApprovalRequirement

-- gate.go: ApprovalRequirement.IsRequired
unfoldable pub is_required : ApprovalRequirement → Bool
is_required never = false
is_required unless_auto_approved = true
is_required always = true

-- gate.go: ExecutionMode
pub data ExecutionMode : Type 0 where
  interactive autonomous : ExecutionMode

-- gate.go: GateDecision
pub data GateDecision : Type 0 where
  allow deny pause : GateDecision

-- gate.go: GateContext
pub record GateContext : Type 0 where
  pub tool_name : String
  pub params : Params
  pub user_id : String
  pub thread_id : String
  pub auto_approved : Dict Bool
  pub execution_mode : ExecutionMode
  pub channel : String

-- gate.go: Gate
pub record Gate : Type 0 where
  pub name : String
  pub evaluate : GateContext → GateDecision

-- gate.go: PendingGate
pub record PendingGate : Type 0 where
  pub request_id : String
  pub gate_name : String
  pub user_id : String
  pub thread_id : String
  pub tool_name : String
  pub params : Params
  pub description : String
  pub created_at : ℕ
  pub expires_at : ℕ
  pub source_channel : String

-- gate.go: PendingGate.IsExpired
unfoldable pub is_expired : ℕ → PendingGate → Bool
is_expired now pg = ltb pg.expires_at now

-- gate.go: PauseError
pub record PauseError : Type 0 where
  pub tool_name : String
  pub request_id : String
  pub description : String

-- gate.go: GateError
pub record GateError : Type 0 where
  pub reason : String
