-- ===== src/Gate/Approval.antt =====
-- internal/gate/approval.go
pub mod Laws
pub mod Tests
use ironclaw_go.Shared.{
  String, Bool, true, false, ◌&&◌, ◌||◌, not, Option, none, some, [], ◌∷◌, Params, get, text_at,
  concat, ◌==◌, if◌then◌else◌, Dict,
}
use ironclaw_go.Gate.{
  ApprovalRequirement, never, unless_auto_approved, always, ExecutionMode, interactive, autonomous,
  GateDecision, allow, deny, pause, GateContext, Gate,
}

-- ApprovalGate: the function that says what a call requires.
abbrev pub RequirementFn : Type 0
RequirementFn = String → Params → String → ApprovalRequirement

-- A read of a `map[string]bool`: false where the key is missing.
abbrev pub flag : Option Bool → Bool
flag none = false
flag (some b) = b

-- The two switches of Evaluate.
unfoldable pub decide_on : ExecutionMode → ApprovalRequirement → Bool → GateDecision
decide_on autonomous never approved = allow
decide_on autonomous unless_auto_approved approved = if approved then allow else deny
decide_on autonomous always approved = deny
decide_on interactive never approved = allow
decide_on interactive unless_auto_approved approved = if approved then allow else pause
decide_on interactive always approved = pause

-- ApprovalGate.Evaluate
unfoldable pub evaluate : RequirementFn → GateContext → GateDecision
unfolding decide_on
evaluate requirement ctx =
    let req = requirement ctx.tool_name ctx.params ctx.user_id in
    let approved = flag (get ctx.tool_name ctx.auto_approved) in
    decide_on ctx.execution_mode req approved

-- NewApprovalGate, with ApprovalGate.Name
unfoldable pub new_approval_gate : RequirementFn → Gate
unfolding evaluate
new_approval_gate requirement = record { name = "approval"; evaluate = evaluate requirement }

-- DefaultToolRequirement
unfoldable pub default_tool_requirement : RequirementFn
default_tool_requirement tool params user =
    if tool == "shell"
    then unless_auto_approved
    else if tool == "file"
    then (let action = text_at "action" params in
        if action == "write" || action == "delete" || action == "mkdir"
        then unless_auto_approved
        else never)
    else if tool == "http"
    then (let method = text_at "method" params in
        if not (method == "GET") && not (method == "HEAD") then unless_auto_approved else never)
    else if tool == "memory"
    then (let action = text_at "action" params in
        if action == "set" || action == "delete" then unless_auto_approved else never)
    else if tool == "echo" || tool == "time" || tool == "json"
    then never
    else unless_auto_approved

-- DescribePending
unfoldable pub describe_pending : String → Params → String
describe_pending tool params =
    if tool == "shell"
    then concat ("执行 shell 命令: " ∷ text_at "command" params ∷ [])
    else if tool == "file"
    then concat ("文件操作 [" ∷ text_at "action" params ∷ "]: " ∷ text_at "path" params ∷ [])
    else if tool == "http"
    then concat ("HTTP 请求 [" ∷ text_at "method" params ∷ "]: " ∷ text_at "url" params ∷ [])
    else concat ("调用工具: " ∷ tool ∷ [])
