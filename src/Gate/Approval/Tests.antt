-- ===== src/Gate/Approval/Tests.antt =====
-- The approval gate of gate/approval.go at one call of shell.
use ironclaw_go.Shared.{◌≢◌, get, []}
use ironclaw_go.Gate.{GateContext, autonomous, allow}
use ironclaw_go.Gate.Approval.{default_tool_requirement, new_approval_gate, evaluate}

-- A background call of shell.
abbrev background : GateContext
background = record {
  tool_name = "shell";
  params = [];
  user_id = "ann";
  thread_id = "t1";
  auto_approved = [];
  execution_mode = autonomous;
  channel = "repl";
}

refused : (new_approval_gate default_tool_requirement).evaluate background ≢ allow
unfolding new_approval_gate evaluate default_tool_requirement get
refused = λ h. cc h
