-- ===== src/Tools.antt =====
-- internal/tools: the tools, their registry (tool.go, registry.go) and the dispatcher (dispatch.go).
pub mod Dispatch
use ironclaw_go.Shared.{
  ℕ, String, Bool, Option, List, [], Dict, Params, Bytes, get, put, length, keys,
}
use ironclaw_go.Gate.{ApprovalRequirement}

-- tool.go: JobContext
pub record JobContext : Type 0 where
  pub user_id : String
  pub job_id : String
  pub thread_id : String

-- tool.go: ToolOutput, less its metadata, which the dispatcher passes on unread.
pub record ToolOutput : Type 0 where
  pub content : Bytes
  pub duration : ℕ

-- tool.go: Tool. What a tool does is code of its own; here it is what Execute
-- returns, an output and perhaps an error.
pub record Tool : Type 0 where
  pub name : String
  pub execute : Params → JobContext → ToolOutput × Option String
  pub requires_approval : Params → ApprovalRequirement

-- registry.go: Registry
abbrev pub Registry : Type 0
Registry = Dict Tool

-- registry.go: NewRegistry
unfoldable pub new_registry : Registry
new_registry = []

-- registry.go: Registry.Register
unfoldable pub register : Tool → Registry → Registry
register t r = put t.name t r

-- registry.go: Registry.Get
unfoldable pub find_tool : String → Registry → Option Tool
find_tool name r = get name r

-- registry.go: Registry.Count
unfoldable pub count_tools : Registry → ℕ
count_tools r = length r

-- registry.go: Registry.List
unfoldable pub list_tools : Registry → List String
list_tools r = keys r
