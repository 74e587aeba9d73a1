-- ===== src/Agent/Samples.antt =====
-- An agent with one tool that needs an approval, for the tests of agent/agent.go.
use ironclaw_go.Shared.{ℕ, true, false, none, some, [], ◌∷◌, bytes, ok}
use ironclaw_go.Gate.{PendingGate, unless_auto_approved}
use ironclaw_go.Gate.Approval.{new_approval_gate, default_tool_requirement}
use ironclaw_go.Llm.{ToolCall, Complete, CompletionResponse}
use ironclaw_go.Tools.{Tool}
use ironclaw_go.Tools.Dispatch.{Dispatcher, new_dispatcher, with_gates}
use ironclaw_go.Agent.Session.{PendingExecution, new_session_manager}
use ironclaw_go.Agent.Loop.{Agent, Tick}

abbrev pub shell : Tool
shell = record {
  name = "shell";
  execute = λ params job. (record { content = bytes "done"; duration = 0 }, none);
  requires_approval = λ params. unless_auto_approved;
}

abbrev pub gated : Dispatcher
gated =
    with_gates (new_approval_gate default_tool_requirement ∷ [])
      (new_dispatcher (("shell", shell) ∷ []) none none)

abbrev pub agent : Agent
agent = record {
  name = "claw";
  runtime = record { decode = λ text. some []; quote = λ text. text };
  sessions = new_session_manager;
  dispatcher = gated;
  tools = none;
  skills = none;
  has_pending_store = true;
  has_publisher = true;
  events = [];
  has_database = false;
  saved = [];
}

abbrev pub call : ToolCall
call = record {
  id = "call1";
  type = "function";
  function = record { name = "shell"; arguments = "{}" };
}

-- A model that says that it is done.
abbrev pub model : Complete
model messages tools = ok (record { content = bytes "done"; tool_calls = [] })

abbrev pub asked : CompletionResponse
asked = record { content = []; tool_calls = call ∷ [] }

abbrev pub ticks : ℕ → Tick
ticks i = record { now = 100; elapsed = 5; uuid = "r1" }

abbrev pub tick : Tick
tick = record { now = 110; elapsed = 0; uuid = "p1" }

abbrev pub execution : PendingExecution
execution = record {
  request_id = "p1";
  user_id = "ann";
  thread_id = "t1";
  messages = [];
  tool_calls = call ∷ call ∷ [];
  next_index = 1;
  original_content = "run it";
  created_at = 110;
  expires_at = 1000;
}

abbrev pub waiting : PendingGate
waiting = record {
  request_id = "r1";
  gate_name = "approval";
  user_id = "ann";
  thread_id = "t1";
  tool_name = "shell";
  params = [];
  description = "";
  created_at = 100;
  expires_at = 1000;
  source_channel = "repl";
}

-- The agent with a paused execution, whose gate still waits.
abbrev pub paused_agent : Agent
paused_agent = record agent {
  sessions = record agent.sessions { pending_executions = ("t1", execution) ∷ [] };
  dispatcher = record gated {
    pending_store = record gated.pending_store {
      by_key = ("t1", waiting) ∷ [];
      by_req_id = ("r1", "t1") ∷ [];
    };
  };
}
