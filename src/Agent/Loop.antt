-- ===== src/Agent/Loop.antt =====
-- internal/agent/agent.go: what the agent does with an input that goes to the language model. The
-- model, json.Unmarshal and strconv.Quote are functions that the agent's record holds. Each tool call
-- has a tick: the clock when it is dispatched, the milliseconds that it takes, and a UUID.
pub mod Rounds
pub mod Outcomes
pub mod Tests
use ironclaw_go.Shared.{
  ℕ, suc, ◌+◌, ◌*◌, ◌^◌, String, Bool, true, false, Option, none, some, List, [], ◌∷◌, ◌++◌, Params,
  Value, string, Bytes, bytes, Result, ok, err, concat, length, drop, get_elem?, if◌then◌else◌,
  ◌==◌,
}
use ironclaw_go.Gate.{PauseError}
use ironclaw_go.Gate.Store.{clear_resolved, has_pending}
use ironclaw_go.Llm.{
  Message, MessageRole, role_system, role_user, role_assistant, role_tool, ToolCall, ToolDefinition,
  Complete, CompletionResponse,
}
use ironclaw_go.Tools.{JobContext, ToolOutput}
use ironclaw_go.Tools.Dispatch.{
  Dispatcher, DispatchError, not_allowed, not_found, rate_limited, denied, paused, unsafe_output,
  failed, dispatch,
}
use ironclaw_go.Agent.Session.{
  PendingExecution, Turn, Thread, SessionManager, get_or_create_thread, add_turn, get_turns,
  save_pending_execution, get_pending_execution, clear_pending_execution,
}

-- What the agent takes from Go's library: json.Unmarshal into a map, and the verb %q.
pub record Runtime : Type 0 where
  pub decode : String → Option Params
  pub quote : String → String

-- What the skills add: a part of the system prompt, and the list of tools that they leave.
pub record Skills : Type 0 where
  pub system_prompt : Bytes
  pub attenuate : List ToolDefinition → List ToolDefinition

-- The events that the agent publishes.
pub data Event : Type 0 where
  tool_called : String → String → String → Event
  tool_returned : String → String → String → Bool → ℕ → Event
  gate_pending : String → String → String → Event
  gate_resolved : String → String → Event
  agent_response : String → String → Bytes → Event

-- Agent with its Deps. The tools are the definitions of those that are registered, and the store of
-- pending gates, where there is one, is the dispatcher's.
pub record Agent : Type 0 where
  pub name : String
  pub runtime : Runtime
  pub sessions : SessionManager
  pub dispatcher : Dispatcher
  pub tools : Option (List ToolDefinition)
  pub skills : Option Skills
  pub has_pending_store : Bool
  pub has_publisher : Bool
  pub events : List Event
  pub has_database : Bool
  pub saved : List Thread

-- OutgoingResponse
pub record Response : Type 0 where
  pub content : Bytes
  pub status : String
  pub thread_id : String

abbrev pub reply : Bytes → Response
reply content = record { content = content; status = ""; thread_id = "" }

abbrev pub pending_gate : String → Response
pending_gate thread = record { content = []; status = "pending_gate"; thread_id = thread }

-- A reading of the clock, the milliseconds that a tool takes, and a UUID.
pub record Tick : Type 0 where
  pub now : ℕ
  pub elapsed : ℕ
  pub uuid : String

-- Agent.publishEvent
unfoldable pub publish_event : Event → Agent → Agent
publish_event e a = if a.has_publisher then record a { events = a.events ++ e ∷ [] } else a

-- The texts of the errors of Dispatch.
unfoldable pub error_message : Runtime → DispatchError → String
error_message rt (not_allowed tool) =
    concat ("tool " ∷ rt.quote tool ∷ " is not in the allowed list" ∷ [])
error_message rt (not_found tool) = concat ("tool '" ∷ tool ∷ "' not found" ∷ [])
error_message rt (rate_limited tool) = concat ("rate limit exceeded for tool '" ∷ tool ∷ "'" ∷ [])
error_message rt (denied tool gate) =
    concat ("tool '" ∷ tool ∷ "' denied by gate '" ∷ gate ∷ "'" ∷ [])
error_message rt (paused pe) = concat (
    "tool '" ∷ pe.tool_name ∷ "' requires approval (request " ∷ pe.request_id ∷ "): "
    ∷ pe.description ∷ [])
error_message rt (unsafe_output e) = concat ("safety check failed: " ∷ e ∷ [])
error_message rt (failed e) = e

-- The parameters of a call: its JSON arguments, or a map with their text.
unfoldable pub call_params : Runtime → ToolCall → Params
call_params rt call = elim (rt.decode call.function.arguments) [
  | some params ↦ params
  | none ↦ ("message", string call.function.arguments) ∷ []
]

abbrev pub job_of : String → String → JobContext
job_of user thread = record { user_id = user; job_id = ""; thread_id = thread }

-- The call of Dispatch in both loops.
unfoldable pub invoke :
    Tick → String → String → ToolCall → Agent → Agent × Result DispatchError ToolOutput
unfolding dispatch call_params
invoke t user thread call a =
    let (d, r) =
      dispatch t.now t.elapsed t.uuid call.function.name (call_params a.runtime call)
        (job_of user thread) a.dispatcher in
    (record a { dispatcher = d }, r)

-- How one round of a loop ends: with a message for the model, or with a pause.
pub data Round : Type 0 where
  answers : Message → Round
  stops : Round

abbrev pub tool_message : ToolCall → Bytes → Message
tool_message call content = record {
  role = role_tool;
  content = content;
  tool_calls = [];
  tool_name = call.function.name;
  tool_id = call.id;
}

-- What a round makes of the result of Dispatch.
unfoldable pub settle_call : Runtime → ToolCall → Result DispatchError ToolOutput → Round
unfolding error_message
settle_call rt call (ok out) = answers (tool_message call out.content)
settle_call rt call (err (paused pe)) = stops
settle_call rt call (err (not_allowed tool)) =
    answers (tool_message call (bytes "错误: " ++ bytes (error_message rt (not_allowed tool))))
settle_call rt call (err (not_found tool)) =
    answers (tool_message call (bytes "错误: " ++ bytes (error_message rt (not_found tool))))
settle_call rt call (err (rate_limited tool)) =
    answers (tool_message call (bytes "错误: " ++ bytes (error_message rt (rate_limited tool))))
settle_call rt call (err (denied tool gate)) =
    answers (tool_message call (bytes "错误: " ++ bytes (error_message rt (denied tool gate))))
settle_call rt call (err (unsafe_output e)) =
    answers (tool_message call (bytes "错误: " ++ bytes (error_message rt (unsafe_output e))))
settle_call rt call (err (failed e)) =
    answers (tool_message call (bytes "错误: " ++ bytes (error_message rt (failed e))))

-- The event after a call: whether it succeeded, and the milliseconds that it took.
abbrev pub returned_event : String → String → ToolCall → Result DispatchError ToolOutput → Event
returned_event user thread call (ok out) =
    tool_returned user thread call.function.name true out.duration
returned_event user thread call (err e) = tool_returned user thread call.function.name false 0

-- The event of a pause.
unfoldable pub note_pause : String → String → ToolCall → Round → Agent → Agent
unfolding publish_event
note_pause user thread call stops a = publish_event (gate_pending user thread call.function.name) a
note_pause user thread call (answers m) a = a

-- One round of the loop of handleLLMToolCalls.
unfoldable pub fresh_round : (ℕ → Tick) → String → String → ℕ → ToolCall → Agent → Agent × Round
unfolding publish_event invoke settle_call note_pause
fresh_round ticks user thread i call a =
    let (b, r) =
      invoke (ticks i) user thread call
        (publish_event (tool_called user thread call.function.name) a) in
    let c = publish_event (returned_event user thread call r) b in
    let round = settle_call a.runtime call r in (note_pause user thread call round c, round)

-- One round of the loop of Resume.
unfoldable pub resume_round : (ℕ → Tick) → String → String → ℕ → ToolCall → Agent → Agent × Round
unfolding invoke settle_call
resume_round ticks user thread i call a =
    let (b, r) = invoke (ticks i) user thread call a in (b, settle_call a.runtime call r)

-- How a loop ends: with the messages of all its calls, or at the call that pauses.
pub data Outcome : Type 0 where
  finished : List Message → Outcome
  stopped : ℕ → Outcome

-- Both loops, from the call at place `i`.
unfoldable pub each_call :
    (ℕ → ToolCall → Agent → Agent × Round)
    → ℕ
    → List ToolCall
    → List Message
    → Agent
    → Agent × Outcome
each_call round i [] results a = (a, finished results)
each_call round i (call ∷ calls) results a =
    let (b, r) = round i call a in
    elim r [
      | stops ↦ (b, stopped i)
      | answers m ↦ each_call round (suc i) calls (results ++ m ∷ []) b
    ]

-- How long a pending execution is kept.
abbrev pub pause_ttl : ℕ
pause_ttl = 600 * 10 ^ 9

-- What finalizeToolResults does with the model's answer.
unfoldable pub finalize_with :
    ℕ
    → String
    → String
    → String
    → String
    → Result String CompletionResponse
    → Agent
    → Agent × Response
unfolding publish_event add_turn
finalize_with now uuid user thread original (err e) a = (a, reply (bytes "LLM 总结错误: " ++ bytes e))
finalize_with now uuid user thread original (ok final) a = (
  publish_event (agent_response user thread final.content)
      (record a { sessions = add_turn now uuid user turn a.sessions }),
  reply final.content,
)
  where
    turn : Turn
    turn = record { id = ""; user_msg = bytes original; agent_resp = final.content; created_at = 0 }

-- The messages that finalizeToolResults sends.
abbrev pub with_results : List Message → CompletionResponse → List Message → List Message
with_results messages resp results =
    (messages
      ++ record {
        role = role_assistant;
        content = resp.content;
        tool_calls = resp.tool_calls;
        tool_name = "";
        tool_id = "";
      }
        ∷ [])
    ++ results

-- Agent.finalizeToolResults
unfoldable pub finalize_tool_results :
    Complete
    → Tick
    → String
    → String
    → List Message
    → CompletionResponse
    → List Message
    → String
    → Agent
    → Agent × Response
unfolding finalize_with
finalize_tool_results complete t user thread messages resp results original a =
    finalize_with t.now t.uuid user thread original
      (complete (with_results messages resp results) []) a

-- The execution that is kept when the call at place `i` pauses.
abbrev pub pending_at :
    Tick → String → String → String → List Message → CompletionResponse → ℕ → PendingExecution
pending_at t user thread original messages resp i = record {
  request_id = t.uuid;
  user_id = user;
  thread_id = thread;
  messages = messages;
  tool_calls = resp.tool_calls;
  next_index = i;
  original_content = original;
  created_at = t.now;
  expires_at = t.now + pause_ttl;
}

-- Agent.handleLLMToolCalls. `t` is the tick at its end.
unfoldable pub handle_llm_tool_calls :
    Complete
    → (ℕ → Tick)
    → Tick
    → String
    → String
    → String
    → List Message
    → CompletionResponse
    → Agent
    → Agent × Response
unfolding each_call fresh_round finalize_tool_results save_pending_execution
handle_llm_tool_calls complete ticks t user thread original messages resp a =
    let (b, o) = each_call (fresh_round ticks user thread) 0 resp.tool_calls [] a in
    elim o [
      | finished results ↦
          finalize_tool_results complete t user thread messages resp results original b
      | stopped i ↦ (
        record b {
          sessions =
              save_pending_execution (pending_at t user thread original messages resp i) b.sessions;
        },
        pending_gate thread,
      )
    ]
