-- ===== src/Agent/Conversation.antt =====
-- internal/agent/agent.go: an input that goes to the language model, and the resumption of an
-- execution that a gate paused.
pub mod Laws
pub mod Tests
use ironclaw_go.Shared.{
  ℕ, ◌+◌, String, Bool, true, false, Option, none, some, List, [], ◌∷◌, ◌++◌, Bytes, bytes, Result,
  ok, err, length, drop, get_elem?, ltb, if◌then◌else◌, ◌==◌,
}
use ironclaw_go.Gate.Store.{clear_resolved, has_pending}
use ironclaw_go.Llm.{
  Message, MessageRole, role_system, role_user, role_assistant, ToolCall, ToolDefinition, Complete,
  CompletionResponse,
}
use ironclaw_go.Tools.Dispatch.{Dispatcher}
use ironclaw_go.Agent.Session.{
  PendingExecution, Turn, Thread, SessionManager, get_or_create_thread, add_turn, get_turns,
  compact_thread, save_pending_execution, get_pending_execution, clear_pending_execution,
}
use ironclaw_go.Agent.Loop.{
  Skills, Agent, Response, reply, pending_gate, Tick, publish_event, gate_resolved, Outcome,
  finished, stopped, each_call, resume_round, pause_ttl, finalize_tool_results,
  handle_llm_tool_calls,
}

-- What Resume does once its loop has ended. `t` is the tick at its end.
unfoldable pub settle_resume :
    Complete
    → Tick
    → String
    → String
    → PendingExecution
    → Agent × Outcome
    → Agent × Result String Response
unfolding save_pending_execution clear_pending_execution publish_event finalize_tool_results
settle_resume complete t user thread pe (a, stopped i) = (
  record a {
    sessions =
        save_pending_execution
          (record pe { next_index = i; created_at = t.now; expires_at = t.now + pause_ttl })
          a.sessions;
  },
  ok (pending_gate thread),
)
settle_resume complete t user thread pe (a, finished results) =
    let b =
      publish_event (gate_resolved user thread)
        (record a { sessions = clear_pending_execution user thread a.sessions }) in
    let (c, r) =
      finalize_tool_results complete t user thread pe.messages
        (record { content = []; tool_calls = pe.tool_calls }) results pe.original_content b in
    (c, ok r)

-- The loop of Resume: the calls from NextIndex on.
unfoldable pub resume_calls :
    (ℕ → Tick) → String → String → PendingExecution → Agent → Agent × Outcome
unfolding each_call resume_round
resume_calls ticks user thread pe a =
    each_call (resume_round ticks user thread) pe.next_index (drop pe.next_index pe.tool_calls) [] a

-- Agent.Resume, at the time `now`.
unfoldable pub resume :
    Complete → ℕ → (ℕ → Tick) → Tick → String → String → Agent → Agent × Result String Response
unfolding get_pending_execution settle_resume resume_calls
resume complete now ticks t user thread a =
    elim (get_pending_execution now user thread a.sessions) [
      | none ↦ (a, err "no pending execution")
      | some pe ↦ settle_resume complete t user thread pe (resume_calls ticks user thread pe a)
    ]

-- A message with a role and a content.
abbrev pub plain : MessageRole → Bytes → Message
plain role content = record {
  role = role;
  content = content;
  tool_calls = [];
  tool_name = "";
  tool_id = "";
}

-- The answer of a turn, if there is one.
abbrev pub answer_of : Bytes → List Message
answer_of [] = []
answer_of (b ∷ bs) = plain role_assistant (b ∷ bs) ∷ []

-- The loop of buildLLMMessages over the turns.
unfoldable pub turn_messages : List Turn → List Message
turn_messages [] = []
turn_messages (turn ∷ turns) =
    (plain role_user turn.user_msg ∷ answer_of turn.agent_resp) ++ turn_messages turns

-- The part of the system prompt that the skills add.
abbrev pub skill_part : Bytes → Bytes
skill_part [] = []
skill_part (b ∷ bs) = bytes "\n\n" ++ b ∷ bs

abbrev pub skill_prompt : Option Skills → Bytes
skill_prompt none = []
skill_prompt (some s) = skill_part s.system_prompt

-- The system prompt.
unfoldable pub system_prompt : Agent → Bytes
system_prompt a =
    bytes "你是 "
    ++ bytes a.name
    ++ bytes "，一个安全的个人 AI 助手。"
    ++ skill_prompt a.skills
    ++ bytes
        "\n\n你有多个可用工具（functions）。当用户要求你执行文件操作、执行命令或调用外部工具时，你必须在 assistant 消息中输出 tool_calls 字段来调用工具，严禁在 content 中直接声称已执行。只有等工具返回结果后，你才能基于结果回复用户。"

-- Agent.buildLLMMessages
unfoldable pub build_llm_messages : String → String → Agent → List Message
unfolding turn_messages system_prompt get_turns
build_llm_messages user content a =
    (plain role_system (system_prompt a) ∷ turn_messages (get_turns user a.sessions))
    ++ plain role_user (bytes content) ∷ []

-- The tools that the skills leave.
abbrev pub attenuated : Option Skills → List ToolDefinition → List ToolDefinition
attenuated none defs = defs
attenuated (some s) defs = s.attenuate defs

-- Agent.buildLLMTools
unfoldable pub build_llm_tools : Agent → List ToolDefinition
build_llm_tools a = elim a.tools [ none ↦ [] | some defs ↦ attenuated a.skills defs ]

-- Agent.persistIfNeeded: the thread that `r` points to. An error of the database is dropped.
unfoldable pub persist_if_needed : ℕ → Agent → Agent
persist_if_needed r a = elim (get_elem? a.sessions.heap r) [
  | none ↦ a
  | some thread ↦ if a.has_database then record a { saved = a.saved ++ thread ∷ [] } else a
]

-- What runLLM does with the model's answer. `r` points to the thread.
unfoldable pub settle_answer :
    Complete
    → (ℕ → Tick)
    → Tick
    → String
    → ℕ
    → String
    → String
    → List Message
    → Result String CompletionResponse
    → Agent
    → Agent × Response
unfolding handle_llm_tool_calls add_turn persist_if_needed
settle_answer complete ticks t user r thread content messages (err e) a =
    (a, reply (bytes "LLM 错误: " ++ bytes e))
settle_answer complete ticks t user r thread content messages (ok resp) a = elim resp.tool_calls [
  | [] ↦ (
    persist_if_needed r (record a {
      sessions =
          add_turn t.now t.uuid user
            (record {
              id = "";
              user_msg = bytes content;
              agent_resp = resp.content;
              created_at = 0;
            })
            a.sessions;
    }),
    reply resp.content,
  )
  | call ∷ calls ↦ handle_llm_tool_calls complete ticks t user thread content messages resp a
]

-- The second half of runLLM: the question to the model.
unfoldable pub ask_llm :
    Complete → (ℕ → Tick) → Tick → String → ℕ → String → String → Agent → Agent × Response
unfolding build_llm_messages build_llm_tools settle_answer
ask_llm complete ticks t user r thread content a =
    let messages = build_llm_messages user content a in
    settle_answer complete ticks t user r thread content messages
      (complete messages (build_llm_tools a)) a

-- The id of the thread that a pointer points to.
abbrev pub id_at : Option Thread → String
id_at none = ""
id_at (some t) = t.id

-- The test of runLLM for a gate that is not resolved yet, if the agent has the store.
unfoldable pub still_pending : ℕ → String → String → Agent → Agent × Bool
unfolding has_pending
still_pending now user thread a =
    let (s, waits) = has_pending now user thread a.dispatcher.pending_store in
    if a.has_pending_store
    then (record a { dispatcher = record a.dispatcher { pending_store = s } }, waits)
    else (a, false)

-- A new message while an execution is paused: the execution and the approval are dropped.
unfoldable pub discard : String → String → Agent → Agent
unfolding clear_pending_execution clear_resolved
discard user thread a =
    let b = record a { sessions = clear_pending_execution user thread a.sessions } in
    if a.has_pending_store
    then record b {
      dispatcher = record b.dispatcher {
        pending_store = clear_resolved user thread b.dispatcher.pending_store;
      };
    }
    else b

-- The answer to "__resume__".
unfoldable pub try_resume :
    Complete
    → ℕ
    → (ℕ → Tick)
    → Tick
    → String
    → String
    → Agent × Bool
    → Agent × Result String Response
unfolding resume
try_resume complete now ticks t user thread (a, true) = (a, ok (pending_gate thread))
try_resume complete now ticks t user thread (a, false) = resume complete now ticks t user thread a

-- A result without an error.
abbrev pub fine : Agent × Response → Agent × Result String Response
fine (a, r) = (a, ok r)

-- Agent.runLLM once the thread is known.
unfoldable pub run_in_thread :
    Complete
    → ℕ
    → (ℕ → Tick)
    → Tick
    → String
    → ℕ
    → String
    → String
    → Agent
    → Agent × Result String Response
unfolding get_pending_execution ask_llm still_pending discard try_resume
run_in_thread complete now ticks t user r thread content a =
    elim (get_pending_execution now user thread a.sessions) [
      | none ↦ fine (ask_llm complete ticks t user r thread content a)
      | some pe ↦
          if content == "__resume__"
          then try_resume complete now ticks t user thread (still_pending now user thread a)
          else fine (ask_llm complete ticks t user r thread content (discard user thread a))
    ]

-- Agent.runLLM, at the time `now`, with a UUID for a new thread.
unfoldable pub run_llm :
    Complete
    → ℕ
    → String
    → (ℕ → Tick)
    → Tick
    → String
    → String
    → Agent
    → Agent × Result String Response
unfolding get_or_create_thread run_in_thread
run_llm complete now id ticks t user content a =
    let (sm, r) = get_or_create_thread now id user "repl" a.sessions in
    run_in_thread complete now ticks t user r (id_at (get_elem? sm.heap r)) content
      (record a { sessions = sm })

-- The text that echoReply answers with.
abbrev pub echo_text : String → String → Bytes
echo_text name content = bytes "[" ++ bytes name ++ bytes "] 你说: " ++ bytes content

-- The turn that echoReply adds.
abbrev pub echo_turn : String → String → Turn
echo_turn name content = record {
  id = "";
  user_msg = bytes content;
  agent_resp = echo_text name content;
  created_at = 0;
}

-- Agent.echoReply, with its limit of fifty turns.
unfoldable pub echo_reply : ℕ → String → String → String → String → Agent → Agent × Response
unfolding get_or_create_thread add_turn compact_thread
echo_reply now id uuid user content a =
    let (sm, r) = get_or_create_thread now id user "repl" a.sessions in
    (
      record a {
        sessions = compact_thread user 50 (add_turn now uuid user (echo_turn a.name content) sm);
      },
      reply (echo_text a.name content),
    )

-- Agent.handleChat
unfoldable pub handle_chat :
    Option Complete
    → ℕ
    → String
    → (ℕ → Tick)
    → Tick
    → String
    → String
    → Agent
    → Agent × Result String Response
unfolding run_llm echo_reply
handle_chat none now id ticks t user content a = fine (echo_reply now id t.uuid user content a)
handle_chat (some complete) now id ticks t user content a =
    run_llm complete now id ticks t user content a

-- Agent.handleLLMQuery
unfoldable pub handle_llm_query :
    Option Complete
    → ℕ
    → String
    → (ℕ → Tick)
    → Tick
    → String
    → String
    → Agent
    → Agent × Result String Response
unfolding run_llm
handle_llm_query none now id ticks t user content a =
    (a, ok (reply (bytes "LLM 未配置，请先设置 LLM 提供商。")))
handle_llm_query (some complete) now id ticks t user content a =
    run_llm complete now id ticks t user content a
