-- ===== src/Agent/Commands.antt =====
-- internal/agent/agent.go: a message that is a command of the system or a direct call of a tool, and
-- the way of a message through the hooks and the router.
pub mod Laws
pub mod Tests
use ironclaw_go.Shared.{
  ℕ, String, Bool, true, false, ◌||◌, Option, none, some, List, [], ◌∷◌, ◌++◌, Params, string,
  Bytes, bytes, Result, ok, err, get_elem?, length, concat, ◌==◌, if◌then◌else◌,
}
use Prim.Native.String
use ironclaw_go.Llm.{Complete}
use ironclaw_go.Safety.Sanitizer.{decimal}
use ironclaw_go.Tools.{ToolOutput}
use ironclaw_go.Tools.Dispatch.{DispatchError, dispatch}
use ironclaw_go.Agent.Session.{
  Turn, Thread, get_or_create_thread, switch_thread, add_turn, list_threads,
}
use ironclaw_go.Agent.Loop.{
  Runtime, Agent, Response, reply, Tick, publish_event, agent_response, error_message, job_of,
}
use ironclaw_go.Agent.Conversation.{id_at, handle_chat, handle_llm_query}
use ironclaw_go.Agent.Router.{Intent, system_cmd, tool_call, llm_query, chat, route}
use ironclaw_go.Hooks.{
  Registry, Event, trigger, before_message, after_message, before_tool_call, after_tool_call,
  before_response, call_data, result_data, message_data, answer_data, response_data,
}

-- Trigger, where there is a registry.
unfoldable pub ask_hooks : Option Registry → Event → Option String
unfolding trigger
ask_hooks none e = none
ask_hooks (some r) e = trigger e r

-- The parameters of a direct call: none, its JSON, or a map with its text.
unfoldable pub direct_params : Runtime → String → Params
direct_params rt text =
    if text == ""
    then []
    else elim (rt.decode text) [ some params ↦ params | none ↦ ("message", string text) ∷ [] ]

-- The text of the turn and of the reply after a direct call.
unfoldable pub direct_reply : Runtime → Result DispatchError ToolOutput → Bytes
unfolding error_message
direct_reply rt (ok out) = out.content
direct_reply rt (err e) = bytes "错误: " ++ bytes (error_message rt e)

-- The call of Dispatch and what follows it in handleToolInvocation. The hooks after the call are
-- asked for nothing that is kept.
unfoldable pub call_tool :
    Tick → String → String → String → String → Params → Agent → Agent × Result String Response
unfolding dispatch direct_reply add_turn
call_tool t user thread content tool params a =
    let (d, r) = dispatch t.now t.elapsed t.uuid tool params (job_of user thread) a.dispatcher in
    let text = direct_reply a.runtime r in
    let turn : Turn = record {
      id = "";
      user_msg = bytes content;
      agent_resp = text;
      created_at = 0;
    } in
    (
      record a { dispatcher = d; sessions = add_turn t.now t.uuid user turn a.sessions },
      ok (reply text),
    )

-- The event that the hooks see before a direct call.
abbrev pub before_call : String → String → Params → Event
before_call user tool params = record {
  type = before_tool_call;
  user_id = user;
  channel = "";
  fields = call_data tool params;
}

-- Agent.handleToolInvocation
unfoldable pub handle_tool_invocation :
    Option Registry
    → ℕ
    → String
    → Tick
    → String
    → String
    → String
    → String
    → Agent
    → Agent × Result String Response
unfolding get_or_create_thread direct_params ask_hooks call_tool
handle_tool_invocation hooks now id t user content tool text a =
    let (sm, r) = get_or_create_thread now id user "repl" a.sessions in
    let b = record a { sessions = sm } in
    let params = direct_params a.runtime text in
    elim (ask_hooks hooks (before_call user tool params)) [
      | some e ↦ (b, err (concat ("before:tool_call hook rejected: " ∷ e ∷ [])))
      | none ↦ call_tool t user (id_at (get_elem? sm.heap r)) content tool params b
    ]

-- The event that the hooks see before a message.
abbrev pub before_input : String → String → String → Event
before_input user channel content = record {
  type = before_message;
  user_id = user;
  channel = channel;
  fields = message_data (bytes content);
}

-- An error of a handler of an intent becomes a reply.
unfoldable pub settle_error : Agent × Result String Response → Agent × Response
settle_error (a, ok r) = (a, r)
settle_error (a, err e) = (a, reply (bytes "Agent 错误: " ++ bytes e))

-- The last event of ProcessMessage: the final answer, unless a gate is pending.
unfoldable pub announce : String → String → Agent × Response → Agent × Response
unfolding publish_event
announce user thread (a, r) =
    if r.status == "pending_gate"
    then (a, r)
    else (publish_event (agent_response user thread r.content) a, r)

-- s[:8] of an ID
unfoldable pub first_8 : String → String
first_8 s = take_text 8 s
  where
    take_text : ℕ → String → String
    take_text ℕ.zero s = ""
    take_text (ℕ.suc n) String.[] = ""
    take_text (ℕ.suc n) (String.◌∷◌ c s) = String.◌∷◌ c (take_text n s)

-- One line of the list of threads; `mark` is the star of the first.
unfoldable pub thread_line : String → Option Thread → Bytes
unfolding first_8 decimal
thread_line mark none = []
thread_line mark (some t) =
    bytes "  "
    ++ bytes mark
    ++ bytes " ["
    ++ bytes (first_8 t.id)
    ++ bytes "] "
    ++ bytes t.title
    ++ bytes " ("
    ++ decimal (length t.turns)
    ++ bytes " 轮)\n"

-- The loop over the threads after the first.
unfoldable pub thread_lines : List ℕ → List Thread → Bytes
unfolding thread_line
thread_lines [] heap = []
thread_lines (r ∷ refs) heap = thread_line " " (get_elem? heap r) ++ thread_lines refs heap

-- The answer to /threads: the first thread of the history has the star.
unfoldable pub threads_text : List ℕ → List Thread → Bytes
unfolding thread_lines
threads_text [] heap = bytes "当前没有对话线程。"
threads_text (r ∷ refs) heap =
    bytes "对话线程列表:\n" ++ thread_line "*" (get_elem? heap r) ++ thread_lines refs heap

abbrev pub help_text : Bytes
help_text =
    bytes
      "可用命令:\n  /threads, /t    - 列出所有对话线程\n  /switch, /s <id> - 切换到指定线程\n  /new, /n        - 创建新线程\n  /help, /h       - 显示此帮助\n\n直接输入: 普通对话（如有 LLM 配置则通过 LLM 处理）\n  tool:<name> <params> - 直接调用工具\n  ?<query>             - LLM 查询"

-- The case of /switch.
unfoldable pub switch_command : String → List String → Agent → Agent × Response
unfolding switch_thread first_8
switch_command user [] a = (a, reply (bytes "用法: /switch <thread-id>"))
switch_command user (id ∷ args) a =
    let (sm, found) = switch_thread user id a.sessions in
    (
      record a { sessions = sm },
      reply (if found then bytes "已切换到线程 " ++ bytes (first_8 id) else bytes "未找到线程: " ++ bytes id),
    )

-- Agent.handleSystemCommand
unfoldable pub handle_system_command :
    ℕ → String → String → String → List String → Agent → Agent × Response
unfolding threads_text list_threads switch_command get_or_create_thread first_8
handle_system_command now id user command args a =
    if command == "threads" || command == "t"
    then (a, reply (threads_text (list_threads user a.sessions) a.sessions.heap))
    else if command == "switch" || command == "s"
    then switch_command user args a
    else if command == "new" || command == "n"
    then (let (sm, r) = get_or_create_thread now id user "repl" a.sessions in
        (
          record a { sessions = sm },
          reply (bytes "已创建新线程: " ++ bytes (first_8 (id_at (get_elem? sm.heap r)))),
        ))
    else if command == "help" || command == "h"
    then (a, reply help_text)
    else (a, reply (bytes "未知命令: /" ++ bytes command ++ bytes "，输入 /help 查看帮助"))

-- The switch of ProcessMessage.
unfoldable pub handle_intent :
    Option Complete
    → Option Registry
    → ℕ
    → String
    → (ℕ → Tick)
    → Tick
    → String
    → Intent
    → Agent
    → Agent × Result String Response
unfolding handle_system_command handle_tool_invocation handle_llm_query handle_chat
handle_intent model hooks now id ticks t user (system_cmd command args content) a =
    let (b, r) = handle_system_command now id user command args a in (b, ok r)
handle_intent model hooks now id ticks t user (tool_call tool params content) a =
    handle_tool_invocation hooks now id t user content tool params a
handle_intent model hooks now id ticks t user (llm_query content) a =
    handle_llm_query model now id ticks t user content a
handle_intent model hooks now id ticks t user (chat content) a =
    handle_chat model now id ticks t user content a

-- Agent.ProcessMessage, for the content that the document middleware left. The errors of the hooks
-- after the message are dropped, so they are not asked.
unfoldable pub process_message :
    Option Complete
    → Option Registry
    → ℕ
    → String
    → (ℕ → Tick)
    → Tick
    → String
    → String
    → String
    → String
    → Agent
    → Agent × Result String Response
unfolding ask_hooks handle_intent route settle_error announce
process_message model hooks now id ticks t user channel thread content a =
    elim (ask_hooks hooks (before_input user channel content)) [
      | some e ↦ (a, err (concat ("before:message hook rejected: " ∷ e ∷ [])))
      | none ↦
          let (b, r) =
            announce user thread
              (settle_error (handle_intent model hooks now id ticks t user (route content) a)) in
          (b, ok r)
    ]
