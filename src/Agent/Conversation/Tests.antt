-- ===== src/Agent/Conversation/Tests.antt =====
-- A paused execution of one user.
use ironclaw_go.Gate.Approval.{default_tool_requirement, new_approval_gate}
use ironclaw_go.Safety.RateLimit.{allow}
use ironclaw_go.Shared.{
  ◌+◌, ◌⊎◌, take, err, get_elem?, put, ℕ, String, false, ◌≡◌, refl, none, some, List, [], ◌∷◌, get,
  drop, ok, ◌==◌, bytes,
}
use ironclaw_go.Gate.{is_expired}
use ironclaw_go.Gate.Store.{consume_resolved}
use ironclaw_go.Llm.{Message, ToolCall}
use ironclaw_go.Agent.Session.{get_pending_execution}
use ironclaw_go.Agent.Loop.{finished, stopped, pending_gate}
use ironclaw_go.Agent.Loop.Rounds.{Dispatched, dispatched_at}
use ironclaw_go.Tools.Dispatch
use ironclaw_go.Tools.Dispatch.{Dispatcher}
use ironclaw_go.Gate.{PauseError}
use ironclaw_go.Agent.Conversation.{resume_calls, run_in_thread, ask_llm, discard, fine}
use ironclaw_go.Agent.Conversation.Laws.{
  resume_calls-dispatches, run_in_thread-new_message, run_in_thread-waits,
}
use ironclaw_go.Agent.Samples.{agent, model, call, ticks, tick, execution, waiting, paused_agent}
use ironclaw_go.Tools.Dispatch.{new_dispatcher, with_gates, with_auto_approved}
use ironclaw_go.Agent.Loop.{Agent, tool_message}

-- The agent with shell approved in advance.
abbrev trusting : Agent
trusting = record agent { dispatcher = with_auto_approved ("shell" ∷ []) agent.dispatcher }

results : List Message
results = tool_message call (bytes "done") ∷ []

ends : (resume_calls ticks "ann" "t1" execution trusting).1 ≡ finished results
unfolding results resume_calls with_auto_approved with_gates new_dispatcher get allow
    consume_resolved new_approval_gate default_tool_requirement put
ends = refl

resume_calls-dispatches_example :
    let after = resume_calls ticks "ann" "t1" execution trusting in
    let calls = drop execution.next_index execution.tool_calls in
    ((told : List Message) × (after.1 ≡ finished told)
      × Dispatched ticks "ann" "t1" trusting.runtime execution.next_index calls trusting.dispatcher
          told after.0.dispatcher)
    ⊎ ((k : ℕ) × (c : ToolCall) × (told : List Message) × (d : Dispatcher) × (pause : PauseError)
        × (after.1 ≡ stopped (execution.next_index + k))
        × (get_elem? calls k ≡ some c)
        × Dispatched ticks "ann" "t1" trusting.runtime execution.next_index
            (take k calls)
            trusting.dispatcher
            told
            d
        × ((dispatched_at ticks "ann" "t1" trusting.runtime (execution.next_index + k) c d).1
            ≡ err (Dispatch.paused pause))
        × (after.0.dispatcher
            ≡ (dispatched_at ticks "ann" "t1" trusting.runtime (execution.next_index + k) c d).0))
resume_calls-dispatches_example = resume_calls-dispatches ticks "ann" "t1" execution trusting

paused : get_pending_execution 200 "ann" "t1" paused_agent.sessions ≡ some execution
unfolding get_pending_execution get
paused = refl

other_text : ("hello" == "__resume__") ≡ false
other_text = refl

run_in_thread-new_message_example :
    (run_in_thread model 200 ticks tick "ann" 0 "t1" "hello" paused_agent
      ≡ fine (ask_llm model ticks tick "ann" 0 "t1" "hello" (discard "ann" "t1" paused_agent)))
    × ((later : ℕ) (other : String)
        → (get_pending_execution later other "t1" (discard "ann" "t1" paused_agent).sessions ≡ none)
          × ((consume_resolved later other "t1"
                (discard "ann" "t1" paused_agent).dispatcher.pending_store).1
              ≡ none))
run_in_thread-new_message_example =
    run_in_thread-new_message model 200 ticks tick "ann" 0 "t1" "hello" paused_agent execution
      paused other_text refl

here : get "t1" paused_agent.dispatcher.pending_store.by_key ≡ some waiting
unfolding get
here = refl

fresh : is_expired 200 waiting ≡ false
unfolding is_expired
fresh = refl

run_in_thread-waits_example :
    run_in_thread model 200 ticks tick "ann" 0 "t1" "__resume__" paused_agent
    ≡ (paused_agent, ok (pending_gate "t1"))
run_in_thread-waits_example =
    run_in_thread-waits model 200 ticks tick "ann" 0 "t1" paused_agent execution waiting paused refl
      here fresh
