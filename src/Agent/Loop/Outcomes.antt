-- ===== src/Agent/Loop/Outcomes.antt =====
-- How a list of tool calls ends for the agent of agent/agent.go, and what the dispatcher's store then
-- holds.
use ironclaw_go.Shared.{
  take, ℕ, String, ◌≡◌, refl, ap, ◌∙◌, inl, inr, Option, none, some, List, [], get, get_elem?,
  Result, ok, err, Params, arith, Bool-cases, subst,
}
use ironclaw_go.Gate.{PauseError, PendingGate}
use ironclaw_go.Llm.{Message, ToolCall, Complete, CompletionResponse}
use ironclaw_go.Tools.{JobContext, ToolOutput, Tool}
use ironclaw_go.Tools.Dispatch.{
  Dispatcher, DispatchError, paused, admit, dispatch, then_execute, run_tool, conclude,
}
use ironclaw_go.Tools.Dispatch.Pause.{Waits, admit-paused}
use ironclaw_go.Tools.Dispatch.Results.{then_execute-err}
use ironclaw_go.Agent.Loop.{
  Event, tool_called, returned_event, Runtime, Agent, Response, Tick, Round, answers, stops,
  Outcome, publish_event, call_params, job_of, invoke, settle_call, note_pause, fresh_round,
  each_call, pending_at, pending_gate, finalize_tool_results, handle_llm_tool_calls,
}
use ironclaw_go.Agent.Loop.Rounds.{Dispatched, Dispatches, dispatched_at}

conclude-ne_paused :
    (tool : String) (params : Params) (job : JobContext) (e : Option String)
    (r : Result String ToolOutput) (d : Dispatcher) (pe : PauseError)
    → (conclude tool params job e r d).1 ≡ err (paused pe)
    → ⊥
unfolding conclude
conclude-ne_paused tool params job e (err x) d pe h = ground arith
conclude-ne_paused tool params job none (ok out) d pe h = ground arith
conclude-ne_paused tool params job (some e) (ok out) d pe h = ground arith

run_tool-ne_paused :
    (elapsed : ℕ) (tool : String) (params : Params) (job : JobContext) (t : Tool) (d : Dispatcher)
    (pe : PauseError)
    → (run_tool elapsed tool params job t d).1 ≡ err (paused pe)
    → ⊥
unfolding run_tool
run_tool-ne_paused elapsed tool params job t d pe h = conclude-ne_paused tool params job _ _ _ pe h

then_execute-paused :
    (elapsed : ℕ) (tool : String) (params : Params) (job : JobContext)
    (r : Dispatcher × Result DispatchError Tool) (pe : PauseError)
    → (then_execute elapsed tool params job r).1 ≡ err (paused pe)
    → r.1 ≡ err (paused pe)
unfolding then_execute
then_execute-paused elapsed tool params job (d, ok t) pe h =
    absurd (run_tool-ne_paused elapsed tool params job t d pe h)
then_execute-paused elapsed tool params job (d, err e) pe h = ground arith

-- A call of Dispatch that is paused was paused by admission, whose store it leaves.
pub dispatch-paused :
    (now elapsed : ℕ) (uuid tool : String) (params : Params) (job : JobContext) (d : Dispatcher)
    (pe : PauseError)
    → (dispatch now elapsed uuid tool params job d).1 ≡ err (paused pe)
    → (pg : PendingGate) × Waits now uuid tool params job d.pending_store.ttl
        (dispatch now elapsed uuid tool params job d).0.pending_store
        pg
unfolding dispatch
dispatch-paused now elapsed uuid tool params job d pe h =
    let r = admit now uuid tool params job d in
    let halt = then_execute-paused elapsed tool params job r pe h in
    let (named, pg, w) = admit-paused now uuid tool params job d pe halt in
    (pg, rw (then_execute-err elapsed tool params job r (paused pe) halt) w)

-- The parts of an agent that events leave alone.
rest-publish_event :
    (e : Event) (a : Agent)
    → ((publish_event e a).dispatcher ≡ a.dispatcher)
      × ((publish_event e a).runtime ≡ a.runtime)
      × ((publish_event e a).sessions ≡ a.sessions)
unfolding publish_event
rest-publish_event e a = elim (Bool-cases a.has_publisher) [
  | inl on ↦ rw on (refl, refl, refl)
  | inr off ↦ rw off (refl, refl, refl)
]

rest-note_pause :
    (user thread : String) (call : ToolCall) (r : Round) (a : Agent)
    → ((note_pause user thread call r a).dispatcher ≡ a.dispatcher)
      × ((note_pause user thread call r a).runtime ≡ a.runtime)
      × ((note_pause user thread call r a).sessions ≡ a.sessions)
unfolding note_pause
rest-note_pause user thread call stops a = rest-publish_event _ a
rest-note_pause user thread call (answers m) a = (refl, refl, refl)

-- A round of a call changes the dispatcher as Dispatch does, and keeps the runtime and the sessions.
fresh_round-Dispatches :
    (ticks : ℕ → Tick) (user thread : String) (i : ℕ) (call : ToolCall) (a : Agent)
    → Dispatches ticks user thread a.runtime (fresh_round ticks user thread) i call a
unfolding fresh_round invoke
fresh_round-Dispatches ticks user thread i call a =
    let announced = publish_event (tool_called user thread call.function.name) a in
    let (d0, rt0, s0) = rest-publish_event (tool_called user thread call.function.name) a in
    let same : dispatched_at ticks user thread announced.runtime i call announced.dispatcher
        ≡ dispatched_at ticks user thread a.runtime i call a.dispatcher =
      ap (λ (x : Runtime). dispatched_at ticks user thread x i call announced.dispatcher) rt0
      ∙ ap (λ (x : Dispatcher). dispatched_at ticks user thread a.runtime i call x) d0 in
    let (d, r) = dispatched_at ticks user thread announced.runtime i call announced.dispatcher in
    let b : Agent = record announced { dispatcher = d } in
    let (d1, rt1, s1) = rest-publish_event (returned_event user thread call r) b in
    let (d2, rt2, s2) =
      rest-note_pause user thread call (settle_call a.runtime call r)
        (publish_event (returned_event user thread call r) b) in
    record {
      dispatcher = d2 ∙ d1 ∙ ap (λ x. x.0) same;
      runtime = rt2 ∙ rt1 ∙ rt0;
      sessions = s2 ∙ s1 ∙ s0;
      result = ap (λ x. settle_call a.runtime call x.1) same;
    }

-- The same for any agent with a given runtime.
pub fresh_round-does :
    (ticks : ℕ → Tick) (user thread : String) (rt : Runtime) (i : ℕ) (call : ToolCall) (a : Agent)
    → a.runtime ≡ rt
    → Dispatches ticks user thread rt (fresh_round ticks user thread) i call a
fresh_round-does ticks user thread rt i call a same =
    subst (λ (x : Runtime). Dispatches ticks user thread x (fresh_round ticks user thread) i call a)
      same (fresh_round-Dispatches ticks user thread i call a)

module _ (complete : Complete) (ticks : ℕ → Tick) (t : Tick) (user thread original : String)
    (messages : List Message) (resp : CompletionResponse) (a : Agent) where
  abbrev handled : Agent × Response
  handled = handle_llm_tool_calls complete ticks t user thread original messages resp a

  -- The ways in which handleLLMToolCalls ends.
  pub data Handles : Type 0 where
    answered_all :
        (results : List Message) (b : Agent)
        → Dispatched ticks user thread a.runtime 0 resp.tool_calls a.dispatcher results b.dispatcher
        → b.sessions ≡ a.sessions
        → handled ≡ finalize_tool_results complete t user thread messages resp results original b
        → Handles
    paused_at :
        (i : ℕ) (call : ToolCall) (results : List Message) (d : Dispatcher) (pe : PauseError)
        (pg : PendingGate)
        → get_elem? resp.tool_calls i ≡ some call
        → Dispatched ticks user thread a.runtime 0 (take i resp.tool_calls) a.dispatcher results d
        → (dispatched_at ticks user thread a.runtime i call d).1 ≡ err (paused pe)
        → handled.0.dispatcher ≡ (dispatched_at ticks user thread a.runtime i call d).0
        → handled.1 ≡ pending_gate thread
        → get thread handled.0.sessions.pending_executions
          ≡ some (pending_at t user thread original messages resp i)
        → Waits
            (ticks i).now
            (ticks i).uuid
            call.function.name
            (call_params a.runtime call)
            (job_of user thread)
            d.pending_store.ttl
            handled.0.dispatcher.pending_store
            pg
        → Handles

  -- The loop.
  abbrev looped : Agent × Outcome
  looped = each_call (fresh_round ticks user thread) 0 resp.tool_calls [] a
