-- ===== src/Agent/Conversation/Laws.antt =====
-- What an input to the language model and the resumption of a paused execution do, in agent/agent.go.
use ironclaw_go.Shared.{
  ◌+◌, ◌⊎◌, subst, take, err, get_elem?, ℕ, ◌≤◌, String, Bool, true, false, ◌≡◌, refl, ap, ◌∙◌, inl,
  inr, none, some, List, [], get, get-remove_self, drop, length, ok, arith, Option-cases, ◌==◌,
  if◌then◌else◌, is_some,
}
use ironclaw_go.Gate.{PauseError, PendingGate, is_expired}
use ironclaw_go.Gate.Store.{consume_resolved, clear_resolved, get_pending, has_pending}
use ironclaw_go.Llm.{Message, ToolCall, Complete}
use ironclaw_go.Tools.Dispatch.{Dispatcher}
use ironclaw_go.Tools.Dispatch
use ironclaw_go.Agent.Session.{
  PendingExecution, SessionManager, get_or_create_thread, add_turn, get_turns,
  get_pending_execution, clear_pending_execution, unexpired, Turn,
}
use ironclaw_go.Agent.Session.Invariant.{IsOwned, get_or_create_thread-IsOwned, add_turn-IsOwned}
use ironclaw_go.Agent.Session.Laws.{get_turns-compact_thread, active-get_or_create_thread}
use ironclaw_go.Agent.Loop.{
  Runtime, Agent, Tick, finished, stopped, resume_round, invoke, pending_gate,
}
use ironclaw_go.Agent.Loop.Rounds.{
  Outcome-cases, Dispatched, Dispatches, dispatched_at, each_call-Dispatched, each_call-paused,
}
use ironclaw_go.Agent.Conversation.{
  resume_calls, run_in_thread, ask_llm, discard, fine, still_pending, try_resume, echo_turn,
  echo_reply,
}

resume_round-Dispatches :
    (ticks : ℕ → Tick) (user thread : String) (rt : Runtime) (i : ℕ) (call : ToolCall) (a : Agent)
    → a.runtime ≡ rt
    → Dispatches ticks user thread rt (resume_round ticks user thread) i call a
unfolding resume_round invoke
resume_round-Dispatches ticks user thread rt i call a same =
    subst
      (λ (x : Runtime). Dispatches ticks user thread x (resume_round ticks user thread) i call a)
      same (record { dispatcher = refl; runtime = refl; sessions = refl; result = refl })

-- Resume dispatches the calls of a paused execution from the place of the pause on, and none before it.
-- Either each of them, in order, is given to Dispatch once, in the state that the one before it left, and
-- none is paused: then its results are one message for each of these calls, and for no other, with the
-- output or the text of the error. Or the calls before one of them are dispatched so, and that one is
-- paused: then the loop stops at its place, counted from the first call of the execution.
pub resume_calls-dispatches :
    (ticks : ℕ → Tick) (user thread : String) (pe : PendingExecution) (a : Agent)
    → let after = resume_calls ticks user thread pe a in
      let calls = drop pe.next_index pe.tool_calls in
      ((results : List Message) × (after.1 ≡ finished results)
        × Dispatched ticks user thread a.runtime pe.next_index calls a.dispatcher results
            after.0.dispatcher)
      ⊎ ((k : ℕ) × (call : ToolCall) × (results : List Message) × (d : Dispatcher)
          × (pause : PauseError) × (after.1 ≡ stopped (pe.next_index + k))
          × (get_elem? calls k ≡ some call)
          × Dispatched ticks user thread a.runtime pe.next_index
              (take k calls)
              a.dispatcher
              results
              d
          × ((dispatched_at ticks user thread a.runtime (pe.next_index + k) call d).1
              ≡ err (Dispatch.paused pause))
          × (after.0.dispatcher
              ≡ (dispatched_at ticks user thread a.runtime (pe.next_index + k) call d).0))
unfolding resume_calls
resume_calls-dispatches ticks user thread pe a =
    let calls = drop pe.next_index pe.tool_calls in
    elim (Outcome-cases (resume_calls ticks user thread pe a).1) [
      | inr (results, e) ↦
          let (kept, (ms, whole, all)) =
            each_call-Dispatched ticks user thread a.runtime (resume_round ticks user thread)
              (resume_round-Dispatches ticks user thread a.runtime) pe.next_index calls [] a results
              refl e in
          inl (ms, e ∙ ap finished whole, all)
      | inl (j, e) ↦
          let (k, call, ms, d, pause, at, here, before, halt, left) =
            each_call-paused ticks user thread a.runtime (resume_round ticks user thread)
              (resume_round-Dispatches ticks user thread a.runtime) pe.next_index calls [] a j refl
              e in
          inr (
            k,
            call,
            ms,
            d,
            pause,
            e ∙ ap stopped at,
            here,
            before,
            subst
                (λ (n : ℕ).
                  (dispatched_at ticks user thread a.runtime n call d).1
                  ≡ err (Dispatch.paused pause))
                at halt,
            left ∙ ap (λ (n : ℕ). (dispatched_at ticks user thread a.runtime n call d).0) at,
          )
    ]

-- A new message for a thread with a paused execution is put to the model in a state in which, for
-- every user, the paused execution is gone and no approval of the thread is left to be consumed.
pub run_in_thread-new_message :
    (complete : Complete) (now : ℕ) (ticks : ℕ → Tick) (t : Tick) (user : String) (r : ℕ)
    (thread content : String) (a : Agent) (pe : PendingExecution)
    → get_pending_execution now user thread a.sessions ≡ some pe
    → (content == "__resume__") ≡ false
    → a.has_pending_store ≡ true
    → (run_in_thread complete now ticks t user r thread content a
        ≡ fine (ask_llm complete ticks t user r thread content (discard user thread a)))
      × ((later : ℕ) (other : String)
          → (get_pending_execution later other thread (discard user thread a).sessions ≡ none)
            × ((consume_resolved later other thread
                  (discard user thread a).dispatcher.pending_store).1
                ≡ none))
unfolding run_in_thread discard
run_in_thread-new_message complete now ticks t user r thread content a pe waits other_text
      has_store =
    (
      rw (waits, run_in_thread) (rw other_text refl),
      λ later other. rw has_store (
        unfold get_pending_execution clear_pending_execution in
            rw (get-remove_self thread a.sessions.pending_executions) (unfold unexpired in refl),
        unfold consume_resolved clear_resolved in
            rw (get-remove_self thread a.dispatcher.pending_store.resolved, consume_resolved) refl,
      ),
    )

get_pending-waiting :
    (now : ℕ) (user thread : String) (d : Dispatcher) (pg : PendingGate)
    → get thread d.pending_store.by_key ≡ some pg
    → is_expired now pg ≡ false
    → get_pending now user thread d.pending_store ≡ (d.pending_store, some pg)
unfolding get_pending
get_pending-waiting now user thread d pg here fresh = rw (here, get_pending) (rw fresh refl)

chosen : {A : Type 0} (b : Bool) (x y : A) → b ≡ true → (if b then x else y) ≡ x
chosen true x y h = refl
chosen false x y h = absurd (ground arith)

still_pending-waiting :
    (now : ℕ) (user thread : String) (a : Agent) (pg : PendingGate)
    → a.has_pending_store ≡ true
    → get thread a.dispatcher.pending_store.by_key ≡ some pg
    → is_expired now pg ≡ false
    → still_pending now user thread a ≡ (a, true)
unfolding still_pending has_pending
still_pending-waiting now user thread a pg has_store here fresh =
    chosen a.has_pending_store _ _ has_store
    ∙ ap (λ x. (record a { dispatcher = record a.dispatcher { pending_store = x.0 } }, is_some x.1))
        (get_pending-waiting now user thread a.dispatcher pg here fresh)

-- While the gate of a paused execution waits and has not run out, "__resume__" runs nothing: it
-- answers that the gate is pending and changes no part of the agent, of its sessions and its
-- dispatcher.
pub run_in_thread-waits :
    (complete : Complete) (now : ℕ) (ticks : ℕ → Tick) (t : Tick) (user : String) (r : ℕ)
    (thread : String) (a : Agent) (pe : PendingExecution) (pg : PendingGate)
    → get_pending_execution now user thread a.sessions ≡ some pe
    → a.has_pending_store ≡ true
    → get thread a.dispatcher.pending_store.by_key ≡ some pg
    → is_expired now pg ≡ false
    → run_in_thread complete now ticks t user r thread "__resume__" a
      ≡ (a, ok (pending_gate thread))
unfolding run_in_thread try_resume
run_in_thread-waits complete now ticks t user r thread a pe pg paused has_store here fresh =
    rw (paused, run_in_thread)
      (ap (try_resume complete now ticks t user thread)
        (still_pending-waiting now user thread a pg has_store here fresh))

active-add_turn :
    (now : ℕ) (uuid user : String) (turn : Turn) (sm : SessionManager)
    → (add_turn now uuid user turn sm).active ≡ sm.active
unfolding add_turn
active-add_turn now uuid user turn sm = elim (Option-cases (get user sm.active)) [
  | inl idle ↦ rw (idle, add_turn) refl
  | inr (r, at) ↦ rw (at, add_turn) refl
]

-- Without a language model, the thread of a user never holds more than fifty turns after an input.
pub get_turns-echo_reply :
    (now : ℕ) (id uuid user content : String) (a : Agent)
    → IsOwned a.sessions
    → length (get_turns user (echo_reply now id uuid user content a).0.sessions) ≤ 50
unfolding echo_reply
get_turns-echo_reply now id uuid user content a c =
    let s = get_or_create_thread now id user "repl" a.sessions in
    (get_turns-compact_thread user user 50 (add_turn now uuid user (echo_turn a.name content) s.0)
      s.1
      (add_turn-IsOwned now uuid user (echo_turn a.name content) s.0
        (get_or_create_thread-IsOwned now id user "repl" a.sessions c))
      (ap (get user) (active-add_turn now uuid user (echo_turn a.name content) s.0)
        ∙ active-get_or_create_thread now id user "repl" a.sessions)).1
