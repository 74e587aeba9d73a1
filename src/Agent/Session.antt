-- ===== src/Agent/Session.antt =====
-- internal/agent/session.go: threads are shared by pointers, from the map of active threads and from
-- the users' histories, so they live in a heap. The mutex makes each method one step.
pub mod Invariant
pub mod Laws
pub mod Tests
use ironclaw_go.Shared.{
  Bytes, ℕ, ◌+◌, ◌-◌, ◌*◌, ◌^◌, String, Bool, true, false, Option, none, some, List, [], ◌∷◌, ◌++◌,
  Dict, get, put, remove, length, drop, leb, ltb, get_elem?, modify, allocate, if◌then◌else◌, ◌==◌,
}
use ironclaw_go.Llm.{Message, ToolCall}

-- PendingExecution
pub record PendingExecution : Type 0 where
  pub request_id : String
  pub user_id : String
  pub thread_id : String
  pub messages : List Message
  pub tool_calls : List ToolCall
  pub next_index : ℕ
  pub original_content : String
  pub created_at : ℕ
  pub expires_at : ℕ

-- PendingExecution.IsExpired
unfoldable pub is_expired : ℕ → PendingExecution → Bool
is_expired now pe = ltb pe.expires_at now

-- Turn, less its tool calls, which nothing sets. Zero is Go's zero time.
pub record Turn : Type 0 where
  pub id : String
  pub user_msg : Bytes
  pub agent_resp : Bytes
  pub created_at : ℕ

-- Thread
pub record Thread : Type 0 where
  pub id : String
  pub user_id : String
  pub channel : String
  pub title : String
  pub turns : List Turn
  pub created_at : ℕ
  pub updated_at : ℕ

-- SessionManager, with the heap that its pointers point into.
pub record SessionManager : Type 0 where
  pub heap : List Thread
  pub active : Dict ℕ
  pub history : Dict (List ℕ)
  pub pending_executions : Dict PendingExecution

-- NewSessionManager
unfoldable pub new_session_manager : SessionManager
new_session_manager = record { heap = []; active = []; history = []; pending_executions = [] }

-- sm.history[userID], nil where there is none
abbrev pub refs_at : Option (List ℕ) → List ℕ
refs_at none = []
refs_at (some refs) = refs

-- SessionManager.GetOrCreateThread, at the time `now`, with a new UUID `id`.
unfoldable pub get_or_create_thread :
    ℕ → String → String → String → SessionManager → SessionManager × ℕ
unfolding allocate
get_or_create_thread now id user channel sm = elim (get user sm.active) [
  | some r ↦ (sm, r)
  | none ↦
      let (heap, r) = allocate thread sm.heap in
      (
        record sm {
          heap = heap;
          active = put user r sm.active;
          history = put user (refs_at (get user sm.history) ++ r ∷ []) sm.history;
        },
        r,
      )
]
  where
    thread : Thread
    thread = record {
      id = id;
      user_id = user;
      channel = channel;
      title = "新对话";
      turns = [];
      created_at = now;
      updated_at = now;
    }

-- The test of the loops over a history: t.ID == threadID
unfoldable pub has_id : String → Option Thread → Bool
has_id id none = false
has_id id (some t) = t.id == id

-- The loops over a user's history: the first thread with that ID.
unfoldable pub find_thread : String → List ℕ → List Thread → Option ℕ
unfolding has_id get_elem?
find_thread id [] heap = none
find_thread id (r ∷ refs) heap =
    let rest = find_thread id refs heap in if has_id id (get_elem? heap r) then some r else rest

-- SessionManager.GetThread
unfoldable pub get_thread : String → String → SessionManager → Option ℕ
unfolding find_thread
get_thread user id sm = find_thread id (refs_at (get user sm.history)) sm.heap

-- The fields that AddTurn fills in.
unfoldable pub completed : ℕ → String → Turn → Turn
completed now uuid turn = record turn {
  id = if turn.id == "" then uuid else turn.id;
  created_at = if leb turn.created_at 0 then now else turn.created_at;
}

-- The two writes of AddTurn.
abbrev pub with_turn : ℕ → Turn → Thread → Thread
with_turn now turn t = record t { turns = t.turns ++ turn ∷ []; updated_at = now }

-- SessionManager.AddTurn
unfoldable pub add_turn : ℕ → String → String → Turn → SessionManager → SessionManager
unfolding completed modify
add_turn now uuid user turn sm = elim (get user sm.active) [
  | none ↦ sm
  | some r ↦ record sm { heap = modify r (with_turn now (completed now uuid turn)) sm.heap }
]

abbrev pub turns_at : Option Thread → List Turn
turns_at none = []
turns_at (some t) = t.turns

-- SessionManager.GetTurns
unfoldable pub get_turns : String → SessionManager → List Turn
unfolding get_elem?
get_turns user sm = elim (get user sm.active) [
  | none ↦ []
  | some r ↦ turns_at (get_elem? sm.heap r)
]

-- SessionManager.SwitchThread
unfoldable pub switch_thread : String → String → SessionManager → SessionManager × Bool
unfolding get_thread
switch_thread user id sm = elim (get_thread user id sm) [
  | none ↦ (sm, false)
  | some r ↦ (record sm { active = put user r sm.active }, true)
]

-- SessionManager.ListThreads
unfoldable pub list_threads : String → SessionManager → List ℕ
list_threads user sm = refs_at (get user sm.history)

-- The turns that CompactThread keeps.
abbrev pub last_turns : ℕ → Thread → Thread
last_turns max_turns t =
    if leb (length t.turns) max_turns
    then t
    else record t { turns = drop (length t.turns - max_turns) t.turns }

-- SessionManager.CompactThread, for a limit that is not negative.
unfoldable pub compact_thread : String → ℕ → SessionManager → SessionManager
unfolding modify
compact_thread user max_turns sm = elim (get user sm.active) [
  | none ↦ sm
  | some r ↦ record sm { heap = modify r (last_turns max_turns) sm.heap }
]

-- SessionManager.SavePendingExecution: the key is the thread alone.
unfoldable pub save_pending_execution : PendingExecution → SessionManager → SessionManager
save_pending_execution pe sm = record sm {
  pending_executions = put pe.thread_id pe sm.pending_executions;
}

unfoldable pub unexpired : ℕ → Option PendingExecution → Option PendingExecution
unfolding is_expired
unexpired now none = none
unexpired now (some pe) = if is_expired now pe then none else some pe

-- SessionManager.GetPendingExecution
unfoldable pub get_pending_execution :
    ℕ → String → String → SessionManager → Option PendingExecution
unfolding unexpired
get_pending_execution now user thread sm = unexpired now (get thread sm.pending_executions)

-- SessionManager.ClearPendingExecution
unfoldable pub clear_pending_execution : String → String → SessionManager → SessionManager
clear_pending_execution user thread sm = record sm {
  pending_executions = remove thread sm.pending_executions;
}
