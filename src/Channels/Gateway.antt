-- ===== src/Channels/Gateway.antt =====
-- internal/channels/httpgw/httpgw.go: the handlers of the HTTP gateway. A request comes with its body
-- decoded, or `none` where it is no JSON of the right form; a reply is its status and what is encoded in it.
pub mod Gates
pub mod Laws
pub mod Chat
pub mod Tests
use ironclaw_go.Shared.{
  ℕ, String, Bool, true, false, not, Option, none, some, List, [], ◌∷◌, ◌++◌, Dict, get, put,
  remove, map, Bytes, length, Result, ok, err, if◌then◌else◌, ◌==◌, concat, skip, starts_with,
  keep_if,
}
use ironclaw_go.Auth.{Authenticator, authenticate}
use ironclaw_go.Db.{Message, Conversation}
use ironclaw_go.Db.Memory.{MemoryDb}
use ironclaw_go.Gate.{PendingGate}
use ironclaw_go.Gate.Store.{PendingStore}
use ironclaw_go.Gate.Risk.{RiskBasedEvaluator}
use ironclaw_go.History.{user_conversations, thread_history, delete_thread}
use ironclaw_go.Channels.{IncomingMessage, OutgoingResponse, Attachment, document}

-- A health check: its name, and the error that it finds.
abbrev pub HealthCheck : Type 0
HealthCheck = String × Option String

-- Gateway. A request that waits has a channel of one place; the messages for the agent are in order.
-- base64.StdEncoding.DecodeString, whose error is ignored, is a function of the record.
pub record Gateway : Type 0 where
  pub messages : List IncomingMessage
  pub responses : Dict (Option OutgoingResponse)
  pub authenticator : Option Authenticator
  pub history_store : Option MemoryDb
  pub pending_store : Option PendingStore
  pub risk_evaluator : Option RiskBasedEvaluator
  pub health_checks : List HealthCheck
  pub decode : String → Bytes

pub data Method : Type 0 where
  get_method post_method delete_method other_method : Method

-- What a handler reads of a request beside its body.
pub record HttpRequest : Type 0 where
  pub method : Method
  pub path : String
  pub api_key_header : String
  pub query : Dict String

-- What a handler answers: an error with its status, or what it encodes.
pub data Reply : Type 0 where
  error : ℕ → String → Reply
  gate_approved : String → String → Reply
  gate_denied : String → Reply
  gates : List PendingGate → Reply
  threads : List Conversation → Reply
  thread_messages : String → List Message → Reply
  deleted : Reply
  ready : ℕ → Reply
  not_ready : List (String × String) → ℕ → Reply
  pending_gate : String → Option PendingGate → Reply
  answer : Bytes → String → Reply

-- r.URL.Query().Get(name)
abbrev pub parameter : Option String → String
parameter none = ""
parameter (some v) = v

-- The user of a key, or no name.
abbrev pub name_or_none : Result String String → String
name_or_none (ok user) = user
name_or_none (err e) = ""

abbrev pub user_by : String → Option Authenticator → String
user_by k none = ""
user_by k (some a) = name_or_none (authenticate k a)

abbrev pub or_else : String → String → String
or_else name other = if name == "" then other else name

-- authenticatedUserID
unfoldable pub authenticated_user_id : HttpRequest → Gateway → String
authenticated_user_id r g =
    user_by (or_else r.api_key_header (parameter (get "api_key" r.query))) g.authenticator

-- handleHistoryThreads; `none` is a panic of the page.
unfoldable pub handle_history_threads : HttpRequest → Gateway → Option Reply
unfolding authenticated_user_id
handle_history_threads r g = listed r.method g.history_store
  where
    reply : Option (List Conversation) → Option Reply
    reply none = none
    reply (some convs) = some (threads convs)

    listed : Method → Option MemoryDb → Option Reply
    listed method none = some (error 503 "history not available")
    listed get_method (some m) =
        reply (user_conversations (or_else (authenticated_user_id r g) "anonymous") 100 0 m)
    listed method (some m) = some (error 405 "method not allowed")

abbrev pub prefix : String
prefix = "/api/history/threads/"

-- The methods of handleHistoryThreadDetail, for a thread that was named.
unfoldable pub thread_detail : Method → String → MemoryDb → MemoryDb × Option Reply
unfolding thread_history delete_thread
thread_detail get_method thread m = elim (thread_history thread 1000 0 m) [
  | none ↦ (m, none)
  | some msgs ↦ (m, some (thread_messages thread msgs))
]
thread_detail delete_method thread m = (delete_thread thread m, some deleted)
thread_detail post_method thread m = (m, some (error 405 "method not allowed"))
thread_detail other_method thread m = (m, some (error 405 "method not allowed"))

-- handleHistoryThreadDetail: the prefix is that of the route, 21 characters.
unfoldable pub handle_history_thread_detail : HttpRequest → Gateway → Gateway × Option Reply
unfolding thread_detail skip
handle_history_thread_detail r g = elim g.history_store [
  | none ↦ (g, some (error 503 "history not available"))
  | some m ↦
      if not (starts_with r.path prefix)
      then (g, some (error 404 "page not found"))
      else if skip 21 r.path == ""
      then (g, some (error 404 "page not found"))
      else (let (m', reply) = thread_detail r.method (skip 21 r.path) m in
          (record g { history_store = some m' }, reply))
]

-- The loop of handleReadyz.
unfoldable pub failed_checks : List HealthCheck → List (String × String)
failed_checks [] = []
failed_checks ((name, none) ∷ checks) = failed_checks checks
failed_checks ((name, some e) ∷ checks) = (name, e) ∷ failed_checks checks

-- handleReadyz
unfoldable pub handle_readyz : Gateway → Reply
unfolding failed_checks
handle_readyz g = reply (failed_checks g.health_checks)
  where
    reply : List (String × String) → Reply
    reply [] = ready (length g.health_checks)
    reply (f ∷ fs) = not_ready (f ∷ fs) (length g.health_checks)
