-- ===== src/Channels/Gateway/Tests.antt =====
-- The gateway of internal/channels/httpgw/httpgw.go at a small input: a gate waits in a thread of ann.
use ironclaw_go.Shared.{
  String, true, false, ◌≡◌, refl, none, some, [], ◌∷◌, ◌==◌, get, skip, starts_with, bytes,
}
use ironclaw_go.Auth.{api_key_auth}
use ironclaw_go.Gate.Store.{PendingStore, consume_resolved, create}
use ironclaw_go.Gate.Store.Tests.{waiting, asked_for, waiting-IsConsistent, waits, in_time}
use ironclaw_go.Db.Memory.{new_memory_db}
use ironclaw_go.Channels.{OutgoingResponse}
use ironclaw_go.Channels.Gateway.{
  Gateway, HttpRequest, Method, get_method, post_method, delete_method, gate_approved, answer,
  deleted, thread_messages, prefix, handle_history_thread_detail, handle_readyz, not_ready,
}
use ironclaw_go.Channels.Gateway.Gates.{GateRequest, handle_gate_approve}
use ironclaw_go.Channels.Gateway.Chat.{
  ChatRequest, Wake, takes_response, start_chat, send_message, finish_chat,
}
use ironclaw_go.Channels.Gateway.Chat
use ironclaw_go.Channels.Gateway.Laws.{
  handle_gate_approve-runs, send_message-answers_both, handle_history_thread_detail-deleted,
}

abbrev gateway : Gateway
gateway = record {
  messages = [];
  responses = [];
  authenticator = some (api_key_auth (("k1", "ann") ∷ []));
  history_store = some new_memory_db;
  pending_store = some waiting;
  risk_evaluator = none;
  health_checks = ("db", none) ∷ ("llm", some "down") ∷ [];
  decode = bytes;
}

abbrev request : Method → HttpRequest
request method = record {
  method = method;
  path = "/api/history/threads/t1";
  api_key_header = "";
  query = [];
}

checks : handle_readyz gateway ≡ not_ready (("llm", "down") ∷ []) 2
unfolding handle_readyz
checks = refl

-- Mallory gives a name of her own choice and no key.
abbrev approval : GateRequest
approval = record { request_id = "r1"; user_id = "mallory"; thread_id = "t1" }

same_request : asked_for.request_id ≡ approval.request_id
unfolding create
same_request = refl

handle_gate_approve-runs_example :
    ((handle_gate_approve 200 (request post_method) (some approval) gateway).1
      ≡ gate_approved "r1" asked_for.tool_name)
    × ((t : PendingStore) × ((handle_gate_approve 200
            (request post_method)
            (some approval)
            gateway).0.pending_store
          ≡ some t)
        × ((consume_resolved 300 "ann" "t1" t).1 ≡ some asked_for))
handle_gate_approve-runs_example =
    handle_gate_approve-runs 200 300 (request post_method) approval gateway waiting asked_for "ann"
      refl waiting-IsConsistent waits in_time refl same_request refl

abbrev chat : String → ChatRequest
chat user = record {
  user_id = user;
  content = "hello";
  thread_id = "";
  api_key = "";
  attachments = [];
}

abbrev response : OutgoingResponse
response = record { content = bytes "for ann"; thread_id = "t1"; status = "ok" }

abbrev one : Gateway
one = (start_chat "q1" (request post_method) (some (chat "ann")) gateway).0

abbrev two : Gateway
two = (start_chat "q2" (request post_method) (some (chat "bob")) one).0

started_one :
    start_chat "q1" (request post_method) (some (chat "ann")) gateway ≡ (one, Chat.waits "ann")
unfolding start_chat
started_one = refl

started_two :
    start_chat "q2" (request post_method) (some (chat "bob")) one ≡ (two, Chat.waits "bob")
unfolding start_chat
started_two = refl

send_message-answers_both_example :
    (g3 : Gateway) × (g4 : Gateway) × (finish_chat 9 "q1" "ann" takes_response
        (send_message response two)
      ≡ some (g3, answer (bytes "for ann") "t1"))
    × (finish_chat 9 "q2" "bob" takes_response g3 ≡ some (g4, answer (bytes "for ann") "t1"))
    × (get "q1" g4.responses ≡ none)
    × (get "q2" g4.responses ≡ none)
send_message-answers_both_example =
    send_message-answers_both 9 "q1" "q2" "ann" "bob" (request post_method) (request post_method)
      (chat "ann") (chat "bob") response gateway one two started_one started_two refl refl

routed : starts_with (request get_method).path prefix ≡ true
routed = refl

named : (skip 21 (request get_method).path == "") ≡ false
unfolding skip
named = refl

handle_history_thread_detail-deleted_example :
    ((handle_history_thread_detail (request delete_method) gateway).1 ≡ some deleted)
    × ((handle_history_thread_detail
          (request get_method)
          (handle_history_thread_detail (request delete_method) gateway).0).1
        ≡ some (thread_messages (skip 21 (request delete_method).path) []))
handle_history_thread_detail-deleted_example =
    handle_history_thread_detail-deleted (request delete_method) (request get_method) gateway
      new_memory_db refl refl refl refl routed named
