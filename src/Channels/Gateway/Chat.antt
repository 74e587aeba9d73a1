-- ===== src/Channels/Gateway/Chat.antt =====
-- handleChat of internal/channels/httpgw/httpgw.go, from a request to its reply, and SendMessage, which
-- brings the response.
use ironclaw_go.Shared.{
  ℕ, String, Option, none, some, List, [], ◌∷◌, ◌++◌, Dict, get, put, remove, map, Bytes, length,
  Result, ok, err, if◌then◌else◌, ◌==◌,
}
use ironclaw_go.Auth.{Authenticator, authenticate}
use ironclaw_go.Gate.{PendingGate}
use ironclaw_go.Gate.Store.{PendingStore, get_pending}
use ironclaw_go.Channels.{OutgoingResponse, Attachment, document}
use ironclaw_go.Channels.Gateway.{Gateway, HttpRequest, Reply, error, pending_gate, answer, or_else}
use ironclaw_go.Channels.Gateway.Gates.{is_post}

-- attachmentRequest
pub record AttachmentRequest : Type 0 where
  pub mime_type : String
  pub filename : String
  pub data_base64 : String

-- chatRequest
pub record ChatRequest : Type 0 where
  pub user_id : String
  pub content : String
  pub thread_id : String
  pub api_key : String
  pub attachments : List AttachmentRequest

-- The user of the request: that of its key, or the name that it gives.
unfoldable pub chat_user : ChatRequest → Option Authenticator → Result String String
chat_user req none = ok (or_else req.user_id "anonymous")
chat_user req (some a) =
    if req.api_key == ""
    then ok (or_else req.user_id "anonymous")
    else elim (authenticate req.api_key a) [
      | err e ↦ err e
      | ok user ↦ ok (or_else user "anonymous")
    ]

-- The attachment of a request, decoded.
unfoldable pub attachment_of : (String → Bytes) → AttachmentRequest → Attachment
attachment_of decode a = record {
  id = "";
  kind = document;
  mime_type = a.mime_type;
  filename = a.filename;
  size_bytes = length (decode a.data_base64);
  source_url = "";
  storage_key = "";
  local_path = "";
  extracted_text = "";
  content = decode a.data_base64;
  duration_secs = 0;
}

-- How far handleChat comes before it waits: it has replied, or it waits under its request ID for a response to
-- this user.
pub data Started : Type 0 where
  replied : Reply → Started
  waits : String → Started

-- The request is put among those that wait, and its message goes to the agent.
unfoldable pub enqueue : String → String → ChatRequest → Gateway → Gateway
unfolding attachment_of
enqueue id user req g = record g {
  responses = put id none g.responses;
  messages =
      g.messages
      ++ (record {
        id = id;
        channel = "http";
        user_id = user;
        content = req.content;
        thread_id = req.thread_id;
        attachments = map (attachment_of g.decode) req.attachments;
      }
          ∷ []);
}

-- What handleChat does with the user that it found.
unfoldable pub with_user : String → ChatRequest → Gateway → Result String String → Gateway × Started
unfolding enqueue
with_user id req g (err e) = (g, replied (error 401 "unauthorized"))
with_user id req g (ok user) =
    if req.content == ""
    then (g, replied (error 400 "content is required"))
    else (enqueue id user req g, waits user)

-- The part of handleChat before it waits, with the new UUID
unfoldable pub start_chat : String → HttpRequest → Option ChatRequest → Gateway → Gateway × Started
unfolding with_user chat_user
start_chat id r none g = (
  g,
  replied (if is_post r.method then error 400 "invalid json" else error 405 "method not allowed"),
)
start_chat id r (some req) g =
    if is_post r.method
    then with_user id req g (chat_user req g.authenticator)
    else (g, replied (error 405 "method not allowed"))

-- case ch <- msg: default:
abbrev pub fill : OutgoingResponse → Option OutgoingResponse → Option OutgoingResponse
fill msg none = some msg
fill msg (some old) = some old

unfoldable pub fill_all :
    OutgoingResponse → Dict (Option OutgoingResponse) → Dict (Option OutgoingResponse)
fill_all msg [] = []
fill_all msg ((id, slot) ∷ rest) = (id, fill msg slot) ∷ fill_all msg rest

-- Gateway.SendMessage: the response goes to every request that waits.
unfoldable pub send_message : OutgoingResponse → Gateway → Gateway
unfolding fill_all
send_message msg g = record g { responses = fill_all msg g.responses }

-- Which case of the wait is taken: the response, the timeout of thirty seconds, or the shutdown.
pub data Wake : Type 0 where
  takes_response times_out shuts_down : Wake

abbrev pub look_up :
    ℕ → String → String → Option PendingStore → Option PendingStore × Option PendingGate
look_up now user thread none = (none, none)
look_up now user thread (some s) = let (s', pg) = get_pending now user thread s in (some s', pg)

-- The reply to a response.
unfoldable pub reply_to : ℕ → String → OutgoingResponse → Gateway → Gateway × Reply
unfolding get_pending
reply_to now user resp g =
    if resp.status == "pending_gate"
    then (let (store, pg) = look_up now user resp.thread_id g.pending_store in
        (record g { pending_store = store }, pending_gate resp.thread_id pg))
    else (g, answer resp.content resp.thread_id)

-- The deferred deletion: the request waits no longer.
unfoldable pub leave : String → Gateway × Reply → Gateway × Reply
leave id (g, reply) = (record g { responses = remove id g.responses }, reply)

abbrev pub on_response :
    ℕ → String → String → Option (Option OutgoingResponse) → Gateway → Option (Gateway × Reply)
on_response now id user (some (some resp)) g = some (leave id (reply_to now user resp g))
on_response now id user (some none) g = none
on_response now id user none g = none

-- The end of handleChat; `none` where the case that is taken is not ready.
unfoldable pub finish_chat : ℕ → String → String → Wake → Gateway → Option (Gateway × Reply)
unfolding reply_to leave
finish_chat now id user takes_response g = on_response now id user (get id g.responses) g
finish_chat now id user times_out g = some (leave id (g, error 504 "timeout"))
finish_chat now id user shuts_down g = some (leave id (g, error 503 "server shutting down"))
