-- ===== src/Channels/Gateway/Laws.antt =====
-- What the handlers of internal/channels/httpgw/httpgw.go bring about.
use ironclaw_go.Shared.{
  ℕ, String, true, false, ◌≡◌, refl, sym, ap, ◌∙◌, Option, none, some, [], ◌∷◌, Dict, get, remove,
  get-put, get-remove, get-remove_self, changed, Result, ok, err, if◌then◌else◌, ◌==◌, eq_refl,
  arith, Bool-cases, inl, inr, skip, starts_with,
}
use ironclaw_go.Gate.{PendingGate, GateError, is_expired}
use ironclaw_go.Gate.Store.{PendingStore, resolve, consume_resolved}
use ironclaw_go.Gate.Store.Invariant.{IsConsistent}
use ironclaw_go.Gate.Store.Protocol.{consume-resolve}
use ironclaw_go.Db.Memory.{
  MemoryDb, delete_conversation, delete_messages_by_thread, get_messages_by_thread, or_nil,
}
use ironclaw_go.Db.Paging.{page_lem}
use ironclaw_go.History.{delete_thread}
use ironclaw_go.Channels.{OutgoingResponse}
use ironclaw_go.Channels.Gateway.{
  Gateway, HttpRequest, post_method, get_method, delete_method, Reply, gate_approved, answer,
  deleted, thread_messages, prefix, handle_history_thread_detail, thread_detail,
}
use ironclaw_go.Channels.Gateway.Gates.{
  is_post, GateRequest, handle_gate_approve, settle_approve, asking_user,
}
use ironclaw_go.Channels.Gateway.Chat.{
  ChatRequest, chat_user, waits, start_chat, with_user, enqueue, fill, fill_all, send_message,
  takes_response, finish_chat,
}

get-fill_all :
    (msg : OutgoingResponse) (id : String) (m : Dict (Option OutgoingResponse))
    → get id (fill_all msg m) ≡ changed (fill msg) (get id m)
unfolding get fill_all
get-fill_all msg id [] = refl
get-fill_all msg id ((k, slot) ∷ m) = ground (arith, get-fill_all msg id m)

settle_approve-some :
    (now : ℕ) (user request : String) (g : Gateway) (pg : PendingGate)
    (res : PendingStore × Result GateError (Option PendingGate))
    → res.1 ≡ ok (some pg)
    → ((settle_approve now user request g res).1 ≡ gate_approved request pg.tool_name)
      × ((settle_approve now user request g res).0.pending_store ≡ some res.0)
unfolding settle_approve
settle_approve-some now user request g pg (s, err e) h = absurd (ground arith)
settle_approve-some now user request g pg (s, ok none) h = absurd (ground arith)
settle_approve-some now user request g pg (s, ok (some qg)) h =
    let same : qg ≡ pg = ground arith in
    (ap (λ (p : PendingGate). gate_approved request p.tool_name) same, refl)

-- An approval that passes the checks is what Resolve makes of it.
handle_gate_approve-resolves :
    (now : ℕ) (r : HttpRequest) (req : GateRequest) (g : Gateway) (s : PendingStore)
    → g.pending_store ≡ some s
    → r.method ≡ post_method
    → (req.thread_id == "") ≡ false
    → handle_gate_approve now r (some req) g
      ≡ settle_approve now
          (asking_user r req g)
          req.request_id
          g
          (resolve now (asking_user r req g) req.thread_id req.request_id s)
unfolding handle_gate_approve
handle_gate_approve-resolves now r req g s store post named =
    rw (store, handle_gate_approve) (rw post (rw named refl))

-- A gate that waits at a thread and has not run out is approved by a POST that names the thread and the gate's
-- request, whatever user its body names and whatever key it carries: it is answered as an approval of
-- the gate's tool, and afterwards the next ConsumeResolved of the thread, for any user, takes that gate.
pub handle_gate_approve-runs :
    (now later : ℕ) (r : HttpRequest) (req : GateRequest) (g : Gateway) (s : PendingStore)
    (pg : PendingGate) (other : String)
    → g.pending_store ≡ some s
    → IsConsistent s
    → get req.thread_id s.by_key ≡ some pg
    → is_expired now pg ≡ false
    → r.method ≡ post_method
    → pg.request_id ≡ req.request_id
    → (req.thread_id == "") ≡ false
    → ((handle_gate_approve now r (some req) g).1 ≡ gate_approved req.request_id pg.tool_name)
      × ((t : PendingStore) × ((handle_gate_approve now r (some req) g).0.pending_store ≡ some t)
          × ((consume_resolved later other req.thread_id t).1 ≡ some pg))
handle_gate_approve-runs now later r req g s pg other store c here fresh post same named =
    let user = asking_user r req g in
    let (answered, consumed, _) =
      consume-resolve now later user other req.thread_id s pg c here fresh in
    let result = resolve now user req.thread_id req.request_id s in
    let by_request : resolve now user req.thread_id pg.request_id s ≡ result =
      ap (λ id. resolve now user req.thread_id id s) same in
    let (reply, kept) = settle_approve-some now user req.request_id g pg result (
      sym (ap (λ (p : PendingStore × Result GateError (Option PendingGate)). p.1) by_request)
      ∙ answered) in
    let e = handle_gate_approve-resolves now r req g s store post named in
    (
      ap (λ (p : Gateway × Reply). p.1) e ∙ reply,
      (
        result.0,
        ap (λ (p : Gateway × Reply). p.0.pending_store) e ∙ kept,
        sym (
              ap
                (λ (p : PendingStore × Result GateError (Option PendingGate)).
                  (consume_resolved later other req.thread_id p.0).1)
                by_request)
            ∙ consumed,
      ),
    )

with_user-waits :
    (id user : String) (req : ChatRequest) (g g' : Gateway) (found : Result String String)
    → with_user id req g found ≡ (g', waits user)
    → g' ≡ enqueue id user req g
unfolding with_user
with_user-waits id user req g g' (err e) h = absurd (ground arith)
with_user-waits id user req g g' (ok u) h = elim (Bool-cases (req.content == "")) [
  | inl empty ↦ absurd (ground arith)
  | inr full ↦ ground arith
]

start_chat-waits :
    (id user : String) (r : HttpRequest) (req : ChatRequest) (g g' : Gateway)
    → start_chat id r (some req) g ≡ (g', waits user)
    → g' ≡ enqueue id user req g
unfolding start_chat
start_chat-waits id user r req g g' h = elim (Bool-cases (is_post r.method)) [
  | inl post ↦ with_user-waits id user req g g' (chat_user req g.authenticator) (rw post at h)
  | inr other ↦ absurd (ground arith)
]

-- The request that was put among those that wait.
enqueued :
    (id user j : String) (req : ChatRequest) (g : Gateway)
    → get j (enqueue id user req g).responses ≡ (if id == j then some none else get j g.responses)
unfolding enqueue
enqueued id user j req g = get-put id j none g.responses

-- A request that has its first response is answered with it, and waits no longer.
finish_chat-answers :
    (id user : String) (now : ℕ) (msg : OutgoingResponse) (g : Gateway)
    → get id g.responses ≡ some (some msg)
    → (msg.status == "pending_gate") ≡ false
    → finish_chat now id user takes_response g
      ≡ some (record g { responses = remove id g.responses }, answer msg.content msg.thread_id)
unfolding finish_chat
finish_chat-answers id user now msg g there plain = rw (there, finish_chat) (rw plain refl)

sent :
    (msg : OutgoingResponse) (id : String) (g : Gateway)
    → get id g.responses ≡ some none
    → get id (send_message msg g).responses ≡ some (some msg)
unfolding send_message
sent msg id g waiting = get-fill_all msg id g.responses ∙ rw waiting refl

-- Of two chat requests that wait at the same time, of whatever users and threads, one response that is not about
-- a gate answers both, each with its content, and then neither waits.
pub send_message-answers_both :
    (now : ℕ) (id1 id2 user1 user2 : String) (r1 r2 : HttpRequest) (req1 req2 : ChatRequest)
    (msg : OutgoingResponse) (g g1 g2 : Gateway)
    → start_chat id1 r1 (some req1) g ≡ (g1, waits user1)
    → start_chat id2 r2 (some req2) g1 ≡ (g2, waits user2)
    → (id1 == id2) ≡ false
    → (msg.status == "pending_gate") ≡ false
    → (g3 : Gateway) × (g4 : Gateway) × (finish_chat now id1 user1 takes_response
          (send_message msg g2)
        ≡ some (g3, answer msg.content msg.thread_id))
      × (finish_chat now id2 user2 takes_response g3 ≡ some (g4, answer msg.content msg.thread_id))
      × (get id1 g4.responses ≡ none)
      × (get id2 g4.responses ≡ none)
send_message-answers_both now id1 id2 user1 user2 r1 r2 req1 req2 msg g g1 g2 start1 start2 apart
      plain =
    let e1 = start_chat-waits id1 user1 r1 req1 g g1 start1 in
    let e2 = start_chat-waits id2 user2 r2 req2 g1 g2 start2 in
    let first : get id1 g1.responses ≡ some none =
      ap (λ (h : Gateway). get id1 h.responses) e1
      ∙ enqueued id1 user1 id1 req1 g
      ∙ rw (eq_refl id1) refl in
    let first' : get id1 g2.responses ≡ some none =
      ap (λ (h : Gateway). get id1 h.responses) e2
      ∙ enqueued id2 user2 id1 req2 g1
      ∙ ground (arith, first) in
    let second : get id2 g2.responses ≡ some none =
      ap (λ (h : Gateway). get id2 h.responses) e2
      ∙ enqueued id2 user2 id2 req2 g1
      ∙ rw (eq_refl id2) refl in
    let g3 : Gateway = record (send_message msg g2) {
      responses = remove id1 (send_message msg g2).responses;
    } in
    let second' : get id2 g3.responses ≡ some (some msg) =
      get-remove id1 id2 (send_message msg g2).responses ∙ rw apart (sent msg id2 g2 second) in
    (
      g3,
      record g3 { responses = remove id2 g3.responses },
      finish_chat-answers id1 user1 now msg (send_message msg g2) (sent msg id1 g2 first') plain,
      finish_chat-answers id2 user2 now msg g3 second' plain,
      get-remove id2 id1 g3.responses
          ∙ ground (arith, get-remove_self id1 (send_message msg g2).responses),
      get-remove_self id2 g3.responses,
    )

delete_thread-messages : (k : String) (m : MemoryDb) → get k (delete_thread k m).messages ≡ none
unfolding delete_thread delete_conversation delete_messages_by_thread
delete_thread-messages k m = get-remove_self k (remove k m.messages)

nothing_left :
    (k : String) (m : MemoryDb) → get_messages_by_thread k 1000 0 (delete_thread k m) ≡ some []
unfolding get_messages_by_thread
nothing_left k m =
    page_lem 1000 0 (or_nil (get k (delete_thread k m).messages)) (omega arith) (omega arith)
    ∙ rw (delete_thread-messages k m) refl

-- After a DELETE of a thread, a GET of the same thread answers with no messages, whoever asks, with or
-- without a key.
pub handle_history_thread_detail-deleted :
    (r r' : HttpRequest) (g : Gateway) (m : MemoryDb)
    → g.history_store ≡ some m
    → r.method ≡ delete_method
    → r'.method ≡ get_method
    → r'.path ≡ r.path
    → starts_with r.path prefix ≡ true
    → (skip 21 r.path == "") ≡ false
    → ((handle_history_thread_detail r g).1 ≡ some deleted)
      × ((handle_history_thread_detail r' (handle_history_thread_detail r g).0).1
          ≡ some (thread_messages (skip 21 r.path) []))
unfolding handle_history_thread_detail
handle_history_thread_detail-deleted r r' g m store del gets path route named =
    let e : handle_history_thread_detail r g
        ≡ (record g { history_store = some (delete_thread (skip 21 r.path) m) }, some deleted) =
      rw (store, handle_history_thread_detail) (rw route (rw named (rw del refl))) in
    (
      ap (λ (p : Gateway × Option Reply). p.1) e,
      rw e (
          rw path (
            rw route
              (rw named (rw gets (rw (nothing_left (skip 21 r.path) m, thread_detail) refl))))),
    )
