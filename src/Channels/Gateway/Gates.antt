-- ===== src/Channels/Gateway/Gates.antt =====
-- The handlers of internal/channels/httpgw/httpgw.go for pending gates, and the theorems that say what
-- an approval or a denial over HTTP does.
use ironclaw_go.Shared.{
  ℕ, String, Bool, true, false, Option, none, some, get, Result, ok, err, if◌then◌else◌, ◌==◌,
  keep_if,
}
use ironclaw_go.Gate.{PendingGate, GateError}
use ironclaw_go.Gate.Store.{PendingStore, resolve, deny_pending, list_pending}
use ironclaw_go.Gate.Risk.{RiskBasedEvaluator, record_approval}
use ironclaw_go.Channels.Gateway.{
  Gateway, HttpRequest, Method, get_method, post_method, Reply, error, gate_approved, gate_denied,
  gates, authenticated_user_id, or_else, parameter,
}

-- The body of handleGateApprove and handleGateDeny.
pub record GateRequest : Type 0 where
  pub request_id : String
  pub user_id : String
  pub thread_id : String

-- The user that the request is taken to come from: the name in the body, whose key is asked for only where
-- the body has none.
unfoldable pub asking_user : HttpRequest → GateRequest → Gateway → String
unfolding authenticated_user_id
asking_user r req g = or_else (or_else req.user_id (authenticated_user_id r g)) "anonymous"

-- The learning mode: the evaluator notes what was approved.
abbrev pub learn : ℕ → String → PendingGate → Option RiskBasedEvaluator → Option RiskBasedEvaluator
learn now user pg none = none
learn now user pg (some e) = some (record_approval now pg.tool_name pg.params user e)

-- The end of handleGateApprove, from what Resolve returned.
unfoldable pub settle_approve :
    ℕ
    → String
    → String
    → Gateway
    → PendingStore × Result GateError (Option PendingGate)
    → Gateway × Reply
settle_approve now user request g (s, err e) =
    (record g { pending_store = some s }, error 404 e.reason)
settle_approve now user request g (s, ok none) =
    (record g { pending_store = some s }, gate_approved request "")
settle_approve now user request g (s, ok (some pg)) = (
  record g { pending_store = some s; risk_evaluator = learn now user pg g.risk_evaluator },
  gate_approved request pg.tool_name,
)

-- The end of handleGateDeny.
unfoldable pub settle_deny :
    String → Gateway → PendingStore × Result GateError (Unit {0}) → Gateway × Reply
settle_deny request g (s, err e) = (record g { pending_store = some s }, error 404 e.reason)
settle_deny request g (s, ok u) = (record g { pending_store = some s }, gate_denied request)

abbrev pub is_post : Method → Bool
is_post post_method = true
is_post other = false

abbrev pub is_get : Method → Bool
is_get get_method = true
is_get other = false

-- The checks that both handlers begin with, on a gateway with a pending store.
abbrev pub checked : HttpRequest → Option GateRequest → Result Reply GateRequest
checked r none =
    if is_post r.method
    then err (error 400 "invalid json")
    else err (error 405 "method not allowed")
checked r (some req) =
    if is_post r.method
    then (if req.thread_id == "" then err (error 400 "thread_id is required") else ok req)
    else err (error 405 "method not allowed")

abbrev pub store_or_error : Gateway → (PendingStore → Gateway × Reply) → Gateway × Reply
store_or_error g handle = elim g.pending_store [
  | none ↦ (g, error 503 "gate pending store not available")
  | some s ↦ handle s
]

-- handleGateApprove
unfoldable pub handle_gate_approve :
    ℕ → HttpRequest → Option GateRequest → Gateway → Gateway × Reply
unfolding settle_approve asking_user resolve
handle_gate_approve now r body g = store_or_error g (λ s. elim (checked r body) [
  | err reply ↦ (g, reply)
  | ok req ↦
      let user = asking_user r req g in
      settle_approve now user req.request_id g (resolve now user req.thread_id req.request_id s)
])

-- handleGateDeny
unfoldable pub handle_gate_deny : ℕ → HttpRequest → Option GateRequest → Gateway → Gateway × Reply
unfolding settle_deny asking_user deny_pending
handle_gate_deny now r body g = store_or_error g (λ s. elim (checked r body) [
  | err reply ↦ (g, reply)
  | ok req ↦
      settle_deny req.request_id g
        (deny_pending now (asking_user r req g) req.thread_id req.request_id s)
])

-- handleGatesPending
unfoldable pub handle_gates_pending : ℕ → HttpRequest → Gateway → Gateway × Reply
unfolding authenticated_user_id list_pending
handle_gates_pending now r g = store_or_error g (λ s.
    if is_get r.method
    then (let user =
          or_else (or_else (parameter (get "user_id" r.query)) (authenticated_user_id r g))
            "anonymous" in
        let (s', all) = list_pending now s in
        (record g { pending_store = some s' }, gates (keep_if (λ pg. pg.user_id == user) all)))
    else (g, error 405 "method not allowed"))
