-- ===== src/Gate/Store.antt =====
-- internal/gate/store.go: the gates that wait for a user's approval, with an idempotent approval
-- protocol. Every operation runs under the store's mutex, so it is one step.
pub mod Invariant
pub mod Cases
pub mod Preserve
pub mod Calls
pub mod Protocol
pub mod Once
pub mod Tests
use ironclaw_go.Shared.{
  ℕ, ◌+◌, ◌*◌, ◌^◌, String, Bool, true, false, not, Option, none, some, List, [], ◌∷◌, ◌++◌, Params,
  Dict, get, put, remove, retain, keys, length, is_some, ltb, ◌==◌, if◌then◌else◌, Result, ok, err,
}
use ironclaw_go.Gate.{PendingGate, is_expired, GateError}
use ironclaw_go.Gate.Approval.{describe_pending}

-- PendingStore
pub record PendingStore : Type 0 where
  pub by_key : Dict PendingGate
  pub by_req_id : Dict String
  pub resolved : Dict PendingGate
  pub consumed : Dict ℕ
  pub ttl : ℕ

-- NewPendingStore: the time to live is ten minutes.
unfoldable pub new_pending_store : PendingStore
new_pending_store = record {
  by_key = [];
  by_req_id = [];
  resolved = [];
  consumed = [];
  ttl = 600 * 10 ^ 9;
}

-- PendingStore.key: the user is ignored.
unfoldable pub key : String → String → String
key user thread = thread

-- The sweep of `consumed` in Create: now.Sub(t) > ttl.
unfoldable pub is_fresh : ℕ → ℕ → String → ℕ → Bool
is_fresh now ttl rid t = not (ltb (t + ttl) now)

-- PendingStore.Create, at the time `now`, with a new UUID `req_id`.
unfoldable pub create :
    ℕ
    → String
    → String
    → String
    → String
    → Params
    → String
    → PendingStore
    → PendingStore × PendingGate
unfolding key is_fresh
create now req_id user thread tool params source s = (
  record s {
    by_key = put (key user thread) pg s.by_key;
    by_req_id = put req_id (key user thread) s.by_req_id;
    consumed = retain (is_fresh now s.ttl) s.consumed;
  },
  pg,
)
  where
    pg : PendingGate
    pg = record {
      request_id = req_id;
      gate_name = "approval";
      user_id = user;
      thread_id = thread;
      tool_name = tool;
      params = params;
      description = describe_pending tool params;
      created_at = now;
      expires_at = now + s.ttl;
      source_channel = source;
    }

-- The two deletions of a gate that has run out.
unfoldable pub drop_pending : String → String → PendingStore → PendingStore
drop_pending k req_id s = record s {
  by_key = remove k s.by_key;
  by_req_id = remove req_id s.by_req_id;
}

-- PendingStore.Get
unfoldable pub get_pending : ℕ → String → String → PendingStore → PendingStore × Option PendingGate
unfolding key is_expired drop_pending
get_pending now user thread s = elim (get (key user thread) s.by_key) [
  | none ↦ (s, none)
  | some pg ↦
      if is_expired now pg
      then (drop_pending (key user thread) pg.request_id s, none)
      else (s, some pg)
]

-- The second look-up of GetByRequestID.
unfoldable pub get_at_key :
    ℕ → String → String → Option PendingGate → PendingStore → PendingStore × Option PendingGate
unfolding is_expired drop_pending
get_at_key now k req_id none s = (record s { by_req_id = remove req_id s.by_req_id }, none)
get_at_key now k req_id (some pg) s =
    if is_expired now pg then (drop_pending k req_id s, none) else (s, some pg)

-- PendingStore.GetByRequestID
unfoldable pub get_by_request_id : ℕ → String → PendingStore → PendingStore × Option PendingGate
unfolding get_at_key
get_by_request_id now req_id s = elim (get req_id s.by_req_id) [
  | none ↦ (s, none)
  | some k ↦ get_at_key now k req_id (get k s.by_key) s
]

-- The three refusals.
abbrev pub no_pending : GateError
no_pending = record { reason = "no pending gate for this thread" }

abbrev pub stale_approval : GateError
stale_approval = record { reason = "request ID mismatch (stale approval)" }

abbrev pub has_expired : GateError
has_expired = record { reason = "pending gate has expired" }

-- The checks that Resolve and Deny share, on the gate that waits at the key: a gate that may be
-- taken out, or the refusal and the store that it leaves.
unfoldable pub claim :
    ℕ
    → String
    → String
    → Option PendingGate
    → PendingStore
    → PendingStore × Result GateError PendingGate
unfolding is_expired drop_pending
claim now k req_id none s = (s, err no_pending)
claim now k req_id (some pg) s =
    if not (pg.request_id == req_id)
    then (s, err stale_approval)
    else if is_expired now pg
    then (drop_pending k req_id s, err has_expired)
    else (drop_pending k req_id s, ok pg)

-- The last writes of Resolve.
unfoldable pub settle_resolved :
    String
    → PendingStore × Result GateError PendingGate
    → PendingStore × Result GateError (Option PendingGate)
settle_resolved k (s, err e) = (s, err e)
settle_resolved k (s, ok pg) = (record s { resolved = put k pg s.resolved }, ok (some pg))

-- Is this request the one that was approved and has not run?
unfoldable pub approved_now : String → Option PendingGate → Option PendingGate
approved_now req_id none = none
approved_now req_id (some pg) = if pg.request_id == req_id then some pg else none

-- PendingStore.Resolve. `ok none` is Go's `nil, nil`: the request has been dealt with.
unfoldable pub resolve :
    ℕ
    → String
    → String
    → String
    → PendingStore
    → PendingStore × Result GateError (Option PendingGate)
unfolding key claim settle_resolved approved_now
resolve now user thread req_id s =
    let k = key user thread in
    elim (approved_now req_id (get k s.resolved)) [
      | some pg ↦ (s, ok (some pg))
      | none ↦
          if is_some (get req_id s.consumed)
          then (s, ok none)
          else settle_resolved k (claim now k req_id (get k s.by_key) s)
    ]

-- The last write of Deny.
unfoldable pub settle_denied :
    ℕ
    → String
    → PendingStore × Result GateError PendingGate
    → PendingStore × Result GateError (Unit {0})
settle_denied now req_id (s, err e) = (s, err e)
settle_denied now req_id (s, ok pg) = (record s { consumed = put req_id now s.consumed }, ok tt)

-- PendingStore.Deny
unfoldable pub deny_pending :
    ℕ → String → String → String → PendingStore → PendingStore × Result GateError (Unit {0})
unfolding key claim settle_denied
deny_pending now user thread req_id s =
    if is_some (get req_id s.consumed)
    then (s, ok tt)
    else (let k = key user thread in
        settle_denied now req_id (claim now k req_id (get k s.by_key) s))

-- PendingStore.ConsumeResolved
unfoldable pub consume_resolved :
    ℕ → String → String → PendingStore → PendingStore × Option PendingGate
unfolding key
consume_resolved now user thread s = elim (get (key user thread) s.resolved) [
  | none ↦ (s, none)
  | some pg ↦ (
    record s {
      resolved = remove (key user thread) s.resolved;
      consumed = put pg.request_id now s.consumed;
    },
    some pg,
  )
]

-- PendingStore.ClearResolved
unfoldable pub clear_resolved : String → String → PendingStore → PendingStore
unfolding key
clear_resolved user thread s = record s { resolved = remove (key user thread) s.resolved }

-- One round of the loop of List: a gate that has run out is deleted, another is returned.
unfoldable pub visit :
    ℕ → String → Option PendingGate → PendingStore → PendingStore × List PendingGate
unfolding is_expired drop_pending
visit now k none s = (s, [])
visit now k (some pg) s =
    if is_expired now pg then (drop_pending k pg.request_id s, []) else (s, pg ∷ [])

-- The loop of List over the keys of the map.
unfoldable pub sweep : ℕ → List String → PendingStore → PendingStore × List PendingGate
unfolding visit
sweep now [] s = (s, [])
sweep now (k ∷ ks) s =
    let (t, out) = visit now k (get k s.by_key) s in
    let (u, rest) = sweep now ks t in (u, out ++ rest)

-- PendingStore.List
unfoldable pub list_pending : ℕ → PendingStore → PendingStore × List PendingGate
unfolding sweep
list_pending now s = sweep now (keys s.by_key) s

-- PendingStore.Count
unfoldable pub count_pending : PendingStore → ℕ
count_pending s = length s.by_key

-- PendingStore.HasPending
unfoldable pub has_pending : ℕ → String → String → PendingStore → PendingStore × Bool
unfolding get_pending
has_pending now user thread s = let (t, found) = get_pending now user thread s in (t, is_some found)
