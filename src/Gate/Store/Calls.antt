-- ===== src/Gate/Store/Calls.antt =====
-- A history of calls on the store of gate/store.go. The mutex makes each call one step, so every
-- interleaving of the goroutines that share a store is such a list.
use ironclaw_go.Shared.{ℕ, String, List, [], ◌∷◌, Params}
use ironclaw_go.Gate.Store.{
  PendingStore, create, get_pending, get_by_request_id, resolve, deny_pending, consume_resolved,
  clear_resolved, list_pending,
}
use ironclaw_go.Gate.Store.Invariant.{
  IsConsistent, IsNew, create-IsConsistent, clear_resolved-IsConsistent,
}
use ironclaw_go.Gate.Store.Preserve.{
  get_pending-IsConsistent, get_by_request_id-IsConsistent, resolve-IsConsistent,
  deny_pending-IsConsistent, consume_resolved-IsConsistent, list_pending-IsConsistent,
}

pub data Call : Type 0 where
  creates : ℕ → String → String → String → String → Params → String → Call
  gets : ℕ → String → String → Call
  gets_by_request_id : ℕ → String → Call
  resolves : ℕ → String → String → String → Call
  denies : ℕ → String → String → String → Call
  consumes : ℕ → String → String → Call
  clears : String → String → Call
  lists : ℕ → Call

unfoldable pub step : Call → PendingStore → PendingStore
step (creates now rid user thread tool params source) s =
    (create now rid user thread tool params source s).0
step (gets now user thread) s = (get_pending now user thread s).0
step (gets_by_request_id now rid) s = (get_by_request_id now rid s).0
step (resolves now user thread rid) s = (resolve now user thread rid s).0
step (denies now user thread rid) s = (deny_pending now user thread rid s).0
step (consumes now user thread) s = (consume_resolved now user thread s).0
step (clears user thread) s = clear_resolved user thread s
step (lists now) s = (list_pending now s).0

-- The calls in the order in which they take the lock.
unfoldable pub run : List Call → PendingStore → PendingStore
run [] s = s
run (c ∷ cs) s = run cs (step c s)

-- The UUIDs of a history are new when they are drawn.
abbrev pub IsFresh : Call → PendingStore → Type 0
IsFresh (creates now rid user thread tool params source) s = IsNew rid s
IsFresh (gets now user thread) s = Unit
IsFresh (gets_by_request_id now rid) s = Unit
IsFresh (resolves now user thread rid) s = Unit
IsFresh (denies now user thread rid) s = Unit
IsFresh (consumes now user thread) s = Unit
IsFresh (clears user thread) s = Unit
IsFresh (lists now) s = Unit

abbrev pub AllFresh : List Call → PendingStore → Type 0
AllFresh [] s = Unit {0}
AllFresh (c ∷ cs) s = IsFresh c s × AllFresh cs (step c s)

pub step-IsConsistent :
    (c : Call) (s : PendingStore) → IsFresh c s → IsConsistent s → IsConsistent (step c s)
unfolding step
step-IsConsistent (creates now rid user thread tool params source) s n c =
    create-IsConsistent s c now rid user thread tool params source n
step-IsConsistent (gets now user thread) s n c = get_pending-IsConsistent s c now user thread
step-IsConsistent (gets_by_request_id now rid) s n c = get_by_request_id-IsConsistent s c now rid
step-IsConsistent (resolves now user thread rid) s n c =
    resolve-IsConsistent s c now user thread rid
step-IsConsistent (denies now user thread rid) s n c =
    deny_pending-IsConsistent s c now user thread rid
step-IsConsistent (consumes now user thread) s n c =
    consume_resolved-IsConsistent s c now user thread
step-IsConsistent (clears user thread) s n c = clear_resolved-IsConsistent s c user thread
step-IsConsistent (lists now) s n c = list_pending-IsConsistent now s c

-- From a consistent store, any history of calls whose UUIDs are new when they are drawn leaves the
-- store consistent: the gates that wait and those that were approved stand under their own thread,
-- the index by request finds each gate that waits, and a request that waits, one that was approved
-- and one that was spent are never the same request.
pub run-IsConsistent :
    (cs : List Call) (s : PendingStore) → AllFresh cs s → IsConsistent s → IsConsistent (run cs s)
unfolding run
run-IsConsistent [] s f c = c
run-IsConsistent (x ∷ cs) s f c = run-IsConsistent cs (step x s) f.1 (step-IsConsistent x s f.0 c)
