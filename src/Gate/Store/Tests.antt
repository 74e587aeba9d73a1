-- ===== src/Gate/Store/Tests.antt =====
-- Runs of the store of gate/store.go on small inputs.
use ironclaw_go.Shared.{
  String, false, ◌≡◌, refl, ◌≢◌, none, some, List, [], ◌∷◌, get, put, retain, ok, eq_iff,
}
use ironclaw_go.Gate.{PendingGate, is_expired}
use ironclaw_go.Gate.Store.{
  PendingStore, new_pending_store, create, resolve, deny_pending, consume_resolved,
}
use ironclaw_go.Gate.Store.Invariant.{IsConsistent, IsNew, new_pending_store-IsConsistent}
use ironclaw_go.Gate.Store.Calls.{Call, creates, resolves, step, run, AllFresh, run-IsConsistent}
use ironclaw_go.Gate.Store.Cases.{Resolves, resolve-Resolves}
use ironclaw_go.Gate.Store.Protocol.{Approves, consume-needs-approval, consume-resolve}
use ironclaw_go.Gate.Store.Once.{consume_once, deny_pending-blocks}

-- One call of shell that waits.
abbrev pub asks : Call
asks = creates 100 "r1" "ann" "t1" "shell" [] "repl"

abbrev history : List Call
history = asks ∷ resolves 200 "bob" "t1" "r1" ∷ []

abbrev pub waiting : PendingStore
waiting = run (asks ∷ []) new_pending_store

-- The gate that waits.
abbrev pub asked_for : PendingGate
asked_for = (create 100 "r1" "ann" "t1" "shell" [] "repl" new_pending_store).1

r1-IsNew : IsNew "r1" new_pending_store
unfolding new_pending_store get
r1-IsNew = record { not_indexed = refl; not_spent = refl; not_approved = λ k pg h. cc }

history-AllFresh : AllFresh history new_pending_store
history-AllFresh = (r1-IsNew, (tt, tt))

pub waiting-IsConsistent : IsConsistent waiting
waiting-IsConsistent =
    run-IsConsistent (asks ∷ []) new_pending_store (r1-IsNew, tt) new_pending_store-IsConsistent

approved-IsConsistent : IsConsistent (run history new_pending_store)
approved-IsConsistent =
    run-IsConsistent history new_pending_store history-AllFresh new_pending_store-IsConsistent

taken : (consume_resolved 300 "ann" "t1" (run history new_pending_store)).1 ≡ some asked_for
unfolding run step create resolve new_pending_store consume_resolved get put retain
taken = refl

pub waits : get "t1" waiting.by_key ≡ some asked_for
unfolding run step create new_pending_store get put
waits = refl

pub in_time : is_expired 200 asked_for ≡ false
unfolding is_expired create new_pending_store
in_time = refl

-- A second request of the same thread, denied before anyone approves it, is gone for good.
denied : (deny_pending 200 "ann" "t1" "r1" waiting).1 ≡ ok tt
unfolding run step create new_pending_store deny_pending get put retain
denied = refl

unspent : get "r1" waiting.consumed ≡ none
unfolding run step create new_pending_store get retain
unspent = refl

-- What happens after the first gate was dealt with.
abbrev sequel : List Call
sequel = creates 400 "r2" "ann" "t1" "http" [] "repl" ∷ resolves 500 "ann" "t1" "r2" ∷ []

abbrev second : PendingGate
second = (create 400 "r2" "ann" "t1" "http" [] "repl" new_pending_store).1

taken_again :
    (consume_resolved 600 "ann" "t1"
      (run sequel (consume_resolved 300 "ann" "t1" (run history new_pending_store)).0)).1
    ≡ some second
unfolding run step create resolve new_pending_store consume_resolved get put retain
taken_again = refl

taken_after_denial :
    (consume_resolved 600 "ann" "t1" (run sequel (deny_pending 200 "ann" "t1" "r1" waiting).0)).1
    ≡ some second
unfolding run step create resolve new_pending_store consume_resolved deny_pending get put retain
taken_after_denial = refl

abbrev id1 : String
id1 = "r1"

abbrev id2 : String
id2 = "r2"

id2_ne_id1 : id2 ≢ id1
id2_ne_id1 = λ h. cc ((eq_iff id2 id1).1 h)

id1_ne_id2 : id1 ≢ id2
id1_ne_id2 = λ h. cc ((eq_iff id1 id2).1 h)

run-IsConsistent_example : IsConsistent (run history new_pending_store)
run-IsConsistent_example =
    run-IsConsistent history new_pending_store history-AllFresh new_pending_store-IsConsistent

consume-needs-approval_example : Approves "t1" asked_for.request_id history
consume-needs-approval_example = consume-needs-approval history 300 "ann" "t1" asked_for taken

consume_once_example : second.request_id ≢ asked_for.request_id
unfolding create
consume_once_example =
    consume_once (run history new_pending_store) 300 "ann" "t1" asked_for sequel 600 "ann" "t1"
      second approved-IsConsistent taken (id2_ne_id1, tt) taken_again

deny_pending-blocks_example : second.request_id ≢ id1
deny_pending-blocks_example =
    deny_pending-blocks waiting 200 "ann" "t1" "r1" sequel 600 "ann" "t1" second
      waiting-IsConsistent unspent denied (id2_ne_id1, tt) taken_after_denial

consume-resolve_example :
    let t = (resolve 200 "bob" "t1" "r1" waiting).0 in
    ((resolve 200 "bob" "t1" "r1" waiting).1 ≡ ok (some asked_for))
    × ((consume_resolved 300 "eve" "t1" t).1 ≡ some asked_for)
    × (get "t1" t.by_key ≡ none)
unfolding create
consume-resolve_example =
    consume-resolve 200 300 "bob" "eve" "t1" waiting asked_for waiting-IsConsistent waits in_time

resolve-Resolves_example : Resolves 200 "bob" "t1" "r1" waiting
resolve-Resolves_example = resolve-Resolves 200 "bob" "t1" "r1" waiting
