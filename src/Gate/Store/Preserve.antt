-- ===== src/Gate/Store/Preserve.antt =====
-- Every operation of gate/store.go keeps the store consistent, on every branch.
use ironclaw_go.Shared.{
  ℕ, String, ◌≡◌, inl, inr, some, List, [], ◌∷◌, get, Option-cases, Bool-cases, keys,
}
use ironclaw_go.Gate.{is_expired}
use ironclaw_go.Gate.Store.{
  PendingStore, get_pending, get_at_key, get_by_request_id, resolve, deny_pending, consume_resolved,
  visit, sweep, list_pending,
}
use ironclaw_go.Gate.Store.Cases.{
  Resolves, waits_to_run, granted, resolve-Resolves, Denies, denied, deny_pending-Denies,
}
use ironclaw_go.Gate.Store.Invariant.{
  IsConsistent, drop_pending-IsConsistent, approve-IsConsistent, spend-IsConsistent,
  consume-IsConsistent, forget-IsConsistent,
}

module _ (s : PendingStore) (c : IsConsistent s) where
  pub get_pending-IsConsistent :
      (now : ℕ) (user thread : String) → IsConsistent (get_pending now user thread s).0
  unfolding get_pending
  get_pending-IsConsistent now user thread = elim (Option-cases (get thread s.by_key)) [
    | inl gone ↦ rw (gone, get_pending) c
    | inr (pg, here) ↦ elim (Bool-cases (is_expired now pg)) [
      | inl old ↦
          rw (here, get_pending)
            (rw (old, get_pending)
              (drop_pending-IsConsistent s c thread pg.request_id (c.indexed thread pg here)))
      | inr fresh ↦ rw (here, get_pending) (rw (fresh, get_pending) c)
    ]
  ]

  get_at_key-IsConsistent :
      (now : ℕ) (k rid : String)
      → get rid s.by_req_id ≡ some k
      → IsConsistent (get_at_key now k rid (get k s.by_key) s).0
  unfolding get_at_key
  get_at_key-IsConsistent now k rid at_rid = elim (Option-cases (get k s.by_key)) [
    | inl gone ↦ rw (gone, get_at_key) (forget-IsConsistent s c k rid at_rid gone)
    | inr (pg, here) ↦ elim (Bool-cases (is_expired now pg)) [
      | inl old ↦
          rw (here, get_at_key) (rw (old, get_at_key) (drop_pending-IsConsistent s c k rid at_rid))
      | inr fresh ↦ rw (here, get_at_key) (rw (fresh, get_at_key) c)
    ]
  ]

  pub get_by_request_id-IsConsistent :
      (now : ℕ) (rid : String) → IsConsistent (get_by_request_id now rid s).0
  unfolding get_by_request_id
  get_by_request_id-IsConsistent now rid = elim (Option-cases (get rid s.by_req_id)) [
    | inl gone ↦ rw (gone, get_by_request_id) c
    | inr (k, at_rid) ↦ rw (at_rid, get_by_request_id) (get_at_key-IsConsistent now k rid at_rid)
  ]

  pub resolve-IsConsistent :
      (now : ℕ) (user thread rid : String) → IsConsistent (resolve now user thread rid s).0
  resolve-IsConsistent now user thread rid = elim (resolve-Resolves now user thread rid s) [
    | waits_to_run pg here same q ↦ rw q c
    | Resolves.dealt_with new b q ↦ rw q c
    | Resolves.refused e new unspent why q ↦ rw q c
    | Resolves.ran_out pg new unspent here same old q ↦
        rw q (drop_pending-IsConsistent s c thread pg.request_id (c.indexed thread pg here))
    | granted pg new unspent here same fresh q ↦ rw q (approve-IsConsistent s c thread pg here)
  ]

  pub deny_pending-IsConsistent :
      (now : ℕ) (user thread rid : String) → IsConsistent (deny_pending now user thread rid s).0
  deny_pending-IsConsistent now user thread rid = elim (deny_pending-Denies now user thread rid s) [
    | Denies.dealt_with b q ↦ rw q c
    | Denies.refused e q ↦ rw q c
    | Denies.ran_out pg e here same q ↦
        rw q (drop_pending-IsConsistent s c thread pg.request_id (c.indexed thread pg here))
    | denied pg here same fresh q ↦ rw q (spend-IsConsistent s c thread pg now here)
  ]

  pub consume_resolved-IsConsistent :
      (now : ℕ) (user thread : String) → IsConsistent (consume_resolved now user thread s).0
  unfolding consume_resolved
  consume_resolved-IsConsistent now user thread = elim (Option-cases (get thread s.resolved)) [
    | inl gone ↦ rw (gone, consume_resolved) c
    | inr (pg, here) ↦ rw (here, consume_resolved) (consume-IsConsistent s c thread pg now here)
  ]

  visit-IsConsistent : (now : ℕ) (k : String) → IsConsistent (visit now k (get k s.by_key) s).0
  unfolding visit
  visit-IsConsistent now k = elim (Option-cases (get k s.by_key)) [
    | inl gone ↦ rw (gone, visit) c
    | inr (pg, here) ↦ elim (Bool-cases (is_expired now pg)) [
      | inl old ↦
          rw (here, visit)
            (rw (old, visit) (drop_pending-IsConsistent s c k pg.request_id (c.indexed k pg here)))
      | inr fresh ↦ rw (here, visit) (rw (fresh, visit) c)
    ]
  ]

sweep-IsConsistent :
    (now : ℕ) (ks : List String) (s : PendingStore)
    → IsConsistent s
    → IsConsistent (sweep now ks s).0
unfolding sweep
sweep-IsConsistent now [] s c = c
sweep-IsConsistent now (k ∷ ks) s c =
    sweep-IsConsistent now ks (visit now k (get k s.by_key) s).0 (visit-IsConsistent s c now k)

pub list_pending-IsConsistent :
    (now : ℕ) (s : PendingStore) → IsConsistent s → IsConsistent (list_pending now s).0
unfolding list_pending
list_pending-IsConsistent now s c = sweep-IsConsistent now (keys s.by_key) s c
