-- ===== src/Gate/Store/Once.antt =====
-- A request of gate/store.go runs at most once, and a denied one never: once it is neither waiting
-- nor approved, no later history brings it back.
use ironclaw_go.Shared.{
  ℕ, String, ◌≡◌, ◌≢◌, inl, inr, Option, none, some, List, [], ◌∷◌, Params, get, dict_laws, eq_iff,
  arith, Option-cases, ok, keys,
}
use ironclaw_go.Gate.{PendingGate}
use ironclaw_go.Gate.Store.{
  PendingStore, create, drop_pending, get_pending, get_by_request_id, resolve, deny_pending,
  consume_resolved, clear_resolved, visit, sweep, list_pending,
}
use ironclaw_go.Gate.Store.Cases.{
  Resolves, waits_to_run, granted, resolve-Resolves, Denies, denied, deny_pending-Denies,
}
use ironclaw_go.Gate.Store.Invariant.{IsConsistent}
use ironclaw_go.Gate.Store.Protocol.{get-resolved_of_consume}
use ironclaw_go.Gate.Store.Calls.{
  Call, creates, gets, gets_by_request_id, resolves, denies, consumes, clears, lists, step, run,
}

-- No gate of the request waits or is approved.
pub record IsGone (rid : String) (s : PendingStore) : Type 0 where
  pub not_waiting : (k : String) (pg : PendingGate) → get k s.by_key ≡ some pg → pg.request_id ≢ rid
  pub not_approved :
      (k : String) (pg : PendingGate) → get k s.resolved ≡ some pg → pg.request_id ≢ rid

-- The history draws the UUID for no other request.
abbrev pub Unused : String → List Call → Type 0
Unused rid [] = Unit {0}
Unused rid (creates now r user thread tool params source ∷ cs) = (r ≢ rid) × Unused rid cs
Unused rid (resolves now user thread r ∷ cs) = Unused rid cs
Unused rid (gets now user thread ∷ cs) = Unused rid cs
Unused rid (gets_by_request_id now r ∷ cs) = Unused rid cs
Unused rid (denies now user thread r ∷ cs) = Unused rid cs
Unused rid (consumes now user thread ∷ cs) = Unused rid cs
Unused rid (clears user thread ∷ cs) = Unused rid cs
Unused rid (lists now ∷ cs) = Unused rid cs

module _ (rid : String) (s : PendingStore) (g : IsGone rid s) where
  drop_pending-IsGone : (k r : String) → IsGone rid (drop_pending k r s)
  unfolding drop_pending
  drop_pending-IsGone k r = record {
    not_waiting = λ j pg. simp dict_laws (ground (arith, g.not_waiting j pg));
    not_approved = g.not_approved;
  }

  create-IsGone :
      (now : ℕ) (r user thread tool : String) (params : Params) (source : String)
      → r ≢ rid
      → IsGone rid (create now r user thread tool params source s).0
  unfolding create
  create-IsGone now r user thread tool params source h = record {
    not_waiting = λ j pg. simp dict_laws (ground (arith, g.not_waiting j pg));
    not_approved = g.not_approved;
  }

  get_pending-IsGone : (now : ℕ) (user k : String) → IsGone rid (get_pending now user k s).0
  unfolding get_pending
  get_pending-IsGone now user k = grind (arith, drop_pending-IsGone)

  get_by_request_id-IsGone : (now : ℕ) (r : String) → IsGone rid (get_by_request_id now r s).0
  unfolding get_by_request_id
  get_by_request_id-IsGone now r = grind (arith, drop_pending-IsGone)

  visit-IsGone : (now : ℕ) (k : String) (o : Option PendingGate) → IsGone rid (visit now k o s).0
  unfolding visit
  visit-IsGone now k none = g
  visit-IsGone now k (some pg) = grind (arith, drop_pending-IsGone)

  resolve-IsGone : (now : ℕ) (user k r : String) → IsGone rid (resolve now user k r s).0
  resolve-IsGone now user k r = elim (resolve-Resolves now user k r s) [
    | waits_to_run pg at same q ↦ rw q g
    | Resolves.dealt_with new b q ↦ rw q g
    | Resolves.refused e new unspent why q ↦ rw q g
    | Resolves.ran_out pg new unspent at same old q ↦ rw q (drop_pending-IsGone k pg.request_id)
    | granted pg new unspent at same fresh q ↦
        let d = drop_pending-IsGone k pg.request_id in
        rw q (record {
          not_waiting = d.not_waiting;
          not_approved =
              λ j qg. simp dict_laws (ground (arith, g.not_approved j qg, g.not_waiting k pg at));
        })
  ]

  deny_pending-IsGone : (now : ℕ) (user k r : String) → IsGone rid (deny_pending now user k r s).0
  unfolding drop_pending
  deny_pending-IsGone now user k r = elim (deny_pending-Denies now user k r s) [
    | Denies.dealt_with b q ↦ rw q g
    | Denies.refused e q ↦ rw q g
    | Denies.ran_out pg e at same q ↦ rw q (drop_pending-IsGone k pg.request_id)
    | denied pg at same fresh q ↦
        let d = drop_pending-IsGone k pg.request_id in
        rw q (record { not_waiting = d.not_waiting; not_approved = d.not_approved })
  ]

  consume_resolved-IsGone :
      (now : ℕ) (user k : String) → IsGone rid (consume_resolved now user k s).0
  unfolding consume_resolved
  consume_resolved-IsGone now user k = elim (Option-cases (get k s.resolved)) [
    | inl gone ↦ rw (gone, consume_resolved) g
    | inr (pg, at) ↦
        rw (at, consume_resolved)
          (record {
            not_waiting = g.not_waiting;
            not_approved = λ j qg. simp dict_laws (ground (arith, g.not_approved j qg));
          })
  ]

  clear_resolved-IsGone : (user k : String) → IsGone rid (clear_resolved user k s)
  unfolding clear_resolved
  clear_resolved-IsGone user k = record {
    not_waiting = g.not_waiting;
    not_approved = λ j qg. simp dict_laws (ground (arith, g.not_approved j qg));
  }

sweep-IsGone :
    (rid : String) (now : ℕ) (ks : List String) (s : PendingStore)
    → IsGone rid s
    → IsGone rid (sweep now ks s).0
unfolding sweep
sweep-IsGone rid now [] s g = g
sweep-IsGone rid now (k ∷ ks) s g =
    sweep-IsGone rid now ks (visit now k (get k s.by_key) s).0
      (visit-IsGone rid s g now k (get k s.by_key))

run-IsGone :
    (rid : String) (cs : List Call) (s : PendingStore)
    → Unused rid cs
    → IsGone rid s
    → IsGone rid (run cs s)
unfolding run step list_pending
run-IsGone rid [] s u g = g
run-IsGone rid (creates now r user thread tool params source ∷ cs) s u g =
    run-IsGone rid cs (step (creates now r user thread tool params source) s) u.1
      (create-IsGone rid s g now r user thread tool params source u.0)
run-IsGone rid (gets now user thread ∷ cs) s u g =
    run-IsGone rid cs (step (gets now user thread) s) u (get_pending-IsGone rid s g now user thread)
run-IsGone rid (gets_by_request_id now r ∷ cs) s u g =
    run-IsGone rid cs (step (gets_by_request_id now r) s) u (get_by_request_id-IsGone rid s g now r)
run-IsGone rid (resolves now user thread r ∷ cs) s u g =
    run-IsGone rid cs (step (resolves now user thread r) s) u
      (resolve-IsGone rid s g now user thread r)
run-IsGone rid (denies now user thread r ∷ cs) s u g =
    run-IsGone rid cs (step (denies now user thread r) s) u
      (deny_pending-IsGone rid s g now user thread r)
run-IsGone rid (consumes now user thread ∷ cs) s u g =
    run-IsGone rid cs (step (consumes now user thread) s) u
      (consume_resolved-IsGone rid s g now user thread)
run-IsGone rid (clears user thread ∷ cs) s u g =
    run-IsGone rid cs (step (clears user thread) s) u (clear_resolved-IsGone rid s g user thread)
run-IsGone rid (lists now ∷ cs) s u g =
    run-IsGone rid cs (step (lists now) s) u (sweep-IsGone rid now (keys s.by_key) s g)

-- A request that is gone is not what ConsumeResolved takes.
consume-ne_gone :
    (rid : String) (now : ℕ) (user k : String) (s : PendingStore) (pg : PendingGate)
    → IsGone rid s
    → (consume_resolved now user k s).1 ≡ some pg
    → pg.request_id ≢ rid
unfolding consume_resolved
consume-ne_gone rid now user k s pg g h = elim (Option-cases (get k s.resolved)) [
  | inl gone ↦ absurd (ground (arith, gone))
  | inr (qg, at) ↦ ground (arith, at, g.not_approved k qg at)
]

-- In a consistent store, once a tool call took an approved gate, no history in which the UUID is not
-- drawn again leads to a store from which another call, of any thread, takes a gate of that request.
pub consume_once :
    (s : PendingStore) (now : ℕ) (user k : String) (pg : PendingGate) (cs : List Call) (later : ℕ)
    (user' k' : String) (qg : PendingGate)
    → IsConsistent s
    → (consume_resolved now user k s).1 ≡ some pg
    → Unused pg.request_id cs
    → (consume_resolved later user' k' (run cs (consume_resolved now user k s).0)).1 ≡ some qg
    → qg.request_id ≢ pg.request_id
consume_once s now user k pg cs later user' k' qg c taken u h =
    consume-ne_gone pg.request_id later user' k' (run cs (consume_resolved now user k s).0) qg
      (run-IsGone pg.request_id cs (consume_resolved now user k s).0 u gone) h
  where
    at : get k s.resolved ≡ some pg
    at = get-resolved_of_consume now user k s pg taken

    gone : IsGone pg.request_id (consume_resolved now user k s).0
    gone =
        unfold consume_resolved in
        rw (at, consume_resolved)
          (record {
            not_waiting = λ j qg. ground (arith, c.indexed j qg, c.approved_unindexed k pg at);
            not_approved =
                λ j qg. simp dict_laws (ground (arith, eq_iff k j, c.approved_once k j pg qg at));
          })

-- In a consistent store, when Deny of a request that was not dealt with before succeeds, no history
-- in which the UUID is not drawn again leads to a store from which a call takes a gate of that
-- request.
pub deny_pending-blocks :
    (s : PendingStore) (now : ℕ) (user k rid : String) (cs : List Call) (later : ℕ)
    (user' k' : String) (qg : PendingGate)
    → IsConsistent s
    → get rid s.consumed ≡ none
    → (deny_pending now user k rid s).1 ≡ ok tt
    → Unused rid cs
    → (consume_resolved later user' k' (run cs (deny_pending now user k rid s).0)).1 ≡ some qg
    → qg.request_id ≢ rid
unfolding drop_pending
deny_pending-blocks s now user k rid cs later user' k' qg c new done u =
    elim (deny_pending-Denies now user k rid s) [
      | Denies.dealt_with b q ↦ ground (arith, new)
      | Denies.refused e q ↦ cc q
      | Denies.ran_out pg e at same q ↦ cc q
      | denied pg at same fresh q ↦
          consume-ne_gone rid later user' k' (run cs (deny_pending now user k rid s).0) qg (
            run-IsGone rid cs (deny_pending now user k rid s).0 u (
              rw q (record {
                not_waiting = λ j qg.
                    simp dict_laws (ground (arith, eq_iff k j, c.indexed j qg, c.indexed k pg at));
                not_approved = λ j qg. ground (arith, c.approved_unindexed j qg, c.indexed k pg at);
              })))
    ]
