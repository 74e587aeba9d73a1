-- ===== src/Gate/Store/Protocol.antt =====
-- The approval protocol of gate/store.go over histories of calls: what runs was approved, and it
-- runs once.
use ironclaw_go.Shared.{
  ℕ, ◌+◌, ◌≤◌, String, false, ◌≡◌, refl, ◌∙◌, ◌≢◌, ◌⊎◌, inl, inr, Option, none, some, List, [], ◌∷◌,
  Params, get, get-put, get-remove, get-put_self, get-remove_self, dict_laws, eq_iff, eq_refl,
  arith, Option-cases, ok, keys,
}
use ironclaw_go.Gate.{PendingGate, is_expired}
use ironclaw_go.Gate.Store.{
  PendingStore, new_pending_store, create, drop_pending, get_pending, get_by_request_id, resolve,
  deny_pending, consume_resolved, clear_resolved, visit, sweep, list_pending, approved_now,
}
use ironclaw_go.Gate.Store.Cases.{
  Resolves, waits_to_run, granted, resolve-Resolves, Denies, denied, deny_pending-Denies,
  resolve-granted, approved_now_cases,
}
use ironclaw_go.Gate.Store.Invariant.{IsConsistent}
use ironclaw_go.Gate.Store.Calls.{
  Call, creates, gets, gets_by_request_id, resolves, denies, consumes, clears, lists, step, run,
}

-- The look-ups that may delete gates never touch the approved ones.
resolved-get_pending :
    (now : ℕ) (user k : String) (s : PendingStore)
    → (get_pending now user k s).0.resolved ≡ s.resolved
unfolding get_pending
resolved-get_pending now user k s = ground arith

resolved-get_by_request_id :
    (now : ℕ) (rid : String) (s : PendingStore)
    → (get_by_request_id now rid s).0.resolved ≡ s.resolved
unfolding get_by_request_id
resolved-get_by_request_id now rid s = ground arith

resolved-visit :
    (now : ℕ) (k : String) (o : Option PendingGate) (s : PendingStore)
    → (visit now k o s).0.resolved ≡ s.resolved
unfolding visit
resolved-visit now k none s = refl
resolved-visit now k (some pg) s = ground arith

resolved-sweep :
    (now : ℕ) (ks : List String) (s : PendingStore) → (sweep now ks s).0.resolved ≡ s.resolved
unfolding sweep
resolved-sweep now [] s = refl
resolved-sweep now (k ∷ ks) s =
    resolved-sweep now ks (visit now k (get k s.by_key) s).0
    ∙ resolved-visit now k (get k s.by_key) s

-- A history asks to resolve the request `rid` of the thread `k`.
abbrev pub Approves : String → String → List Call → Type 0
Approves k rid [] = ⊥
Approves k rid (resolves now user thread r ∷ cs) = ((thread ≡ k) × (r ≡ rid)) ⊎ Approves k rid cs
Approves k rid (creates now r user thread tool params source ∷ cs) = Approves k rid cs
Approves k rid (gets now user thread ∷ cs) = Approves k rid cs
Approves k rid (gets_by_request_id now r ∷ cs) = Approves k rid cs
Approves k rid (denies now user thread r ∷ cs) = Approves k rid cs
Approves k rid (consumes now user thread ∷ cs) = Approves k rid cs
Approves k rid (clears user thread ∷ cs) = Approves k rid cs
Approves k rid (lists now ∷ cs) = Approves k rid cs

resolve-adds :
    (now : ℕ) (user thread rid k : String) (pg : PendingGate) (s : PendingStore)
    → get k (resolve now user thread rid s).0.resolved ≡ some pg
    → (get k s.resolved ≡ some pg) ⊎ ((thread ≡ k) × (rid ≡ pg.request_id))
unfolding drop_pending
resolve-adds now user thread rid k pg s h = elim (resolve-Resolves now user thread rid s) [
  | waits_to_run qg here same q ↦ inl (rw q at h)
  | Resolves.dealt_with new b q ↦ inl (rw q at h)
  | Resolves.refused e new unspent why q ↦ inl (rw q at h)
  | Resolves.ran_out qg new unspent here same old q ↦ inl (rw q at h)
  | granted qg new unspent here same fresh q ↦
      let h' = rw (q, get-put thread k qg s.resolved) at h in ground (arith, eq_iff thread k)
]

deny_pending-adds :
    (now : ℕ) (user thread rid : String) (s : PendingStore)
    → (deny_pending now user thread rid s).0.resolved ≡ s.resolved
unfolding drop_pending
deny_pending-adds now user thread rid s = elim (deny_pending-Denies now user thread rid s) [
  | Denies.dealt_with b q ↦ rw q
  | Denies.refused e q ↦ rw q
  | Denies.ran_out qg e here same q ↦ rw q
  | denied qg here same fresh q ↦ rw q
]

consume_resolved-adds :
    (now : ℕ) (user thread k : String) (pg : PendingGate) (s : PendingStore)
    → get k (consume_resolved now user thread s).0.resolved ≡ some pg
    → get k s.resolved ≡ some pg
unfolding consume_resolved
consume_resolved-adds now user thread k pg s = elim (Option-cases (get thread s.resolved)) [
  | inl gone ↦ rw (gone, consume_resolved) (λ h. h)
  | inr (qg, here) ↦ rw (here, consume_resolved) (simp dict_laws (ground arith))
]

resolved-run :
    (cs : List Call) (s : PendingStore) (k : String) (pg : PendingGate)
    → get k (run cs s).resolved ≡ some pg
    → (get k s.resolved ≡ some pg) ⊎ Approves k pg.request_id cs
unfolding run step create clear_resolved list_pending
resolved-run [] s k pg h = inl h
resolved-run (creates now rid user thread tool params source ∷ cs) s k pg h =
    resolved-run cs (step (creates now rid user thread tool params source) s) k pg h
resolved-run (gets now user thread ∷ cs) s k pg h =
    rw (resolved-get_pending now user thread s) at
      (resolved-run cs (step (gets now user thread) s) k pg h)
resolved-run (gets_by_request_id now rid ∷ cs) s k pg h =
    rw (resolved-get_by_request_id now rid s) at
      (resolved-run cs (step (gets_by_request_id now rid) s) k pg h)
resolved-run (resolves now user thread rid ∷ cs) s k pg h =
    elim (resolved-run cs (step (resolves now user thread rid) s) k pg h) [
      | inr later ↦ inr (inr later)
      | inl here ↦ elim (resolve-adds now user thread rid k pg s here) [
        | inl before ↦ inl before
        | inr this ↦ inr (inl this)
      ]
    ]
resolved-run (denies now user thread rid ∷ cs) s k pg h =
    rw (deny_pending-adds now user thread rid s) at
      (resolved-run cs (step (denies now user thread rid) s) k pg h)
resolved-run (consumes now user thread ∷ cs) s k pg h =
    elim (resolved-run cs (step (consumes now user thread) s) k pg h) [
      | inr later ↦ inr later
      | inl here ↦ inl (consume_resolved-adds now user thread k pg s here)
    ]
resolved-run (clears user thread ∷ cs) s k pg h =
    elim (resolved-run cs (step (clears user thread) s) k pg h) [
      | inr later ↦ inr later
      | inl here ↦ inl (ground (arith, get-remove thread k s.resolved))
    ]
resolved-run (lists now ∷ cs) s k pg h =
    rw (resolved-sweep now (keys s.by_key) s) at (resolved-run cs (step (lists now) s) k pg h)

pub get-resolved_of_consume :
    (now : ℕ) (user k : String) (s : PendingStore) (pg : PendingGate)
    → (consume_resolved now user k s).1 ≡ some pg
    → get k s.resolved ≡ some pg
unfolding consume_resolved
get-resolved_of_consume now user k s pg h = ground arith

-- After any history from the empty store, the gate that a tool call of a thread takes as its
-- approval was approved: the history holds a call of Resolve for that thread and that request.
pub consume-needs-approval :
    (cs : List Call) (now : ℕ) (user k : String) (pg : PendingGate)
    → (consume_resolved now user k (run cs new_pending_store)).1 ≡ some pg
    → Approves k pg.request_id cs
unfolding new_pending_store get
consume-needs-approval cs now user k pg h =
    elim (resolved-run cs new_pending_store k pg
      (get-resolved_of_consume now user k (run cs new_pending_store) pg h)) [
        | inl never ↦ cc
        | inr asked ↦ asked
      ]

-- A gate that waits, has not run out and was not dealt with is approved by Resolve with its own
-- request, from any user's name, and the next ConsumeResolved of the thread takes that gate, at any
-- time and again from any user's name; afterwards nothing of it waits.
pub consume-resolve :
    (now later : ℕ) (user other k : String) (s : PendingStore) (pg : PendingGate)
    → IsConsistent s
    → get k s.by_key ≡ some pg
    → is_expired now pg ≡ false
    → let t = (resolve now user k pg.request_id s).0 in
      ((resolve now user k pg.request_id s).1 ≡ ok (some pg))
      × ((consume_resolved later other k t).1 ≡ some pg)
      × (get k t.by_key ≡ none)
unfolding consume_resolved drop_pending
consume-resolve now later user other k s pg c here fresh =
    rw (resolve-granted now user k s pg unapproved (c.unspent k pg here) here fresh)
      (refl, rw (get-put_self k pg s.resolved, consume_resolved) refl, get-remove_self k s.by_key)
  where
    unapproved : approved_now pg.request_id (get k s.resolved) ≡ none
    unapproved = elim (approved_now_cases pg.request_id (get k s.resolved)) [
      | inl a ↦ a
      | inr (qg, at, same, a) ↦ ground (arith, c.approved_unindexed k qg at, c.indexed k pg here)
    ]

get_by_request_id-reads :
    (now : ℕ) (rid k : String) (s : PendingStore) (pg : PendingGate)
    → get rid s.by_req_id ≡ some k
    → get k s.by_key ≡ some pg
    → is_expired now pg ≡ false
    → (get_by_request_id now rid s).1 ≡ some pg
unfolding get_by_request_id
get_by_request_id-reads now rid k s pg at_rid here fresh =
    rw (at_rid, get_by_request_id) (rw (here, get_by_request_id) (ground (arith, fresh)))

-- After a second gate for the same thread, the first request's UUID still leads to an entry of the
-- index, and GetByRequestID answers it with the second gate, whose request is another one.
pub get_by_request_id-create-create :
    (t1 t2 now : ℕ) (r1 r2 u1 u2 k tool1 tool2 : String) (p1 p2 : Params) (c1 c2 : String)
    (s : PendingStore)
    → r1 ≢ r2
    → now ≤ t2 + s.ttl
    → let once = (create t1 r1 u1 k tool1 p1 c1 s).0 in
      let twice = create t2 r2 u2 k tool2 p2 c2 once in
      ((get_by_request_id now r1 twice.0).1 ≡ some twice.1) × (twice.1.request_id ≡ r2)
unfolding create is_expired
get_by_request_id-create-create t1 t2 now r1 r2 u1 u2 k tool1 tool2 p1 p2 c1 c2 s ne fresh = (
  get_by_request_id-reads now r1 k (create t2 r2 u2 k tool2 p2 c2 once).0
      (create t2 r2 u2 k tool2 p2 c2 once).1
      (simp dict_laws (ground (arith, eq_iff r2 r1, eq_refl r1))) (get-put_self k _ once.by_key)
      (ground arith),
  refl,
)
  where
    once : PendingStore
    once = (create t1 r1 u1 k tool1 p1 c1 s).0
