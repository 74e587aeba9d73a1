-- ===== src/Tools/Dispatch/Pause.antt =====
-- From a call that tools/dispatch.go pauses to the call that runs once the user approved.
use ironclaw_go.Shared.{
  ℕ, ◌+◌, ◌≤◌, String, true, false, ◌≡◌, refl, sym, ◌∙◌, inl, inr, none, some, Params, get,
  get-put_self, Result, ok, err, arith, Option-cases, Bool-cases, le→ltb,
}
use ironclaw_go.Gate.{PauseError, PendingGate, is_expired}
use ironclaw_go.Gate.Store.{PendingStore, create, consume_resolved, resolve}
use ironclaw_go.Gate.Store.Invariant.{IsConsistent}
use ironclaw_go.Gate.Store.Protocol.{consume-resolve}
use ironclaw_go.Safety.RateLimit
use ironclaw_go.Tools.{JobContext, Tool, find_tool}
use ironclaw_go.Tools.Dispatch.{
  Dispatcher, DispatchError, paused, is_allowed, Verdict, passes, denies, pauses, rate_key,
  settle_gates, pass_gates, then_run, admit_tool, admit,
}
use ironclaw_go.Tools.Dispatch.Admission.{IsListed, Admitted-admit}

-- The gate of a paused call waits in the store, under the call's thread.
pub record Waits (now : ℕ) (uuid tool : String) (params : Params) (job : JobContext) (ttl : ℕ)
    (s : PendingStore) (pg : PendingGate) : Type 0 where
  pub waiting : get job.thread_id s.by_key ≡ some pg
  pub request : pg.request_id ≡ uuid
  pub tool_name : pg.tool_name ≡ tool
  pub same_params : pg.params ≡ params
  pub user : pg.user_id ≡ job.user_id
  pub until : pg.expires_at ≡ now + ttl

settle_gates-paused :
    (now : ℕ) (uuid tool : String) (params : Params) (job : JobContext) (v : Verdict)
    (d : Dispatcher) (pe : PauseError)
    → (settle_gates now uuid tool params job v d).1 ≡ err (paused pe)
    → (pe.request_id ≡ uuid)
      × (pg : PendingGate) × Waits now uuid tool params job d.pending_store.ttl
          (settle_gates now uuid tool params job v d).0.pending_store
          pg
unfolding settle_gates create
settle_gates-paused now uuid tool params job passes d pe h = absurd (ground arith)
settle_gates-paused now uuid tool params job (denies g) d pe h = absurd (ground arith)
settle_gates-paused now uuid tool params job pauses d pe h = (
  ground arith,
  (create now uuid job.user_id job.thread_id tool params "repl" d.pending_store).1,
  record {
    waiting = get-put_self job.thread_id _ d.pending_store.by_key;
    request = refl;
    tool_name = refl;
    same_params = refl;
    user = refl;
    until = refl;
  },
)

consume_resolved-none :
    (now : ℕ) (user k : String) (s : PendingStore)
    → (consume_resolved now user k s).1 ≡ none
    → (consume_resolved now user k s).0 ≡ s
unfolding consume_resolved
consume_resolved-none now user k s = elim (Option-cases (get k s.resolved)) [
  | inl empty ↦ rw (empty, consume_resolved) (λ h. refl)
  | inr (pg, waits) ↦ rw (waits, consume_resolved) (λ h. absurd (ground arith))
]

pass_gates-paused :
    (now : ℕ) (uuid tool : String) (params : Params) (job : JobContext) (d : Dispatcher)
    (pe : PauseError)
    → (pass_gates now uuid tool params job d).1 ≡ err (paused pe)
    → (pe.request_id ≡ uuid)
      × (pg : PendingGate) × Waits now uuid tool params job d.pending_store.ttl
          (pass_gates now uuid tool params job d).0.pending_store
          pg
unfolding pass_gates
pass_gates-paused now uuid tool params job d pe =
    elim (Option-cases (consume_resolved now job.user_id job.thread_id d.pending_store).1) [
      | inl empty ↦
          rw
            (
              empty,
              consume_resolved-none now job.user_id job.thread_id d.pending_store empty,
              pass_gates,
            )
            (settle_gates-paused now uuid tool params job _ _ pe)
      | inr (pg, waits) ↦ rw (waits, pass_gates) (λ h. absurd (ground arith))
    ]

then_run-paused :
    (t : Tool) (r : Dispatcher × Result DispatchError (Unit {0})) (pe : PauseError)
    → (then_run t r).1 ≡ err (paused pe)
    → (r.1 ≡ err (paused pe)) × ((then_run t r).0 ≡ r.0)
then_run-paused t (d, ok tt) pe h = absurd (ground arith)
then_run-paused t (d, err e) pe h = (ground arith, refl)

-- The dispatcher after the rate limiter was asked.
abbrev pub charged : ℕ → String → JobContext → Dispatcher → Dispatcher
charged now tool job d = record d {
  rate_limiter = (RateLimit.allow now (rate_key job tool) d.rate_limiter).0;
}

admit_tool-paused :
    (now : ℕ) (uuid tool : String) (params : Params) (job : JobContext) (t : Tool) (d : Dispatcher)
    (pe : PauseError)
    → (admit_tool now uuid tool params job t d).1 ≡ err (paused pe)
    → (pe.request_id ≡ uuid)
      × (pg : PendingGate) × Waits now uuid tool params job d.pending_store.ttl
          (admit_tool now uuid tool params job t d).0.pending_store
          pg
unfolding admit_tool
admit_tool-paused now uuid tool params job t d pe =
    elim (Bool-cases (RateLimit.allow now (rate_key job tool) d.rate_limiter).1) [
      | inr over ↦ rw (over, admit_tool) (λ h. absurd (ground arith))
      | inl granted ↦
          rw (granted, admit_tool)
            (λ h.
              let (stopped, same) = then_run-paused t _ pe h in
              rw same
                (pass_gates-paused now uuid tool params job (charged now tool job d) pe stopped))
    ]

-- A call that is paused leaves a gate in the store under its thread, with the call's own request,
-- tool, parameters and user, that lasts as long as the store says.
pub admit-paused :
    (now : ℕ) (uuid tool : String) (params : Params) (job : JobContext) (d : Dispatcher)
    (pe : PauseError)
    → (admit now uuid tool params job d).1 ≡ err (paused pe)
    → (pe.request_id ≡ uuid)
      × (pg : PendingGate) × Waits now uuid tool params job d.pending_store.ttl
          (admit now uuid tool params job d).0.pending_store
          pg
unfolding admit
admit-paused now uuid tool params job d pe = elim (Bool-cases (is_allowed tool d.allowed)) [
  | inr unlisted ↦ rw (unlisted, admit) (λ h. absurd (ground arith))
  | inl listed ↦ elim (Option-cases (find_tool tool d.registry)) [
    | inl missing ↦ rw (listed, missing, admit) (λ h. absurd (ground arith))
    | inr (u, found) ↦ rw (listed, found, admit) (admit_tool-paused now uuid tool params job u d pe)
  ]
]

-- Resolve on the store of a dispatcher.
abbrev pub approve : ℕ → String → String → String → Dispatcher → Dispatcher
approve now user thread rid d = record d {
  pending_store = (resolve now user thread rid d.pending_store).0;
}

-- After a call was paused and its request was approved in time, by anyone, the next call of the same
-- thread runs its tool if that tool is registered, listed and within its budget: the gates are not
-- asked again. It need be neither the same tool nor the same user as the paused call's.
pub admit-after-approval :
    (now t later : ℕ) (uuid uuid' tool tool' : String) (params params' : Params)
    (job job' : JobContext) (d : Dispatcher) (pe : PauseError) (approver : String) (run : Tool)
    → (admit now uuid tool params job d).1 ≡ err (paused pe)
    → IsConsistent (admit now uuid tool params job d).0.pending_store
    → t ≤ now + d.pending_store.ttl
    → job'.thread_id ≡ job.thread_id
    → IsListed tool' (admit now uuid tool params job d).0.allowed
    → find_tool tool' (admit now uuid tool params job d).0.registry ≡ some run
    → (RateLimit.allow later
        (rate_key job' tool')
        (admit now uuid tool params job d).0.rate_limiter).1
      ≡ true
    → (admit later uuid' tool' params' job'
        (approve t approver job.thread_id pe.request_id (admit now uuid tool params job d).0)).1
      ≡ ok run
admit-after-approval now t later uuid uuid' tool tool' params params' job job' d pe approver run
      stopped c in_time same listed found budget =
    let (named, pg, w) = admit-paused now uuid tool params job d pe stopped in
    let s = (admit now uuid tool params job d).0.pending_store in
    let approved =
      consume-resolve t later approver job'.user_id job.thread_id s pg c w.waiting
        (fresh pg w.until) in
    Admitted-admit later uuid' tool' params' job' _ run (record {
      listed = listed;
      registered = found;
      in_budget = budget;
      approved = inl (pg, rw (same, named ∙ sym w.request) approved.1);
    })
  where
    fresh : (pg : PendingGate) → pg.expires_at ≡ now + d.pending_store.ttl → is_expired t pg ≡ false
    fresh pg e = unfold is_expired in rw e (le→ltb (now + d.pending_store.ttl) t in_time)
