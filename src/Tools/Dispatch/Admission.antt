-- ===== src/Tools/Dispatch/Admission.antt =====
-- What must hold before tools/dispatch.go runs a tool, and the way from a pause to a run.
use ironclaw_go.Shared.{
  ℕ, String, Bool, true, none, Option, Dict, get, ◌≡◌, refl, ◌∙◌, ap, ◌⊎◌, ◌↔◌, inl, inr, some,
  List, [], ◌∷◌, Params, Result, ok, err, All, arith, Option-cases, Bool-cases,
}
use ironclaw_go.Gate.{Gate, GateContext, GateDecision, allow, deny, pause, PendingGate}
use ironclaw_go.Gate.Store.{consume_resolved}
use ironclaw_go.Safety.RateLimit
use ironclaw_go.Tools.{JobContext, Tool, find_tool}
use ironclaw_go.Tools.Dispatch.{
  Dispatcher, DispatchError, is_allowed, gate_context, Verdict, passes, denies, pauses, after_gate,
  ask_gates, rate_key, settle_gates, pass_gates, then_run, admit_tool, admit,
}

-- Every gate lets the call through.
abbrev pub AllAllow : List Gate → GateContext → Type 0
AllAllow gs ctx = All (λ g. g.evaluate ctx ≡ allow) gs

after_gate-passes :
    (o : GateDecision) (name : String) (rest : Verdict)
    → after_gate o name rest ≡ passes
    → (o ≡ allow) × (rest ≡ passes)
unfolding after_gate
after_gate-passes allow name rest h = (refl, h)
after_gate-passes deny name rest h = absurd (ground arith)
after_gate-passes pause name rest h = absurd (ground arith)

ask_gates-passes :
    (gs : List Gate) (ctx : GateContext) → ask_gates gs ctx ≡ passes → AllAllow gs ctx
unfolding ask_gates
ask_gates-passes [] ctx h = tt
ask_gates-passes (g ∷ gs) ctx h =
    let (first, rest) = after_gate-passes (g.evaluate ctx) g.name (ask_gates gs ctx) h in
    (first, ask_gates-passes gs ctx rest)

passes-ask_gates :
    (gs : List Gate) (ctx : GateContext) → AllAllow gs ctx → ask_gates gs ctx ≡ passes
unfolding ask_gates
passes-ask_gates [] ctx h = refl
passes-ask_gates (g ∷ gs) ctx h = rw (h.0, ask_gates) (passes-ask_gates gs ctx h.1)

settle_gates-ok :
    (now : ℕ) (uuid tool : String) (params : Params) (job : JobContext) (v : Verdict)
    (d : Dispatcher)
    → (settle_gates now uuid tool params job v d).1 ≡ ok tt
    → v ≡ passes
unfolding settle_gates
settle_gates-ok now uuid tool params job passes d h = refl
settle_gates-ok now uuid tool params job (denies g) d h = absurd (ground arith)
settle_gates-ok now uuid tool params job pauses d h = absurd (ground arith)

-- An approval of the call's thread waits to run.
abbrev pub IsApproved : ℕ → JobContext → Dispatcher → Type 0
IsApproved now job d =
    (pg : PendingGate) × ((consume_resolved now job.user_id job.thread_id d.pending_store).1
      ≡ some pg)

pass_gates-ok :
    (now : ℕ) (uuid tool : String) (params : Params) (job : JobContext) (d : Dispatcher)
    → (pass_gates now uuid tool params job d).1 ≡ ok tt
    → IsApproved now job d ⊎ AllAllow d.gates (gate_context tool params job d)
unfolding pass_gates
pass_gates-ok now uuid tool params job d =
    elim (Option-cases (consume_resolved now job.user_id job.thread_id d.pending_store).1) [
      | inl empty ↦
          rw (empty, pass_gates)
            (λ h. inr (
              ask_gates-passes d.gates (gate_context tool params job d)
                (settle_gates-ok now uuid tool params job _ _ h)))
      | inr (pg, waits) ↦ λ h. inl (pg, waits)
    ]

then_run-ok :
    (t u : Tool) (r : Dispatcher × Result DispatchError (Unit {0}))
    → (then_run t r).1 ≡ ok u
    → (r.1 ≡ ok tt) × (t ≡ u)
then_run-ok t u (d, ok tt) h = (refl, ground arith)
then_run-ok t u (d, err e) h = absurd (ground arith)

-- The tool is on the list of allowed tools, or there is no such list.
abbrev pub IsListed : String → Option (Dict Bool) → Type 0
IsListed tool none = Unit
IsListed tool (some names) = get tool names ≡ some true

is_allowed-IsListed :
    (tool : String) (allowed : Option (Dict Bool))
    → is_allowed tool allowed ≡ true
    → IsListed tool allowed
unfolding is_allowed
is_allowed-IsListed tool none = λ h. tt
is_allowed-IsListed tool (some names) = elim (Option-cases (get tool names)) [
  | inl gone ↦ rw gone (λ h. absurd (ground arith))
  | inr (b, here) ↦ rw here (λ h. ap some h)
]

IsListed-is_allowed :
    (tool : String) (allowed : Option (Dict Bool))
    → IsListed tool allowed
    → is_allowed tool allowed ≡ true
unfolding is_allowed
IsListed-is_allowed tool none h = refl
IsListed-is_allowed tool (some names) h = rw h refl

-- What a call that may run its tool has passed.
pub record Admitted (now : ℕ) (tool : String) (params : Params) (job : JobContext) (d : Dispatcher)
    (t : Tool) : Type 0 where
  pub listed : IsListed tool d.allowed
  pub registered : find_tool tool d.registry ≡ some t
  pub in_budget : (RateLimit.allow now (rate_key job tool) d.rate_limiter).1 ≡ true
  pub approved : IsApproved now job d ⊎ AllAllow d.gates (gate_context tool params job d)

admit_tool-ok :
    (now : ℕ) (uuid tool : String) (params : Params) (job : JobContext) (d : Dispatcher)
    (t u : Tool)
    → (admit_tool now uuid tool params job t d).1 ≡ ok u
    → (t ≡ u)
      × ((RateLimit.allow now (rate_key job tool) d.rate_limiter).1 ≡ true)
      × (IsApproved now job d ⊎ AllAllow d.gates (gate_context tool params job d))
unfolding admit_tool gate_context
admit_tool-ok now uuid tool params job d t u =
    elim (Bool-cases (RateLimit.allow now (rate_key job tool) d.rate_limiter).1) [
      | inl granted ↦
          rw (granted, admit_tool)
            (λ h.
              let (passed, same) = then_run-ok t u _ h in
              (same, refl, pass_gates-ok now uuid tool params job _ passed))
      | inr over ↦ rw (over, admit_tool) (λ h. absurd (ground arith))
    ]

pub admit-Admitted :
    (now : ℕ) (uuid tool : String) (params : Params) (job : JobContext) (d : Dispatcher) (t : Tool)
    → (admit now uuid tool params job d).1 ≡ ok t
    → Admitted now tool params job d t
unfolding admit
admit-Admitted now uuid tool params job d t = elim (Bool-cases (is_allowed tool d.allowed)) [
  | inr unlisted ↦ rw (unlisted, admit) (λ h. absurd (ground arith))
  | inl listed ↦ elim (Option-cases (find_tool tool d.registry)) [
    | inl missing ↦ rw (listed, missing, admit) (λ h. absurd (ground arith))
    | inr (u, found) ↦
        rw (listed, found, admit)
          (λ h.
            let (same, granted, approved) = admit_tool-ok now uuid tool params job d u t h in
            record {
              listed = is_allowed-IsListed tool d.allowed listed;
              registered = found ∙ ap some same;
              in_budget = granted;
              approved = approved;
            })
  ]
]

pass_gates-passes :
    (now : ℕ) (uuid tool : String) (params : Params) (job : JobContext) (d : Dispatcher)
    → IsApproved now job d ⊎ AllAllow d.gates (gate_context tool params job d)
    → (pass_gates now uuid tool params job d).1 ≡ ok tt
unfolding pass_gates
pass_gates-passes now uuid tool params job d (inl (pg, waits)) = rw (waits, pass_gates) refl
pass_gates-passes now uuid tool params job d (inr all) =
    elim (Option-cases (consume_resolved now job.user_id job.thread_id d.pending_store).1) [
      | inl empty ↦ rw (empty, pass_gates) (rw (passes-ask_gates d.gates _ all, settle_gates) refl)
      | inr (pg, waits) ↦ rw (waits, pass_gates) refl
    ]

then_run-tt :
    (t : Tool) (r : Dispatcher × Result DispatchError (Unit {0}))
    → r.1 ≡ ok tt
    → (then_run t r).1 ≡ ok t
then_run-tt t (d, ok tt) h = refl
then_run-tt t (d, err e) h = absurd (ground arith)

pub Admitted-admit :
    (now : ℕ) (uuid tool : String) (params : Params) (job : JobContext) (d : Dispatcher) (t : Tool)
    → Admitted now tool params job d t
    → (admit now uuid tool params job d).1 ≡ ok t
unfolding admit admit_tool gate_context
Admitted-admit now uuid tool params job d t a =
    rw (IsListed-is_allowed tool d.allowed a.listed, a.registered, admit)
      (rw (a.in_budget, admit_tool)
        (then_run-tt t _ (pass_gates-passes now uuid tool params job _ a.approved)))

-- A tool is admitted to run exactly if it is on the list of allowed tools (where there is one), it is
-- the tool registered under the name of the call, the rate limiter lets the call through, and
-- either an approval of the call's thread waits to run or every gate allows the call.
pub admit-ok_iff :
    (now : ℕ) (uuid tool : String) (params : Params) (job : JobContext) (d : Dispatcher) (t : Tool)
    → ((admit now uuid tool params job d).1 ≡ ok t) ↔ Admitted now tool params job d t
admit-ok_iff now uuid tool params job d t =
    (admit-Admitted now uuid tool params job d t, Admitted-admit now uuid tool params job d t)
