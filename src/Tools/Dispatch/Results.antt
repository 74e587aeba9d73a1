-- ===== src/Tools/Dispatch/Results.antt =====
-- What tools/dispatch.go returns and records once a tool ran, and what it does where none ran.
use ironclaw_go.Shared.{
  ◌*◌, ◌⊎◌, subst, Result-cases, ℕ, String, Bool, ◌≡◌, refl, sym, ap, ◌∙◌, inl, inr, Option, none,
  some, List, [], ◌∷◌, ◌++◌, Params, Bytes, Result, ok, err, arith, Bool-cases, Option-cases,
}
use ironclaw_go.Safety.Layer.{Layer, sanitize_output}
use ironclaw_go.Gate.Store.{consume_resolved}
use ironclaw_go.Safety.RateLimit
use ironclaw_go.Tools.{JobContext, ToolOutput, Tool, find_tool}
use ironclaw_go.Tools.Dispatch.{
  Dispatcher, DispatchError, failed, Event, tool_call, tool_result, ActionRecord, Database,
  record_of, admit, publish, is_nil, audit, sanitized, conclude, run_tool, then_execute, dispatch,
  Verdict, passes, denies, pauses, settle_gates, pass_gates, then_run, admit_tool, is_allowed,
  rate_key,
}
use ironclaw_go.Tools.Dispatch.Pause.{charged}

-- The output that a caller sees, in the store of a dispatcher with or without a safety layer.
abbrev pub cleaned : Option Layer → Bytes → Result String Bytes
cleaned none content = ok content
cleaned (some l) content = sanitize_output content l

sanitized-ok :
    (l : Option Layer) (out : ToolOutput)
    → (content : Bytes) × (cleaned l out.content ≡ ok content)
      × (sanitized l none out ≡ ok (record out { content = content }))
unfolding sanitized sanitize_output
sanitized-ok none out = (out.content, refl, refl)
sanitized-ok (some l) out = (_, refl, refl)

sanitized-some :
    (l : Option Layer) (text : String) (out : ToolOutput) → sanitized l (some text) out ≡ ok out
unfolding sanitized
sanitized-some none text out = refl
sanitized-some (some l) text out = refl

ok_inj : {E A : Type 0} {a b : A} → ◌≡◌ {A = Result E A} (ok a) (ok b) → a ≡ b
ok_inj h = cc

-- The record that a call is to have.
abbrev pub entry :
    Database
    → List ActionRecord
    → String
    → Params
    → JobContext
    → ToolOutput
    → Option String
    → ActionRecord
entry db saved tool params job out e = record {
  id = (db.draw saved).0;
  job_id = job.job_id;
  tool_name = tool;
  input = db.print params;
  output = out.content;
  error = elim e [ none ↦ "" | some text ↦ text ];
  duration = out.duration * 1000000;
  created_at = (db.draw saved).1;
}

record_of-entry :
    (db : Database) (saved : List ActionRecord) (tool : String) (params : Params) (job : JobContext)
    (out : ToolOutput) (e : Option String)
    → record_of db saved tool params job out e ≡ entry db saved tool params job out e
unfolding record_of
record_of-entry db saved tool params job out none = refl
record_of-entry db saved tool params job out (some text) = refl

-- What the audit of a call leaves saved: nothing new without a database or where the database fails, and
-- otherwise the record of the call after those that were there.
abbrev pub Audited :
    Option Database
    → String
    → Params
    → JobContext
    → ToolOutput
    → Option String
    → List ActionRecord
    → List ActionRecord
    → Type 0
Audited none tool params job out e old new = new ≡ old
Audited (some db) tool params job out e old new =
    let rec = entry db old tool params job out e in
    ((db.save old rec ≡ ok tt) × (new ≡ old ++ rec ∷ []))
    ⊎ ((text : String) × (db.save old rec ≡ err text) × (new ≡ old))

audit-Audited :
    (tool : String) (params : Params) (job : JobContext) (out : ToolOutput) (e : Option String)
    (d : Dispatcher)
    → Audited d.database tool params job out e d.audits (audit tool params job out e d).audits
unfolding audit
audit-Audited tool params job out e d =
    let spec = λ (o : Option Database).
      Audited o tool params job out e d.audits (audit tool params job out e d).audits in
    elim (Option-cases d.database) [
      | inl off ↦ subst spec (sym off) (rw (off, audit) refl)
      | inr (db, on) ↦ subst spec (sym on) (
          let rec = record_of db d.audits tool params job out e in
          let new = (audit tool params job out e d).audits in
          subst
            (λ (r : ActionRecord).
              ((db.save d.audits r ≡ ok tt) × (new ≡ d.audits ++ r ∷ []))
              ⊎ ((text : String) × (db.save d.audits r ≡ err text) × (new ≡ d.audits)))
            (record_of-entry db d.audits tool params job out e)
            (elim (Result-cases (db.save d.audits rec)) [
              | inl (u, saved) ↦ inl (saved, rw (on, audit) (rw (saved, audit) refl))
              | inr (text, lost) ↦ inr (text, lost, rw (on, audit) (rw (lost, audit) refl))
            ]))
    ]

-- The parts of a dispatcher that admission leaves alone.
abbrev pub fixed :
    Dispatcher → Option Layer × Option Database × Bool × List Event × List ActionRecord
fixed d = (d.safety, d.database, d.has_publisher, d.events, d.audits)

fixed-settle_gates :
    (now : ℕ) (uuid tool : String) (params : Params) (job : JobContext) (v : Verdict)
    (d : Dispatcher)
    → fixed (settle_gates now uuid tool params job v d).0 ≡ fixed d
unfolding settle_gates
fixed-settle_gates now uuid tool params job passes d = refl
fixed-settle_gates now uuid tool params job (denies g) d = refl
fixed-settle_gates now uuid tool params job pauses d = refl

fixed-pass_gates :
    (now : ℕ) (uuid tool : String) (params : Params) (job : JobContext) (d : Dispatcher)
    → fixed (pass_gates now uuid tool params job d).0 ≡ fixed d
unfolding pass_gates
fixed-pass_gates now uuid tool params job d =
    elim (Option-cases (consume_resolved now job.user_id job.thread_id d.pending_store).1) [
      | inl empty ↦ rw (empty, pass_gates) (fixed-settle_gates now uuid tool params job _ _)
      | inr (pg, waits) ↦ rw (waits, pass_gates) refl
    ]

fixed-then_run :
    (t : Tool) (r : Dispatcher × Result DispatchError (Unit {0}))
    → fixed (then_run t r).0 ≡ fixed r.0
fixed-then_run t (d, ok u) = refl
fixed-then_run t (d, err e) = refl

fixed-admit_tool :
    (now : ℕ) (uuid tool : String) (params : Params) (job : JobContext) (t : Tool) (d : Dispatcher)
    → fixed (admit_tool now uuid tool params job t d).0 ≡ fixed d
unfolding admit_tool
fixed-admit_tool now uuid tool params job t d =
    elim (Bool-cases (RateLimit.allow now (rate_key job tool) d.rate_limiter).1) [
      | inr over ↦ rw (over, admit_tool) refl
      | inl granted ↦
          rw (granted, admit_tool)
            (fixed-then_run t _
              ∙ fixed-pass_gates now uuid tool params job (charged now tool job d))
    ]

fixed-admit :
    (now : ℕ) (uuid tool : String) (params : Params) (job : JobContext) (d : Dispatcher)
    → fixed (admit now uuid tool params job d).0 ≡ fixed d
unfolding admit
fixed-admit now uuid tool params job d = elim (Bool-cases (is_allowed tool d.allowed)) [
  | inr unlisted ↦ rw (unlisted, admit) refl
  | inl listed ↦ elim (Option-cases (find_tool tool d.registry)) [
    | inl missing ↦ rw (listed, missing, admit) refl
    | inr (u, found) ↦ rw (listed, found, admit) (fixed-admit_tool now uuid tool params job u d)
  ]
]

pub then_execute-err :
    (elapsed : ℕ) (tool : String) (params : Params) (job : JobContext)
    (r : Dispatcher × Result DispatchError Tool) (e : DispatchError)
    → r.1 ≡ err e
    → then_execute elapsed tool params job r ≡ (r.0, err e)
unfolding then_execute
then_execute-err elapsed tool params job (d, ok t) e h = absurd (ground arith)
then_execute-err elapsed tool params job (d, err x) e h = ground arith

pub then_execute-ok :
    (elapsed : ℕ) (tool : String) (params : Params) (job : JobContext)
    (r : Dispatcher × Result DispatchError Tool) (t : Tool)
    → r.1 ≡ ok t
    → then_execute elapsed tool params job r ≡ run_tool elapsed tool params job t r.0
unfolding then_execute
then_execute-ok elapsed tool params job (d, ok u) t h =
    ap (λ (x : Tool). run_tool elapsed tool params job x d) (ok_inj h)
then_execute-ok elapsed tool params job (d, err x) t h = absurd (ground arith)

-- A call that is refused leaves the log of events and the audit as they were.
fixed-dispatch-err :
    (now elapsed : ℕ) (uuid tool : String) (params : Params) (job : JobContext) (d : Dispatcher)
    (e : DispatchError)
    → (admit now uuid tool params job d).1 ≡ err e
    → fixed (dispatch now elapsed uuid tool params job d).0 ≡ fixed d
unfolding dispatch
fixed-dispatch-err now elapsed uuid tool params job d e h =
    rw (then_execute-err elapsed tool params job (admit now uuid tool params job d) e h)
      (fixed-admit now uuid tool params job d)

module _ (elapsed : ℕ) (tool : String) (params : Params) (job : JobContext) (t : Tool)
    (d : Dispatcher) (out : ToolOutput) where
  -- The output with the time that the call took.
  abbrev timed : ToolOutput
  timed = record out { duration = elapsed }

  -- The dispatcher once both events were published.
  abbrev noted : Option String → Dispatcher
  noted e =
      publish (tool_result job.user_id job.thread_id tool (is_nil e) elapsed)
        (publish (tool_call job.user_id job.thread_id tool) d)

  rest-noted :
      (e : Option String)
      → ((noted e).safety ≡ d.safety)
        × ((noted e).audits ≡ d.audits)
        × ((noted e).database ≡ d.database)
  unfolding publish
  rest-noted e = elim (Bool-cases d.has_publisher) [
    | inl on ↦ rw on (refl, refl, refl)
    | inr off ↦ rw off (refl, refl, refl)
  ]

  audits-noted :
      (e : Option String) (o : ToolOutput)
      → Audited d.database tool params job o e d.audits (audit tool params job o e (noted e)).audits
  audits-noted e o =
      let (_, audits, database) = rest-noted e in
      let new = (audit tool params job o e (noted e)).audits in
      subst (λ (db : Option Database). Audited db tool params job o e d.audits new) database
        (subst (λ old. Audited (noted e).database tool params job o e old new) audits
          (audit-Audited tool params job o e (noted e)))

  run_tool-none :
      t.execute params job ≡ (out, none)
      → (content : Bytes) × (cleaned d.safety out.content ≡ ok content)
        × ((run_tool elapsed tool params job t d).1 ≡ ok (record timed { content = content }))
        × Audited d.database tool params job
            (record timed { content = content })
            none
            d.audits
            (run_tool elapsed tool params job t d).0.audits
  unfolding run_tool
  run_tool-none e =
      let (content, clean, s) = sanitized-ok d.safety timed in
      (
        content,
        clean,
        rw (e, run_tool) (rw (s, conclude) refl),
        rw (e, run_tool)
            (rw (s, conclude) (audits-noted none (record timed { content = content }))),
      )

  run_tool-some :
      (text : String)
      → t.execute params job ≡ (out, some text)
      → ((run_tool elapsed tool params job t d).1 ≡ err (failed text))
        × Audited d.database tool params job timed
            (some text)
            d.audits
            (run_tool elapsed tool params job t d).0.audits
  unfolding run_tool
  run_tool-some text e = (
    rw (e, run_tool) (rw (sanitized-some d.safety text timed, conclude) refl),
    rw (e, run_tool)
        (rw (sanitized-some d.safety text timed, conclude) (audits-noted (some text) timed)),
  )

Audited-fixed :
    (b d : Dispatcher) (tool : String) (params : Params) (job : JobContext) (out : ToolOutput)
    (e : Option String) (new : List ActionRecord)
    → fixed b ≡ fixed d
    → Audited b.database tool params job out e b.audits new
    → Audited d.database tool params job out e d.audits new
Audited-fixed b d tool params job out e new same h =
    subst
      (λ (f : Option Layer × Option Database × Bool × List Event × List ActionRecord).
        Audited f.1 tool params job out e f.4 new)
      same h

cleaned-fixed :
    (b d : Dispatcher) (content : Bytes)
    → fixed b ≡ fixed d
    → cleaned b.safety content ≡ cleaned d.safety content
cleaned-fixed b d content same =
    ap
      (λ (f : Option Layer × Option Database × Bool × List Event × List ActionRecord).
        cleaned f.0 content)
      same

module _ (now elapsed : ℕ) (uuid tool : String) (params : Params) (job : JobContext) (t : Tool)
    (d : Dispatcher) (out : ToolOutput) where
  -- The output with the time that the call took.
  abbrev clocked : ToolOutput
  clocked = record out { duration = elapsed }

  -- A call that admission grants and whose tool reports no error returns the tool's output with its
  -- content cleaned by the safety layer and the time that it took, whatever becomes of its audit. Where
  -- there is a database that saves it, the audit gains exactly one record, the last one, with the tool,
  -- the parameters, the cleaned content and an empty error; without a database, or where saving fails,
  -- it gains none.
  pub dispatch-ok :
      (admit now uuid tool params job d).1 ≡ ok t
      → t.execute params job ≡ (out, none)
      → (content : Bytes) × (cleaned d.safety out.content ≡ ok content)
        × ((dispatch now elapsed uuid tool params job d).1
            ≡ ok (record clocked { content = content }))
        × Audited d.database tool params job
            (record clocked { content = content })
            none
            d.audits
            (dispatch now elapsed uuid tool params job d).0.audits
  unfolding dispatch
  dispatch-ok granted ran =
      let r = admit now uuid tool params job d in
      let same = fixed-admit now uuid tool params job d in
      let (content, clean, result, audits) = run_tool-none elapsed tool params job t r.0 out ran in
      (
        content,
        sym (cleaned-fixed r.0 d out.content same) ∙ clean,
        rw (then_execute-ok elapsed tool params job r t granted) result,
        rw (then_execute-ok elapsed tool params job r t granted) (
            Audited-fixed r.0 d tool params job (record clocked { content = content }) none _ same
              audits),
      )

  -- A call that admission grants and whose tool reports an error fails with that error, whatever becomes
  -- of its audit. Where there is a database that saves it, the audit gains exactly one record, the last
  -- one, with the tool, the parameters, the tool's output as it is, not cleaned by the safety layer, and
  -- the text of the error; without a database, or where saving fails, it gains none.
  pub dispatch-failed :
      (text : String)
      → (admit now uuid tool params job d).1 ≡ ok t
      → t.execute params job ≡ (out, some text)
      → ((dispatch now elapsed uuid tool params job d).1 ≡ err (failed text))
        × Audited d.database tool params job clocked
            (some text)
            d.audits
            (dispatch now elapsed uuid tool params job d).0.audits
  unfolding dispatch
  dispatch-failed text granted ran =
      let r = admit now uuid tool params job d in
      let same = fixed-admit now uuid tool params job d in
      let (result, audits) = run_tool-some elapsed tool params job t r.0 out text ran in
      (
        rw (then_execute-ok elapsed tool params job r t granted) result,
        rw (then_execute-ok elapsed tool params job r t granted)
            (Audited-fixed r.0 d tool params job clocked (some text) _ same audits),
      )
