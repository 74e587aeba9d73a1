-- ===== src/Tools/Dispatch.antt =====
-- internal/tools/dispatch.go: the pipeline that a tool call goes through. A call reads the clock once,
-- draws one UUID for a gate, and takes `elapsed` milliseconds to run its tool. What the publisher was
-- given and what the audit goroutines saved are lists of the state, oldest first; an audit is at its end
-- when its call returns.
pub mod Admission
pub mod Pause
pub mod Results
pub mod Tests
use ironclaw_go.Shared.{
  ℕ, ◌*◌, ◌^◌, String, Bool, true, false, not, ◌&&◌, Option, none, some, List, [], ◌∷◌, ◌++◌,
  Params, Dict, get, put, Bytes, Result, ok, err, ◌>>=◌, concat, if◌then◌else◌,
}
use ironclaw_go.Gate.{
  Gate, GateContext, GateDecision, allow, deny, pause, PauseError, PendingGate, interactive,
}
use ironclaw_go.Gate.Approval.{flag}
use ironclaw_go.Gate.Store.{PendingStore, new_pending_store, create, consume_resolved}
use ironclaw_go.Safety.RateLimit
use ironclaw_go.Safety.RateLimit.{RateLimiter, new_rate_limiter}
use ironclaw_go.Safety.Layer.{Layer, sanitize_output}
use ironclaw_go.Tools.{JobContext, ToolOutput, Tool, Registry, find_tool}

-- The events that the dispatcher publishes: EventToolCall and EventToolResult.
pub data Event : Type 0 where
  tool_call : String → String → String → Event
  tool_result : String → String → String → Bool → ℕ → Event

-- The audit record of a call, db.ActionRecord.
pub record ActionRecord : Type 0 where
  pub id : String
  pub job_id : String
  pub tool_name : String
  pub input : String
  pub output : Bytes
  pub error : String
  pub duration : ℕ
  pub created_at : ℕ

-- The database of the audit, whichever it is: what SaveActionRecord answers, within its five seconds,
-- where a list of records is saved already. `draw` is the UUID and the time of a record, and `print`
-- the verb %v of fmt on the parameters.
pub record Database : Type 0 where
  pub save : List ActionRecord → ActionRecord → Result String (Unit {0})
  pub draw : List ActionRecord → String × ℕ
  pub print : Params → String

-- The errors of Dispatch.
pub data DispatchError : Type 0 where
  not_allowed : String → DispatchError
  not_found : String → DispatchError
  rate_limited : String → DispatchError
  denied : String → String → DispatchError
  paused : PauseError → DispatchError
  unsafe_output : String → DispatchError
  failed : String → DispatchError

-- Dispatcher
pub record Dispatcher : Type 0 where
  pub registry : Registry
  pub safety : Option Layer
  pub rate_limiter : RateLimiter
  pub allowed : Option (Dict Bool)
  pub database : Option Database
  pub gates : List Gate
  pub pending_store : PendingStore
  pub auto_approved : Dict Bool
  pub has_publisher : Bool
  pub events : List Event
  pub audits : List ActionRecord

-- NewDispatcher: sixty calls a minute for each user and tool.
unfoldable pub new_dispatcher : Registry → Option Layer → Option Database → Dispatcher
unfolding new_rate_limiter new_pending_store
new_dispatcher registry layer database = record {
  registry = registry;
  safety = layer;
  rate_limiter = new_rate_limiter 60 (60 * 10 ^ 9);
  allowed = none;
  database = database;
  gates = [];
  pending_store = new_pending_store;
  auto_approved = [];
  has_publisher = false;
  events = [];
  audits = [];
}

-- for _, name := range names { m[name] = true }
unfoldable pub set_all : List String → Dict Bool → Dict Bool
set_all [] m = m
set_all (name ∷ names) m = set_all names (put name true m)

-- A list of allowed tools that is not empty.
unfoldable pub allow_list : List String → Option (Dict Bool)
unfolding set_all
allow_list [] = none
allow_list (name ∷ names) = some (set_all (name ∷ names) [])

-- NewDispatcherWithLimit
unfoldable pub new_dispatcher_with_limit :
    Registry → Option Layer → Option Database → List String → Dispatcher
unfolding new_dispatcher allow_list
new_dispatcher_with_limit registry layer database names =
    record (new_dispatcher registry layer database) { allowed = allow_list names }

-- Dispatcher.WithGates
unfoldable pub with_gates : List Gate → Dispatcher → Dispatcher
with_gates gates d = record d { gates = d.gates ++ gates }

-- Dispatcher.WithAutoApproved
unfoldable pub with_auto_approved : List String → Dispatcher → Dispatcher
unfolding set_all
with_auto_approved tools d = record d { auto_approved = set_all tools d.auto_approved }

-- Step 1: d.allowed != nil && !d.allowed[toolName], negated
unfoldable pub is_allowed : String → Option (Dict Bool) → Bool
is_allowed tool none = true
is_allowed tool (some names) = flag (get tool names)

-- The context that the gates see.
unfoldable pub gate_context : String → Params → JobContext → Dispatcher → GateContext
gate_context tool params job d = record {
  tool_name = tool;
  params = params;
  user_id = job.user_id;
  thread_id = job.thread_id;
  auto_approved = d.auto_approved;
  execution_mode = interactive;
  channel = "repl";
}

-- What the loop over the gates ends with: nothing in the way, or the gate that denies or pauses.
pub data Verdict : Type 0 where
  passes : Verdict
  denies : String → Verdict
  pauses : Verdict

-- One round of the loop over the gates, before the rounds that are left.
unfoldable pub after_gate : GateDecision → String → Verdict → Verdict
after_gate allow name rest = rest
after_gate deny name rest = denies name
after_gate pause name rest = pauses

-- The loop over the gates.
unfoldable pub ask_gates : List Gate → GateContext → Verdict
unfolding after_gate
ask_gates [] ctx = passes
ask_gates (g ∷ gs) ctx = let rest = ask_gates gs ctx in after_gate (g.evaluate ctx) g.name rest

-- The key of the rate limiter: jobCtx.UserID + "/" + toolName
unfoldable pub rate_key : JobContext → String → String
rate_key job tool = concat (job.user_id ∷ "/" ∷ tool ∷ [])

-- What follows the loop over the gates.
unfoldable pub settle_gates :
    ℕ
    → String
    → String
    → Params
    → JobContext
    → Verdict
    → Dispatcher
    → Dispatcher × Result DispatchError (Unit {0})
settle_gates now uuid tool params job passes d = (d, ok tt)
settle_gates now uuid tool params job (denies gate) d = (d, err (denied tool gate))
settle_gates now uuid tool params job pauses d =
    let (s, pg) = create now uuid job.user_id job.thread_id tool params "repl" d.pending_store in
    (
      record d { pending_store = s },
      err (
          paused (record {
            tool_name = tool;
            request_id = pg.request_id;
            description = pg.description;
          })),
    )

-- Step 4: an approval that waits to run, or the gates.
unfoldable pub pass_gates :
    ℕ
    → String
    → String
    → Params
    → JobContext
    → Dispatcher
    → Dispatcher × Result DispatchError (Unit {0})
unfolding ask_gates settle_gates gate_context
pass_gates now uuid tool params job d =
    let (s, resolved) = consume_resolved now job.user_id job.thread_id d.pending_store in
    let d' = record d { pending_store = s } in
    elim resolved [
      | some pg ↦ (d', ok tt)
      | none ↦
          settle_gates now uuid tool params job (ask_gates d.gates (gate_context tool params job d))
            d'
    ]

-- The tool that was found, if the gates let the call pass.
abbrev pub then_run :
    Tool → Dispatcher × Result DispatchError (Unit {0}) → Dispatcher × Result DispatchError Tool
then_run t (d, ok u) = (d, ok t)
then_run t (d, err e) = (d, err e)

-- Steps 3 and 4, for the tool that was found.
unfoldable pub admit_tool :
    ℕ
    → String
    → String
    → Params
    → JobContext
    → Tool
    → Dispatcher
    → Dispatcher × Result DispatchError Tool
unfolding rate_key pass_gates
admit_tool now uuid tool params job t d =
    let (limiter, granted) = RateLimit.allow now (rate_key job tool) d.rate_limiter in
    let d' = record d { rate_limiter = limiter } in
    if granted
    then then_run t (pass_gates now uuid tool params job d')
    else (d', err (rate_limited tool))

-- Steps 1 to 4 of Dispatch: the tool that may run, or the refusal.
unfoldable pub admit :
    ℕ → String → String → Params → JobContext → Dispatcher → Dispatcher × Result DispatchError Tool
unfolding is_allowed find_tool admit_tool
admit now uuid tool params job d =
    if is_allowed tool d.allowed
    then elim (find_tool tool d.registry) [
      | none ↦ (d, err (not_found tool))
      | some t ↦ admit_tool now uuid tool params job t d
    ]
    else (d, err (not_allowed tool))

-- if d.eventPublisher != nil { d.eventPublisher(...) }
unfoldable pub publish : Event → Dispatcher → Dispatcher
publish e d = if d.has_publisher then record d { events = d.events ++ e ∷ [] } else d

-- The text of an error, empty where there is none.
abbrev pub error_text : Option String → String
error_text none = ""
error_text (some e) = e

-- The record of a call; a duration is in milliseconds until it is saved.
unfoldable pub record_of :
    Database
    → List ActionRecord
    → String
    → Params
    → JobContext
    → ToolOutput
    → Option String
    → ActionRecord
record_of db saved tool params job out e = record {
  id = (db.draw saved).0;
  job_id = job.job_id;
  tool_name = tool;
  input = db.print params;
  output = out.content;
  error = error_text e;
  duration = out.duration * 10 ^ 6;
  created_at = (db.draw saved).1;
}

-- An error of the database is dropped, and the record with it.
abbrev pub save_record : Result String (Unit {0}) → ActionRecord → Dispatcher → Dispatcher
save_record (ok u) rec d = record d { audits = d.audits ++ rec ∷ [] }
save_record (err e) rec d = d

-- Dispatcher.audit
unfoldable pub audit :
    String → Params → JobContext → ToolOutput → Option String → Dispatcher → Dispatcher
unfolding record_of
audit tool params job out e d = elim d.database [
  | none ↦ d
  | some db ↦
      let rec = record_of db d.audits tool params job out e in
      save_record (db.save d.audits rec) rec d
]

-- The output as the safety layer leaves it; a call that failed is not sanitized.
unfoldable pub sanitized : Option Layer → Option String → ToolOutput → Result String ToolOutput
sanitized none e out = ok out
sanitized (some l) (some e) out = ok out
sanitized (some l) none out = do
  content ← sanitize_output out.content l
  ok (record out { content = content })

-- The end of Dispatch: the audit, and the result or the error of the tool.
unfoldable pub conclude :
    String
    → Params
    → JobContext
    → Option String
    → Result String ToolOutput
    → Dispatcher
    → Dispatcher × Result DispatchError ToolOutput
unfolding audit
conclude tool params job e (err unsafe) d = (d, err (unsafe_output unsafe))
conclude tool params job none (ok out) d = (audit tool params job out none d, ok out)
conclude tool params job (some e) (ok out) d =
    (audit tool params job out (some e) d, err (failed e))

-- Whether an error is nil: the status of a result event.
abbrev pub is_nil : Option String → Bool
is_nil none = true
is_nil (some e) = false

-- Steps 5 and 6 of Dispatch: the tool runs, its output is sanitized, and the call is recorded.
unfoldable pub run_tool :
    ℕ
    → String
    → Params
    → JobContext
    → Tool
    → Dispatcher
    → Dispatcher × Result DispatchError ToolOutput
unfolding publish sanitized conclude
run_tool elapsed tool params job t d =
    let (returned, e) = t.execute params job in
    let out = record returned { duration = elapsed } in
    let d1 = publish (tool_call job.user_id job.thread_id tool) d in
    let d2 = publish (tool_result job.user_id job.thread_id tool (is_nil e) elapsed) d1 in
    conclude tool params job e (sanitized d.safety e out) d2

-- The admitted tool is run.
unfoldable pub then_execute :
    ℕ
    → String
    → Params
    → JobContext
    → Dispatcher × Result DispatchError Tool
    → Dispatcher × Result DispatchError ToolOutput
unfolding run_tool
then_execute elapsed tool params job (d, err e) = (d, err e)
then_execute elapsed tool params job (d, ok t) = run_tool elapsed tool params job t d

-- Dispatcher.Dispatch
unfoldable pub dispatch :
    ℕ
    → ℕ
    → String
    → String
    → Params
    → JobContext
    → Dispatcher
    → Dispatcher × Result DispatchError ToolOutput
unfolding admit then_execute
dispatch now elapsed uuid tool params job d =
    then_execute elapsed tool params job (admit now uuid tool params job d)
