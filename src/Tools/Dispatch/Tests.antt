-- ===== src/Tools/Dispatch/Tests.antt =====
-- Calls of a small registry through the dispatcher of tools/dispatch.go.
use ironclaw_go.Shared.{
  text_at, ◌+◌, ◌≤◌, true, ◌≡◌, refl, ◌↔◌, none, some, [], ◌∷◌, get, put, Bytes, bytes, ok, err,
  arith,
}
use ironclaw_go.Gate.{PendingGate, PauseError, unless_auto_approved, never}
use ironclaw_go.Gate.Approval.{describe_pending, new_approval_gate, default_tool_requirement}
use ironclaw_go.Gate.Store.Invariant.{IsConsistent, IsNew, new_pending_store-IsConsistent}
use ironclaw_go.Gate.Store.Calls.{step, creates, run, run-IsConsistent}
use ironclaw_go.Gate.Store.{
  consume_resolved, consume_resolved, consume_resolved, consume_resolved, create, consume_resolved,
  consume_resolved, create, consume_resolved, new_pending_store,
}
use ironclaw_go.Safety.RateLimit
use ironclaw_go.Tools.{JobContext, Tool, Registry, find_tool}
use ironclaw_go.Tools.Dispatch.{
  Dispatcher, Database, failed, paused, admit, dispatch, new_dispatcher, with_gates, is_allowed,
  rate_key,
}
use ironclaw_go.Tools.Dispatch.Admission.{IsListed, Admitted, admit-ok_iff}
use ironclaw_go.Tools.Dispatch.Pause.{Waits, admit-paused, approve, admit-after-approval}
use ironclaw_go.Tools.Dispatch.Results.{cleaned, Audited, dispatch-ok, dispatch-failed}

-- A tool that gives its name back, and one that fails.
abbrev echo : Tool
echo = record {
  name = "echo";
  execute = λ params job. (record { content = bytes "hi"; duration = 0 }, none);
  requires_approval = λ params. never;
}

abbrev shell : Tool
shell = record {
  name = "shell";
  execute = λ params job. (record { content = bytes "log"; duration = 0 }, some "exit 1");
  requires_approval = λ params. unless_auto_approved;
}

abbrev job : JobContext
job = record { user_id = "ann"; job_id = "j"; thread_id = "t1" }

abbrev other_job : JobContext
other_job = record { user_id = "eve"; job_id = "j"; thread_id = "t1" }

abbrev tools : Registry
tools = ("echo", echo) ∷ ("shell", shell) ∷ []

-- A database that saves every record.
abbrev keeping : Database
keeping = record {
  save = λ saved rec. ok tt;
  draw = λ saved. ("a1", 107);
  print = λ params. "map[]";
}

abbrev open_dispatcher : Dispatcher
open_dispatcher = new_dispatcher tools none (some keeping)

abbrev gated : Dispatcher
gated = with_gates (new_approval_gate default_tool_requirement ∷ []) open_dispatcher

-- The error of the paused call.
abbrev pausing : PauseError
pausing = record { tool_name = "shell"; request_id = "r1"; description = "执行 shell 命令: " }

stops : (admit 100 "r1" "shell" [] job gated).1 ≡ err (paused pausing)
unfolding admit with_gates new_dispatcher get RateLimit.allow consume_resolved new_approval_gate
    default_tool_requirement create describe_pending text_at
stops = refl

runs_echo : (admit 100 "r1" "echo" [] job open_dispatcher).1 ≡ ok echo
unfolding admit new_dispatcher get RateLimit.allow consume_resolved
runs_echo = refl

runs_shell : (admit 100 "r1" "shell" [] job open_dispatcher).1 ≡ ok shell
unfolding admit new_dispatcher get RateLimit.allow consume_resolved
runs_shell = refl

r1-IsNew : IsNew "r1" new_pending_store
unfolding new_pending_store get
r1-IsNew = record { not_indexed = refl; not_spent = refl; not_approved = λ k pg h. cc }

after-IsConsistent :
    IsConsistent (run (creates 100 "r1" "ann" "t1" "shell" [] "repl" ∷ []) new_pending_store)
after-IsConsistent =
    run-IsConsistent (creates 100 "r1" "ann" "t1" "shell" [] "repl" ∷ []) new_pending_store
      (r1-IsNew, tt) new_pending_store-IsConsistent

paused-IsConsistent : IsConsistent (admit 100 "r1" "shell" [] job gated).0.pending_store
unfolding admit run with_gates step new_dispatcher create get RateLimit.allow consume_resolved
    new_approval_gate default_tool_requirement
paused-IsConsistent = after-IsConsistent

listed : IsListed "echo" (admit 100 "r1" "shell" [] job gated).0.allowed
unfolding is_allowed admit with_gates new_dispatcher get RateLimit.allow consume_resolved
    new_approval_gate default_tool_requirement
listed = tt

found : find_tool "echo" (admit 100 "r1" "shell" [] job gated).0.registry ≡ some echo
unfolding find_tool get admit with_gates new_dispatcher RateLimit.allow consume_resolved
    new_approval_gate default_tool_requirement
found = refl

budget :
    (RateLimit.allow 300
      (rate_key other_job "echo")
      (admit 100 "r1" "shell" [] job gated).0.rate_limiter).1
    ≡ true
unfolding RateLimit.allow get admit with_gates new_dispatcher consume_resolved new_approval_gate
    default_tool_requirement put
budget = refl

in_time : 200 ≤ 100 + gated.pending_store.ttl
in_time = unfold new_dispatcher with_gates new_pending_store in omega arith

admit-ok_iff_example :
    ((admit 100 "r1" "echo" [] job gated).1 ≡ ok echo) ↔ Admitted 100 "echo" [] job gated echo
admit-ok_iff_example = admit-ok_iff 100 "r1" "echo" [] job gated echo

admit-paused_example :
    (pausing.request_id ≡ "r1")
    × (pg : PendingGate) × Waits 100 "r1" "shell" [] job gated.pending_store.ttl
        (admit 100 "r1" "shell" [] job gated).0.pending_store
        pg
admit-paused_example = admit-paused 100 "r1" "shell" [] job gated pausing stops

admit-after-approval_example :
    (admit 300 "r2" "echo" [] other_job
      (approve 200 "bob" "t1" "r1" (admit 100 "r1" "shell" [] job gated).0)).1
    ≡ ok echo
admit-after-approval_example =
    admit-after-approval 100 200 300 "r1" "r2" "shell" "echo" [] [] job other_job gated pausing
      "bob" echo stops paused-IsConsistent in_time refl listed found budget

dispatch-ok_example :
    (content : Bytes) × (cleaned open_dispatcher.safety (bytes "hi") ≡ ok content)
    × ((dispatch 100 7 "r1" "echo" [] job open_dispatcher).1
        ≡ ok (record { content = content; duration = 7 }))
    × Audited open_dispatcher.database "echo" [] job
        (record { content = content; duration = 7 })
        none
        open_dispatcher.audits
        (dispatch 100 7 "r1" "echo" [] job open_dispatcher).0.audits
dispatch-ok_example =
    dispatch-ok 100 7 "r1" "echo" [] job echo open_dispatcher
      (record { content = bytes "hi"; duration = 0 }) runs_echo refl

dispatch-failed_example :
    ((dispatch 100 7 "r1" "shell" [] job open_dispatcher).1 ≡ err (failed "exit 1"))
    × Audited open_dispatcher.database "shell" [] job
        (record { content = bytes "log"; duration = 7 })
        (some "exit 1")
        open_dispatcher.audits
        (dispatch 100 7 "r1" "shell" [] job open_dispatcher).0.audits
dispatch-failed_example =
    dispatch-failed 100 7 "r1" "shell" [] job shell open_dispatcher
      (record { content = bytes "log"; duration = 0 }) "exit 1" runs_shell refl
