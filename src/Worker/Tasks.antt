-- ===== src/Worker/Tasks.antt =====
-- The steps of one goroutine of internal/worker/worker.go: what each does to its job and to others.
use ironclaw_go.Shared.{
  ℕ, ◌-◌, ◌≤◌, ◌<◌, String, ◌≡◌, ◌≢◌, refl, ap, ◌∙◌, ◌⊎◌, inl, inr, some, [], Bytes, get, put,
  get-put, changed, Result, ok, err, if◌then◌else◌, ◌==◌, eq_iff, eq_refl, arith, Option-cases,
}
use ironclaw_go.Tools.{ToolOutput}
use ironclaw_go.Tools.Dispatch.{Dispatcher, DispatchError, dispatch}
use ironclaw_go.Agent.Loop.{Runtime}
use ironclaw_go.Db.{Job, DbError}
use ironclaw_go.Db.Memory.{MemoryDb, update_job_status}
use ironclaw_go.Db.Memory.Keys.{IsKeyed, update_job_status-IsKeyed}
use ironclaw_go.Worker.{
  Phase, begun, running, settled, ended, Moment, params_of, job_context, outcome, task_step,
  after_mark,
}

-- What the end of a job leaves behind: a completed job has no error, and a failed one no output.
abbrev pub Outcome : String → Bytes → String → Type 0
Outcome status output error =
    ((status ≡ "completed") × (error ≡ "")) ⊎ ((status ≡ "failed") × (output ≡ []))

-- What a goroutine is about to write is an outcome.
abbrev pub Closes : Phase → Type 0
Closes begun = Unit
Closes running = Unit
Closes (settled status output error) = Outcome status output error
Closes ended = Unit

-- The steps that are left.
abbrev pub rank : Phase → ℕ
rank begun = 3
rank running = 2
rank (settled status output error) = 1
rank ended = 0

abbrev written : String → Bytes → String → ℕ → Job → Job
written status output error now j = record j {
  status = status;
  output = output;
  error = error;
  updated_at = now;
}

get-update_job_status :
    (now : ℕ) (id status : String) (output : Bytes) (error : String) (m : MemoryDb) (j : String)
    → get j (update_job_status now id status output error m).0.jobs
      ≡ (if id == j then changed (written status output error now) (get j m.jobs) else get j m.jobs)
unfolding update_job_status
get-update_job_status now id status output error m j = elim (Option-cases (get id m.jobs)) [
  | inl missing ↦ rw (missing, update_job_status) (ground (arith, eq_iff id j, missing))
  | inr (x, found) ↦
      rw (found, update_job_status)
        (get-put id j (written status output error now x) m.jobs
          ∙ ground (arith, eq_iff id j, found))
]

outcome-Closes :
    (rt : Runtime) (r : Result DispatchError ToolOutput)
    → Closes (outcome rt r) × (rank (outcome rt r) ≡ 1)
unfolding outcome
outcome-Closes rt (ok out) = (inl (refl, refl), refl)
outcome-Closes rt (err e) = (inr (refl, refl), refl)

update_found :
    (now : ℕ) (id status : String) (output : Bytes) (error : String) (m : MemoryDb) (x : Job)
    → get id m.jobs ≡ some x
    → update_job_status now id status output error m
      ≡ (record m { jobs = put id (written status output error now x) m.jobs }, ok tt)
unfolding update_job_status
update_found now id status output error m x found = rw (found, update_job_status) refl

get-update_found :
    (now : ℕ) (id status : String) (output : Bytes) (error : String) (m : MemoryDb) (x : Job)
    → get id m.jobs ≡ some x
    → get id (update_job_status now id status output error m).0.jobs
      ≡ some (written status output error now x)
get-update_found now id status output error m x found =
    get-update_job_status now id status output error m id
    ∙ rw (eq_refl id) (ap (changed (written status output error now)) found)

after_mark-rank :
    (r : MemoryDb × Result DbError (Unit {0}))
    → Closes (after_mark r).1 × (rank (after_mark r).1 ≤ 2)
after_mark-rank (m, ok u) = (tt, omega arith)
after_mark-rank (m, err e) = (tt, omega arith)

-- A step leaves one step less.
pub task_step-rank :
    (rt : Runtime) (t : Moment) (job : Job) (phase : Phase) (m : MemoryDb) (d : Dispatcher)
    → let after = (task_step rt t job phase m d).2 in Closes after × (rank after ≤ rank phase - 1)
unfolding task_step
task_step-rank rt t job begun m d =
    let (a, b) = after_mark-rank (update_job_status t.now job.id "running" [] "" m) in
    (a, omega (arith, b))
task_step-rank rt t job running m d =
    let r = dispatch t.now t.elapsed t.uuid job.name (params_of rt job.input) (job_context job) d in
    let (a, b) = outcome-Closes rt r.1 in (a, omega (arith, b))
task_step-rank rt t job (settled status output error) m d = (tt, omega arith)
task_step-rank rt t job ended m d = (tt, omega arith)

-- After a step of a goroutine its job stands in the table: with an outcome, or as before where the
-- goroutine had ended, or else the goroutine has steps left.
pub task_step-own :
    (rt : Runtime) (t : Moment) (job : Job) (phase : Phase) (m : MemoryDb) (d : Dispatcher)
    (x : Job)
    → get job.id m.jobs ≡ some x
    → Closes phase
    → let r = task_step rt t job phase m d in
      (y : Job) × (get job.id r.0.jobs ≡ some y)
      × (Outcome y.status y.output y.error ⊎ (0 < rank r.2) ⊎ ((rank phase ≡ 0) × (y ≡ x)))
unfolding task_step
task_step-own rt t job begun m d x found closes =
    rw (update_found t.now job.id "running" [] "" m x found) (
      written "running" [] "" t.now x,
      get-put job.id job.id (written "running" [] "" t.now x) m.jobs ∙ rw (eq_refl job.id) refl,
      inr (inl (omega arith)),
    )
task_step-own rt t job running m d x found closes =
    let r = dispatch t.now t.elapsed t.uuid job.name (params_of rt job.input) (job_context job) d in
    (x, found, inr (inl (omega (arith, (outcome-Closes rt r.1).1))))
task_step-own rt t job (settled status output error) m d x found closes = (
  written status output error t.now x,
  get-update_found t.now job.id status output error m x found,
  inl closes,
)
task_step-own rt t job ended m d x found closes = (x, found, inr (inr (refl, refl)))

after_mark-db : (r : MemoryDb × Result DbError (Unit {0})) → (after_mark r).0 ≡ r.0
after_mark-db (m, ok u) = refl
after_mark-db (m, err e) = refl

-- A step of another goroutine leaves the job alone.
pub task_step-other :
    (rt : Runtime) (t : Moment) (job : Job) (phase : Phase) (m : MemoryDb) (d : Dispatcher)
    (k : String)
    → job.id ≢ k
    → get k (task_step rt t job phase m d).0.jobs ≡ get k m.jobs
unfolding task_step
task_step-other rt t job begun m d k ne =
    ap (λ db. get k db.jobs) (after_mark-db (update_job_status t.now job.id "running" [] "" m))
    ∙ get-update_job_status t.now job.id "running" [] "" m k
    ∙ ground (arith, eq_iff job.id k)
task_step-other rt t job running m d k ne = refl
task_step-other rt t job (settled status output error) m d k ne =
    get-update_job_status t.now job.id status output error m k ∙ ground (arith, eq_iff job.id k)
task_step-other rt t job ended m d k ne = refl

pub task_step-IsKeyed :
    (rt : Runtime) (t : Moment) (job : Job) (phase : Phase) (m : MemoryDb) (d : Dispatcher)
    → IsKeyed m.jobs
    → IsKeyed (task_step rt t job phase m d).0.jobs
unfolding task_step
task_step-IsKeyed rt t job begun m d h =
    rw (after_mark-db (update_job_status t.now job.id "running" [] "" m))
      (update_job_status-IsKeyed t.now job.id "running" [] "" m h)
task_step-IsKeyed rt t job running m d h = h
task_step-IsKeyed rt t job (settled status output error) m d h =
    update_job_status-IsKeyed t.now job.id status output error m h
task_step-IsKeyed rt t job ended m d h = h
