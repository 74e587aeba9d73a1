-- ===== src/Worker.antt =====
-- internal/worker/worker.go: the pool that runs background jobs. Each job has a goroutine of its own,
-- which goes through three steps: the job is marked as running, its tool is called, and the outcome
-- is written. Other goroutines act between these steps, the loop polls again, and jobs are submitted: a
-- schedule says in which order.
pub mod Tasks
pub mod Places
pub mod Invariant
pub mod Finish
pub mod Tests
use ironclaw_go.Shared.{
  ℕ, suc, ◌+◌, ◌*◌, ◌^◌, String, Bool, true, false, Option, none, some, List, [], ◌∷◌, ◌++◌, map,
  Params, Bytes, Result, ok, err, get, ltb, get_elem?, modify, if◌then◌else◌, ◌==◌, leb, concat,
}
use ironclaw_go.Tools.{JobContext, ToolOutput}
use ironclaw_go.Tools.Dispatch.{Dispatcher, DispatchError, dispatch}
use ironclaw_go.Agent.Loop.{Runtime, error_message}
use ironclaw_go.Db.{Job, DbError}
use ironclaw_go.Db.Memory.{MemoryDb, list_jobs, save_job, update_job_status}

-- Pool, less its channels; its database is the one in memory.
pub record Pool : Type 0 where
  pub db : MemoryDb
  pub dispatcher : Dispatcher
  pub max_workers : ℕ
  pub interval : ℕ

-- NewPool
unfoldable pub new_pool : MemoryDb → Dispatcher → ℕ → Pool
new_pool db dispatcher max_workers = record {
  db = db;
  dispatcher = dispatcher;
  max_workers = if leb max_workers 0 then 1 else max_workers;
  interval = 5 * 10 ^ 9;
}

-- SetInterval
abbrev pub set_interval : ℕ → Pool → Pool
set_interval d p = record p { interval = d }

-- How far a goroutine has come with its job: not begun, marked as running, done with the call (with
-- the status, output and error to write), or at its end.
pub data Phase : Type 0 where
  begun : Phase
  running : Phase
  settled : String → Bytes → String → Phase
  ended : Phase

-- A goroutine with the job that it was given.
pub record Task : Type 0 where
  pub job : Job
  pub phase : Phase

-- The clock, and what a call draws: its duration and a UUID.
pub record Moment : Type 0 where
  pub now : ℕ
  pub elapsed : ℕ
  pub uuid : String

-- params, which stay empty where the input is empty or no JSON object
unfoldable pub params_of : Runtime → String → Params
params_of rt input = if input == "" then [] else elim (rt.decode input) [ none ↦ [] | some p ↦ p ]

-- The context of the call: a user and a job, and no thread.
abbrev pub job_context : Job → JobContext
job_context job = record { user_id = job.user_id; job_id = job.id; thread_id = "" }

-- if err := UpdateJobStatus(..., "running", ...); err != nil { return }
abbrev pub after_mark : MemoryDb × Result DbError (Unit {0}) → MemoryDb × Phase
after_mark (m, ok u) = (m, running)
after_mark (m, err e) = (m, ended)

-- What runJob writes after the call.
unfoldable pub outcome : Runtime → Result DispatchError ToolOutput → Phase
unfolding error_message
outcome rt (err e) = settled "failed" [] (error_message rt e)
outcome rt (ok out) = settled "completed" out.content ""

-- A step of runJob.
unfoldable pub task_step :
    Runtime → Moment → Job → Phase → MemoryDb → Dispatcher → MemoryDb × Dispatcher × Phase
unfolding params_of outcome update_job_status
task_step rt t job begun m d =
    let (m', phase) = after_mark (update_job_status t.now job.id "running" [] "" m) in
    (m', d, phase)
task_step rt t job running m d =
    let (d', r) =
      dispatch t.now t.elapsed t.uuid job.name (params_of rt job.input) (job_context job) d in
    (m, d', outcome rt r)
task_step rt t job (settled status output error) m d =
    ((update_job_status t.now job.id status output error m).0, d, ended)
task_step rt t job ended m d = (m, d, ended)

-- Where the goroutine of the loop is: at its select, in the loop over the listed jobs, or waiting for
-- a place among the workers with a job that it found pending; or it has returned.
pub data Poller : Type 0 where
  idle : Poller
  listing : List Job → Poller
  holding : Job → List Job → Poller
  returned : Poller

-- The goroutines of the pool, with what they share.
pub record World : Type 0 where
  pub db : MemoryDb
  pub dispatcher : Dispatcher
  pub max_workers : ℕ
  pub poller : Poller
  pub tasks : List Task

-- The goroutine at place `i` makes a step.
unfoldable pub step_at : Runtime → Moment → ℕ → Option Task → World → World
unfolding task_step
step_at rt t i none w = w
step_at rt t i (some task) w =
    let (m, d, phase) = task_step rt t task.job task.phase w.db w.dispatcher in
    record w {
      db = m;
      dispatcher = d;
      tasks = modify i (λ old. record old { phase = phase }) w.tasks;
    }

-- The status that a listed job has now: the table and the list share their jobs.
abbrev pub is_pending : Job → Option Job → Bool
is_pending job none = job.status == "pending"
is_pending job (some now) = now.status == "pending"

-- How many places of the semaphore are taken.
abbrev pub working : List Task → ℕ
working [] = 0
working (task ∷ tasks) = (elim task.phase [ ended ↦ 0 | _ ↦ 1 ]) + working tasks

-- A step of pollAndRun, called at a tick: it lists at most the first hundred jobs of all users, passes
-- over those that are not pending, waits for a place and starts a goroutine for each of the others.
unfoldable pub poll_step : Poller → World → World
unfolding list_jobs
poll_step idle w = elim (list_jobs "" 100 0 w.db) [
  | none ↦ w
  | some jobs ↦ record w { poller = listing jobs }
]
poll_step (listing []) w = record w { poller = idle }
poll_step (listing (job ∷ jobs)) w =
    if is_pending job (get job.id w.db.jobs)
    then record w { poller = holding job jobs }
    else record w { poller = listing jobs }
poll_step (holding job jobs) w =
    if ltb (working w.tasks) w.max_workers
    then record w {
      poller = listing jobs;
      tasks = w.tasks ++ record { job = job; phase = begun } ∷ [];
    }
    else w
poll_step returned w = w

-- The cases of stopCh and ctx.Done: pollAndRun returns from its wait, and the loop from its select.
unfoldable pub stop_step : Poller → World → World
stop_step idle w = record w { poller = returned }
stop_step (listing jobs) w = w
stop_step (holding job jobs) w = record w { poller = idle }
stop_step returned w = w

-- Submit, with the number of generateID as text
unfoldable pub submit : ℕ → String → String → String → String → MemoryDb → MemoryDb × Job
unfolding save_job
submit now id user name input m = (save_job now job m, job)
  where
    job : Job
    job = record {
      id = id;
      user_id = user;
      name = name;
      status = "pending";
      input = input;
      output = [];
      error = "";
      created_at = now;
      updated_at = 0;
    }

-- What happens in the pool: the loop makes a step or sees that it is to stop, a goroutine makes a
-- step, or a job is submitted.
pub data Move : Type 0 where
  polls : Move
  stops : Move
  steps : ℕ → Moment → Move
  submits : ℕ → String → String → String → String → Move

abbrev pub Schedule : Type 0
Schedule = List Move

unfoldable pub move : Runtime → Move → World → World
unfolding step_at poll_step stop_step submit
move rt polls w = poll_step w.poller w
move rt stops w = stop_step w.poller w
move rt (steps i t) w = step_at rt t i (get_elem? w.tasks i) w
move rt (submits now id user name input) w = record w {
  db = (submit now id user name input w.db).0;
}

unfoldable pub run : Runtime → Schedule → World → World
unfolding move
run rt [] w = w
run rt (m ∷ rest) w = run rt rest (move rt m w)

-- Start, before the first tick.
unfoldable pub start : Pool → World
start p = record {
  db = p.db;
  dispatcher = p.dispatcher;
  max_workers = p.max_workers;
  poller = idle;
  tasks = [];
}
