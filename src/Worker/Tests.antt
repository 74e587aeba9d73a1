-- ===== src/Worker/Tests.antt =====
-- The pool of internal/worker/worker.go at a small input: three jobs of a tool that is not registered.
use ironclaw_go.Shared.{
  ℕ, values, String, ◌≡◌, ◌≢◌, ◌⊎◌, refl, none, some, [], ◌∷◌, get, put, get_elem?, modify, arith,
}
use ironclaw_go.Tools.{new_registry}
use ironclaw_go.Tools.Dispatch.{new_dispatcher}
use ironclaw_go.Agent.Loop.{Runtime}
use ironclaw_go.Db.{Job}
use ironclaw_go.Db.Memory.{new_memory_db}
use ironclaw_go.Db.Memory.Keys.{IsKeyed}
use ironclaw_go.Worker.{
  Pool, new_pool, submit, begun, ended, Task, Moment, Schedule, polls, stops, steps, submits, start,
  run,
}
use ironclaw_go.Worker.Tasks.{Outcome}
use ironclaw_go.Worker.Invariant.{AllNew}
use ironclaw_go.Worker.Finish.{run-finishes}

abbrev runtime : Runtime
runtime = record { decode = λ s. none; quote = λ s. s }

abbrev job : String → Job
job id = record {
  id = id;
  user_id = "ann";
  name = "echo";
  status = "pending";
  input = "";
  output = [];
  error = "";
  created_at = 5;
  updated_at = 5;
}

abbrev pool : Pool
pool = record {
  db = record new_memory_db { jobs = ("a", job "a") ∷ ("b", job "b") ∷ [] };
  dispatcher = new_dispatcher new_registry none none;
  max_workers = 2;
  interval = 10;
}

abbrev moment : Moment
moment = record { now = 7; elapsed = 1; uuid = "u1" }

-- A third job is submitted, the loop lists the jobs and starts two goroutines, which take both places;
-- a goroutine makes a step while the loop waits with the third job.
abbrev before : Schedule
before =
    submits 6 "c" "ben" "echo" ""
    ∷ polls
    ∷ polls
    ∷ polls
    ∷ polls
    ∷ polls
    ∷ polls
    ∷ polls
    ∷ steps 0 moment
    ∷ []

-- The loop gives up, lists again, and takes up the second job, which is still marked as pending.
abbrev later : Schedule
later =
    stops
    ∷ polls
    ∷ steps 0 moment
    ∷ polls
    ∷ polls
    ∷ steps 1 moment
    ∷ steps 0 moment
    ∷ polls
    ∷ steps 1 moment
    ∷ steps 1 moment
    ∷ []

abbrev second : Task
second = record { job = job "b"; phase = begun }

here : get_elem? (run runtime before (start pool)).tasks 1 ≡ some second
unfolding get_elem? values put run start modify get
here = refl

submitted : (submit 5 "a" "ann" "echo" "" new_memory_db).0.jobs ≡ ("a", job "a") ∷ []
unfolding submit put
submitted = refl

workers : (new_pool new_memory_db pool.dispatcher 0).max_workers ≡ 1
unfolding new_pool
workers = refl

pool-IsKeyed : IsKeyed pool.db.jobs
unfolding get
pool-IsKeyed = (refl, refl, (refl, refl, tt))

before-AllNew : AllNew runtime before (start pool)
unfolding get start
before-AllNew = (refl, (tt, (tt, (tt, (tt, (tt, (tt, (tt, (tt, tt)))))))))

later-AllNew : AllNew runtime later (run runtime before (start pool))
later-AllNew = (tt, (tt, (tt, (tt, (tt, (tt, (tt, (tt, (tt, (tt, tt))))))))))

run-finishes_example :
    let w = run runtime later (run runtime before (start pool)) in
    (get_elem? w.tasks 1 ≡ some (record second { phase = ended }))
    × ((x : Job) × (get "b" w.db.jobs ≡ some x)
        × (Outcome x.status x.output x.error
            ⊎ ((k : ℕ) × (v : Task) × (k ≢ 1)
                × (get_elem? w.tasks k ≡ some v)
                × (v.job.id ≡ "b")
                × (v.phase ≢ ended))))
run-finishes_example =
    run-finishes runtime pool before later 1 second pool-IsKeyed before-AllNew later-AllNew here
      (omega arith)
