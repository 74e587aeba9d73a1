-- ===== src/Orchestrator/Tests.antt =====
-- Two jobs of a manager that takes one.
use ironclaw_go.Shared.{◌≤◌, ◌<◌, true, ◌≡◌, refl, none, [], ◌∷◌, get, put, length, ok, err, arith}
use ironclaw_go.Orchestrator.Jobs.{
  too_many, job_in_progress, MemoryJobManager, new_memory_job_manager, new_job, is_full, create,
  update_status, cleanup,
}
use ironclaw_go.Orchestrator.{Orchestrator, Config, new_orchestrator, create_job}
use ironclaw_go.Orchestrator.Laws.{
  IsFiled, new_memory_job_manager-IsFiled, create-IsFiled, update_status-IsFiled, reaped_at,
}
use ironclaw_go.Orchestrator.Reaping.{get-cleanup}
use ironclaw_go.Orchestrator.Limits.{cancels, run, create_job-full_forever}

abbrev started : MemoryJobManager
started =
    (update_status 20 "j1" job_in_progress
      (create 10 "j1" "ann" "t" "d" (new_memory_job_manager 1)).0).0

unseen : get "j1" (new_memory_job_manager 1).jobs ≡ none
unfolding new_memory_job_manager get
unseen = refl

started-IsFiled : IsFiled started
started-IsFiled =
    update_status-IsFiled 20 "j1" job_in_progress
      (create 10 "j1" "ann" "t" "d" (new_memory_job_manager 1)).0
      (create-IsFiled 10 "j1" "ann" "t" "d" (new_memory_job_manager 1) unseen
        (new_memory_job_manager-IsFiled 1))

abbrev config : Config
config = record { max_concurrent_jobs = 1; job_timeout = 100; reaper_interval = 10 }

abbrev empty : Orchestrator
empty = new_orchestrator config

abbrev busy : Orchestrator
busy = record { config = config; jm = started; ts = [] }

positive : 0 < busy.jm.max_jobs
unfolding update_status get create new_memory_job_manager put
positive = omega arith

one : length busy.jm.jobs ≤ busy.jm.max_jobs
unfolding update_status get create new_memory_job_manager put
one = omega arith

full : is_full busy.jm ≡ true
unfolding is_full update_status get create new_memory_job_manager put
full = refl

made : (create_job 10 "j1" "tok" "ann" "t" "d" empty).1 ≡ ok (new_job 10 "j1" "ann" "t" "d")
unfolding create_job new_orchestrator
made = refl

get-cleanup_example :
    get "j1" (cleanup 200 100 started).jobs ≡ reaped_at 200 100 (get "j1" started.jobs)
get-cleanup_example = get-cleanup 200 100 "j1" started started-IsFiled

create_job-full_forever_example :
    (create_job 300 "j2" "tok" "bob" "t" "d" (run (cancels 250 "j1" ∷ []) busy)).1
    ≡ err (too_many 1)
unfolding update_status get create new_memory_job_manager put
create_job-full_forever_example =
    create_job-full_forever (cancels 250 "j1" ∷ []) busy 300 "j2" "tok" "bob" "t" "d" full
