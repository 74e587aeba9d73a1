-- ===== src/Orchestrator.antt =====
-- internal/orchestrator: jobs (orchestrator.go, job_manager.go), their tokens (token_store.go) and the
-- reaper of jobs that run too long (reaper.go). The job manager hands out pointers to its jobs; only the
-- reaper writes through one, so the jobs are values of the map, and the reaper writes to the map.
pub mod Jobs
pub mod Laws
pub mod Reaping
pub mod Limits
pub mod Tests
use ironclaw_go.Shared.{
  ℕ, ◌+◌, ◌*◌, ◌^◌, String, Bool, true, false, Option, none, some, List, [], ◌∷◌, Dict, get, put,
  remove, keys, Result, ok, err, ltb, if◌then◌else◌, ◌==◌,
}
use ironclaw_go.Orchestrator.Jobs.{
  Job, JobStatus, job_cancelled, MemoryJobManager, new_memory_job_manager, create, get_job,
  list_by_user, update_status, JobError, cleanup,
}

-- token_store.go: TokenStore
abbrev pub TokenStore : Type 0
TokenStore = Dict String

-- TokenStore.Generate, with the random token
unfoldable pub generate : String → String → TokenStore → TokenStore
generate token job ts = put job token ts

-- TokenStore.Get
unfoldable pub get_token : String → TokenStore → Option String
get_token job ts = get job ts

-- The comparison of Validate.
unfoldable pub matches : String → Option String → Bool
matches token none = false
matches token (some expected) = expected == token

-- TokenStore.Validate
unfoldable pub validate : String → String → TokenStore → Bool
unfolding matches
validate job token ts = matches token (get job ts)

-- TokenStore.Revoke
unfoldable pub revoke : String → TokenStore → TokenStore
revoke job ts = remove job ts

-- orchestrator.go: Config
pub record Config : Type 0 where
  pub max_concurrent_jobs : ℕ
  pub job_timeout : ℕ
  pub reaper_interval : ℕ

-- DefaultConfig
abbrev pub default_config : Config
default_config = record {
  max_concurrent_jobs = 4;
  job_timeout = 30 * 60 * 10 ^ 9;
  reaper_interval = 5 * 60 * 10 ^ 9;
}

-- Orchestrator; its reaper is its timeout.
pub record Orchestrator : Type 0 where
  pub config : Config
  pub jm : MemoryJobManager
  pub ts : TokenStore

-- New
unfoldable pub new_orchestrator : Config → Orchestrator
unfolding new_memory_job_manager
new_orchestrator config = record {
  config = config;
  jm = new_memory_job_manager config.max_concurrent_jobs;
  ts = [];
}

-- The end of CreateJob: a new job gets a token.
unfoldable pub settle_create :
    String
    → Orchestrator
    → MemoryJobManager × Result JobError Job
    → Orchestrator × Result JobError Job
unfolding generate
settle_create token o (jm, err e) = (record o { jm = jm }, err e)
settle_create token o (jm, ok job) = (record o { jm = jm; ts = generate token job.id o.ts }, ok job)

-- Orchestrator.CreateJob, with the new UUID and the random token
unfoldable pub create_job :
    ℕ
    → String
    → String
    → String
    → String
    → String
    → Orchestrator
    → Orchestrator × Result JobError Job
unfolding create settle_create
create_job now id token user title description o =
    settle_create token o (create now id user title description o.jm)

-- Orchestrator.ListJobs
unfoldable pub list_jobs : String → Orchestrator → List Job
unfolding list_by_user
list_jobs user o = list_by_user user o.jm

-- Orchestrator.CancelJob
unfoldable pub cancel_job : ℕ → String → Orchestrator → Orchestrator × Result JobError (Unit {0})
unfolding update_status
cancel_job now job o =
    let (jm, r) = update_status now job job_cancelled o.jm in (record o { jm = jm }, r)

-- Orchestrator.ValidateToken
unfoldable pub validate_token : String → String → Orchestrator → Bool
unfolding validate
validate_token job token o = validate job token o.ts

-- One tick of StartReaper.
unfoldable pub reap_tick : ℕ → Orchestrator → Orchestrator
unfolding cleanup
reap_tick now o = record o { jm = cleanup now o.config.job_timeout o.jm }
