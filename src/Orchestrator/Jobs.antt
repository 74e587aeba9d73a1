-- ===== src/Orchestrator/Jobs.antt =====
-- internal/orchestrator: the jobs of orchestrator.go, the manager of job_manager.go and the reaper of
-- reaper.go.
use ironclaw_go.Shared.{
  ℕ, ◌+◌, String, Bool, true, false, ◌&&◌, Option, none, some, List, [], ◌∷◌, ◌++◌, Dict, get, put,
  keys, length, Result, ok, err, ltb, leb, if◌then◌else◌,
}

-- JobStatus
pub data JobStatus : Type 0 where
  job_pending job_in_progress job_completed job_failed job_cancelled : JobStatus

-- JobStatus.IsTerminal
unfoldable pub is_terminal : JobStatus → Bool
is_terminal job_pending = false
is_terminal job_in_progress = false
is_terminal job_completed = true
is_terminal job_failed = true
is_terminal job_cancelled = true

-- Job
pub record Job : Type 0 where
  pub id : String
  pub user_id : String
  pub title : String
  pub description : String
  pub status : JobStatus
  pub created_at : ℕ
  pub started_at : Option ℕ
  pub completed_at : Option ℕ
  pub error : String
  pub outcome : String

-- MemoryJobManager
pub record MemoryJobManager : Type 0 where
  pub jobs : Dict Job
  pub by_user : Dict (List String)
  pub max_jobs : ℕ

-- The two errors of the manager.
pub data JobError : Type 0 where
  too_many : ℕ → JobError
  missing : String → JobError

-- NewMemoryJobManager
unfoldable pub new_memory_job_manager : ℕ → MemoryJobManager
new_memory_job_manager max_jobs = record { jobs = []; by_user = []; max_jobs = max_jobs }

-- m.byUser[userID]
abbrev pub ids_at : Option (List String) → List String
ids_at none = []
ids_at (some ids) = ids

-- The job that Create makes.
abbrev pub new_job : ℕ → String → String → String → String → Job
new_job now id user title description = record {
  id = id;
  user_id = user;
  title = title;
  description = description;
  status = job_pending;
  created_at = now;
  started_at = none;
  completed_at = none;
  error = "";
  outcome = "";
}

-- The test of Create: m.maxJobs > 0 && len(m.jobs) >= m.maxJobs
unfoldable pub is_full : MemoryJobManager → Bool
is_full m = ltb 0 m.max_jobs && leb m.max_jobs (length m.jobs)

-- MemoryJobManager.Create, with the new UUID
unfoldable pub create :
    ℕ
    → String
    → String
    → String
    → String
    → MemoryJobManager
    → MemoryJobManager × Result JobError Job
unfolding is_full
create now id user title description m = if is_full m then (m, err (too_many m.max_jobs)) else (
  record m {
    jobs = put id (new_job now id user title description) m.jobs;
    by_user = put user (ids_at (get user m.by_user) ++ id ∷ []) m.by_user;
  },
  ok (new_job now id user title description),
)

-- MemoryJobManager.Get
unfoldable pub get_job : String → MemoryJobManager → Option Job
get_job id m = get id m.jobs

-- The loop of ListByUser: the jobs that are there.
unfoldable pub pick : List String → Dict Job → List Job
pick [] jobs = []
pick (id ∷ ids) jobs =
    let rest = pick ids jobs in elim (get id jobs) [ none ↦ rest | some job ↦ job ∷ rest ]

-- MemoryJobManager.ListByUser
unfoldable pub list_by_user : String → MemoryJobManager → List Job
unfolding pick
list_by_user user m = pick (ids_at (get user m.by_user)) m.jobs

-- The writes of UpdateStatus.
unfoldable pub with_status : ℕ → JobStatus → Job → Job
with_status now job_pending job = record job { status = job_pending }
with_status now job_in_progress job = record job { status = job_in_progress; started_at = some now }
with_status now job_completed job = record job { status = job_completed; completed_at = some now }
with_status now job_failed job = record job { status = job_failed; completed_at = some now }
with_status now job_cancelled job = record job { status = job_cancelled; completed_at = some now }

-- MemoryJobManager.UpdateStatus
unfoldable pub update_status :
    ℕ → String → JobStatus → MemoryJobManager → MemoryJobManager × Result JobError (Unit {0})
unfolding with_status
update_status now id status m = elim (get id m.jobs) [
  | none ↦ (m, err (missing id))
  | some job ↦ (record m { jobs = put id (with_status now status job) m.jobs }, ok tt)
]

abbrev pub timeout_error : String
timeout_error = "timeout: job exceeded maximum duration"

-- The tests of Cleanup: a job in progress that started longer ago than the timeout.
unfoldable pub is_overdue_since : ℕ → ℕ → Option ℕ → Bool
is_overdue_since now timeout none = false
is_overdue_since now timeout (some started) = ltb (started + timeout) now

unfoldable pub is_overdue : ℕ → ℕ → JobStatus → Option ℕ → Bool
unfolding is_overdue_since
is_overdue now timeout job_in_progress started = is_overdue_since now timeout started
is_overdue now timeout job_pending started = false
is_overdue now timeout job_completed started = false
is_overdue now timeout job_failed started = false
is_overdue now timeout job_cancelled started = false

-- job.Error = "timeout: ...", through the pointer to the job of the map.
unfoldable pub set_error : String → String → MemoryJobManager → MemoryJobManager
set_error id text m = elim (get id m.jobs) [
  | none ↦ m
  | some job ↦ record m { jobs = put id (record job { error = text }) m.jobs }
]

-- One round of the loop of Cleanup, for the job that the map holds at `k`.
unfoldable pub reap : ℕ → ℕ → Option Job → String → MemoryJobManager → MemoryJobManager
unfolding is_overdue update_status set_error
reap now timeout none k m = m
reap now timeout (some job) k m =
    if is_overdue now timeout job.status job.started_at
    then set_error k timeout_error (update_status now job.id job_failed m).0
    else m

-- The loop of Cleanup.
unfoldable pub reap_all : ℕ → ℕ → List String → MemoryJobManager → MemoryJobManager
unfolding reap
reap_all now timeout [] m = m
reap_all now timeout (k ∷ ks) m = reap_all now timeout ks (reap now timeout (get k m.jobs) k m)

-- MemoryReaper.Cleanup, over the jobs that All returns
unfoldable pub cleanup : ℕ → ℕ → MemoryJobManager → MemoryJobManager
unfolding reap_all
cleanup now timeout m = reap_all now timeout (keys m.jobs) m
