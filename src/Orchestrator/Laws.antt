-- ===== src/Orchestrator/Laws.antt =====
-- What the job manager, the reaper and the tokens of internal/orchestrator promise.
use ironclaw_go.Shared.{
  ℕ, ◌-◌, Bool, false, ltb, String, ◌≡◌, refl, ◌∙◌, inl, inr, Option, none, some, List, [], ◌∷◌,
  ◌++◌, All, Dict, get, put, get-put, get-put_self, eq_iff, ◌==◌, arith, Bool-cases, Option-cases,
  if◌then◌else◌, subst,
}
use ironclaw_go.Orchestrator.Jobs.{
  Job, JobStatus, job_pending, job_in_progress, job_completed, job_failed, job_cancelled,
  MemoryJobManager, new_memory_job_manager, ids_at, new_job, is_full, create, pick, list_by_user,
  with_status, update_status, is_overdue, is_overdue_since, timeout_error,
}

-- A job of the user.
abbrev pub Filed : String → Dict Job → String → Type 0
Filed user jobs id = (job : Job) × (get id jobs ≡ some job) × (job.user_id ≡ user)

-- Jobs stand under their IDs, and the list of a user names jobs of that user.
pub record IsFiled (m : MemoryJobManager) : Type 0 where
  pub keyed : (k : String) (job : Job) → get k m.jobs ≡ some job → job.id ≡ k
  pub filed : (user : String) → All (Filed user m.jobs) (ids_at (get user m.by_user))

pub new_memory_job_manager-IsFiled : (n : ℕ) → IsFiled (new_memory_job_manager n)
unfolding new_memory_job_manager get
new_memory_job_manager-IsFiled n = record {
  keyed = λ k job h. absurd (ground arith);
  filed = λ user. tt;
}

All-Filed :
    (user : String) (jobs jobs' : Dict Job) (ids : List String)
    → ((id : String) → Filed user jobs id → Filed user jobs' id)
    → All (Filed user jobs) ids
    → All (Filed user jobs') ids
All-Filed user jobs jobs' [] f u = tt
All-Filed user jobs jobs' (id ∷ ids) f (p, ps) = (f id p, All-Filed user jobs jobs' ids f ps)

All-Filed_append :
    (user : String) (jobs : Dict Job) (ids : List String) (id : String)
    → All (Filed user jobs) ids
    → Filed user jobs id
    → All (Filed user jobs) (ids ++ id ∷ [])
All-Filed_append user jobs [] id u p = (p, tt)
All-Filed_append user jobs (i ∷ ids) id (x, xs) p = (x, All-Filed_append user jobs ids id xs p)

-- A write to a job that keeps its ID and its user.
pub put-IsFiled :
    (m : MemoryJobManager) (id : String) (job job' : Job)
    → IsFiled m
    → get id m.jobs ≡ some job
    → job'.id ≡ job.id
    → job'.user_id ≡ job.user_id
    → IsFiled (record m { jobs = put id job' m.jobs })
put-IsFiled m id job job' c here same_id same_user = record {
  keyed = λ k other. rw (get-put id k job' m.jobs) (keeps k other);
  filed = λ user.
      All-Filed user m.jobs (put id job' m.jobs) (ids_at (get user m.by_user)) (moves user)
        (c.filed user);
}
  where
    keeps :
        (k : String) (other : Job)
        → (if id == k then some job' else get k m.jobs) ≡ some other
        → other.id ≡ k
    keeps k other h = ground (arith, eq_iff id k, c.keyed id job here, c.keyed k other)

    moves : (user k : String) → Filed user m.jobs k → Filed user (put id job' m.jobs) k
    moves user k (old, at, own) = elim (Bool-cases (id == k)) [
      | inr differs ↦ (old, get-put id k job' m.jobs ∙ rw differs at, own)
      | inl same ↦
          let e : id ≡ k = (eq_iff id k).0 same in
          let f : get k m.jobs ≡ some job =
            subst (λ (x : String). get x m.jobs ≡ some job) e here in
          (job', get-put id k job' m.jobs ∙ rw same refl, ground (arith, f, at, own, same_user))
    ]

user_id-with_status :
    (now : ℕ) (s : JobStatus) (job : Job) → (with_status now s job).user_id ≡ job.user_id
unfolding with_status
user_id-with_status now job_pending job = refl
user_id-with_status now job_in_progress job = refl
user_id-with_status now job_completed job = refl
user_id-with_status now job_failed job = refl
user_id-with_status now job_cancelled job = refl

id-with_status : (now : ℕ) (s : JobStatus) (job : Job) → (with_status now s job).id ≡ job.id
unfolding with_status
id-with_status now job_pending job = refl
id-with_status now job_in_progress job = refl
id-with_status now job_completed job = refl
id-with_status now job_failed job = refl
id-with_status now job_cancelled job = refl

pub update_status-IsFiled :
    (now : ℕ) (id : String) (s : JobStatus) (m : MemoryJobManager)
    → IsFiled m
    → IsFiled (update_status now id s m).0
unfolding update_status
update_status-IsFiled now id s m c = elim (Option-cases (get id m.jobs)) [
  | inl gone ↦ rw (gone, update_status) c
  | inr (job, here) ↦
      rw (here, update_status)
        (put-IsFiled m id job (with_status now s job) c here (id-with_status now s job)
          (user_id-with_status now s job))
]

pub create-IsFiled :
    (now : ℕ) (id user title description : String) (m : MemoryJobManager)
    → get id m.jobs ≡ none
    → IsFiled m
    → IsFiled (create now id user title description m).0
unfolding create
create-IsFiled now id user title description m new c = elim (Bool-cases (is_full m)) [
  | inl full ↦ rw (full, create) c
  | inr room ↦ rw (room, create) (record { keyed = keeps; filed = files })
]
  where
    job : Job
    job = new_job now id user title description

    keeps : (k : String) (other : Job) → get k (put id job m.jobs) ≡ some other → other.id ≡ k
    keeps k other = rw (get-put id k job m.jobs) (λ h. ground (arith, eq_iff id k, c.keyed k other))

    moves : (u k : String) → Filed u m.jobs k → Filed u (put id job m.jobs) k
    moves u k (old, at, own) =
        (old, get-put id k job m.jobs ∙ ground (arith, eq_iff id k, at, new), own)

    files :
        (u : String)
        → All
            (Filed u (put id job m.jobs))
            (ids_at (get u (put user (ids_at (get user m.by_user) ++ id ∷ []) m.by_user)))
    files u = elim (Bool-cases (user == u)) [
      | inr differs ↦
          rw (get-put user u (ids_at (get user m.by_user) ++ id ∷ []) m.by_user, differs)
            (All-Filed u m.jobs (put id job m.jobs) (ids_at (get u m.by_user)) (moves u)
              (c.filed u))
      | inl same ↦
          let e : user ≡ u = (eq_iff user u).0 same in
          rw (get-put user u (ids_at (get user m.by_user) ++ id ∷ []) m.by_user, same)
            (All-Filed_append u (put id job m.jobs) (ids_at (get user m.by_user)) id
              (subst
                (λ (x : String). All (Filed x (put id job m.jobs)) (ids_at (get user m.by_user))) e
                (All-Filed user m.jobs (put id job m.jobs) (ids_at (get user m.by_user))
                  (moves user) (c.filed user)))
              (job, get-put_self id job m.jobs, e))
    ]

-- With the jobs in order, the list of a user holds jobs of that user alone.
pub list_by_user-own :
    (user : String) (m : MemoryJobManager)
    → IsFiled m
    → All (λ (job : Job). job.user_id ≡ user) (list_by_user user m)
unfolding list_by_user
list_by_user-own user m c = picks (ids_at (get user m.by_user)) (c.filed user)
  where
    picks :
        (ids : List String)
        → All (Filed user m.jobs) ids
        → All (λ (job : Job). job.user_id ≡ user) (pick ids m.jobs)
    picks [] u = unfold pick in tt
    picks (id ∷ ids) ((job, at, own), ps) = unfold pick in rw (at, pick) (own, picks ids ps)

-- A job that is in progress and has run for longer than the timeout.
abbrev pub runs_late : ℕ → ℕ → JobStatus → Option ℕ → Bool
runs_late now timeout job_in_progress (some started) = ltb timeout (now - started)
runs_late now timeout job_in_progress none = false
runs_late now timeout job_pending started = false
runs_late now timeout job_completed started = false
runs_late now timeout job_failed started = false
runs_late now timeout job_cancelled started = false

-- What Cleanup makes of a job.
abbrev pub reaped : ℕ → ℕ → Job → Job
reaped now timeout job =
    if runs_late now timeout job.status job.started_at
    then record job { status = job_failed; completed_at = some now; error = timeout_error }
    else job

abbrev pub reaped_at : ℕ → ℕ → Option Job → Option Job
reaped_at now timeout none = none
reaped_at now timeout (some job) = some (reaped now timeout job)

pub is_overdue-runs_late :
    (now timeout : ℕ) (s : JobStatus) (started : Option ℕ)
    → runs_late now timeout s started ≡ is_overdue now timeout s started
unfolding is_overdue is_overdue_since
is_overdue-runs_late now timeout job_in_progress (some started) = ground arith
is_overdue-runs_late now timeout job_in_progress none = refl
is_overdue-runs_late now timeout job_pending started = refl
is_overdue-runs_late now timeout job_completed started = refl
is_overdue-runs_late now timeout job_failed started = refl
is_overdue-runs_late now timeout job_cancelled started = refl
