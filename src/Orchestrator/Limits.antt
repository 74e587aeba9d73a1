-- ===== src/Orchestrator/Limits.antt =====
-- The limit of orchestrator/job_manager.go on the number of jobs, and the tokens of token_store.go.
use ironclaw_go.Shared.{
  ℕ, ◌≤◌, ◌<◌, String, true, ◌≡◌, refl, sym, ap, ◌∙◌, inl, inr, Option, none, some, List, [], ◌∷◌,
  Dict, keys, get, put, get-put, length-put, length, Result, ok, err, ltb, leb, ◌==◌, arith,
  Bool-cases, Option-cases, if◌then◌else◌, ◌&&◌,
}
use ironclaw_go.Orchestrator.Jobs.{
  new_job, Job, JobStatus, job_failed, job_cancelled, timeout_error, MemoryJobManager, JobError,
  too_many, is_full, create, update_status, with_status, set_error, reap, reap_all, cleanup,
  is_overdue,
}
use ironclaw_go.Orchestrator.{
  Orchestrator, generate, validate, matches, settle_create, create_job, cancel_job, validate_token,
  reap_tick,
}

-- A history of the orchestrator's methods that change it.
pub data Call : Type 0 where
  creates : ℕ → String → String → String → String → String → Call
  cancels : ℕ → String → Call
  updates : ℕ → String → JobStatus → Call
  reaps : ℕ → Call

unfoldable pub step : Call → Orchestrator → Orchestrator
step (creates now id token user title description) o =
    (create_job now id token user title description o).0
step (cancels now id) o = (cancel_job now id o).0
step (updates now id s) o = record o { jm = (update_status now id s o.jm).0 }
step (reaps now) o = reap_tick now o

unfoldable pub run : List Call → Orchestrator → Orchestrator
run [] o = o
run (c ∷ cs) o = run cs (step c o)

-- Overwriting a job does not change their number.
length-put_old :
    (id : String) (job job' : Job) (d : Dict Job)
    → get id d ≡ some job
    → length (put id job' d) ≡ length d
length-put_old id job job' d here = length-put id job' d ∙ rw here (omega arith)

-- The size of a manager and its limit.
abbrev pub size : MemoryJobManager → ℕ × ℕ
size m = (length m.jobs, m.max_jobs)

size-update_status :
    (now : ℕ) (id : String) (s : JobStatus) (m : MemoryJobManager)
    → size (update_status now id s m).0 ≡ size m
unfolding update_status
size-update_status now id s m = elim (Option-cases (get id m.jobs)) [
  | inl gone ↦ rw (gone, update_status) refl
  | inr (job, here) ↦
      rw (here, update_status)
        (ap (λ n. (n, m.max_jobs)) (length-put_old id job (with_status now s job) m.jobs here))
]

size-set_error : (id text : String) (m : MemoryJobManager) → size (set_error id text m) ≡ size m
unfolding set_error
size-set_error id text m = elim (Option-cases (get id m.jobs)) [
  | inl gone ↦ rw (gone, set_error) refl
  | inr (job, here) ↦
      rw (here, set_error)
        (ap (λ n. (n, m.max_jobs))
          (length-put_old id job (record job { error = text }) m.jobs here))
]

size-reap :
    (now t : ℕ) (o : Option Job) (k : String) (m : MemoryJobManager)
    → size (reap now t o k m) ≡ size m
unfolding reap
size-reap now t none k m = refl
size-reap now t (some job) k m = elim (Bool-cases (is_overdue now t job.status job.started_at)) [
  | inr young ↦ rw young refl
  | inl old ↦ rw old (
      size-set_error k timeout_error (update_status now job.id job_failed m).0
      ∙ size-update_status now job.id job_failed m)
]

size-reap_all :
    (now t : ℕ) (ks : List String) (m : MemoryJobManager) → size (reap_all now t ks m) ≡ size m
unfolding reap_all
size-reap_all now t [] m = refl
size-reap_all now t (k ∷ ks) m =
    size-reap_all now t ks (reap now t (get k m.jobs) k m) ∙ size-reap now t (get k m.jobs) k m

size-cleanup : (now t : ℕ) (m : MemoryJobManager) → size (cleanup now t m) ≡ size m
unfolding cleanup
size-cleanup now t m = size-reap_all now t (keys m.jobs) m

create-full :
    (now : ℕ) (id user title description : String) (m : MemoryJobManager)
    → is_full m ≡ true
    → create now id user title description m ≡ (m, err (too_many m.max_jobs))
unfolding create
create-full now id user title description m full = rw (full, create) refl

create_job-full :
    (now : ℕ) (id token user title description : String) (o : Orchestrator)
    → is_full o.jm ≡ true
    → create_job now id token user title description o ≡ (o, err (too_many o.jm.max_jobs))
unfolding create_job settle_create
create_job-full now id token user title description o full =
    ap (settle_create token o) (create-full now id user title description o.jm full)

size-step : (c : Call) (o : Orchestrator) → is_full o.jm ≡ true → size (step c o).jm ≡ size o.jm
unfolding step cancel_job reap_tick
size-step (creates now id token user title description) o full =
    ap (λ x. size x.0.jm) (create_job-full now id token user title description o full)
size-step (cancels now id) o full = size-update_status now id job_cancelled o.jm
size-step (updates now id s) o full = size-update_status now id s o.jm
size-step (reaps now) o full = size-cleanup now o.config.job_timeout o.jm

-- Whether a manager is full depends on its size and its limit.
is_full-size : (m n : MemoryJobManager) → size m ≡ size n → is_full m ≡ is_full n
unfolding is_full
is_full-size m n e = ap (λ (p : ℕ × ℕ). ltb 0 p.1 && leb p.1 p.0) e

size-run :
    (cs : List Call) (o : Orchestrator) → is_full o.jm ≡ true → size (run cs o).jm ≡ size o.jm
unfolding run
size-run [] o full = refl
size-run (c ∷ cs) o full =
    size-run cs (step c o) (is_full-size (step c o).jm o.jm (size-step c o full) ∙ full)
    ∙ size-step c o full

-- Once the manager holds as many jobs as its limit, it never takes another, whatever jobs are
-- completed, cancelled or reaped: the limit is one on all jobs that were ever created.
pub create_job-full_forever :
    (cs : List Call) (o : Orchestrator) (now : ℕ) (id token user title description : String)
    → is_full o.jm ≡ true
    → (create_job now id token user title description (run cs o)).1 ≡ err (too_many o.jm.max_jobs)
create_job-full_forever cs o now id token user title description full =
    let same = size-run cs o full in
    ap (λ x. x.1)
      (create_job-full now id token user title description (run cs o)
        (is_full-size (run cs o).jm o.jm same ∙ full))
    ∙ ap (λ (p : ℕ × ℕ). err (too_many p.1)) same

-- The manager with a limit holds no more jobs than its limit.
abbrev pub IsBounded : MemoryJobManager → Type 0
IsBounded m = length m.jobs ≤ m.max_jobs

IsBounded-size : (m n : MemoryJobManager) → size m ≡ size n → IsBounded n → IsBounded m
IsBounded-size m n e b = omega (arith, b, ap (λ (p : ℕ × ℕ). p.0) e, ap (λ (p : ℕ × ℕ). p.1) e)

create-IsBounded :
    (now : ℕ) (id user title description : String) (m : MemoryJobManager)
    → 0 < m.max_jobs
    → IsBounded m
    → IsBounded (create now id user title description m).0
      × ((create now id user title description m).0.max_jobs ≡ m.max_jobs)
unfolding create is_full
create-IsBounded now id user title description m pos b = elim (Bool-cases (is_full m)) [
  | inl full ↦ rw (full, create) (b, refl)
  | inr room ↦
      rw (room, create)
        (ground (arith, length-put id (new_job now id user title description) m.jobs), refl)
]

jm-settle_create :
    (token : String) (o : Orchestrator) (r : MemoryJobManager × Result JobError Job)
    → (settle_create token o r).0.jm ≡ r.0
unfolding settle_create
jm-settle_create token o (jm, err e) = refl
jm-settle_create token o (jm, ok job) = refl

abbrev IsLimited : MemoryJobManager → Type 0
IsLimited m = IsBounded m × (0 < m.max_jobs)

IsLimited-size : (m n : MemoryJobManager) → size m ≡ size n → IsLimited n → IsLimited m
IsLimited-size m n e (b, pos) =
    (IsBounded-size m n e b, omega (arith, pos, ap (λ (p : ℕ × ℕ). p.1) e))

step-IsLimited : (c : Call) (o : Orchestrator) → IsLimited o.jm → IsLimited (step c o).jm
unfolding step cancel_job reap_tick create_job
step-IsLimited (creates now id token user title description) o (b, pos) =
    let (c, same) = create-IsBounded now id user title description o.jm pos b in
    IsLimited-size (create_job now id token user title description o).0.jm
      (create now id user title description o.jm).0
      (ap size (jm-settle_create token o (create now id user title description o.jm)))
      (c, omega (arith, pos, same))
step-IsLimited (cancels now id) o l =
    IsLimited-size (update_status now id job_cancelled o.jm).0 o.jm
      (size-update_status now id job_cancelled o.jm) l
step-IsLimited (updates now id s) o l =
    IsLimited-size (update_status now id s o.jm).0 o.jm (size-update_status now id s o.jm) l
step-IsLimited (reaps now) o l =
    IsLimited-size (cleanup now o.config.job_timeout o.jm) o.jm
      (size-cleanup now o.config.job_timeout o.jm) l

-- With a limit on the jobs, any history of calls leaves at most as many jobs as the limit.
pub run-bounded :
    (cs : List Call) (o : Orchestrator)
    → 0 < o.jm.max_jobs
    → length o.jm.jobs ≤ o.jm.max_jobs
    → length (run cs o).jm.jobs ≤ (run cs o).jm.max_jobs
unfolding run
run-bounded [] o pos b = b
run-bounded (c ∷ cs) o pos b =
    let (b', pos') = step-IsLimited c o (b, pos) in run-bounded cs (step c o) pos' b'

ts-settle_create :
    (token : String) (o : Orchestrator) (r : MemoryJobManager × Result JobError Job) (job : Job)
    → r.1 ≡ ok job
    → (settle_create token o r).0.ts ≡ put job.id token o.ts
unfolding settle_create generate
ts-settle_create token o (jm, err e) job h = absurd (ground arith)
ts-settle_create token o (jm, ok j) job h = ground arith

created :
    (token : String) (o : Orchestrator) (r : MemoryJobManager × Result JobError Job)
    → (settle_create token o r).1 ≡ r.1
unfolding settle_create
created token o (jm, err e) = refl
created token o (jm, ok job) = refl

-- Once a job was created, the token that was drawn for it is the only one that is accepted for it,
-- for other jobs the same tokens are accepted as before, and cancelling a job takes no token back.
pub validate_token-create_job :
    (now later : ℕ) (id token user title description k tok : String) (o : Orchestrator) (job : Job)
    → (create_job now id token user title description o).1 ≡ ok job
    → let next = (create_job now id token user title description o).0 in
      (validate_token k tok next ≡ (if job.id == k then token == tok else validate_token k tok o))
      × (validate_token k tok (cancel_job later k next).0 ≡ validate_token k tok next)
unfolding create_job validate_token validate cancel_job matches
validate_token-create_job now later id token user title description k tok o job h =
    let r = create now id user title description o.jm in
    (
      ap (λ ts. matches tok (get k ts))
            (ts-settle_create token o r job (sym (created token o r) ∙ h))
          ∙ rw (get-put job.id k token o.ts) (ground arith),
      refl,
    )
