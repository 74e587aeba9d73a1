-- ===== src/Orchestrator/Reaping.antt =====
-- Which jobs the reaper of orchestrator/reaper.go fails.
use ironclaw_go.Shared.{
  ℕ, String, false, ◌≡◌, refl, ap, ◌∙◌, inl, inr, Option, none, some, List, [], ◌∷◌, Dict, get, put,
  get-put, get-put_self, keys, eq_iff, ◌==◌, arith, Bool-cases, Option-cases, if◌then◌else◌, any,
}
use ironclaw_go.Orchestrator.Jobs.{
  Job, job_failed, MemoryJobManager, with_status, update_status, is_overdue, timeout_error,
  set_error, reap, reap_all, cleanup,
}
use ironclaw_go.Orchestrator.Laws.{
  IsFiled, put-IsFiled, update_status-IsFiled, runs_late, is_overdue-runs_late, reaped, reaped_at,
}

-- A failed job is not overdue.
reaped-reaped : (now t : ℕ) (job : Job) → reaped now t (reaped now t job) ≡ reaped now t job
reaped-reaped now t job = elim (Bool-cases (runs_late now t job.status job.started_at)) [
  | inl old ↦ rw old refl
  | inr young ↦ rw young (rw young refl)
]

reaped_at_twice :
    (now t : ℕ) (o : Option Job) → reaped_at now t (reaped_at now t o) ≡ reaped_at now t o
reaped_at_twice now t none = refl
reaped_at_twice now t (some job) = ap some (reaped-reaped now t job)

set_error-IsFiled :
    (id text : String) (m : MemoryJobManager) → IsFiled m → IsFiled (set_error id text m)
unfolding set_error
set_error-IsFiled id text m c = elim (Option-cases (get id m.jobs)) [
  | inl gone ↦ rw (gone, set_error) c
  | inr (job, here) ↦
      rw (here, set_error) (put-IsFiled m id job (record job { error = text }) c here refl refl)
]

reap-IsFiled :
    (now t : ℕ) (k : String) (m : MemoryJobManager)
    → IsFiled m
    → IsFiled (reap now t (get k m.jobs) k m)
unfolding reap
reap-IsFiled now t k m c = elim (Option-cases (get k m.jobs)) [
  | inl gone ↦ rw (gone, reap) c
  | inr (job, here) ↦ elim (Bool-cases (is_overdue now t job.status job.started_at)) [
    | inr young ↦ rw (here, reap) (rw young c)
    | inl old ↦
        rw (here, reap)
          (rw old (
            set_error-IsFiled k timeout_error (update_status now job.id job_failed m).0
              (update_status-IsFiled now job.id job_failed m c)))
  ]
]

-- The job at `j` once it was failed and its error was set.
get-failed :
    (now t : ℕ) (j k : String) (m : MemoryJobManager) (job : Job)
    → get j m.jobs ≡ some job
    → get k (set_error j timeout_error (update_status now j job_failed m).0).jobs ≡ (
        if j == k
        then some
            (record job { status = job_failed; completed_at = some now; error = timeout_error })
        else get k m.jobs)
unfolding update_status set_error with_status
get-failed now t j k m job here =
    rw (here, update_status)
      (rw (get-put_self j (with_status now job_failed job) m.jobs, set_error)
        (get-put j k _ (put j (with_status now job_failed job) m.jobs)
          ∙ rw (get-put j k (with_status now job_failed job) m.jobs) (ground arith)))

get-reap :
    (now t : ℕ) (j k : String) (m : MemoryJobManager)
    → IsFiled m
    → get k (reap now t (get j m.jobs) j m).jobs
      ≡ (if j == k then reaped_at now t (get j m.jobs) else get k m.jobs)
unfolding reap
get-reap now t j k m c = elim (Option-cases (get j m.jobs)) [
  | inl gone ↦ rw (gone, reap) (ground (arith, eq_iff j k, gone))
  | inr (job, here) ↦ elim (Bool-cases (is_overdue now t job.status job.started_at)) [
    | inr young ↦ rw (here, reap) (rw young (ground (arith, eq_iff j k, here, late job ∙ young)))
    | inl old ↦
        rw (here, reap)
          (rw old (
            rw (late job ∙ old) (
              ap
                (λ (i : String).
                  get k (set_error j timeout_error (update_status now i job_failed m).0).jobs)
                (c.keyed j job here)
              ∙ get-failed now t j k m job here)))
  ]
]
  where
    late :
        (job : Job)
        → runs_late now t job.status job.started_at ≡ is_overdue now t job.status job.started_at
    late job = is_overdue-runs_late now t job.status job.started_at

get-reap_all :
    (now t : ℕ) (ks : List String) (k : String) (m : MemoryJobManager)
    → IsFiled m
    → get k (reap_all now t ks m).jobs
      ≡ (if any (λ j. j == k) ks then reaped_at now t (get k m.jobs) else get k m.jobs)
unfolding reap_all
get-reap_all now t [] k m c = refl
get-reap_all now t (j ∷ ks) k m c = elim (Bool-cases (j == k)) [
  | inr differs ↦
      get-reap_all now t ks k (reap now t (get j m.jobs) j m) (reap-IsFiled now t j m c)
      ∙ rw (get-reap now t j k m c, differs) refl
  | inl same ↦
      let e : j ≡ k = (eq_iff j k).0 same in
      get-reap_all now t ks k (reap now t (get j m.jobs) j m) (reap-IsFiled now t j m c)
      ∙ rw (get-reap now t j k m c, same)
          (rw e (ground (arith, reaped_at_twice now t (get k m.jobs))))
]

absent : (k : String) (d : Dict Job) → any (λ j. j == k) (keys d) ≡ false → get k d ≡ none
unfolding keys get
absent k [] h = refl
absent k ((j, job) ∷ d) h = ground (arith, absent k d)

-- With the jobs in order, Cleanup fails exactly the jobs in progress that started longer ago than the
-- timeout, with the time and the text of a timeout, and changes no other job.
pub get-cleanup :
    (now t : ℕ) (k : String) (m : MemoryJobManager)
    → IsFiled m
    → get k (cleanup now t m).jobs ≡ reaped_at now t (get k m.jobs)
unfolding cleanup
get-cleanup now t k m c = elim (Bool-cases (any (λ j. j == k) (keys m.jobs))) [
  | inl listed ↦ get-reap_all now t (keys m.jobs) k m c ∙ rw listed refl
  | inr unlisted ↦
      get-reap_all now t (keys m.jobs) k m c ∙ rw (unlisted, absent k m.jobs unlisted) refl
]
