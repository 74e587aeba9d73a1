-- ===== src/Db/Memory/Keys.antt =====
-- The table of jobs of internal/db/memory.go: each job stands under its own identifier, once.
use ironclaw_go.Shared.{
  ℕ, zero, suc, ◌^◌, ◌<◌, All-keep_if, All-take, String, Bool, false, ◌≡◌, ◌≢◌, refl, ◌∙◌, none,
  some, List, [], ◌∷◌, Dict, get, put, remove, values, Bytes, keep_if, take, All, ◌==◌, eq_iff,
  eq_refl, arith, Bool-cases, inl, inr, Option-cases, get-put, get-remove,
}
use ironclaw_go.Db.{Job}
use ironclaw_go.Db.Paging.{page_lem}
use ironclaw_go.Db.Memory.{MemoryDb, save_job, update_job_status, delete_job, list_jobs, of_user}

-- Each job stands under its own identifier, once.
abbrev pub IsKeyed : Dict Job → Type 0
IsKeyed [] = Unit
IsKeyed ((k, j) ∷ m) = (j.id ≡ k) × (get k m ≡ none) × IsKeyed m

-- No two jobs of the list have one identifier.
abbrev pub NoTwice : List Job → Type 0
NoTwice [] = Unit
NoTwice (j ∷ js) = All (λ i. i.id ≢ j.id) js × NoTwice js

put-IsKeyed : (k : String) (j : Job) (m : Dict Job) → j.id ≡ k → IsKeyed m → IsKeyed (put k j m)
unfolding put get
put-IsKeyed k j [] e h = (e, refl, tt)
put-IsKeyed k j ((i, w) ∷ m) e (own, once, rest) = elim (Bool-cases (i == k)) [
  | inl same ↦ rw same (e, rw (← (eq_iff i k).0 same) once, rest)
  | inr other ↦ rw other (
    own,
    get-put k i j m
        ∙ (let ne : (k == i) ≡ false = ground (arith, eq_iff i k, eq_iff k i) in rw ne once),
    put-IsKeyed k j m e rest,
  )
]

remove-IsKeyed : (k : String) (m : Dict Job) → IsKeyed m → IsKeyed (remove k m)
unfolding remove
remove-IsKeyed k [] h = tt
remove-IsKeyed k ((i, w) ∷ m) (own, once, rest) = elim (Bool-cases (i == k)) [
  | inl same ↦ rw same (remove-IsKeyed k m rest)
  | inr other ↦ rw other (own, get-remove k i m ∙ rw once (ground arith), remove-IsKeyed k m rest)
]

get-id : (k : String) (j : Job) (m : Dict Job) → IsKeyed m → get k m ≡ some j → j.id ≡ k
unfolding get
get-id k j [] h e = absurd (ground arith)
get-id k j ((i, w) ∷ m) (own, once, rest) e = elim (Bool-cases (i == k)) [
  | inl same ↦ ground (arith, eq_iff i k, own)
  | inr other ↦ get-id k j m rest (ground arith)
]

pub save_job-IsKeyed :
    (now : ℕ) (j : Job) (m : MemoryDb) → IsKeyed m.jobs → IsKeyed (save_job now j m).jobs
unfolding save_job
save_job-IsKeyed now j m h = put-IsKeyed j.id _ m.jobs refl h

pub delete_job-IsKeyed :
    (id : String) (m : MemoryDb) → IsKeyed m.jobs → IsKeyed (delete_job id m).jobs
unfolding delete_job
delete_job-IsKeyed id m h = remove-IsKeyed id m.jobs h

pub update_job_status-IsKeyed :
    (now : ℕ) (id status : String) (output : Bytes) (error : String) (m : MemoryDb)
    → IsKeyed m.jobs
    → IsKeyed (update_job_status now id status output error m).0.jobs
unfolding update_job_status
update_job_status-IsKeyed now id status output error m h = elim (Option-cases (get id m.jobs)) [
  | inl missing ↦ rw (missing, update_job_status) h
  | inr (j, found) ↦
      rw (found, update_job_status) (put-IsKeyed id _ m.jobs (get-id id j m.jobs h found) h)
]

All-other :
    (k : String) (m : Dict Job) → IsKeyed m → get k m ≡ none → All (λ i. i.id ≢ k) (values m)
unfolding values get
All-other k [] h e = tt
All-other k ((i, w) ∷ m) (own, once, rest) e = elim (Bool-cases (i == k)) [
  | inl same ↦ absurd (ground arith)
  | inr other ↦ (
    λ (p : w.id ≡ k). absurd (ground (arith, eq_iff i k, own)),
    All-other k m rest (ground arith),
  )
]

pub values-NoTwice : (m : Dict Job) → IsKeyed m → NoTwice (values m)
unfolding values
values-NoTwice [] h = tt
values-NoTwice ((k, j) ∷ m) (own, once, rest) =
    (rw own (All-other k m rest once), values-NoTwice m rest)

-- Every value is what its identifier finds.
found-on :
    (k : String) (w : Job) (m : Dict Job) (js : List Job)
    → All (λ i. i.id ≢ k) js
    → All (λ i. get i.id m ≡ some i) js
    → All (λ i. get i.id ((k, w) ∷ m) ≡ some i) js
unfolding get
found-on k w m [] ne h = tt
found-on k w m (i ∷ js) (ne, nes) (h, hs) =
    (ground (arith, eq_iff k i.id), found-on k w m js nes hs)

pub values-found : (m : Dict Job) → IsKeyed m → All (λ i. get i.id m ≡ some i) (values m)
unfolding values get
values-found [] h = tt
values-found ((k, j) ∷ m) (own, once, rest) =
    (head, found-on k j m (values m) (All-other k m rest once) (values-found m rest))
  where
    head : get j.id ((k, j) ∷ m) ≡ some j
    head = ground (arith, own, eq_refl k)

pub NoTwice-keep_if : (p : Job → Bool) (js : List Job) → NoTwice js → NoTwice (keep_if p js)
NoTwice-keep_if p [] h = tt
NoTwice-keep_if p (j ∷ js) (h, hs) = elim (Bool-cases (p j)) [
  | inl kept ↦ rw kept (All-keep_if (λ i. i.id ≢ j.id) p js h, NoTwice-keep_if p js hs)
  | inr left ↦ rw left (NoTwice-keep_if p js hs)
]

NoTwice-take : (n : ℕ) (js : List Job) → NoTwice js → NoTwice (take n js)
NoTwice-take zero js h = tt
NoTwice-take (suc n) [] h = tt
NoTwice-take (suc n) (j ∷ js) (h, hs) = (All-take (λ i. i.id ≢ j.id) n js h, NoTwice-take n js hs)

-- The first page of jobs: each stands in the table under its identifier, and none comes twice.
pub list_jobs_lem :
    (user : String) (limit : ℕ) (m : MemoryDb)
    → 0 < limit
    → limit < 2 ^ 63
    → IsKeyed m.jobs
    → (js : List Job) × (list_jobs user limit 0 m ≡ some js)
      × (js ≡ take limit (keep_if (of_user user) (values m.jobs)))
      × NoTwice js
      × All (λ j. get j.id m.jobs ≡ some j) js
unfolding list_jobs
list_jobs_lem user limit m pos small h = (
  take limit (keep_if (of_user user) (values m.jobs)),
  page_lem limit 0 (keep_if (of_user user) (values m.jobs)) pos (omega arith),
  refl,
  NoTwice-take limit _ (NoTwice-keep_if (of_user user) _ (values-NoTwice m.jobs h)),
  All-take (λ j. get j.id m.jobs ≡ some j) limit _
      (All-keep_if (λ j. get j.id m.jobs ≡ some j) (of_user user) _ (values-found m.jobs h)),
)
