-- ===== src/Worker/Places.antt =====
-- The goroutines of internal/worker/worker.go by their places in the list: what a step of one
-- of them and of the loop does to the list.
use ironclaw_go.Shared.{
  ℕ, zero, suc, ◌≡◌, refl, sym, ap, ◌∙◌, ◌⊎◌, inl, inr, some, List, [], ◌∷◌, ◌++◌, All, get,
  get_elem?, modify, Bool-cases, ltb, arith,
}
use ironclaw_go.Db.{Job}
use ironclaw_go.Db.Memory.{MemoryDb}
use ironclaw_go.Db.Memory.Keys.{IsKeyed, list_jobs_lem}
use ironclaw_go.Worker.{
  Phase, begun, Task, World, Poller, idle, listing, holding, returned, is_pending, working,
  poll_step, stop_step,
}

abbrev pub moved : Phase → Task → Task
moved phase old = record old { phase = phase }

-- A goroutine after a step of the one at place `k` is the one that moved, or as it was before.
pub get_elem?-moved :
    (k i : ℕ) (phase : Phase) (tasks : List Task) (u : Task)
    → get_elem? (modify k (moved phase) tasks) i ≡ some u
    → (v : Task) × (get_elem? tasks i ≡ some v) × (u.job ≡ v.job) × ((u.phase ≡ phase) ⊎ (u ≡ v))
unfolding get_elem? modify
get_elem?-moved k i phase [] u e = absurd (ground arith)
get_elem?-moved zero zero phase (x ∷ xs) u e =
    let p : moved phase x ≡ u = cc e in rw (← p) (x, refl, refl, inl refl)
get_elem?-moved zero (suc i) phase (x ∷ xs) u e = (u, e, refl, inr refl)
get_elem?-moved (suc k) zero phase (x ∷ xs) u e = (u, e, refl, inr refl)
get_elem?-moved (suc k) (suc i) phase (x ∷ xs) u e = get_elem?-moved k i phase xs u e

module _ {ℓ} {A : Type ℓ} where
  pub get_elem?-concat_left :
      (xs ys : List A) (i : ℕ) (x : A) → get_elem? xs i ≡ some x → get_elem? (xs ++ ys) i ≡ some x
  unfolding get_elem?
  get_elem?-concat_left [] ys i x e = absurd (ground arith)
  get_elem?-concat_left (y ∷ xs) ys zero x e = e
  get_elem?-concat_left (y ∷ xs) ys (suc i) x e = get_elem?-concat_left xs ys i x e

  pub get_elem?-concat_cases :
      (xs : List A) (y : A) (i : ℕ) (x : A)
      → get_elem? (xs ++ y ∷ []) i ≡ some x
      → (get_elem? xs i ≡ some x) ⊎ (x ≡ y)
  unfolding get_elem?
  get_elem?-concat_cases [] y zero x e = inr (cc e)
  get_elem?-concat_cases [] y (suc i) x e = absurd (ground arith)
  get_elem?-concat_cases (z ∷ xs) y zero x e = inl e
  get_elem?-concat_cases (z ∷ xs) y (suc i) x e = get_elem?-concat_cases xs y i x e

  pub All-weaken {κ κ'} :
      (P : A → Type κ) (Q : A → Type κ') (xs : List A) → ((x : A) → P x → Q x) → All P xs → All Q xs
  All-weaken P Q [] f h = tt
  All-weaken P Q (x ∷ xs) f (h, hs) = (f x h, All-weaken P Q xs f hs)

abbrev pub fresh : Job → Task
fresh job = record { job = job; phase = begun }

-- The job is in the table.
abbrev pub HasRow : MemoryDb → Job → Type 0
HasRow m j = (x : Job) × (get j.id m.jobs ≡ some x)

-- The jobs that the loop still looks at are in the table.
abbrev pub Listed : MemoryDb → Poller → Type 0
Listed m idle = Unit
Listed m (listing jobs) = All (HasRow m) jobs
Listed m (holding job jobs) = HasRow m job × All (HasRow m) jobs
Listed m returned = Unit

pub Listed-weaken :
    (m m' : MemoryDb) (p : Poller)
    → ((j : Job) → HasRow m j → HasRow m' j)
    → Listed m p
    → Listed m' p
Listed-weaken m m' idle f h = tt
Listed-weaken m m' (listing jobs) f h = All-weaken (HasRow m) (HasRow m') jobs f h
Listed-weaken m m' (holding job jobs) f (h, hs) =
    (f job h, All-weaken (HasRow m) (HasRow m') jobs f hs)
Listed-weaken m m' returned f h = tt

-- The goroutines of `w'` are those of `w` with, perhaps, a new one for a job of the table.
abbrev pub Extends : World → World → Type 0
Extends w w' =
    (w'.db ≡ w.db)
    × ((w'.tasks ≡ w.tasks)
        ⊎ ((job : Job) × HasRow w.db job × (w'.tasks ≡ w.tasks ++ fresh job ∷ [])))

-- The goroutines that were there keep their places, and any other was started for a job of the table.
pub Extends-kept :
    (w w' : World) (i : ℕ) (u : Task)
    → Extends w w'
    → get_elem? w.tasks i ≡ some u
    → get_elem? w'.tasks i ≡ some u
Extends-kept w w' i u (_, inl kept) here = ap (λ ts. get_elem? ts i) kept ∙ here
Extends-kept w w' i u (_, inr (job, _, grown)) here =
    ap (λ ts. get_elem? ts i) grown ∙ get_elem?-concat_left w.tasks (fresh job ∷ []) i u here

pub Extends-cases :
    (w w' : World) (i : ℕ) (u : Task)
    → Extends w w'
    → get_elem? w'.tasks i ≡ some u
    → (get_elem? w.tasks i ≡ some u) ⊎ ((job : Job) × HasRow w.db job × (u ≡ fresh job))
Extends-cases w w' i u (_, inl kept) e = inl (ap (λ ts. get_elem? ts i) (sym kept) ∙ e)
Extends-cases w w' i u (_, inr (job, row, grown)) e =
    elim (get_elem?-concat_cases w.tasks (fresh job) i u
      (ap (λ ts. get_elem? ts i) (sym grown) ∙ e)) [
        | inl old ↦ inl old
        | inr new ↦ inr (job, row, new)
      ]

-- A step of the loop leaves the table, starts one goroutine at most, and keeps to listed jobs.
pub poll_step_lem :
    (p : Poller) (w : World)
    → IsKeyed w.db.jobs
    → Listed w.db p
    → p ≡ w.poller
    → Extends w (poll_step p w) × Listed w.db (poll_step p w).poller
unfolding poll_step
poll_step_lem idle w keyed h same =
    let (js, listed, _, _, here) = list_jobs_lem "" 100 w.db (omega arith) (omega arith) keyed in
    rw (listed, poll_step)
      (
        (refl, inl refl),
        All-weaken (λ j. get j.id w.db.jobs ≡ some j) (HasRow w.db) js (λ j e. (j, e)) here,
      )
poll_step_lem (listing []) w keyed h same = ((refl, inl refl), tt)
poll_step_lem (listing (job ∷ jobs)) w keyed (h, hs) same =
    elim (Bool-cases (is_pending job (get job.id w.db.jobs))) [
      | inl waits ↦ rw (waits, poll_step) ((refl, inl refl), (h, hs))
      | inr passed ↦ rw (passed, poll_step) ((refl, inl refl), hs)
    ]
poll_step_lem (holding job jobs) w keyed (h, hs) same =
    elim (Bool-cases (ltb (working w.tasks) w.max_workers)) [
      | inl room ↦ rw (room, poll_step) ((refl, inr (job, h, refl)), hs)
      | inr full ↦ rw (full, poll_step, ← same) ((refl, inl refl), (h, hs))
    ]
poll_step_lem returned w keyed h same = rw (← same) ((refl, inl refl), tt)

pub stop_step_lem :
    (p : Poller) (w : World)
    → Listed w.db p
    → p ≡ w.poller
    → Extends w (stop_step p w) × Listed w.db (stop_step p w).poller
unfolding stop_step
stop_step_lem idle w h same = ((refl, inl refl), tt)
stop_step_lem (listing jobs) w h same = rw (← same) ((refl, inl refl), h)
stop_step_lem (holding job jobs) w h same = ((refl, inl refl), tt)
stop_step_lem returned w h same = rw (← same) ((refl, inl refl), tt)
