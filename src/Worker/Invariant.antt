-- ===== src/Worker/Invariant.antt =====
-- What holds of the pool of internal/worker/worker.go at any time, whatever its goroutines, its loop
-- and Submit do in which order.
use ironclaw_go.Shared.{
  ℕ, ◌<◌, String, ◌≡◌, ◌≢◌, refl, sym, ap, ◌∙◌, ◌⊎◌, inl, inr, none, some, [], ◌∷◌, get, get-put,
  get_elem?, modify, changed, get_elem?-modify, get_elem?-modify_ne, ◌==◌, eq_iff, arith,
  Option-cases, Bool-cases,
}
use ironclaw_go.Tools.Dispatch.{Dispatcher}
use ironclaw_go.Agent.Loop.{Runtime}
use ironclaw_go.Db.{Job}
use ironclaw_go.Db.Memory.{MemoryDb, save_job}
use ironclaw_go.Db.Memory.Keys.{IsKeyed, save_job-IsKeyed}
use ironclaw_go.Worker.{
  Phase, Task, Moment, World, Move, polls, stops, steps, submits, Schedule, task_step, step_at,
  poll_step, stop_step, submit, move, run,
}
use ironclaw_go.Worker.Tasks.{
  Outcome, Closes, rank, task_step-rank, task_step-own, task_step-other, task_step-IsKeyed,
}
use ironclaw_go.Worker.Places.{
  moved, get_elem?-moved, HasRow, Listed, Listed-weaken, Extends, Extends-kept, Extends-cases,
  poll_step_lem, stop_step_lem,
}

-- A goroutine that was given the job has steps left.
abbrev pub Busy : String → World → Type 0
Busy id w =
    (k : ℕ) × (v : Task) × (get_elem? w.tasks k ≡ some v) × (v.job.id ≡ id) × (0 < rank v.phase)

-- The job is in the table, and has come to its end unless a goroutine is busy with it.
abbrev pub Standing : String → World → Type 0
Standing id w =
    (x : Job) × (get id w.db.jobs ≡ some x) × (Outcome x.status x.output x.error ⊎ Busy id w)

pub record IsSound (w : World) : Type 0 where
  pub keyed : IsKeyed w.db.jobs
  pub listed : Listed w.db w.poller
  pub closes : (i : ℕ) (u : Task) → get_elem? w.tasks i ≡ some u → Closes u.phase
  pub standing : (i : ℕ) (u : Task) → get_elem? w.tasks i ≡ some u → Standing u.job.id w

-- Each Submit draws an identifier that the table does not have.
abbrev pub DrawsNew : Move → World → Type 0
DrawsNew polls w = Unit
DrawsNew stops w = Unit
DrawsNew (steps i t) w = Unit
DrawsNew (submits now id user name input) w = get id w.db.jobs ≡ none

abbrev pub AllNew : Runtime → Schedule → World → Type 0
AllNew rt [] w = Unit
AllNew rt (m ∷ rest) w = DrawsNew m w × AllNew rt rest (move rt m w)

module _ (rt : Runtime) (t : Moment) (w : World) (h : IsSound w) (k : ℕ) (u : Task)
    (here : get_elem? w.tasks k ≡ some u) where
  abbrev r : MemoryDb × Dispatcher × Phase
  r = task_step rt t u.job u.phase w.db w.dispatcher

  abbrev after : World
  after = record w { db = r.0; dispatcher = r.1; tasks = modify k (moved r.2) w.tasks }

  -- The goroutine itself after its step.
  here_after : get_elem? after.tasks k ≡ some (moved r.2 u)
  here_after = get_elem?-modify k (moved r.2) w.tasks ∙ ap (changed (moved r.2)) here

  -- Another goroutine is busy as before.
  after-Busy : (id : String) (b : Busy id w) → b.0 ≢ k → Busy id after
  after-Busy id (i, v, e, same, left) ne =
      (i, v, get_elem?-modify_ne k i (moved r.2) w.tasks (λ q. ne (sym q)) ∙ e, same, left)

  own-Standing : Standing u.job.id after
  own-Standing =
      let (x, found, state) = h.standing k u here in
      let (y, found', result) =
        task_step-own rt t u.job u.phase w.db w.dispatcher x found (h.closes k u here) in
      elim result [
        | inl done ↦ (y, found', inl done)
        | inr (inl left) ↦ (y, found', inr (k, moved r.2 u, here_after, refl, left))
        | inr (inr (over, same)) ↦ elim state [
          | inl done ↦ (y, found', inl (rw same done))
          | inr b ↦ (y, found', inr (after-Busy u.job.id b (apart over b)))
        ]
      ]
    where
      apart : rank u.phase ≡ 0 → (b : Busy u.job.id w) → b.0 ≢ k
      apart over (i, v, e, same, left) q =
          let p : v ≡ u = cc (e, here, q) in
          let z : rank v.phase ≡ rank u.phase = ap (λ (a : Task). rank a.phase) p in
          absurd (omega (arith, z, over, left))

  other-Standing : (id : String) → u.job.id ≢ id → Standing id w → Standing id after
  other-Standing id ne (x, found, state) = (
    x,
    task_step-other rt t u.job u.phase w.db w.dispatcher id ne ∙ found,
    elim state [ inl done ↦ inl done | inr b ↦ inr (after-Busy id b (apart b)) ],
  )
    where
      apart : (b : Busy id w) → b.0 ≢ k
      apart (i, v, e, same, left) q =
          let p : v ≡ u = cc (e, here, q) in ne (sym (ap (λ (a : Task). a.job.id) p) ∙ same)

  after-Standing : (id : String) → Standing id w → Standing id after
  after-Standing id s = elim (Bool-cases (u.job.id == id)) [
    | inl same ↦ rw (← (eq_iff u.job.id id).0 same) own-Standing
    | inr other ↦ other-Standing id (λ e. absurd (ground (arith, eq_iff u.job.id id))) s
  ]

  after-HasRow : (j : Job) → HasRow w.db j → HasRow r.0 j
  after-HasRow j (x, found) = elim (Bool-cases (u.job.id == j.id)) [
    | inl same ↦
        let (y, found', _) = own-Standing in
        (y, ap (λ id. get id r.0.jobs) (sym ((eq_iff u.job.id j.id).0 same)) ∙ found')
    | inr other ↦
        let ne : u.job.id ≢ j.id = λ e. absurd (ground (arith, eq_iff u.job.id j.id)) in
        (x, task_step-other rt t u.job u.phase w.db w.dispatcher j.id ne ∙ found)
  ]

  step-IsSound : IsSound after
  step-IsSound = record {
    keyed = task_step-IsKeyed rt t u.job u.phase w.db w.dispatcher h.keyed;
    listed = Listed-weaken w.db r.0 w.poller after-HasRow h.listed;
    closes = λ i v e.
        let (b, before, _, phase) = get_elem?-moved k i r.2 w.tasks v e in
        elim phase [
          | inl new ↦ rw new (task_step-rank rt t u.job u.phase w.db w.dispatcher).0
          | inr old ↦ rw old (h.closes i b before)
        ];
    standing = λ i v e.
        let (b, before, job, _) = get_elem?-moved k i r.2 w.tasks v e in
        rw job (after-Standing b.job.id (h.standing i b before));
  }

step_at-IsSound :
    (rt : Runtime) (t : Moment) (k : ℕ) (w : World)
    → IsSound w
    → IsSound (step_at rt t k (get_elem? w.tasks k) w)
unfolding step_at
step_at-IsSound rt t k w h = elim (Option-cases (get_elem? w.tasks k)) [
  | inl missing ↦ rw (missing, step_at) h
  | inr (u, here) ↦ rw (here, step_at) (step-IsSound rt t w h k u here)
]

extended-Standing : (id : String) (w w' : World) → Extends w w' → Standing id w → Standing id w'
extended-Standing id w w' grows (x, found, state) = (
  x,
  ap (λ (m : MemoryDb). get id m.jobs) (grows.0) ∙ found,
  elim state [
    | inl done ↦ inl done
    | inr (k, v, place, held, left) ↦ inr (k, v, Extends-kept w w' k v grows place, held, left)
  ],
)

-- A new goroutine is busy with a job of the table.
extended-IsSound : (w w' : World) → IsSound w → Extends w w' → Listed w.db w'.poller → IsSound w'
extended-IsSound w w' h grows listed = record {
  keyed = rw grows.0 h.keyed;
  listed = rw grows.0 listed;
  closes = λ i u e. elim (Extends-cases w w' i u grows e) [
    | inl old ↦ h.closes i u old
    | inr (_, _, new) ↦ rw new tt
  ];
  standing = λ i u e. elim (Extends-cases w w' i u grows e) [
    | inl old ↦ extended-Standing u.job.id w w' grows (h.standing i u old)
    | inr (job, (x, found), new) ↦
        let left : 0 < rank u.phase = rw new (omega arith) in
        let row : get u.job.id w'.db.jobs ≡ some x =
          ap (λ (m : MemoryDb). get u.job.id m.jobs) grows.0
          ∙ ap (λ (a : Task). get a.job.id w.db.jobs) new
          ∙ found in
        (x, row, inr (i, u, e, refl, left))
  ];
}

submit-IsSound :
    (now : ℕ) (id user name input : String) (w : World)
    → get id w.db.jobs ≡ none
    → IsSound w
    → IsSound (record w { db = (submit now id user name input w.db).0 })
unfolding submit save_job
submit-IsSound now id user name input w new h = record {
  keyed = save_job-IsKeyed now (submit now id user name input w.db).1 w.db h.keyed;
  listed = Listed-weaken w.db (submit now id user name input w.db).0 w.poller kept h.listed;
  closes = h.closes;
  standing = λ i u e.
      let (x, found, state) = h.standing i u e in
      let other : id ≢ u.job.id = λ same. absurd (cc (new, found, same)) in
      (
        x,
        get-put id u.job.id _ w.db.jobs ∙ ground (arith, eq_iff id u.job.id, other, found),
        state,
      );
}
  where
    kept : (j : Job) → HasRow w.db j → HasRow (submit now id user name input w.db).0 j
    kept j (x, found) =
        let other : id ≢ j.id = λ same. absurd (cc (new, found, same)) in
        (x, get-put id j.id _ w.db.jobs ∙ ground (arith, eq_iff id j.id, other, found))

pub move-IsSound :
    (rt : Runtime) (m : Move) (w : World) → DrawsNew m w → IsSound w → IsSound (move rt m w)
unfolding move
move-IsSound rt polls w new h =
    let (grown, listed) = poll_step_lem w.poller w h.keyed h.listed refl in
    extended-IsSound w (poll_step w.poller w) h grown listed
move-IsSound rt stops w new h =
    let (grown, listed) = stop_step_lem w.poller w h.listed refl in
    extended-IsSound w (stop_step w.poller w) h grown listed
move-IsSound rt (steps i t) w new h = step_at-IsSound rt t i w h
move-IsSound rt (submits now id user name input) w new h =
    submit-IsSound now id user name input w new h

pub run-IsSound :
    (rt : Runtime) (s : Schedule) (w : World) → AllNew rt s w → IsSound w → IsSound (run rt s w)
unfolding run
run-IsSound rt [] w new h = h
run-IsSound rt (m ∷ s) w (new, rest) h =
    run-IsSound rt s (move rt m w) rest (move-IsSound rt m w new h)
