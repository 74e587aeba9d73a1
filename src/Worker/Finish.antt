-- ===== src/Worker/Finish.antt =====
-- The jobs that the polls of internal/worker/worker.go hand out come to their end.
use ironclaw_go.Shared.{
  ℕ, ◌+◌, ◌-◌, ◌≤◌, ◌<◌, Bool, true, false, ◌≡◌, ◌≢◌, refl, ap, ◌∙◌, ◌⊎◌, inl, inr, some, [], ◌∷◌,
  get, get_elem?, changed, get_elem?-modify, get_elem?-modify_ne, if◌then◌else◌, leb, ◌&&◌, arith,
  Option-cases, eq_or_ne,
}
use ironclaw_go.Agent.Loop.{Runtime}
use ironclaw_go.Db.{Job}
use ironclaw_go.Db.Memory.Keys.{IsKeyed}
use ironclaw_go.Worker.{
  Phase, ended, Task, Moment, World, Move, polls, stops, steps, submits, Schedule, Pool, start,
  task_step, step_at, poll_step, stop_step, move, run,
}
use ironclaw_go.Worker.Tasks.{Outcome, rank, task_step-rank}
use ironclaw_go.Worker.Places.{moved, Extends, Extends-kept, poll_step_lem, stop_step_lem}
use ironclaw_go.Worker.Invariant.{IsSound, Standing, AllNew, run-IsSound, move-IsSound}

abbrev same : ℕ → ℕ → Bool
same k i = leb k i && leb i k

-- Whether a move is a step of goroutine `i`.
abbrev turn : ℕ → Move → ℕ
turn i polls = 0
turn i stops = 0
turn i (steps k t) = if same k i then 1 else 0
turn i (submits now id user name input) = 0

-- How often goroutine `i` makes a step.
abbrev pub turns : ℕ → Schedule → ℕ
turns i [] = 0
turns i (m ∷ rest) = turn i m + turns i rest

-- Goroutine `i` runs `job`, with so many steps left at most.
abbrev Runs : ℕ → Job → ℕ → World → Type 0
Runs i job left w =
    (u : Task) × (get_elem? w.tasks i ≡ some u) × (u.job ≡ job) × (rank u.phase ≤ left)

step_at-Runs :
    (rt : Runtime) (t : Moment) (k i : ℕ) (job : Job) (left : ℕ) (w : World)
    → Runs i job left w
    → Runs i job (left - turn i (steps k t)) (step_at rt t k (get_elem? w.tasks k) w)
unfolding step_at
step_at-Runs rt t k i job left w (u, here, own, within) = elim (eq_or_ne k i) [
  | inl e ↦ rw e (
      let s : same i i ≡ true = ground arith in
      rw s (
        rw (here, step_at)
          (
            moved (phase u) u,
            get_elem?-modify i (moved (phase u)) w.tasks ∙ ap (changed (moved (phase u))) here,
            own,
            omega (arith, within, (task_step-rank rt t u.job u.phase w.db w.dispatcher).1),
          )))
  | inr ne ↦
      let s : same k i ≡ false = ground arith in
      rw s (elim (Option-cases (get_elem? w.tasks k)) [
        | inl missing ↦ rw (missing, step_at) (u, here, own, omega (arith, within))
        | inr (v, there) ↦
            rw (there, step_at)
              (
                u,
                get_elem?-modify_ne k i (moved (phase v)) w.tasks ne ∙ here,
                own,
                omega (arith, within),
              )
      ])
]
  where
    phase : Task → Phase
    phase v = (task_step rt t v.job v.phase w.db w.dispatcher).2

extended-Runs :
    (i : ℕ) (job : Job) (left : ℕ) (w w' : World)
    → Extends w w'
    → Runs i job left w
    → Runs i job (left - 0) w'
extended-Runs i job left w w' grows (u, here, own, within) =
    (u, Extends-kept w w' i u grows here, own, omega (arith, within))

move-Runs :
    (rt : Runtime) (m : Move) (i : ℕ) (job : Job) (left : ℕ) (w : World)
    → IsSound w
    → Runs i job left w
    → Runs i job (left - turn i m) (move rt m w)
unfolding move
move-Runs rt polls i job left w h r =
    extended-Runs i job left w (poll_step w.poller w)
      (poll_step_lem w.poller w h.keyed h.listed refl).0 r
move-Runs rt stops i job left w h r =
    extended-Runs i job left w (stop_step w.poller w) (stop_step_lem w.poller w h.listed refl).0 r
move-Runs rt (steps k t) i job left w h r = step_at-Runs rt t k i job left w r
move-Runs rt (submits now id user name input) i job left w h (u, here, own, within) =
    (u, here, own, omega (arith, within))

run-Runs :
    (rt : Runtime) (i : ℕ) (job : Job) (left : ℕ) (s : Schedule) (w : World)
    → AllNew rt s w
    → IsSound w
    → Runs i job left w
    → Runs i job (left - turns i s) (run rt s w)
unfolding run
run-Runs rt i job left [] w new h r = let e : left - 0 ≡ left = omega arith in rw e r
run-Runs rt i job left (m ∷ s) w (new, rest) h r =
    let e : left - (turn i m + turns i s) ≡ left - turn i m - turns i s = omega arith in
    rw e (
      run-Runs rt i job (left - turn i m) s (move rt m w) rest (move-IsSound rt m w new h)
        (move-Runs rt m i job left w h r))

rank-ended : (phase : Phase) → rank phase ≤ 0 → phase ≡ ended
rank-ended Phase.begun h = absurd (omega arith)
rank-ended Phase.running h = absurd (omega arith)
rank-ended (Phase.settled s o e) h = absurd (omega arith)
rank-ended Phase.ended h = refl

rank-bound : (phase : Phase) → rank phase ≤ 3
rank-bound Phase.begun = omega arith
rank-bound Phase.running = omega arith
rank-bound (Phase.settled s o e) = omega arith
rank-bound Phase.ended = omega arith

start-IsSound : (p : Pool) → IsKeyed p.db.jobs → IsSound (start p)
unfolding get_elem? start
start-IsSound p h = record {
  keyed = h;
  listed = tt;
  closes = λ i u e. absurd (ground arith);
  standing = λ i u e. absurd (ground arith);
}

few : (i : ℕ) (u : Task) (n : ℕ) (w : World) → 3 ≤ n → Runs i u.job (3 - n) w → Runs i u.job 0 w
few i u n w enough (v, here, own, within) = (v, here, own, omega (arith, within, enough))

-- What the invariant says once the goroutine has no step left.
finished :
    (i : ℕ) (u : Task) (w : World)
    → IsSound w
    → Runs i u.job 0 w
    → (get_elem? w.tasks i ≡ some (record u { phase = ended }))
      × ((x : Job) × (get u.job.id w.db.jobs ≡ some x)
          × (Outcome x.status x.output x.error
              ⊎ ((k : ℕ) × (v : Task) × (k ≢ i)
                  × (get_elem? w.tasks k ≡ some v)
                  × (v.job.id ≡ u.job.id)
                  × (v.phase ≢ ended))))
finished i u w h (v, here, own, within) =
    let over = rank-ended v.phase within in
    let place : get_elem? w.tasks i ≡ some (record u { phase = ended }) =
      here
      ∙ ap some (
          ap (λ (j : Job). record u { job = j; phase = v.phase }) own
          ∙ ap (λ (q : Phase). record u { phase = q }) over) in
    let held : v.job.id ≡ u.job.id = ap (λ (j : Job). j.id) own in
    let stands : Standing u.job.id w = rw (← held) (h.standing i v here) in
    let (x, found, state) = stands in
    (
      place,
      (
        x,
        found,
        elim state [
          | inl done ↦ inl done
          | inr (k, t, there, same_job, left) ↦
              inr (k, t, apart k t there left, there, same_job, busy t left)
        ],
      ),
    )
  where
    busy : (t : Task) → 0 < rank t.phase → t.phase ≢ ended
    busy t left e = let z : rank t.phase ≡ 0 = ap rank e in absurd (omega (arith, z, left))

    apart : (k : ℕ) (t : Task) → get_elem? w.tasks k ≡ some t → 0 < rank t.phase → k ≢ i
    apart k t there left e =
        let p : t ≡ v = cc (there, here, e) in
        let z : rank t.phase ≡ rank v.phase = ap (λ (a : Task). rank a.phase) p in
        absurd (omega (arith, z, left, within))

-- From the start of the pool, where each job of the table stands under its own identifier, once, and
-- each Submit draws an identifier that the table does not have, in every order of steps of the
-- loop, steps of goroutines, stops and calls of Submit: a goroutine that has been started has ended once it has made three
-- more steps, and its job then stands in the table as completed, with no error, or as failed, with
-- no output, unless another goroutine, to which a poll gave the same job, has not ended.
pub run-finishes :
    (rt : Runtime) (p : Pool) (s later : Schedule) (i : ℕ) (u : Task)
    → IsKeyed p.db.jobs
    → AllNew rt s (start p)
    → AllNew rt later (run rt s (start p))
    → get_elem? (run rt s (start p)).tasks i ≡ some u
    → 3 ≤ turns i later
    → let w = run rt later (run rt s (start p)) in
      (get_elem? w.tasks i ≡ some (record u { phase = ended }))
      × ((x : Job) × (get u.job.id w.db.jobs ≡ some x)
          × (Outcome x.status x.output x.error
              ⊎ ((k : ℕ) × (v : Task) × (k ≢ i)
                  × (get_elem? w.tasks k ≡ some v)
                  × (v.job.id ≡ u.job.id)
                  × (v.phase ≢ ended))))
run-finishes rt p s later i u h new new' here enough =
    let h1 = run-IsSound rt s (start p) new (start-IsSound p h) in
    let w1 = run rt s (start p) in
    finished i u (run rt later w1) (run-IsSound rt later w1 new' h1) (
      few i u (turns i later) (run rt later w1) enough
        (run-Runs rt i u.job 3 later w1 new' h1 (u, here, refl, rank-bound u.phase)))
