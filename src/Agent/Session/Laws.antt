-- ===== src/Agent/Session/Laws.antt =====
-- What the methods of agent/session.go promise each user.
use ironclaw_go.Shared.{
  none, All, ℕ, ◌-◌, ◌≤◌, String, true, false, ◌≡◌, refl, sym, ap, ◌∙◌, ◌≢◌, ◌⊎◌, inl, inr, some,
  List, [], ◌∷◌, ◌++◌, allocate, get, put, get-put, get-put_self, length, drop, length-drop,
  get_elem?, modify, changed, get_elem?-modify, get_elem?-modify_ne, ◌==◌, arith, Option-cases,
  Bool-cases, eq_iff, subst, if◌then◌else◌,
}
use ironclaw_go.Agent.Session.{
  find_thread, has_id, Thread, Turn, SessionManager, PendingExecution, refs_at,
  get_or_create_thread, get_thread, completed, with_turn, add_turn, turns_at, get_turns,
  switch_thread, last_turns, compact_thread, save_pending_execution, get_pending_execution,
  clear_pending_execution, unexpired,
}
use ironclaw_go.Agent.Session.Invariant.{
  Owned, Has, Has-All, IsOwned, active-Owned, find_thread-some, add_turn-IsOwned,
  compact_thread-IsOwned, switch_thread-IsOwned, get_or_create_thread-IsOwned,
}

-- The methods that change threads.
pub data Call : Type 0 where
  creates : ℕ → String → String → String → Call
  adds : ℕ → String → String → Turn → Call
  switches : String → String → Call
  compacts : String → ℕ → Call
  saves : PendingExecution → Call
  clears : String → String → Call

unfoldable pub step : Call → SessionManager → SessionManager
step (creates now id user channel) sm = (get_or_create_thread now id user channel sm).0
step (adds now uuid user turn) sm = add_turn now uuid user turn sm
step (switches user id) sm = (switch_thread user id sm).0
step (compacts user n) sm = compact_thread user n sm
step (saves pe) sm = save_pending_execution pe sm
step (clears user thread) sm = clear_pending_execution user thread sm

unfoldable pub run : List Call → SessionManager → SessionManager
run [] sm = sm
run (c ∷ cs) sm = run cs (step c sm)

step-IsOwned : (c : Call) (sm : SessionManager) → IsOwned sm → IsOwned (step c sm)
unfolding step save_pending_execution clear_pending_execution
step-IsOwned (creates now id user channel) sm c =
    get_or_create_thread-IsOwned now id user channel sm c
step-IsOwned (adds now uuid user turn) sm c = add_turn-IsOwned now uuid user turn sm c
step-IsOwned (switches user id) sm c = switch_thread-IsOwned user id sm c
step-IsOwned (compacts user n) sm c = compact_thread-IsOwned user n sm c
step-IsOwned (saves pe) sm c = record { listed = c.listed; active_listed = c.active_listed }
step-IsOwned (clears user thread) sm c = record {
  listed = c.listed;
  active_listed = c.active_listed;
}

-- From managed sessions, any history of calls leaves the threads in order: every pointer in a user's
-- history points to a thread of that user, and a user's active thread is in the user's history.
pub run-IsOwned : (cs : List Call) (sm : SessionManager) → IsOwned sm → IsOwned (run cs sm)
unfolding run
run-IsOwned [] sm c = c
run-IsOwned (x ∷ cs) sm c = run-IsOwned cs (step x sm) (step-IsOwned x sm c)

-- The turns of a user that a write through the pointer of another user leaves as they were.
get_turns-modify_ne :
    (sm : SessionManager) (c : IsOwned sm) (user other : String) (r : ℕ) (f : Thread → Thread)
    → get user sm.active ≡ some r
    → user ≢ other
    → get_turns other (record sm { heap = modify r f sm.heap }) ≡ get_turns other sm
unfolding get_turns
get_turns-modify_ne sm c user other r f at ne = elim (Option-cases (get other sm.active)) [
  | inl idle ↦ rw (idle, get_turns) refl
  | inr (q, here) ↦
      rw (here, get_turns) (ap turns_at (get_elem?-modify_ne r q f sm.heap (apart q here)))
]
  where
    apart : (q : ℕ) → get other sm.active ≡ some q → r ≢ q
    apart q here e =
        let (t, at_r, own) = active-Owned sm c user r at in
        let (u, at_q, owned) = active-Owned sm c other q here in
        let moved = subst (λ (i : ℕ). get_elem? sm.heap i ≡ some t) e at_r in
        ne (cc (moved, at_q, own, owned))

get_turns-modify :
    (sm : SessionManager) (user : String) (r : ℕ) (f : Thread → Thread)
    → get user sm.active ≡ some r
    → get_turns user (record sm { heap = modify r f sm.heap })
      ≡ turns_at (changed f (get_elem? sm.heap r))
unfolding get_turns
get_turns-modify sm user r f at = rw (at, get_turns) (ap turns_at (get_elem?-modify r f sm.heap))

get_turns-active :
    (sm : SessionManager) (user : String) (r : ℕ)
    → get user sm.active ≡ some r
    → get_turns user sm ≡ turns_at (get_elem? sm.heap r)
unfolding get_turns
get_turns-active sm user r at = rw (at, get_turns) refl

get_turns-written :
    (sm : SessionManager) (c : IsOwned sm) (user other : String) (r : ℕ) (f : Thread → Thread)
    (ts : List Turn)
    → get user sm.active ≡ some r
    → get_turns user (record sm { heap = modify r f sm.heap }) ≡ ts
    → get_turns other (record sm { heap = modify r f sm.heap })
      ≡ (if user == other then ts else get_turns other sm)
get_turns-written sm c user other r f ts at own = elim (Bool-cases (user == other)) [
  | inl same ↦ let e : user ≡ other = (eq_iff user other).0 same in rw same (rw⁻¹ e own)
  | inr differs ↦
      rw differs
        (get_turns-modify_ne sm c user other r f at (λ e. ground (arith, eq_iff user other)))
]

-- With the threads in order, a turn that is added for a user with an active thread comes last among
-- the turns of that user, with its missing ID and time filled in, and changes the turns of no other
-- user.
pub get_turns-add_turn :
    (now : ℕ) (uuid user other : String) (turn : Turn) (sm : SessionManager) (r : ℕ)
    → IsOwned sm
    → get user sm.active ≡ some r
    → get_turns other (add_turn now uuid user turn sm) ≡ (
        if user == other
        then get_turns user sm ++ completed now uuid turn ∷ []
        else get_turns other sm)
unfolding add_turn
get_turns-add_turn now uuid user other turn sm r c at =
    let (t, here, own) = active-Owned sm c user r at in
    let f = with_turn now (completed now uuid turn) in
    rw (at, add_turn)
      (get_turns-written sm c user other r f (get_turns user sm ++ completed now uuid turn ∷ []) at
        (get_turns-modify sm user r f at
          ∙ rw here (
              sym (
                ap (λ ts. ts ++ completed now uuid turn ∷ [])
                  (get_turns-active sm user r at ∙ rw here refl)))))

turns-last_turns : (n : ℕ) (t : Thread) → (last_turns n t).turns ≡ drop (length t.turns - n) t.turns
turns-last_turns n t = ground (arith, few)
  where
    none_left : length t.turns ≤ n → length t.turns - n ≡ 0
    none_left h = omega arith

    few : length t.turns ≤ n → drop (length t.turns - n) t.turns ≡ t.turns
    few h = rw (none_left h) refl

-- With the threads in order, compacting a user's thread leaves the last turns up to the limit, never
-- more than the limit, and changes the turns of no other user.
pub get_turns-compact_thread :
    (user other : String) (n : ℕ) (sm : SessionManager) (r : ℕ)
    → IsOwned sm
    → get user sm.active ≡ some r
    → (get_turns other (compact_thread user n sm) ≡ (
        if user == other
        then drop (length (get_turns user sm) - n) (get_turns user sm)
        else get_turns other sm))
      × (length (get_turns user (compact_thread user n sm)) ≤ n)
unfolding compact_thread
get_turns-compact_thread user other n sm r c at = (
  rw (at, compact_thread)
      (get_turns-written sm c user other r (last_turns n)
        (drop (length (get_turns user sm) - n) (get_turns user sm)) at kept),
  rw (at, compact_thread)
      (rw kept (omega (arith, length-drop (length (get_turns user sm) - n) (get_turns user sm)))),
)
  where
    kept :
        get_turns user (record sm { heap = modify r (last_turns n) sm.heap })
        ≡ drop (length (get_turns user sm) - n) (get_turns user sm)
    kept =
        let (t, here, own) = active-Owned sm c user r at in
        let turns = get_turns-active sm user r at ∙ rw here refl in
        get_turns-modify sm user r (last_turns n) at
        ∙ rw here
            (turns-last_turns n t ∙ sym (ap (λ (ts : List Turn). drop (length ts - n) ts) turns))

-- The pointer, if any, is to no thread with the ID.
abbrev pub OtherId : String → List Thread → ℕ → Type 0
OtherId id heap r = (t : Thread) → get_elem? heap r ≡ some t → t.id ≢ id

-- Where `find_thread` finds nothing, no pointer of the list is to a thread with the ID.
find_thread-none :
    (id : String) (refs : List ℕ) (heap : List Thread)
    → find_thread id refs heap ≡ none
    → All (OtherId id heap) refs
unfolding find_thread has_id
find_thread-none id [] heap = λ h. tt
find_thread-none id (q ∷ refs) heap = elim (Option-cases (get_elem? heap q)) [
  | inl gone ↦
      rw (gone, has_id) (λ h. (λ t here. absurd (cc here), find_thread-none id refs heap h))
  | inr (t, here) ↦
      rw (here, has_id)
        (elim (Bool-cases (t.id == id)) [
          | inl same ↦ rw same (λ h. absurd (ground arith))
          | inr differs ↦ rw differs (λ h. (
            λ u there e.
                let named : t.id ≡ id = cc (there, e) in absurd (ground (arith, eq_iff t.id id)),
            find_thread-none id refs heap h,
          ))
        ])
]

-- With the threads in order, switching to an ID either changes nothing and answers false, where no
-- thread of the user's history has that ID; or it makes a thread of the user's history that has the ID
-- and belongs to the user the active one, changes nothing else, and answers true: the turns of that
-- thread become the turns of the user.
pub switch_thread-own :
    (user id : String) (sm : SessionManager)
    → IsOwned sm
    → ((switch_thread user id sm ≡ (sm, false))
        × All (OtherId id sm.heap) (refs_at (get user sm.history)))
      ⊎ ((r : ℕ) × (t : Thread) × Has r (refs_at (get user sm.history))
          × (get_elem? sm.heap r ≡ some t)
          × (t.user_id ≡ user)
          × (t.id ≡ id)
          × (switch_thread user id sm ≡ (record sm { active = put user r sm.active }, true))
          × (get_turns user (switch_thread user id sm).0 ≡ t.turns))
unfolding switch_thread get_thread
switch_thread-own user id sm c = elim (Option-cases (get_thread user id sm)) [
  | inl missing ↦ inl (
    rw (missing, switch_thread) refl,
    find_thread-none id (refs_at (get user sm.history)) sm.heap missing,
  )
  | inr (r, found) ↦
      let (at, (u, there, named)) =
        find_thread-some id (refs_at (get user sm.history)) sm.heap r found in
      let (t, here, own) =
        Has-All (Owned user sm.heap) (refs_at (get user sm.history)) r (c.listed user) at in
      inr (
        r,
        t,
        at,
        here,
        own,
        cc (here, there, named),
        rw (found, switch_thread) refl,
        rw (found, switch_thread)
            (get_turns-active (record sm { active = put user r sm.active }) user r
                (get-put_self user r sm.active)
              ∙ rw here refl),
      )
]

get_or_create_thread-active :
    (now : ℕ) (id user channel : String) (sm : SessionManager) (r : ℕ)
    → get user sm.active ≡ some r
    → get_or_create_thread now id user channel sm ≡ (sm, r)
unfolding get_or_create_thread
get_or_create_thread-active now id user channel sm r at = rw (at, get_or_create_thread) refl

pub active-get_or_create_thread :
    (now : ℕ) (id user channel : String) (sm : SessionManager)
    → get user (get_or_create_thread now id user channel sm).0.active
      ≡ some (get_or_create_thread now id user channel sm).1
unfolding get_or_create_thread allocate
active-get_or_create_thread now id user channel sm = elim (Option-cases (get user sm.active)) [
  | inr (r, at) ↦ rw (at, get_or_create_thread) at
  | inl idle ↦ rw (idle, get_or_create_thread) (get-put_self user (length sm.heap) sm.active)
]

-- Once a user has an active thread, GetOrCreateThread never makes another: a second call, at any
-- time and for any channel, gives back the pointer of the first and changes nothing.
pub get_or_create_thread-twice :
    (now later : ℕ) (id id' user channel channel' : String) (sm : SessionManager)
    → get_or_create_thread later id' user channel' (get_or_create_thread now id user channel sm).0
      ≡ get_or_create_thread now id user channel sm
get_or_create_thread-twice now later id id' user channel channel' sm =
    get_or_create_thread-active later id' user channel'
      (get_or_create_thread now id user channel sm).0
      (get_or_create_thread now id user channel sm).1
      (active-get_or_create_thread now id user channel sm)

-- A saved execution is found under its thread by any user until it expires, and an execution of
-- another thread is found as before.
pub get_pending_execution-save :
    (now : ℕ) (user thread : String) (pe : PendingExecution) (sm : SessionManager)
    → get_pending_execution now user thread (save_pending_execution pe sm) ≡ (
        if pe.thread_id == thread
        then unexpired now (some pe)
        else get_pending_execution now user thread sm)
unfolding get_pending_execution save_pending_execution
get_pending_execution-save now user thread pe sm =
    rw (get-put pe.thread_id thread pe sm.pending_executions) (ground arith)
