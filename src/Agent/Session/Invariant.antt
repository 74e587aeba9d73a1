-- ===== src/Agent/Session/Invariant.antt =====
-- Whose threads the pointers of agent/session.go point to.
use ironclaw_go.Shared.{
  ℕ, String, ◌≡◌, refl, ◌∙◌, ◌⊎◌, inl, inr, some, List, [], ◌∷◌, ◌++◌, All, get, put, get-put,
  length, get_elem?, modify, allocate, get_elem?-modify, get_elem?-modify_ne,
  get_elem?-allocate_new, get_elem?-allocate_old, eq_iff, ◌==◌, arith, Option-cases, Bool-cases,
  eq_or_ne, subst,
}
use ironclaw_go.Agent.Session.{
  Thread, Turn, SessionManager, new_session_manager, refs_at, get_or_create_thread, has_id,
  find_thread, get_thread, completed, with_turn, add_turn, switch_thread, last_turns,
  compact_thread,
}

-- The pointer points to a thread of the user.
abbrev pub Owned : String → List Thread → ℕ → Type 0
Owned user heap r = (t : Thread) × (get_elem? heap r ≡ some t) × (t.user_id ≡ user)

abbrev pub Has : ℕ → List ℕ → Type 0
Has r [] = ⊥
Has r (q ∷ qs) = (q ≡ r) ⊎ Has r qs

pub record IsOwned (sm : SessionManager) : Type 0 where
  pub listed : (user : String) → All (Owned user sm.heap) (refs_at (get user sm.history))
  pub active_listed :
      (user : String) (r : ℕ) → get user sm.active ≡ some r → Has r (refs_at (get user sm.history))

pub Has-All : (P : ℕ → Type 0) (refs : List ℕ) (r : ℕ) → All P refs → Has r refs → P r
Has-All P [] r u h = absurd h
Has-All P (q ∷ refs) r (p, ps) (inl e) = subst P e p
Has-All P (q ∷ refs) r (p, ps) (inr h) = Has-All P refs r ps h

All-map : (P Q : ℕ → Type 0) (refs : List ℕ) → ((r : ℕ) → P r → Q r) → All P refs → All Q refs
All-map P Q [] f u = tt
All-map P Q (r ∷ refs) f (p, ps) = (f r p, All-map P Q refs f ps)

All-append : (P : ℕ → Type 0) (refs : List ℕ) (r : ℕ) → All P refs → P r → All P (refs ++ r ∷ [])
All-append P [] r u p = (p, tt)
All-append P (q ∷ refs) r (x, xs) p = (x, All-append P refs r xs p)

Has-append : (refs : List ℕ) (r : ℕ) → Has r (refs ++ r ∷ [])
Has-append [] r = inl refl
Has-append (q ∷ refs) r = inr (Has-append refs r)

-- The active thread of a user is a thread of the user.
pub active-Owned :
    (sm : SessionManager) (c : IsOwned sm) (user : String) (r : ℕ)
    → get user sm.active ≡ some r
    → Owned user sm.heap r
active-Owned sm c user r h =
    Has-All (Owned user sm.heap) (refs_at (get user sm.history)) r (c.listed user)
      (c.active_listed user r h)

-- What `find_thread` finds is a pointer of the list, to a thread with the ID.
pub find_thread-some :
    (id : String) (refs : List ℕ) (heap : List Thread) (r : ℕ)
    → find_thread id refs heap ≡ some r
    → Has r refs × ((t : Thread) × (get_elem? heap r ≡ some t) × (t.id ≡ id))
unfolding find_thread has_id
find_thread-some id [] heap r = λ h. absurd (ground arith)
find_thread-some id (q ∷ refs) heap r = elim (Option-cases (get_elem? heap q)) [
  | inl gone ↦
      rw (gone, has_id)
        (λ h. let (at, found) = find_thread-some id refs heap r h in (inr at, found))
  | inr (t, here) ↦
      rw (here, has_id)
        (elim (Bool-cases (t.id == id)) [
          | inl same ↦ rw same (λ h.
              let e : q ≡ r = ground arith in
              (
                inl e,
                (t, subst (λ (i : ℕ). get_elem? heap i ≡ some t) e here, (eq_iff t.id id).0 same),
              ))
          | inr differs ↦
              rw differs
                (λ h. let (at, found) = find_thread-some id refs heap r h in (inr at, found))
        ])
]

pub new_session_manager-IsOwned : IsOwned new_session_manager
unfolding new_session_manager get
new_session_manager-IsOwned = record {
  listed = λ user. tt;
  active_listed = λ user r h. absurd (ground arith);
}

-- A write through a pointer that keeps the user keeps every pointer's owner.
Owned-modify :
    (f : Thread → Thread) (keeps : (t : Thread) → (f t).user_id ≡ t.user_id) (q : ℕ)
    (heap : List Thread) (user : String) (r : ℕ)
    → Owned user heap r
    → Owned user (modify q f heap) r
Owned-modify f keeps q heap user r (t, here, own) = elim (eq_or_ne q r) [
  | inl e ↦ (
    f t,
    subst (λ (i : ℕ). get_elem? (modify q f heap) i ≡ some (f t)) e
        (get_elem?-modify q f heap ∙ rw (e, here) refl),
    keeps t ∙ own,
  )
  | inr ne ↦ (t, get_elem?-modify_ne q r f heap ne ∙ here, own)
]

-- A write through a pointer that keeps the user.
modify-IsOwned :
    (f : Thread → Thread) (keeps : (t : Thread) → (f t).user_id ≡ t.user_id) (q : ℕ)
    (sm : SessionManager)
    → IsOwned sm
    → IsOwned (record sm { heap = modify q f sm.heap })
modify-IsOwned f keeps q sm c = record {
  listed = λ user.
      All-map (Owned user sm.heap) (Owned user (modify q f sm.heap)) (refs_at (get user sm.history))
        (Owned-modify f keeps q sm.heap user) (c.listed user);
  active_listed = c.active_listed;
}

pub add_turn-IsOwned :
    (now : ℕ) (uuid user : String) (turn : Turn) (sm : SessionManager)
    → IsOwned sm
    → IsOwned (add_turn now uuid user turn sm)
unfolding add_turn
add_turn-IsOwned now uuid user turn sm c = elim (Option-cases (get user sm.active)) [
  | inl idle ↦ rw (idle, add_turn) c
  | inr (r, at) ↦
      rw (at, add_turn)
        (modify-IsOwned (with_turn now (completed now uuid turn)) (λ t. refl) r sm c)
]

user_id-last_turns : (n : ℕ) (t : Thread) → (last_turns n t).user_id ≡ t.user_id
user_id-last_turns n t = ground arith

pub compact_thread-IsOwned :
    (user : String) (n : ℕ) (sm : SessionManager) → IsOwned sm → IsOwned (compact_thread user n sm)
unfolding compact_thread
compact_thread-IsOwned user n sm c = elim (Option-cases (get user sm.active)) [
  | inl idle ↦ rw (idle, compact_thread) c
  | inr (r, at) ↦
      rw (at, compact_thread) (modify-IsOwned (last_turns n) (user_id-last_turns n) r sm c)
]

pub switch_thread-IsOwned :
    (user id : String) (sm : SessionManager) → IsOwned sm → IsOwned (switch_thread user id sm).0
unfolding switch_thread get_thread
switch_thread-IsOwned user id sm c = elim (Option-cases (get_thread user id sm)) [
  | inl missing ↦ rw (missing, switch_thread) c
  | inr (r, found) ↦
      rw (found, switch_thread)
        (record { listed = c.listed; active_listed = λ other q. switched r found other q })
]
  where
    switched :
        (r : ℕ)
        → get_thread user id sm ≡ some r
        → (other : String) (q : ℕ) → get other (put user r sm.active) ≡ some q
        → Has q (refs_at (get other sm.history))
    switched r found other q =
        let at = (find_thread-some id (refs_at (get user sm.history)) sm.heap r found).0 in
        elim (Bool-cases (user == other)) [
          | inl same ↦
              let e : user ≡ other = (eq_iff user other).0 same in
              rw (get-put user other r sm.active, same)
                (λ h.
                  let f : r ≡ q = ground arith in
                  subst (λ (i : ℕ). Has i (refs_at (get other sm.history))) f
                    (subst (λ (u : String). Has r (refs_at (get u sm.history))) e at))
          | inr differs ↦ rw (get-put user other r sm.active, differs) (c.active_listed other q)
        ]

pub get_or_create_thread-IsOwned :
    (now : ℕ) (id user channel : String) (sm : SessionManager)
    → IsOwned sm
    → IsOwned (get_or_create_thread now id user channel sm).0
unfolding get_or_create_thread allocate
get_or_create_thread-IsOwned now id user channel sm c = elim (Option-cases (get user sm.active)) [
  | inr (r, at) ↦ rw (at, get_or_create_thread) c
  | inl idle ↦ rw (idle, get_or_create_thread) (record { listed = owns; active_listed = lists })
]
  where
    fresh : Thread
    fresh = record {
      id = id;
      user_id = user;
      channel = channel;
      title = "新对话";
      turns = [];
      created_at = now;
      updated_at = now;
    }

    heap : List Thread
    heap = sm.heap ++ fresh ∷ []

    refs : List ℕ
    refs = refs_at (get user sm.history) ++ length sm.heap ∷ []

    kept : (other : String) (r : ℕ) → Owned other sm.heap r → Owned other heap r
    kept other r (t, here, own) = (t, get_elem?-allocate_old fresh t sm.heap r here, own)

    old : (other : String) → All (Owned other heap) (refs_at (get other sm.history))
    old other =
        All-map (Owned other sm.heap) (Owned other heap) (refs_at (get other sm.history))
          (kept other) (c.listed other)

    owns :
        (other : String) → All (Owned other heap) (refs_at (get other (put user refs sm.history)))
    owns other = elim (Bool-cases (user == other)) [
      | inr differs ↦ rw (get-put user other refs sm.history, differs) (old other)
      | inl same ↦
          let e : user ≡ other = (eq_iff user other).0 same in
          rw (get-put user other refs sm.history, same)
            (subst (λ (u : String). All (Owned u heap) refs) e
              (All-append (Owned user heap) (refs_at (get user sm.history)) (length sm.heap)
                (old user) (fresh, get_elem?-allocate_new fresh sm.heap, refl)))
    ]

    lists :
        (other : String) (r : ℕ)
        → get other (put user (length sm.heap) sm.active) ≡ some r
        → Has r (refs_at (get other (put user refs sm.history)))
    lists other r = elim (Bool-cases (user == other)) [
      | inr differs ↦
          rw
            (
              get-put user other (length sm.heap) sm.active,
              get-put user other refs sm.history,
              differs,
            )
            (c.active_listed other r)
      | inl same ↦
          rw
            (
              get-put user other (length sm.heap) sm.active,
              get-put user other refs sm.history,
              same,
            )
            (λ h.
              let f : length sm.heap ≡ r = ground arith in
              subst (λ (i : ℕ). Has i refs) f
                (Has-append (refs_at (get user sm.history)) (length sm.heap)))
    ]
