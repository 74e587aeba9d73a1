-- ===== src/Agent/Session/Tests.antt =====
-- Two users of the session manager of agent/session.go.
use ironclaw_go.Shared.{
  ℕ, All, get_elem?, put, bytes, ◌-◌, ◌≤◌, true, false, ◌≡◌, refl, ◌⊎◌, some, List, [], ◌∷◌, get,
  put, length, drop, ◌==◌, if◌then◌else◌,
}
use ironclaw_go.Agent.Session.{
  Thread, Turn, SessionManager, new_session_manager, get_or_create_thread, add_turn, get_turns,
  refs_at, switch_thread, compact_thread,
}
use ironclaw_go.Agent.Session.Invariant.{Has, IsOwned, new_session_manager-IsOwned}
use ironclaw_go.Agent.Session.Laws.{
  Call, creates, adds, run, step, run-IsOwned, get_turns-compact_thread, OtherId, switch_thread-own,
}

abbrev hello : Turn
hello = record { id = ""; user_msg = bytes "hello"; agent_resp = bytes "hi"; created_at = 0 }

abbrev opening : List Call
opening =
    creates 10 "id1" "ann" "repl" ∷ creates 20 "id2" "bob" "repl" ∷ adds 30 "id3" "ann" hello ∷ []

abbrev managed : SessionManager
managed = run opening new_session_manager

managed-IsOwned : IsOwned managed
managed-IsOwned = run-IsOwned opening new_session_manager new_session_manager-IsOwned

active : get "ann" managed.active ≡ some 0
unfolding get run step add_turn get_or_create_thread new_session_manager put
active = refl

run-IsOwned_example : IsOwned (run opening new_session_manager)
run-IsOwned_example = run-IsOwned opening new_session_manager new_session_manager-IsOwned

get_turns-compact_thread_example :
    (get_turns "ann" (compact_thread "ann" 0 managed) ≡ (
      if "ann" == "ann"
      then drop (length (get_turns "ann" managed) - 0) (get_turns "ann" managed)
      else get_turns "ann" managed))
    × (length (get_turns "ann" (compact_thread "ann" 0 managed)) ≤ 0)
get_turns-compact_thread_example =
    get_turns-compact_thread "ann" "ann" 0 managed 0 managed-IsOwned active

switch_thread-own_example :
    ((switch_thread "ann" "id1" managed ≡ (managed, false))
      × All (OtherId "id1" managed.heap) (refs_at (get "ann" managed.history)))
    ⊎ ((r : ℕ) × (t : Thread) × Has r (refs_at (get "ann" managed.history))
        × (get_elem? managed.heap r ≡ some t)
        × (t.user_id ≡ "ann")
        × (t.id ≡ "id1")
        × (switch_thread "ann" "id1" managed
            ≡ (record managed { active = put "ann" r managed.active }, true))
        × (get_turns "ann" (switch_thread "ann" "id1" managed).0 ≡ t.turns))
switch_thread-own_example = switch_thread-own "ann" "id1" managed managed-IsOwned
