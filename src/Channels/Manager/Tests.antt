-- ===== src/Channels/Manager/Tests.antt =====
-- The manager of internal/channels/manager.go at a small input: one channel beside the injected messages.
use ironclaw_go.Shared.{
  String, ◌≡◌, refl, none, some, [], ◌∷◌, ◌++◌, List, put, modify, get_elem?, keys,
}
use ironclaw_go.Channels.{IncomingMessage}
use ironclaw_go.Channels.Manager.{
  step, Manager, Channel, Move, arrives, takes, puts, main_takes, main_puts, receives, add, start,
  new_manager, names, broadcast,
}
use ironclaw_go.Channels.Manager.View.{view}
use ironclaw_go.Channels.Manager.Order.{run, arrivals, run-view}

abbrev repl : Channel
repl = record { name = "repl"; send_message = λ msg. some "closed"; shutdown = none }

abbrev manager : Manager
manager = start (add repl new_manager)

abbrev message : String → IncomingMessage
message id = record {
  id = id;
  channel = "repl";
  user_id = "ann";
  content = "";
  thread_id = "";
  attachments = [];
}

abbrev moves : List Move
moves =
    arrives 1 (message "a")
    ∷ takes 1
    ∷ arrives 1 (message "b")
    ∷ puts 1
    ∷ arrives 0 (message "c")
    ∷ takes 1
    ∷ main_takes
    ∷ main_puts
    ∷ receives
    ∷ []

named : names manager ≡ "repl" ∷ []
unfolding names start add put keys
named = refl

refused : broadcast (record { content = []; thread_id = ""; status = "ok" }) manager ≡ some "closed"
unfolding broadcast start add put
refused = refl

delivered : (run moves manager).received ≡ (1, message "a") ∷ []
unfolding run start add put modify get_elem? step
delivered = refl

run-view_example : view 1 (run moves manager) ≡ view 1 manager ++ arrivals 1 moves manager
run-view_example = run-view 1 moves manager
