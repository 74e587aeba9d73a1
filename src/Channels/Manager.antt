-- ===== src/Channels/Manager.antt =====
-- internal/channels/manager.go: the manager that merges the messages of the channels. Its goroutines are a
-- forwarder for each channel, one for the injected messages, and the main loop; a list of moves says in which
-- order they act. A message goes with the place of the forwarder that took it, which the
-- program does not keep. The moves are those of a manager that runs: no context is done, and ShutdownAll was
-- not called.
pub mod View
pub mod Order
pub mod Tests
use ironclaw_go.Shared.{
  ℕ, suc, String, Bool, true, false, Option, none, some, List, [], ◌∷◌, ◌++◌, Dict, get, put,
  remove, keys, length, modify, get_elem?, Result, ok, err, is_some, if◌then◌else◌, ◌==◌, ◌&&◌, leb,
  ltb, not,
}
use ironclaw_go.Channels.{IncomingMessage, OutgoingResponse}

-- Channel: its name, and what SendMessage and Shutdown answer, an error or none.
pub record Channel : Type 0 where
  pub name : String
  pub send_message : OutgoingResponse → Option String
  pub shutdown : Option String

-- A goroutine that forwards messages: what it is called (the forwarder of injected messages has no name), what
-- waits in its source, whether the source is closed, the message in its hand, and whether it
-- runs.
pub record Forwarder : Type 0 where
  pub name : Option String
  pub source : List IncomingMessage
  pub closed : Bool
  pub hand : Option IncomingMessage
  pub runs : Bool

-- A message with the place of its forwarder.
abbrev pub Tagged : Type 0
Tagged = ℕ × IncomingMessage

-- Manager, with its goroutines, and what Receive has given out.
pub record Manager : Type 0 where
  pub channels : Dict Channel
  pub started : Bool
  pub add_ch : List String
  pub active : Dict Bool
  pub forwarders : List Forwarder
  pub merged : List Tagged
  pub hand : Option Tagged
  pub recv_ch : List Tagged
  pub received : List Tagged

-- Add: the channel is registered, and the main loop of a started manager is told, if there is room.
unfoldable pub add : Channel → Manager → Manager
add ch m = record m {
  channels = put ch.name ch m.channels;
  add_ch = if m.started && ltb (length m.add_ch) 8 then m.add_ch ++ ch.name ∷ [] else m.add_ch;
}

-- Remove: the channel is taken out and shut down.
unfoldable pub remove_channel : String → Manager → Manager × Result String (Unit {0})
remove_channel name m = elim (get name m.channels) [
  | none ↦ (m, err "channel not found")
  | some ch ↦ (
    record m { channels = remove name m.channels },
    elim ch.shutdown [ none ↦ ok tt | some e ↦ err e ],
  )
]

-- Get
unfoldable pub get_channel : String → Manager → Option Channel
get_channel name m = get name m.channels

-- Names
unfoldable pub names : Manager → List String
names m = keys m.channels

-- Send
unfoldable pub send : String → OutgoingResponse → Manager → Result String (Unit {0})
send name msg m = elim (get name m.channels) [
  | none ↦ err "channel not found"
  | some ch ↦ elim (ch.send_message msg) [ none ↦ ok tt | some e ↦ err e ]
]

-- The first error of the loop of Broadcast; every channel is sent the response.
unfoldable pub first_error : Dict Channel → OutgoingResponse → Option String
first_error [] msg = none
first_error ((name, ch) ∷ rest) msg =
    let later = first_error rest msg in
    elim (ch.send_message msg) [ none ↦ later | some e ↦ some e ]

-- Broadcast
unfoldable pub broadcast : OutgoingResponse → Manager → Option String
unfolding first_error
broadcast msg m = first_error m.channels msg

abbrev pub idle : Option String → Forwarder
idle name = record { name = name; source = []; closed = false; hand = none; runs = true }

-- The moves: a message comes into the source of a forwarder, or its source is closed; a forwarder takes a
-- message, or ends, or puts the message into the merged stream; the main loop takes a message from there, puts it
-- into recvCh, or takes up a new channel; Receive takes a message.
pub data Move : Type 0 where
  arrives : ℕ → IncomingMessage → Move
  closes takes puts : ℕ → Move
  main_takes main_puts main_adds receives : Move

-- A message comes into an open source; the channel of injected messages, which comes first, has 64 places, and
-- Inject drops what does not fit.
unfoldable pub accepts : Option String → Bool → List IncomingMessage → Bool
accepts none closed source = not closed && ltb (length source) 64
accepts (some name) closed source = not closed

unfoldable pub arrive : IncomingMessage → Forwarder → Forwarder
unfolding accepts
arrive msg f =
    if accepts f.name f.closed f.source then record f { source = f.source ++ msg ∷ [] } else f

-- case msg, ok := <-src
unfoldable pub take : Bool → Option IncomingMessage → List IncomingMessage → Forwarder → Forwarder
take true none (msg ∷ rest) f = record f { source = rest; hand = some msg }
take true none [] f = if f.closed then record f { runs = false } else f
take true (some held) source f = f
take false hand source f = f

abbrev pub take_step : Forwarder → Forwarder
take_step f = take f.runs f.hand f.source f

-- defer delete(active, name), when the forwarder ends
unfoldable pub end_active : Bool → Option Forwarder → Dict Bool → Dict Bool
end_active false other active = active
end_active true none active = active
end_active true (some f) active = elim f.name [ none ↦ active | some name ↦ remove name active ]

-- The forwarder ends with this step: it runs, its hand and its source are empty, and the source is closed.
unfoldable pub ends : Option Forwarder → Bool
ends none = false
ends (some f) = f.runs && not (is_some f.hand) && leb (length f.source) 0 && f.closed

abbrev pub empty_hand : Forwarder → Forwarder
empty_hand f = record f { hand = none }

-- case dst <- msg, into the merged stream of 64 places
unfoldable pub put_merged : ℕ → Option Forwarder → Manager → Manager
put_merged i none m = m
put_merged i (some f) m = elim f.hand [
  | none ↦ m
  | some msg ↦
      if ltb (length m.merged) 64
      then record m {
        merged = m.merged ++ (i, msg) ∷ [];
        forwarders = modify i empty_hand m.forwarders;
      }
      else m
]

-- case msg := <-merged
unfoldable pub main_take : Option Tagged → List Tagged → Manager → Manager
main_take none (msg ∷ rest) m = record m { hand = some msg; merged = rest }
main_take none [] m = m
main_take (some held) merged m = m

-- case m.recvCh <- msg, of 64 places
unfoldable pub main_put : Option Tagged → Manager → Manager
main_put none m = m
main_put (some msg) m =
    if ltb (length m.recv_ch) 64
    then record m { hand = none; recv_ch = m.recv_ch ++ msg ∷ [] }
    else m

-- case ch := <-m.addCh: a channel whose name is active is passed over.
unfoldable pub main_add : Option Tagged → List String → Manager → Manager
main_add none (name ∷ rest) m =
    if is_some (get name m.active) then record m { add_ch = rest } else record m {
      add_ch = rest;
      active = put name true m.active;
      forwarders = m.forwarders ++ idle (some name) ∷ [];
    }
main_add none [] m = m
main_add (some held) waiting m = m

-- Receive, of a message that is there
unfoldable pub receive : List Tagged → Manager → Manager
receive [] m = m
receive (msg ∷ rest) m = record m { recv_ch = rest; received = m.received ++ msg ∷ [] }

unfoldable pub step : Move → Manager → Manager
unfolding arrive take end_active ends put_merged main_take main_put main_add receive
step (arrives i msg) m = record m { forwarders = modify i (arrive msg) m.forwarders }
step (closes i) m = record m {
  forwarders = modify i (λ f. record f { closed = true }) m.forwarders;
}
step (takes i) m = record m {
  forwarders = modify i take_step m.forwarders;
  active = end_active (ends (get_elem? m.forwarders i)) (get_elem? m.forwarders i) m.active;
}
step (puts i) m = put_merged i (get_elem? m.forwarders i) m
step main_takes m = main_take m.hand m.merged m
step main_puts m = main_put m.hand m
step main_adds m = main_add m.hand m.add_ch m
step receives m = receive m.recv_ch m

-- NewManager
abbrev pub new_manager : Manager
new_manager = record {
  channels = [];
  started = false;
  add_ch = [];
  active = [];
  forwarders = [];
  merged = [];
  hand = none;
  recv_ch = [];
  received = [];
}

-- The loop of mergeLoop over the channels that are there when it begins.
unfoldable pub take_up : Dict Channel → Manager → Manager
take_up [] m = m
take_up ((k, ch) ∷ rest) m = take_up rest (record m {
  active = put ch.name true m.active;
  forwarders = m.forwarders ++ idle (some ch.name) ∷ [];
})

-- Start, and the beginning of mergeLoop: a second call does nothing. Here the forwarder of injected
-- messages is the first.
unfoldable pub start : Manager → Manager
unfolding take_up
start m =
    if m.started
    then m
    else take_up m.channels (record m { started = true; forwarders = idle none ∷ [] })
