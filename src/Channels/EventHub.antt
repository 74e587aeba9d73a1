-- ===== src/Channels/EventHub.antt =====
-- internal/channels/httpgw/events.go: who is told of an event. A Go channel of the hub is a place in a
-- heap, with what it buffers and whether it is closed.
pub mod Lists
pub mod Listens
pub mod Delivery
pub mod Tests
use ironclaw_go.Shared.{
  ℕ, String, Bool, true, false, Option, none, some, List, [], ◌∷◌, ◌++◌, Dict, get, put, remove,
  length, modify, allocate, joined, if◌then◌else◌, ◌==◌, ◌&&◌, leb, ltb,
}
use Prim.Native.Char.{Char}
use ironclaw_go.Channels.{Event}

-- A Go channel of events.
pub record Pipe : Type 0 where
  pub queue : List Event
  pub closed : Bool

-- EventHub
pub record EventHub : Type 0 where
  pub subs : Dict (List ℕ)
  pub pipes : List Pipe

-- NewEventHub
abbrev pub new_event_hub : EventHub
new_event_hub = record { subs = []; pipes = [] }

abbrev pub bar : Char
bar = "|"

-- subKey
unfoldable pub sub_key : String → String → String
unfolding joined
sub_key user thread = if thread == "" then joined bar user "" else joined bar user thread

-- h.subs[key], nil where there is none
abbrev pub listed : Option (List ℕ) → List ℕ
listed none = []
listed (some pipes) = pipes

-- Subscribe, with the new channel
unfoldable pub subscribe : String → String → EventHub → EventHub × ℕ
unfolding allocate
subscribe user thread h =
    let k = sub_key user thread in
    let (pipes, c) = allocate (record { queue = []; closed = false }) h.pipes in
    (record { subs = put k (listed (get k h.subs) ++ c ∷ []) h.subs; pipes = pipes }, c)

abbrev pub same : ℕ → ℕ → Bool
same a b = leb a b && leb b a

-- The loop of Unsubscribe: the list without the first place of the channel, and whether it was there.
unfoldable pub take_out : ℕ → List ℕ → List ℕ × Bool
take_out c [] = ([], false)
take_out c (p ∷ ps) =
    let (rest, found) = take_out c ps in if same p c then (ps, true) else (p ∷ rest, found)

abbrev pub close : Pipe → Pipe
close p = record p { closed = true }

-- if len(h.subs[key]) == 0 { delete(h.subs, key) }, after the list was written
abbrev pub put_list : String → List ℕ → Dict (List ℕ) → Dict (List ℕ)
put_list k [] subs = remove k subs
put_list k (p ∷ ps) subs = put k (p ∷ ps) subs

-- Unsubscribe
unfoldable pub unsubscribe : String → String → ℕ → EventHub → EventHub
unfolding take_out
unsubscribe user thread c h =
    let k = sub_key user thread in
    let (rest, found) = take_out c (listed (get k h.subs)) in
    record {
      subs = put_list k rest h.subs;
      pipes = if found then modify c close h.pipes else h.pipes;
    }

-- select { case ch <- ev: default: }, on a channel of sixteen places
unfoldable pub offer : Event → Pipe → Pipe
offer ev p = if ltb (length p.queue) 16 then record p { queue = p.queue ++ ev ∷ [] } else p

-- The loops of Publish.
unfoldable pub offer_all : Event → List ℕ → List Pipe → List Pipe
unfolding offer
offer_all ev [] pipes = pipes
offer_all ev (c ∷ cs) pipes = offer_all ev cs (modify c (offer ev) pipes)

-- Publish
unfoldable pub publish : Event → EventHub → EventHub
unfolding offer_all
publish ev h =
    let exact =
      if ev.thread_id == ""
      then h.pipes
      else offer_all ev (listed (get (sub_key ev.user_id ev.thread_id) h.subs)) h.pipes in
    record h { pipes = offer_all ev (listed (get (sub_key ev.user_id "") h.subs)) exact }
