-- ===== src/Channels/EventHub/Tests.antt =====
-- The hub of internal/channels/httpgw/events.go at a small input: ann listens to one thread, and so does bob.
use ironclaw_go.Shared.{
  String, ◌≡◌, refl, some, List, [], ◌∷◌, All, get, put, get_elem?, modify, HasNo, arith,
}
use ironclaw_go.Channels.{Event, ping}
use ironclaw_go.Channels.EventHub.{new_event_hub, bar, subscribe, sub_key, publish}
use ironclaw_go.Channels.EventHub.Listens.{IsSound}
use ironclaw_go.Channels.EventHub.Delivery.{
  Call, subscribes, publishes, unsubscribes, Spares, run, events_for, filled, subscribe-receives,
}

abbrev event : String → String → String → Event
event user thread payload = record {
  kind = ping;
  user_id = user;
  thread_id = thread;
  payload = payload;
  meta = [];
}

abbrev calls : List Call
calls =
    subscribes "bob" "t1"
    ∷ publishes (event "ann" "t1" "one")
    ∷ publishes (event "ann" "t2" "two")
    ∷ publishes (event "bob" "t1" "three")
    ∷ unsubscribes "bob" "t1" 1
    ∷ publishes (event "ann" "t1" "four")
    ∷ []

-- A user whose name has a bar reaches the subscription of another user.
mistaken :
    get_elem?
      (run (publishes (event "ann|t1" "" "x") ∷ []) (subscribe "ann" "t1|" new_event_hub).0).pipes
      0
    ≡ some (filled (event "ann|t1" "" "x" ∷ []))
unfolding subscribe publish sub_key get_elem? get put modify
mistaken = refl

empty-IsSound : IsSound new_event_hub
unfolding get
empty-IsSound k = tt

ann-HasNo : HasNo bar "ann"
unfolding HasNo
ann-HasNo = (omega arith, (omega arith, (omega arith, tt)))

bob-HasNo : HasNo bar "bob"
unfolding HasNo
bob-HasNo = (omega arith, (omega arith, (omega arith, tt)))

calls-Spares : All (Spares (subscribe "ann" "t1" new_event_hub).1) calls
unfolding subscribe
calls-Spares = (tt, (ann-HasNo, (ann-HasNo, (bob-HasNo, (omega arith, (ann-HasNo, tt))))))

subscribe-receives_example :
    get_elem?
      (run calls (subscribe "ann" "t1" new_event_hub).0).pipes
      (subscribe "ann" "t1" new_event_hub).1
    ≡ some (filled (events_for "ann" "t1" calls))
subscribe-receives_example =
    subscribe-receives "ann" "t1" calls new_event_hub empty-IsSound ann-HasNo calls-Spares
