-- ===== src/Channels/EventHub/Delivery.antt =====
-- Who is told of an event by internal/channels/httpgw/events.go.
use ironclaw_go.Shared.{
  ℕ, zero, suc, ◌≤◌, String, true, false, ◌≡◌, ◌≢◌, refl, sym, ap, ◌∙◌, some, List, [], ◌∷◌, ◌++◌,
  append-nil, append_assoc, get, length, take, All, get_elem?, get_elem?-modify_ne,
  get_elem?-allocate_new, get_elem?-allocate_old, HasNo, if◌then◌else◌, ltb, arith, Bool-cases, inl,
  inr,
}
use ironclaw_go.Channels.{Event}
use ironclaw_go.Channels.EventHub.{
  EventHub, Pipe, bar, sub_key, listed, subscribe, take_out, close, unsubscribe, offer, publish,
}
use ironclaw_go.Channels.EventHub.Listens.{
  is_for, IsSound, Listens, subscribe-Listens, subscribe-keeps, unsubscribe-keeps, publish-keeps,
  publish-pipe,
}

-- The calls of the hub.
pub data Call : Type 0 where
  subscribes : String → String → Call
  unsubscribes : String → String → ℕ → Call
  publishes : Event → Call

abbrev pub step : Call → EventHub → EventHub
step (subscribes user thread) h = (subscribe user thread h).0
step (unsubscribes user thread c) h = unsubscribe user thread c h
step (publishes ev) h = publish ev h

abbrev pub run : List Call → EventHub → EventHub
run [] h = h
run (call ∷ calls) h = run calls (step call h)

-- The call does not unsubscribe the channel, and publishes for a user with no bar in the name.
abbrev pub Spares : ℕ → Call → Type 0
Spares c (subscribes user thread) = Unit
Spares c (unsubscribes user thread d) = d ≢ c
Spares c (publishes ev) = HasNo bar ev.user_id

-- The events of the calls that are for the subscription.
abbrev pub events_for : String → String → List Call → List Event
events_for user thread [] = []
events_for user thread (subscribes u t ∷ calls) = events_for user thread calls
events_for user thread (unsubscribes u t d ∷ calls) = events_for user thread calls
events_for user thread (publishes ev ∷ calls) =
    let rest = events_for user thread calls in if is_for user thread ev then ev ∷ rest else rest

-- What a subscription has after some events: the first sixteen.
abbrev pub filled : List Event → Pipe
filled events = record { queue = take 16 events; closed = false }

length-take-le : (n : ℕ) (es : List Event) → length (take n es) ≤ n
length-take-le zero es = omega arith
length-take-le (suc n) [] = omega arith
length-take-le (suc n) (e ∷ es) = omega (arith, length-take-le n es)

-- An event offered to the first `n` is the next of them, if there is room.
take-snoc :
    (n : ℕ) (es : List Event) (ev : Event)
    → take n (es ++ ev ∷ [])
      ≡ (if ltb (length (take n es)) n then take n es ++ ev ∷ [] else take n es)
take-snoc zero es ev = refl
take-snoc (suc n) [] ev =
    let room : ltb 0 (suc n) ≡ true = ground arith in rw room (ap (◌∷◌ ev) (take-none n))
  where
    take-none : (n : ℕ) → take {A = Event} n [] ≡ []
    take-none zero = refl
    take-none (suc n) = refl
take-snoc (suc n) (e ∷ es) ev = elim (Bool-cases (ltb (length (take n es)) n)) [
  | inl room ↦
      let room' : ltb (suc (length (take n es))) (suc n) ≡ true = ground arith in
      rw room' (ap (◌∷◌ e) (take-snoc n es ev ∙ rw room refl))
  | inr full ↦
      let full' : ltb (suc (length (take n es))) (suc n) ≡ false = ground arith in
      rw full' (ap (◌∷◌ e) (take-snoc n es ev ∙ rw full refl))
]

offer-filled : (es : List Event) (ev : Event) → offer ev (filled es) ≡ filled (es ++ ev ∷ [])
unfolding offer
offer-filled es ev = elim (Bool-cases (ltb (length (take 16 es)) 16)) [
  | inl room ↦ rw room (
      ap (λ (q : List Event). record { queue = q; closed = false })
        (sym (take-snoc 16 es ev ∙ rw room refl)))
  | inr full ↦ rw full (
      ap (λ (q : List Event). record { queue = q; closed = false })
        (sym (take-snoc 16 es ev ∙ rw full refl)))
]

module _ (user thread : String) (c : ℕ) (plain : HasNo bar user) where
  run-filled :
      (calls : List Call) (h : EventHub) (es : List Event)
      → All (Spares c) calls
      → Listens user thread c h
      → get_elem? h.pipes c ≡ some (filled es)
      → get_elem? (run calls h).pipes c ≡ some (filled (es ++ events_for user thread calls))
  unfolding subscribe unsubscribe
  run-filled [] h es spares l e = rw (append-nil es) e
  run-filled (subscribes u t ∷ calls) h es (s, ss) l e =
      run-filled calls (subscribe u t h).0 es ss (subscribe-keeps user thread c u t h l)
        (get_elem?-allocate_old _ (filled es) h.pipes c e)
  run-filled (unsubscribes u t d ∷ calls) h es (s, ss) l e =
      run-filled calls (unsubscribe u t d h) es ss (unsubscribe-keeps user thread c u t d h s l)
        (elim (Bool-cases (take_out d (listed (get (sub_key u t) h.subs))).1) [
          | inl found ↦ rw found (get_elem?-modify_ne d c close h.pipes s ∙ e)
          | inr missing ↦ rw missing e
        ])
  run-filled (publishes ev ∷ calls) h es (s, ss) l e = elim (Bool-cases (is_for user thread ev)) [
    | inl mine ↦ rw mine (
        run-filled calls (publish ev h) (es ++ ev ∷ []) ss (publish-keeps user thread c ev h l) (
          publish-pipe user thread c plain ev h s l ∙ rw mine (rw e (ap some (offer-filled es ev))))
        ∙ ap (λ all. some (filled all)) (append_assoc es (ev ∷ []) (events_for user thread calls)))
    | inr other ↦ rw other (
        run-filled calls (publish ev h) es ss (publish-keeps user thread c ev h l)
          (publish-pipe user thread c plain ev h s l ∙ rw other e))
  ]

-- A subscription is sent the events that are published for its user and its thread, or for any thread of
-- its user where it names none, in order, each once, and no other event: until it is read, it holds the first
-- sixteen of them, whatever else is subscribed, unsubscribed and published meanwhile; where the
-- subscription is not given up, and no user has a bar in the name.
pub subscribe-receives :
    (user thread : String) (calls : List Call) (h : EventHub)
    → IsSound h
    → HasNo bar user
    → All (Spares (subscribe user thread h).1) calls
    → get_elem? (run calls (subscribe user thread h).0).pipes (subscribe user thread h).1
      ≡ some (filled (events_for user thread calls))
unfolding subscribe
subscribe-receives user thread calls h sound plain spares =
    run-filled user thread (subscribe user thread h).1 plain calls (subscribe user thread h).0 []
      spares (subscribe-Listens user thread h sound)
      (get_elem?-allocate_new (record { queue = []; closed = false }) h.pipes)
