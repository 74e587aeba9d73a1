-- ===== src/Channels/EventHub/Listens.antt =====
-- A subscription of internal/channels/httpgw/events.go stays as it is through the calls of others, and an
-- event is offered to it if it is for it.
use ironclaw_go.Shared.{
  ℕ, ◌+◌, ◌≤◌, ◌<◌, String, Bool, false, ◌≡◌, ◌≢◌, refl, sym, ap, ◌∙◌, List, [], ◌∷◌, ◌++◌, get,
  put, length, length-append, All, get_elem?, changed, allocate, joined, joined-eq, HasNo,
  if◌then◌else◌, ◌==◌, ◌&&◌, ◌||◌, eq_iff, arith, Bool-cases, inl, inr,
}
use ironclaw_go.Channels.{Event}
use ironclaw_go.Channels.EventHub.{
  EventHub, Pipe, bar, sub_key, listed, subscribe, take_out, close, unsubscribe, offer, offer_all,
  publish,
}
use ironclaw_go.Channels.EventHub.Lists.{
  count, count-append, count-above, count-take_out, All-take_out, All-below, All-snoc,
  listed-put_list, listed-put, length-modify, length-offer_all, offer_all-none, offer_all-once,
}

-- Whether an event is for a subscription to a thread of a user, or to all threads for the empty name.
abbrev pub is_for : String → String → Event → Bool
is_for user thread ev = (ev.user_id == user) && (thread == "" || ev.thread_id == thread)

sub_key_lem : (user thread : String) → sub_key user thread ≡ joined bar user thread
unfolding sub_key
sub_key_lem user thread = elim (Bool-cases (thread == "")) [
  | inl empty ↦ rw empty (ap (joined bar user) (sym ((eq_iff thread "").0 empty)))
  | inr named ↦ rw named refl
]

-- Every channel that is listed has been made.
abbrev pub IsSound : EventHub → Type 0
IsSound h = (k : String) → All (λ p. p < length h.pipes) (listed (get k h.subs))

-- The channel has been made, and is listed once, for the user and the thread.
pub record Listens (user thread : String) (c : ℕ) (h : EventHub) : Type 0 where
  pub made : c < length h.pipes
  pub sound : IsSound h
  pub places :
      (k : String) → count c (listed (get k h.subs)) ≡ (if sub_key user thread == k then 1 else 0)

subscribe-IsSound :
    (user thread : String) (h : EventHub) → IsSound h → IsSound (subscribe user thread h).0
unfolding subscribe allocate
subscribe-IsSound user thread h s k =
    rw
      (listed-put (sub_key user thread) k
        (listed (get (sub_key user thread) h.subs) ++ length h.pipes ∷ []) h.subs)
      (at k)
  where
    grown : length (h.pipes ++ record { queue = []; closed = false } ∷ []) ≡ length h.pipes + 1
    grown = omega (arith, length-append h.pipes (record { queue = []; closed = false } ∷ []))

    old :
        (k : String)
        → All
            (λ p. p < length (h.pipes ++ record { queue = []; closed = false } ∷ []))
            (listed (get k h.subs))
    old k = All-below (length h.pipes) _ (listed (get k h.subs)) (omega (arith, grown)) (s k)

    new :
        All
          (λ p. p < length (h.pipes ++ record { queue = []; closed = false } ∷ []))
          (listed (get (sub_key user thread) h.subs) ++ length h.pipes ∷ [])
    new =
        All-snoc _ (length h.pipes) (listed (get (sub_key user thread) h.subs))
          (omega (arith, grown)) (old (sub_key user thread))

    at :
        (k : String)
        → All
            (λ p. p < length (h.pipes ++ record { queue = []; closed = false } ∷ []))
            (if sub_key user thread == k
              then listed (get (sub_key user thread) h.subs) ++ length h.pipes ∷ []
              else listed (get k h.subs))
    at k = elim (Bool-cases (sub_key user thread == k)) [
      | inl here ↦ rw here new
      | inr away ↦ rw away (old k)
    ]

pub subscribe-Listens :
    (user thread : String) (h : EventHub)
    → IsSound h
    → Listens user thread (subscribe user thread h).1 (subscribe user thread h).0
unfolding subscribe allocate
subscribe-Listens user thread h s = record {
  made = omega (arith, length-append h.pipes (record { queue = []; closed = false } ∷ []));
  sound = subscribe-IsSound user thread h s;
  places = λ k. listed-put_count k;
}
  where
    zero_at : (k : String) → count (length h.pipes) (listed (get k h.subs)) ≡ 0
    zero_at k =
        count-above (length h.pipes) (length h.pipes) (listed (get k h.subs)) (omega arith) (s k)

    listed-put_count :
        (k : String)
        → count (length h.pipes) (
            listed (
              get k (
                put
                  (sub_key user thread)
                  (listed (get (sub_key user thread) h.subs) ++ length h.pipes ∷ [])
                  h.subs)))
          ≡ (if sub_key user thread == k then 1 else 0)
    listed-put_count k =
        rw
          (listed-put (sub_key user thread) k
            (listed (get (sub_key user thread) h.subs) ++ length h.pipes ∷ []) h.subs)
          (ground (
            arith,
            zero_at k,
            zero_at (sub_key user thread),
            count-append (length h.pipes) (listed (get (sub_key user thread) h.subs))
                (length h.pipes ∷ []),
          ))

module _ (user thread : String) (c : ℕ) where
  pub subscribe-keeps :
      (u t : String) (h : EventHub)
      → Listens user thread c h
      → Listens user thread c (subscribe u t h).0
  unfolding subscribe allocate
  subscribe-keeps u t h l = record {
    made =
        omega (arith, l.made, length-append h.pipes (record { queue = []; closed = false } ∷ []));
    sound = subscribe-IsSound u t h l.sound;
    places = λ k.
        rw
          (listed-put (sub_key u t) k (listed (get (sub_key u t) h.subs) ++ length h.pipes ∷ [])
            h.subs)
          (ground (
            arith,
            l.places k,
            l.places (sub_key u t),
            l.made,
            eq_iff (sub_key u t) k,
            count-append c (listed (get (sub_key u t) h.subs)) (length h.pipes ∷ []),
          ));
  }

  pub unsubscribe-keeps :
      (u t : String) (d : ℕ) (h : EventHub)
      → d ≢ c
      → Listens user thread c h
      → Listens user thread c (unsubscribe u t d h)
  unfolding unsubscribe
  unsubscribe-keeps u t d h ne l = record {
    made = ground (arith, l.made, length-modify d close h.pipes);
    sound = λ k. rw (listed-put_list (sub_key u t) k rest h.subs) (within k);
    places = λ k. rw (listed-put_list (sub_key u t) k rest h.subs) (
        ground (
          arith,
          l.places k,
          l.places (sub_key u t),
          eq_iff (sub_key u t) k,
          count-take_out c d (listed (get (sub_key u t) h.subs)) ne,
        ));
  }
    where
      rest : List ℕ
      rest = (take_out d (listed (get (sub_key u t) h.subs))).0

      same_length : length h.pipes ≤ length (unsubscribe u t d h).pipes
      same_length = ground (arith, length-modify d close h.pipes)

      within :
          (k : String)
          → All
              (λ p. p < length (unsubscribe u t d h).pipes)
              (if sub_key u t == k then rest else listed (get k h.subs))
      within k = elim (Bool-cases (sub_key u t == k)) [
        | inl here ↦ rw here (
            All-below (length h.pipes) _ rest same_length (
              All-take_out (length h.pipes) d (listed (get (sub_key u t) h.subs))
                (l.sound (sub_key u t))))
        | inr away ↦
            rw away (All-below (length h.pipes) _ (listed (get k h.subs)) same_length (l.sound k))
      ]

  pub publish-keeps :
      (ev : Event) (h : EventHub) → Listens user thread c h → Listens user thread c (publish ev h)
  unfolding publish
  publish-keeps ev h l = record {
    made = rw same_length l.made;
    sound = λ k. rw same_length (l.sound k);
    places = l.places;
  }
    where
      all : List ℕ
      all = listed (get (sub_key ev.user_id "") h.subs)

      exact : List ℕ
      exact = listed (get (sub_key ev.user_id ev.thread_id) h.subs)

      same_length : length (publish ev h).pipes ≡ length h.pipes
      same_length = elim (Bool-cases (ev.thread_id == "")) [
        | inl general ↦ rw general (length-offer_all ev all h.pipes)
        | inr special ↦ rw special (
            length-offer_all ev all (offer_all ev exact h.pipes)
            ∙ length-offer_all ev exact h.pipes)
      ]

  -- The channel is offered the event if it is for its subscription, and else nothing.
  offer_all-listed :
      (ev : Event) (k : String) (h : EventHub) (pipes : List Pipe)
      → Listens user thread c h
      → get_elem? (offer_all ev (listed (get k h.subs)) pipes) c ≡ (
          if sub_key user thread == k
          then changed (offer ev) (get_elem? pipes c)
          else get_elem? pipes c)
  offer_all-listed ev k h pipes l = elim (Bool-cases (sub_key user thread == k)) [
    | inl here ↦
        rw here (offer_all-once ev c (listed (get k h.subs)) pipes (l.places k ∙ rw here refl))
    | inr away ↦
        rw away (offer_all-none ev c (listed (get k h.subs)) pipes (l.places k ∙ rw away refl))
  ]

  module _ (plain : HasNo bar user) where
    pub publish-pipe :
        (ev : Event) (h : EventHub)
        → HasNo bar ev.user_id
        → Listens user thread c h
        → get_elem? (publish ev h).pipes c ≡ (
            if is_for user thread ev
            then changed (offer ev) (get_elem? h.pipes c)
            else get_elem? h.pipes c)
    unfolding publish
    publish-pipe ev h other l = elim (Bool-cases (ev.thread_id == "")) [
      | inl general ↦ rw general (
          offer_all-listed ev (sub_key ev.user_id "") h h.pipes l
          ∙ rw (keys "") (
              ground (
                arith,
                eq_iff ev.thread_id "",
                eq_iff thread "",
                eq_iff ev.thread_id thread,
                eq_iff user ev.user_id,
                eq_iff ev.user_id user,
              )))
      | inr special ↦ rw special (
          offer_all-listed ev (sub_key ev.user_id "") h (offer_all ev exact h.pipes) l
          ∙ rw (offer_all-listed ev (sub_key ev.user_id ev.thread_id) h h.pipes l) (
              rw (keys "") (
                rw (keys ev.thread_id) (
                  ground (
                    arith,
                    eq_iff ev.thread_id "",
                    eq_iff thread "",
                    eq_iff ev.thread_id thread,
                    eq_iff thread ev.thread_id,
                    eq_iff user ev.user_id,
                    eq_iff ev.user_id user,
                  )))))
    ]
      where
        exact : List ℕ
        exact = listed (get (sub_key ev.user_id ev.thread_id) h.subs)

        keys :
            (t : String)
            → (sub_key user thread == sub_key ev.user_id t)
              ≡ ((user == ev.user_id) && (thread == t))
        keys t =
            rw (sub_key_lem user thread, sub_key_lem ev.user_id t)
              (joined-eq bar user ev.user_id thread t plain other)
