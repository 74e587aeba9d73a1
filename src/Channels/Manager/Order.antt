-- ===== src/Channels/Manager/Order.antt =====
-- The manager of internal/channels/manager.go loses no message and keeps the order of each channel.
use ironclaw_go.Shared.{
  ℕ, true, false, ◌≡◌, refl, sym, ap, ◌∙◌, some, List, [], ◌∷◌, ◌++◌, append-nil, append_assoc,
  length, modify, changed, get_elem?, get_elem?-modify, get_elem?-modify_ne, ltb, arith, Bool-cases,
  Option-cases, eq_or_ne, inl, inr,
}
use ironclaw_go.Channels.{IncomingMessage}
use ironclaw_go.Channels.Manager.{
  Manager, Forwarder, Tagged, Move, arrives, closes, takes, puts, main_takes, main_puts, main_adds,
  receives, arrive, take_step, empty_hand, put_merged, main_take, main_put, main_add, receive, step,
}
use ironclaw_go.Channels.Manager.View.{
  same, pick, list_of, stream, waiting, view, accepted, came, pick-append, arrive-waiting,
  take-waiting, close-waiting, waiting-modify, main_take-stream, main_put-stream, receive-stream,
  main_add-stream,
}

-- The place of a message in the hand of a forwarder moves to the end of the merged stream.
handed :
    (i j : ℕ) (m : Manager) (f : Forwarder) (msg : IncomingMessage)
    → get_elem? m.forwarders j ≡ some f
    → f.hand ≡ some msg
    → view i (record m {
      merged = m.merged ++ (j, msg) ∷ [];
      forwarders = modify j empty_hand m.forwarders;
    })
      ≡ view i m
handed i j m f msg at held = elim (eq_or_ne j i) [
  | inl e ↦
      let here : get_elem? m.forwarders i ≡ some f = ap (get_elem? m.forwarders) (sym e) ∙ at in
      let s : same j i ≡ true = ground arith in
      let after : get_elem? (modify j empty_hand m.forwarders) i ≡ some (empty_hand f) =
        ap (λ k. get_elem? (modify k empty_hand m.forwarders) i) e
        ∙ get_elem?-modify i empty_hand m.forwarders
        ∙ ap (changed empty_hand) here in
      ap (λ o. pick i grown ++ waiting o) after
      ∙ ap (λ t. pick i t ++ f.source) longer
      ∙ ap (λ p. p ++ f.source) (pick-append i (stream m) ((j, msg) ∷ []) ∙ rw s refl)
      ∙ append_assoc (pick i (stream m)) (msg ∷ []) f.source
      ∙ ap (◌++◌ (pick i (stream m))) (sym (ap waiting here ∙ ap (λ h. list_of h ++ f.source) held))
  | inr ne ↦
      let s : same j i ≡ false = ground arith in
      ap (λ o. pick i grown ++ waiting o) (get_elem?-modify_ne j i empty_hand m.forwarders ne)
      ∙ ap (λ t. pick i t ++ waiting (get_elem? m.forwarders i)) longer
      ∙ ap (λ p. p ++ waiting (get_elem? m.forwarders i))
          (pick-append i (stream m) ((j, msg) ∷ []) ∙ rw s (append-nil (pick i (stream m))))
]
  where
    grown : List Tagged
    grown = m.received ++ (m.recv_ch ++ (list_of m.hand ++ (m.merged ++ (j, msg) ∷ [])))

    longer : grown ≡ stream m ++ (j, msg) ∷ []
    longer = simp (append_assoc)

put_merged-view :
    (i j : ℕ) (m : Manager) → view i (put_merged j (get_elem? m.forwarders j) m) ≡ view i m
unfolding put_merged
put_merged-view i j m = elim (Option-cases (get_elem? m.forwarders j)) [
  | inl missing ↦ rw (missing, put_merged) refl
  | inr (f, at) ↦ elim (Option-cases f.hand) [
    | inl empty ↦ rw (at, put_merged) (rw (empty, put_merged) refl)
    | inr (msg, held) ↦ elim (Bool-cases (ltb (length m.merged) 64)) [
      | inl room ↦ ap (view i) (put_room f msg at held room) ∙ handed i j m f msg at held
      | inr full ↦ ap (view i) (put_full f msg at held full)
    ]
  ]
]
  where
    put_room :
        (f : Forwarder) (msg : IncomingMessage)
        → get_elem? m.forwarders j ≡ some f
        → f.hand ≡ some msg
        → ltb (length m.merged) 64 ≡ true
        → put_merged j (get_elem? m.forwarders j) m ≡ record m {
          merged = m.merged ++ (j, msg) ∷ [];
          forwarders = modify j empty_hand m.forwarders;
        }
    put_room f msg at held room = rw (at, put_merged) (rw (held, put_merged) (rw room refl))

    put_full :
        (f : Forwarder) (msg : IncomingMessage)
        → get_elem? m.forwarders j ≡ some f
        → f.hand ≡ some msg
        → ltb (length m.merged) 64 ≡ false
        → put_merged j (get_elem? m.forwarders j) m ≡ m
    put_full f msg at held full = rw (at, put_merged) (rw (held, put_merged) (rw full refl))

-- A move brings into the view what comes into the source, at the end, and changes nothing else.
step-view : (i : ℕ) (mv : Move) (m : Manager) → view i (step mv m) ≡ view i m ++ came i mv m
unfolding step
step-view i (arrives j msg) m = elim (eq_or_ne j i) [
  | inl e ↦ rw e (
      let s : same i i ≡ true = ground arith in
      rw s (
        ap (λ o. pick i (stream m) ++ waiting o) (get_elem?-modify i (arrive msg) m.forwarders)
        ∙ ap (◌++◌ (pick i (stream m))) (arrive-waiting msg (get_elem? m.forwarders i))
        ∙ sym (
            append_assoc (pick i (stream m)) (waiting (get_elem? m.forwarders i))
              (accepted msg (get_elem? m.forwarders i)))))
  | inr ne ↦
      let s : same j i ≡ false = ground arith in
      rw s (
        ap (λ o. pick i (stream m) ++ waiting o)
          (get_elem?-modify_ne j i (arrive msg) m.forwarders ne)
        ∙ sym (append-nil (view i m)))
]
step-view i (closes j) m =
    ap (◌++◌ (pick i (stream m)))
      (waiting-modify i j (λ f. record f { closed = true }) m.forwarders close-waiting)
    ∙ sym (append-nil (view i m))
step-view i (takes j) m =
    ap (◌++◌ (pick i (stream m))) (waiting-modify i j take_step m.forwarders take-waiting)
    ∙ sym (append-nil (view i m))
step-view i (puts j) m = put_merged-view i j m ∙ sym (append-nil (view i m))
step-view i main_takes m =
    let (s, f) = main_take-stream m.hand m.merged m refl refl in
    ap (λ t. pick i t ++ waiting (get_elem? (main_take m.hand m.merged m).forwarders i)) s
    ∙ ap (λ fs. pick i (stream m) ++ waiting (get_elem? fs i)) f
    ∙ sym (append-nil (view i m))
step-view i main_puts m =
    let (s, f) = main_put-stream m.hand m refl in
    ap (λ t. pick i t ++ waiting (get_elem? (main_put m.hand m).forwarders i)) s
    ∙ ap (λ fs. pick i (stream m) ++ waiting (get_elem? fs i)) f
    ∙ sym (append-nil (view i m))
step-view i main_adds m =
    let (s, w) = main_add-stream i m.hand m.add_ch m in
    ap (λ t. pick i t ++ waiting (get_elem? (main_add m.hand m.add_ch m).forwarders i)) s
    ∙ ap (◌++◌ (pick i (stream m))) w
    ∙ sym (append-nil (view i m))
step-view i receives m =
    let (s, f) = receive-stream m.recv_ch m refl in
    ap (λ t. pick i t ++ waiting (get_elem? (receive m.recv_ch m).forwarders i)) s
    ∙ ap (λ fs. pick i (stream m) ++ waiting (get_elem? fs i)) f
    ∙ sym (append-nil (view i m))

abbrev pub run : List Move → Manager → Manager
run [] m = m
run (mv ∷ moves) m = run moves (step mv m)

-- What the moves bring into the source of a forwarder.
abbrev pub arrivals : ℕ → List Move → Manager → List IncomingMessage
arrivals i [] m = []
arrivals i (mv ∷ moves) m = came i mv m ++ arrivals i moves (step mv m)

-- Whatever the goroutines do and in whatever order, of the messages that come into the source of a forwarder
-- none is lost, doubled or overtaken by another: those that Receive has given out, those on the way and
-- those that still wait in the source, in this order, are the ones that were there before and then the ones
-- that came, in the order in which they came; while the manager runs.
pub run-view :
    (i : ℕ) (moves : List Move) (m : Manager)
    → view i (run moves m) ≡ view i m ++ arrivals i moves m
run-view i [] m = sym (append-nil (view i m))
run-view i (mv ∷ moves) m =
    run-view i moves (step mv m)
    ∙ ap (λ v. v ++ arrivals i moves (step mv m)) (step-view i mv m)
    ∙ append_assoc (view i m) (came i mv m) (arrivals i moves (step mv m))
