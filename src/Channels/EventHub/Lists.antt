-- ===== src/Channels/EventHub/Lists.antt =====
-- The lists of subscriptions of internal/channels/httpgw/events.go, and what an offer to them does.
use ironclaw_go.Shared.{
  ℕ, zero, suc, ◌+◌, ◌≤◌, ◌<◌, String, ◌≡◌, ◌≢◌, refl, ap, ◌∙◌, List, [], ◌∷◌, ◌++◌, Dict, get, put,
  get-put, get-remove, length, All, get_elem?, modify, changed, get_elem?-modify,
  get_elem?-modify_ne, if◌then◌else◌, ◌==◌, arith, Bool-cases, eq_or_ne, inl, inr,
}
use ironclaw_go.Channels.{Event}
use ironclaw_go.Channels.EventHub.{Pipe, listed, same, take_out, put_list, offer, offer_all}

-- How often the channel is listed.
abbrev pub count : ℕ → List ℕ → ℕ
count c [] = 0
count c (p ∷ ps) = (if same p c then 1 else 0) + count c ps

pub count-append : (c : ℕ) (ps qs : List ℕ) → count c (ps ++ qs) ≡ count c ps + count c qs
count-append c [] qs = omega arith
count-append c (p ∷ ps) qs = omega (arith, count-append c ps qs)

pub count-above : (n c : ℕ) (ps : List ℕ) → n ≤ c → All (λ p. p < n) ps → count c ps ≡ 0
count-above n c [] le h = refl
count-above n c (p ∷ ps) le (h, hs) = ground (arith, count-above n c ps le hs)

pub count-take_out : (c d : ℕ) (ps : List ℕ) → d ≢ c → count c (take_out d ps).0 ≡ count c ps
unfolding take_out
count-take_out c d [] ne = refl
count-take_out c d (p ∷ ps) ne = elim (Bool-cases (same p d)) [
  | inl here ↦ rw here (ground arith)
  | inr away ↦ rw away (omega (arith, count-take_out c d ps ne))
]

pub All-take_out :
    (n d : ℕ) (ps : List ℕ) → All (λ p. p < n) ps → All (λ p. p < n) (take_out d ps).0
unfolding take_out
All-take_out n d [] h = tt
All-take_out n d (p ∷ ps) (h, hs) = elim (Bool-cases (same p d)) [
  | inl here ↦ rw here hs
  | inr away ↦ rw away (h, All-take_out n d ps hs)
]

pub All-below : (m n : ℕ) (ps : List ℕ) → m ≤ n → All (λ p. p < m) ps → All (λ p. p < n) ps
All-below m n [] le h = tt
All-below m n (p ∷ ps) le (h, hs) = (omega arith, All-below m n ps le hs)

pub All-snoc :
    (n c : ℕ) (ps : List ℕ) → c < n → All (λ p. p < n) ps → All (λ p. p < n) (ps ++ c ∷ [])
All-snoc n c [] lt h = (lt, tt)
All-snoc n c (p ∷ ps) lt (h, hs) = (h, All-snoc n c ps lt hs)

pub listed-put_list :
    (k j : String) (ps : List ℕ) (subs : Dict (List ℕ))
    → listed (get j (put_list k ps subs)) ≡ (if k == j then ps else listed (get j subs))
listed-put_list k j [] subs = rw (get-remove k j subs) (ground arith)
listed-put_list k j (p ∷ ps) subs = rw (get-put k j (p ∷ ps) subs) (ground arith)

pub listed-put :
    (k j : String) (ps : List ℕ) (subs : Dict (List ℕ))
    → listed (get j (put k ps subs)) ≡ (if k == j then ps else listed (get j subs))
listed-put k j ps subs = rw (get-put k j ps subs) (ground arith)

pub length-modify : (i : ℕ) (f : Pipe → Pipe) (ps : List Pipe) → length (modify i f ps) ≡ length ps
unfolding modify
length-modify i f [] = refl
length-modify zero f (p ∷ ps) = refl
length-modify (suc i) f (p ∷ ps) = ap suc (length-modify i f ps)

pub length-offer_all :
    (ev : Event) (cs : List ℕ) (ps : List Pipe) → length (offer_all ev cs ps) ≡ length ps
unfolding offer_all
length-offer_all ev [] ps = refl
length-offer_all ev (c ∷ cs) ps =
    length-offer_all ev cs (modify c (offer ev) ps) ∙ length-modify c (offer ev) ps

-- The event is offered to the channel as often as it is listed: here never, or once.
pub offer_all-none :
    (ev : Event) (c : ℕ) (cs : List ℕ) (ps : List Pipe)
    → count c cs ≡ 0
    → get_elem? (offer_all ev cs ps) c ≡ get_elem? ps c
unfolding offer_all
offer_all-none ev c [] ps h = refl
offer_all-none ev c (d ∷ cs) ps h = elim (eq_or_ne d c) [
  | inl e ↦ absurd (ground arith)
  | inr ne ↦
      offer_all-none ev c cs (modify d (offer ev) ps) (ground arith)
      ∙ get_elem?-modify_ne d c (offer ev) ps ne
]

pub offer_all-once :
    (ev : Event) (c : ℕ) (cs : List ℕ) (ps : List Pipe)
    → count c cs ≡ 1
    → get_elem? (offer_all ev cs ps) c ≡ changed (offer ev) (get_elem? ps c)
unfolding offer_all
offer_all-once ev c [] ps h = absurd (omega arith)
offer_all-once ev c (d ∷ cs) ps h = elim (eq_or_ne d c) [
  | inl e ↦ rw e (
      offer_all-none ev c cs (modify c (offer ev) ps) (ground arith)
      ∙ get_elem?-modify c (offer ev) ps)
  | inr ne ↦
      offer_all-once ev c cs (modify d (offer ev) ps) (ground arith)
      ∙ ap (changed (offer ev)) (get_elem?-modify_ne d c (offer ev) ps ne)
]
