-- ===== src/Channels/Manager/View.antt =====
-- Where the manager of internal/channels/manager.go has the messages of a channel, and what its moves
-- do to them.
use ironclaw_go.Shared.{
  ℕ, zero, suc, String, Bool, true, false, ◌≡◌, refl, sym, ap, ◌∙◌, Option, none, some, List, [],
  ◌∷◌, ◌++◌, append-nil, append_assoc, length, modify, changed, get_elem?, get_elem?-modify,
  get_elem?-modify_ne, if◌then◌else◌, is_some, ◌&&◌, leb, ltb, Bool-cases, eq_or_ne, inl, inr, get,
}
use ironclaw_go.Channels.{IncomingMessage}
use ironclaw_go.Channels.Manager.{
  Manager, Forwarder, Tagged, Move, arrives, closes, takes, puts, main_takes, main_puts, main_adds,
  receives, accepts, arrive, take, take_step, main_take, main_put, main_add, receive, idle,
}

abbrev pub same : ℕ → ℕ → Bool
same j i = leb j i && leb i j

-- The messages of one forwarder.
abbrev pub pick : ℕ → List Tagged → List IncomingMessage
pick i [] = []
pick i ((j, msg) ∷ rest) = (if same j i then msg ∷ [] else []) ++ pick i rest

abbrev pub list_of {ℓ} : {A : Type ℓ} → Option A → List A
list_of none = []
list_of (some x) = x ∷ []

-- What the forwarders have handed over: what was received, and what is on the way, the oldest first.
abbrev pub stream : Manager → List Tagged
stream m = m.received ++ (m.recv_ch ++ (list_of m.hand ++ m.merged))

-- What a forwarder has yet to hand over.
abbrev pub waiting : Option Forwarder → List IncomingMessage
waiting none = []
waiting (some f) = list_of f.hand ++ f.source

-- All that has come into a forwarder's source, the oldest first, wherever it is now.
abbrev pub view : ℕ → Manager → List IncomingMessage
view i m = pick i (stream m) ++ waiting (get_elem? m.forwarders i)

abbrev pub accepted : IncomingMessage → Option Forwarder → List IncomingMessage
accepted msg none = []
accepted msg (some f) = if accepts f.name f.closed f.source then msg ∷ [] else []

-- What a move brings into the source.
abbrev pub came : ℕ → Move → Manager → List IncomingMessage
came i (arrives j msg) m = if same j i then accepted msg (get_elem? m.forwarders i) else []
came i (closes j) m = []
came i (takes j) m = []
came i (puts j) m = []
came i main_takes m = []
came i main_puts m = []
came i main_adds m = []
came i receives m = []

pub pick-append : (i : ℕ) (xs ys : List Tagged) → pick i (xs ++ ys) ≡ pick i xs ++ pick i ys
pick-append i [] ys = refl
pick-append i ((j, msg) ∷ xs) ys =
    ap (◌++◌ (if same j i then msg ∷ [] else [])) (pick-append i xs ys)
    ∙ sym (append_assoc (if same j i then msg ∷ [] else []) (pick i xs) (pick i ys))

pub arrive-waiting :
    (msg : IncomingMessage) (o : Option Forwarder)
    → waiting (changed (arrive msg) o) ≡ waiting o ++ accepted msg o
unfolding arrive
arrive-waiting msg none = refl
arrive-waiting msg (some f) = elim (Bool-cases (accepts f.name f.closed f.source)) [
  | inl lets ↦ rw lets (sym (append_assoc (list_of f.hand) f.source (msg ∷ [])))
  | inr shut ↦ rw shut (sym (append-nil (list_of f.hand ++ f.source)))
]

take-keeps :
    (runs closed : Bool) (hand : Option IncomingMessage) (source : List IncomingMessage)
    (f : Forwarder)
    → f.hand ≡ hand
    → f.source ≡ source
    → waiting (some (take runs hand source f)) ≡ waiting (some f)
unfolding take
take-keeps true closed none (msg ∷ rest) f h s = rw h (rw s refl)
take-keeps true closed none [] f h s = elim (Bool-cases f.closed) [
  | inl shut ↦ rw shut refl
  | inr lets ↦ rw lets refl
]
take-keeps true closed (some held) source f h s = refl
take-keeps false closed hand source f h s = refl

pub take-waiting : (o : Option Forwarder) → waiting (changed take_step o) ≡ waiting o
take-waiting none = refl
take-waiting (some f) = take-keeps f.runs f.closed f.hand f.source f refl refl

pub close-waiting :
    (o : Option Forwarder) → waiting (changed (λ f. record f { closed = true }) o) ≡ waiting o
close-waiting none = refl
close-waiting (some f) = refl

waiting-idle :
    (name : Option String) (fs : List Forwarder) (i : ℕ)
    → waiting (get_elem? (fs ++ idle name ∷ []) i) ≡ waiting (get_elem? fs i)
unfolding get_elem?
waiting-idle name [] zero = refl
waiting-idle name [] (suc i) = refl
waiting-idle name (f ∷ fs) zero = refl
waiting-idle name (f ∷ fs) (suc i) = waiting-idle name fs i

-- A change of a forwarder, seen at any place.
pub waiting-modify :
    (i j : ℕ) (change : Forwarder → Forwarder) (fs : List Forwarder)
    → ((o : Option Forwarder) → waiting (changed change o) ≡ waiting o)
    → waiting (get_elem? (modify j change fs) i) ≡ waiting (get_elem? fs i)
waiting-modify i j change fs keeps = elim (eq_or_ne j i) [
  | inl e ↦ rw e (ap waiting (get_elem?-modify i change fs) ∙ keeps (get_elem? fs i))
  | inr ne ↦ ap waiting (get_elem?-modify_ne j i change fs ne)
]

pub main_take-stream :
    (o : Option Tagged) (merged : List Tagged) (m : Manager)
    → m.hand ≡ o
    → m.merged ≡ merged
    → (stream (main_take o merged m) ≡ stream m)
      × ((main_take o merged m).forwarders ≡ m.forwarders)
unfolding main_take
main_take-stream none (msg ∷ rest) m h e = (rw h (rw e refl), refl)
main_take-stream none [] m h e = (refl, refl)
main_take-stream (some held) merged m h e = (refl, refl)

pub main_put-stream :
    (o : Option Tagged) (m : Manager)
    → m.hand ≡ o
    → (stream (main_put o m) ≡ stream m) × ((main_put o m).forwarders ≡ m.forwarders)
unfolding main_put
main_put-stream none m h = (refl, refl)
main_put-stream (some msg) m h = elim (Bool-cases (ltb (length m.recv_ch) 64)) [
  | inl room ↦
      rw room (rw h (ap (◌++◌ m.received) (append_assoc m.recv_ch (msg ∷ []) m.merged)), refl)
  | inr full ↦ rw full (refl, refl)
]

pub receive-stream :
    (waiting : List Tagged) (m : Manager)
    → m.recv_ch ≡ waiting
    → (stream (receive waiting m) ≡ stream m) × ((receive waiting m).forwarders ≡ m.forwarders)
unfolding receive
receive-stream [] m e = (refl, refl)
receive-stream (msg ∷ rest) m e =
    (append_assoc m.received (msg ∷ []) (rest ++ (list_of m.hand ++ m.merged)) ∙ rw e refl, refl)

pub main_add-stream :
    (i : ℕ) (o : Option Tagged) (names : List String) (m : Manager)
    → (stream (main_add o names m) ≡ stream m)
      × (waiting (get_elem? (main_add o names m).forwarders i) ≡ waiting (get_elem? m.forwarders i))
unfolding main_add
main_add-stream i none (name ∷ rest) m = elim (Bool-cases (is_some (get name m.active))) [
  | inl known ↦ rw known (refl, refl)
  | inr fresh ↦ rw fresh (refl, waiting-idle (some name) m.forwarders i)
]
main_add-stream i none [] m = (refl, refl)
main_add-stream i (some held) names m = (refl, refl)
