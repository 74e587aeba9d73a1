-- ===== src/History/Sort.antt =====
-- The sort of internal/history/store.go: the newest message first.
use ironclaw_go.Shared.{
  ℕ, zero, suc, ◌≤◌, ◌≡◌, refl, sym, ap, subst, true, false, List, [], ◌∷◌, length, ltb,
  if◌then◌else◌, All, arith, Bool-cases, inl, inr,
}
use mathlib.Core.List.{Perm}
use mathlib.Core.List.Perm
use ironclaw_go.Db.{Message}

-- The inner loop, with msgs[i] in hand: each later message that is newer takes its place, and leaves
-- the other behind.
unfoldable pub sweep : Message → List Message → Message × List Message
sweep x [] = (x, [])
sweep x (y ∷ ys) =
    let newer = ltb x.created_at y.created_at in
    let (m, rest) = sweep (if newer then y else x) ys in (m, (if newer then x else y) ∷ rest)

-- The outer loop over the places that are left.
unfoldable pub sort_from : ℕ → List Message → List Message
unfolding sweep
sort_from zero msgs = msgs
sort_from (suc n) [] = []
sort_from (suc n) (x ∷ xs) = let (m, rest) = sweep x xs in m ∷ sort_from n rest

-- sortMessagesDesc
unfoldable pub sort_messages_desc : List Message → List Message
unfolding sort_from
sort_messages_desc msgs = sort_from (length msgs) msgs

-- No message is older than one that stands behind it.
abbrev pub IsDescending : List Message → Type 0
IsDescending [] = Unit
IsDescending (x ∷ xs) = All (λ y. y.created_at ≤ x.created_at) xs × IsDescending xs

sweep-perm :
    (x : Message) (xs : List Message) → let (m, rest) = sweep x xs in Perm (m ∷ rest) (x ∷ xs)
unfolding sweep
sweep-perm x [] = Perm.refl (x ∷ [])
sweep-perm x (y ∷ ys) = elim (Bool-cases (ltb x.created_at y.created_at)) [
  | inl newer ↦
      rw newer
        (Perm.trans (Perm.swap _ _ _) (Perm.trans (Perm.cons x (sweep-perm y ys)) (Perm.refl _)))
  | inr older ↦
      rw older (
        Perm.trans (Perm.swap _ _ _) (Perm.trans (Perm.cons y (sweep-perm x ys)) (Perm.swap _ _ _)))
]

-- A step of the sweep, by the outcome of its comparison.
sweep-newer :
    (x y : Message) (ys : List Message)
    → ltb x.created_at y.created_at ≡ true
    → sweep x (y ∷ ys) ≡ ((sweep y ys).0, x ∷ (sweep y ys).1)
unfolding sweep
sweep-newer x y ys newer = rw newer refl

sweep-older :
    (x y : Message) (ys : List Message)
    → ltb x.created_at y.created_at ≡ false
    → sweep x (y ∷ ys) ≡ ((sweep x ys).0, y ∷ (sweep x ys).1)
unfolding sweep
sweep-older x y ys older = rw older refl

-- None of the rest is newer than the message in hand, and that is no older than `x`.
abbrev Newest : Message → Message × List Message → Type 0
Newest x (m, rest) = (x.created_at ≤ m.created_at) × All (λ y. y.created_at ≤ m.created_at) rest

sweep-Newest : (x : Message) (xs : List Message) → Newest x (sweep x xs)
sweep-Newest x [] = unfold sweep in (omega arith, tt)
sweep-Newest x (y ∷ ys) = elim (Bool-cases (ltb x.created_at y.created_at)) [
  | inl newer ↦
      let (above, all) = sweep-Newest y ys in
      subst (Newest x) (sym (sweep-newer x y ys newer)) (ground arith, (ground arith, all))
  | inr older ↦
      let (above, all) = sweep-Newest x ys in
      subst (Newest x) (sym (sweep-older x y ys older)) (above, (ground arith, all))
]

-- A bound on all the times is one on what a sweep leaves, and on what is sorted.
abbrev Within : ℕ → Message × List Message → Type 0
Within t (m, rest) = (m.created_at ≤ t) × All (λ y. y.created_at ≤ t) rest

sweep-Within :
    (t : ℕ) (x : Message) (xs : List Message)
    → x.created_at ≤ t
    → All (λ y. y.created_at ≤ t) xs
    → Within t (sweep x xs)
sweep-Within t x [] h hs = unfold sweep in (h, tt)
sweep-Within t x (y ∷ ys) h (k, ks) = elim (Bool-cases (ltb x.created_at y.created_at)) [
  | inl newer ↦
      let (m, all) = sweep-Within t y ys k ks in
      subst (Within t) (sym (sweep-newer x y ys newer)) (m, (h, all))
  | inr older ↦
      let (m, all) = sweep-Within t x ys h ks in
      subst (Within t) (sym (sweep-older x y ys older)) (m, (k, all))
]

sort_from-within :
    (t n : ℕ) (xs : List Message)
    → All (λ y. y.created_at ≤ t) xs
    → All (λ y. y.created_at ≤ t) (sort_from n xs)
unfolding sort_from
sort_from-within t zero xs h = h
sort_from-within t (suc n) [] h = tt
sort_from-within t (suc n) (x ∷ xs) (h, hs) =
    let (m, all) = sweep-Within t x xs h hs in (m, sort_from-within t n (sweep x xs).1 all)

length-sweep : (xs : List Message) (x : Message) → length (sweep x xs).1 ≡ length xs
unfolding sweep
length-sweep [] x = refl
length-sweep (y ∷ ys) x = ap suc (length-sweep ys _)

sort_from-perm : (n : ℕ) (xs : List Message) → Perm (sort_from n xs) xs
unfolding sort_from
sort_from-perm zero xs = Perm.refl xs
sort_from-perm (suc n) [] = Perm.refl []
sort_from-perm (suc n) (x ∷ xs) =
    Perm.trans (Perm.cons _ (sort_from-perm n (sweep x xs).1)) (sweep-perm x xs)

sort_from-IsDescending : (n : ℕ) (xs : List Message) → length xs ≤ n → IsDescending (sort_from n xs)
unfolding sort_from
sort_from-IsDescending zero [] h = tt
sort_from-IsDescending zero (x ∷ xs) h = absurd (omega arith)
sort_from-IsDescending (suc n) [] h = tt
sort_from-IsDescending (suc n) (x ∷ xs) h = (
  sort_from-within (sweep x xs).0.created_at n (sweep x xs).1 (sweep-Newest x xs).1,
  sort_from-IsDescending n (sweep x xs).1 (omega (arith, length-sweep xs x)),
)

-- Sorting the messages gives the same messages, each as often, and no message stands before a newer one.
pub sort_messages_desc-sorts :
    (msgs : List Message)
    → IsDescending (sort_messages_desc msgs) × Perm (sort_messages_desc msgs) msgs
unfolding sort_messages_desc
sort_messages_desc-sorts msgs =
    (sort_from-IsDescending (length msgs) msgs (omega arith), sort_from-perm (length msgs) msgs)
