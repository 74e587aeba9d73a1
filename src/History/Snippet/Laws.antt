-- ===== src/History/Snippet/Laws.antt =====
-- A snippet of internal/history/store.go is short and shows its match.
use ironclaw_go.Shared.{
  ℕ, zero, suc, ◌+◌, ◌-◌, ◌/◌, ◌≤◌, ◌≡◌, refl, sym, ap, ◌∙◌, true, some, [], ◌∷◌, ◌++◌,
  append_assoc, Bytes, to_lower, lower_byte, has_prefix, contains_bytes, length, take, drop, leb,
  ltb, if◌then◌else◌, arith, Bool-cases, Option-cases, inl, inr, length-append,
}
use ironclaw_go.Db.Paging.{slice}
use ironclaw_go.History.Snippet.{index, dots, marked, window, around, extract_snippet}

has_prefix-append : (p b : Bytes) → has_prefix (p ++ b) p ≡ true
unfolding has_prefix
has_prefix-append [] [] = refl
has_prefix-append [] (c ∷ b) = refl
has_prefix-append (c ∷ p) b = ground (arith, has_prefix-append p b)

prefix-rest : (s p : Bytes) → has_prefix s p ≡ true → (b : Bytes) × (s ≡ p ++ b)
unfolding has_prefix
prefix-rest s [] h = (s, refl)
prefix-rest [] (c ∷ p) h = absurd (ground arith)
prefix-rest (d ∷ s) (c ∷ p) h =
    let (b, e) = prefix-rest s p (ground arith) in
    let same : d ≡ c = ground arith in (b, rw same (ap (◌∷◌ c) e))

contains_bytes-append : (a p b : Bytes) → contains_bytes (a ++ (p ++ b)) p ≡ true
unfolding contains_bytes
contains_bytes-append [] [] [] = refl
contains_bytes-append [] [] (d ∷ b) = ground (arith, has_prefix-append [] (d ∷ b))
contains_bytes-append [] (c ∷ p) b = ground (arith, has_prefix-append (c ∷ p) b)
contains_bytes-append (d ∷ a) p b = ground (arith, contains_bytes-append a p b)

-- Where strings.Index finds the text, it stands.
index-some :
    (s p : Bytes) (i : ℕ)
    → index s p ≡ some i
    → (a b : Bytes) × (s ≡ a ++ (p ++ b)) × (length a ≡ i)
unfolding index
index-some [] p i h = elim (Bool-cases (has_prefix [] p)) [
  | inl here ↦ let (b, e) = prefix-rest [] p here in ([], b, e, ground arith)
  | inr away ↦ absurd (ground arith)
]
index-some (c ∷ s) p i h = elim (Bool-cases (has_prefix (c ∷ s) p)) [
  | inl here ↦ let (b, e) = prefix-rest (c ∷ s) p here in ([], b, e, ground arith)
  | inr away ↦ elim (Option-cases (index s p)) [
    | inl missing ↦ absurd (ground arith)
    | inr (j, found) ↦
        let (a, b, e, l) = index-some s p j found in (c ∷ a, b, ap (◌∷◌ c) e, ground arith)
  ]
]

length-take-le : (n : ℕ) (xs : Bytes) → length (take n xs) ≤ n
length-take-le zero xs = omega arith
length-take-le (suc n) [] = omega arith
length-take-le (suc n) (x ∷ xs) = omega (arith, length-take-le n xs)

map-take : (n : ℕ) (xs : Bytes) → to_lower (take n xs) ≡ take n (to_lower xs)
map-take zero xs = refl
map-take (suc n) [] = refl
map-take (suc n) (x ∷ xs) = ap (◌∷◌ (lower_byte x)) (map-take n xs)

map-drop : (n : ℕ) (xs : Bytes) → to_lower (drop n xs) ≡ drop n (to_lower xs)
map-drop zero xs = refl
map-drop (suc n) [] = refl
map-drop (suc n) (x ∷ xs) = map-drop n xs

map-append : (xs ys : Bytes) → to_lower (xs ++ ys) ≡ to_lower xs ++ to_lower ys
map-append [] ys = refl
map-append (x ∷ xs) ys = ap (◌∷◌ (lower_byte x)) (map-append xs ys)

length-to_lower : (xs : Bytes) → length (to_lower xs) ≡ length xs
length-to_lower [] = refl
length-to_lower (x ∷ xs) = ap suc (length-to_lower xs)

drop-within :
    (n : ℕ) (a s : Bytes)
    → n ≤ length a
    → (a' : Bytes) × (drop n (a ++ s) ≡ a' ++ s) × (length a' ≡ length a - n)
drop-within zero a s h = (a, refl, omega arith)
drop-within (suc n) [] s h = absurd (omega arith)
drop-within (suc n) (x ∷ a) s h =
    let (a', e, l) = drop-within n a s (omega arith) in (a', e, omega (arith, l))

take-beyond : (n : ℕ) (s b : Bytes) → length s ≤ n → (b' : Bytes) × (take n (s ++ b) ≡ s ++ b')
take-beyond n [] b h = (take n b, refl)
take-beyond zero (x ∷ s) b h = absurd (omega arith)
take-beyond (suc n) (x ∷ s) b h =
    let (b', e) = take-beyond n s b (omega arith) in (b', ap (◌∷◌ x) e)

-- A slice that spans a part of the text contains it.
slice-spans :
    (lo hi : ℕ) (a p b : Bytes)
    → lo ≤ length a
    → length a + length p ≤ hi
    → (a' b' : Bytes) × (slice lo hi (a ++ (p ++ b)) ≡ a' ++ (p ++ b'))
unfolding slice
slice-spans lo hi a p b left right =
    let (a', e, l) = drop-within lo a (p ++ b) left in
    let (b', e') = take-beyond (hi - lo) (a' ++ p) b (omega (arith, length-append a' p, l)) in
    (a', b', rw e (ap (take (hi - lo)) (sym (append_assoc a' p b)) ∙ e' ∙ append_assoc a' p b'))

index-found : (s p : Bytes) → contains_bytes s p ≡ true → (i : ℕ) × (index s p ≡ some i)
unfolding index contains_bytes
index-found [] p h = (0, ground arith)
index-found (c ∷ s) p h = elim (Bool-cases (has_prefix (c ∷ s) p)) [
  | inl here ↦ (0, ground arith)
  | inr away ↦ let (i, e) = index-found s p (ground arith) in (suc i, ground arith)
]

-- The window lies in the text, is no longer than it may be, and spans a match that is short enough.
window-lies :
    (i m n : ℕ) → m ≤ n → let (lo, hi) = window i m n in (lo ≤ hi) × (hi ≤ n) × (hi - lo ≤ m)
unfolding window
window-lies i m n h = ground arith

window-spans :
    (i q m n : ℕ)
    → m ≤ n
    → i + q ≤ n
    → q + m / 4 ≤ m
    → let (lo, hi) = window i m n in (lo ≤ i) × (i + q ≤ hi)
unfolding window
window-spans i q m n h k short = ground arith

length-marked-le :
    (lo hi m : ℕ) (content : Bytes) → hi - lo ≤ m → length (marked lo hi content) ≤ m + 6
unfolding marked slice
length-marked-le lo hi m content h = ground (
  arith,
  length-append (if ltb 0 lo then dots else [])
      (take (hi - lo) (drop lo content) ++ (if ltb hi (length content) then dots else [])),
  length-append (take (hi - lo) (drop lo content)) (if ltb hi (length content) then dots else []),
  length-take-le (hi - lo) (drop lo content),
)

to_lower-slice : (lo hi : ℕ) (xs : Bytes) → to_lower (slice lo hi xs) ≡ slice lo hi (to_lower xs)
unfolding slice
to_lower-slice lo hi xs = map-take (hi - lo) (drop lo xs) ∙ ap (take (hi - lo)) (map-drop lo xs)

-- What stands in the slice stands in the snippet.
marked-contains :
    (lo hi : ℕ) (content a p b : Bytes)
    → slice lo hi (to_lower content) ≡ a ++ (p ++ b)
    → contains_bytes (to_lower (marked lo hi content)) p ≡ true
unfolding marked
marked-contains lo hi content a p b e =
    let before : Bytes = if ltb 0 lo then dots else [] in
    let after : Bytes = if ltb hi (length content) then dots else [] in
    let spread : to_lower (marked lo hi content)
        ≡ (to_lower before ++ a) ++ (p ++ (b ++ to_lower after)) =
      map-append before (slice lo hi content ++ after)
      ∙ ap (◌++◌ (to_lower before)) (map-append (slice lo hi content) after)
      ∙ ap (λ x. to_lower before ++ (x ++ to_lower after)) (to_lower-slice lo hi content ∙ e)
      ∙ simp (append_assoc) in
    rw spread (contains_bytes-append (to_lower before ++ a) p (b ++ to_lower after))

-- Where strings.ToLower changes the ASCII letters alone of the text and of the query, the snippet of a
-- text that contains the query, up to the case of these letters, contains it too and is at most six bytes
-- longer than it should be, if the query leaves a quarter of that length free.
pub extract_snippet-shows :
    (lower : Bytes → Bytes) (content query : Bytes) (m : ℕ)
    → lower content ≡ to_lower content
    → lower query ≡ to_lower query
    → contains_bytes (to_lower content) (to_lower query) ≡ true
    → length query + m / 4 ≤ m
    → (contains_bytes (to_lower (extract_snippet lower content query m)) (to_lower query) ≡ true)
      × (length (extract_snippet lower content query m) ≤ m + 6)
unfolding extract_snippet
extract_snippet-shows lower content query m ascii plain found short =
    elim (Bool-cases (leb (length content) m)) [
      | inl small ↦ rw small (found, ground arith)
      | inr large ↦
          let (i, at) = index-found (to_lower content) (to_lower query) found in
          let at_low : index (lower content) (lower query) ≡ some i = rw (ascii, plain) at in
          rw large (rw at_low (shown i at (ground arith)))
    ]
  where
    n : ℕ
    n = length content

    shown :
        (i : ℕ)
        → index (to_lower content) (to_lower query) ≡ some i
        → m ≤ n
        → (contains_bytes (to_lower (around content m (some i))) (to_lower query) ≡ true)
          × (length (around content m (some i)) ≤ m + 6)
    shown i at h =
        let (a, b, e, l) = index-some (to_lower content) (to_lower query) i at in
        let fits : i + length query ≤ n = omega (
          arith,
          l,
          ap length e,
          length-to_lower content,
          length-to_lower query,
          length-append a (to_lower query ++ b),
          length-append (to_lower query) b,
        ) in
        let (left, right) = window-spans i (length query) m n h fits short in
        let (lo_hi, hi_n, len) = window-lies i m n h in
        let (lo, hi) = window i m n in
        let (a', b', s) =
          slice-spans lo hi a (to_lower query) b (omega (arith, l))
            (omega (arith, l, length-to_lower query)) in
        (
          marked-contains lo hi content a' (to_lower query) b' (ap (slice lo hi) e ∙ s),
          length-marked-le lo hi m content len,
        )
