-- ===== src/Db/Paging.antt =====
-- The pages of the lists of internal/db/memory.go: result[offset:end].
use ironclaw_go.Shared.{
  ℕ, zero, suc, ◌+◌, ◌-◌, ◌^◌, ◌≤◌, ◌<◌, ◌≡◌, refl, ap, sym, ◌∙◌, true, Option, none, some, List,
  [], ◌∷◌, ◌++◌, length, take, drop, leb, ltb, if◌then◌else◌, arith, length-drop, Bool-cases, inl,
  inr, ◌≢◌, ◌⊎◌,
}

-- The end of a page: offset + limit in 64 bits (`none` is a negative number), or the whole length.
unfoldable pub page_end : ℕ → ℕ → ℕ → Option ℕ
page_end limit offset n =
    if leb limit 0
    then some n
    else if leb (2 ^ 63) (offset + limit)
    then none
    else if ltb n (offset + limit)
    then some n
    else some (offset + limit)

-- s[lo:hi], where the indices are in range.
unfoldable pub slice {ℓ} : {A : Type ℓ} → ℕ → ℕ → List A → List A
slice lo hi xs = take (hi - lo) (drop lo xs)

abbrev pub sliced {ℓ} : {A : Type ℓ} → ℕ → List A → Option ℕ → Option (List A)
sliced offset xs none = none
sliced offset xs (some e) = some (slice offset e xs)

-- The paging that ListConversations, GetMessagesByThread and ListJobs share. `none` is the panic of a
-- slice whose end is negative.
unfoldable pub page {ℓ} : {A : Type ℓ} → ℕ → ℕ → List A → Option (List A)
unfolding page_end slice
page limit offset xs =
    if leb (length xs) offset then some [] else sliced offset xs (page_end limit offset (length xs))

page_end-cases :
    (limit offset n : ℕ)
    → 0 < limit
    → offset + limit < 2 ^ 63
    → ((page_end limit offset n ≡ some n) × (n ≤ offset + limit))
      ⊎ (page_end limit offset n ≡ some (offset + limit))
unfolding page_end
page_end-cases limit offset n pos small = elim (Bool-cases (ltb n (offset + limit))) [
  | inl over ↦ inl (ground arith, ground arith)
  | inr under ↦ inr (ground arith)
]

module _ {ℓ} {A : Type ℓ} where
  take-long : (n : ℕ) (xs : List A) → length xs ≤ n → take n xs ≡ xs
  take-long zero [] h = refl
  take-long zero (x ∷ xs) h = absurd (omega arith)
  take-long (suc n) [] h = refl
  take-long (suc n) (x ∷ xs) h = ap (◌∷◌ x) (take-long n xs (omega arith))

  drop-long : (n : ℕ) (xs : List A) → length xs ≤ n → drop n xs ≡ []
  drop-long zero [] h = refl
  drop-long zero (x ∷ xs) h = absurd (omega arith)
  drop-long (suc n) [] h = refl
  drop-long (suc n) (x ∷ xs) h = drop-long n xs (omega arith)

  drop-long-take : (limit n : ℕ) (xs : List A) → length xs ≤ n → take limit (drop n xs) ≡ []
  drop-long-take limit n xs h = rw (drop-long n xs h) (take-long limit [] (omega arith))

  take-append-drop : (n : ℕ) (xs : List A) → take n xs ++ drop n xs ≡ xs
  take-append-drop zero xs = refl
  take-append-drop (suc n) [] = refl
  take-append-drop (suc n) (x ∷ xs) = ap (◌∷◌ x) (take-append-drop n xs)

  drop-drop : (m n : ℕ) (xs : List A) → drop m (drop n xs) ≡ drop (n + m) xs
  drop-drop m zero xs = let e : 0 + m ≡ m = omega arith in rw e refl
  drop-drop m (suc n) [] =
      drop-long m [] (omega arith) ∙ sym (drop-long (suc n + m) [] (omega arith))
  drop-drop m (suc n) (x ∷ xs) =
      let e : suc n + m ≡ suc (n + m) = omega arith in rw e (drop-drop m n xs)

  slice-whole :
      (limit offset : ℕ) (xs : List A)
      → length xs ≤ offset + limit
      → slice offset (length xs) xs ≡ take limit (drop offset xs)
  unfolding slice
  slice-whole limit offset xs h =
      take-long (length xs - offset) (drop offset xs) (omega (arith, length-drop offset xs))
      ∙ sym (take-long limit (drop offset xs) (omega (arith, length-drop offset xs)))

  slice-part :
      (limit offset : ℕ) (xs : List A)
      → slice offset (offset + limit) xs ≡ take limit (drop offset xs)
  unfolding slice
  slice-part limit offset xs = let e : offset + limit - offset ≡ limit = omega arith in rw e refl

  -- A page of a positive limit is the next `limit` elements.
  pub page_lem :
      (limit offset : ℕ) (xs : List A)
      → 0 < limit
      → offset + limit < 2 ^ 63
      → page limit offset xs ≡ some (take limit (drop offset xs))
  unfolding page
  page_lem limit offset xs pos small = elim (Bool-cases (leb (length xs) offset)) [
    | inl past ↦ rw past (ap some (sym (drop-long-take limit offset xs (ground arith))))
    | inr within ↦ rw within (elim (page_end-cases limit offset (length xs) pos small) [
      | inl (e, whole) ↦ rw e (ap some (slice-whole limit offset xs whole))
      | inr e ↦ rw e (ap some (slice-part limit offset xs))
    ])
  ]

  page_past : (limit offset : ℕ) (xs : List A) → length xs ≤ offset → page limit offset xs ≡ some []
  unfolding page
  page_past limit offset xs h =
      let past : leb (length xs) offset ≡ true = ground arith in rw past refl

  -- The same where the list is short, wherever the page begins.
  page_short :
      (limit offset : ℕ) (xs : List A)
      → 0 < limit
      → length xs + limit < 2 ^ 63
      → page limit offset xs ≡ some (take limit (drop offset xs))
  page_short limit offset xs pos small = elim (Bool-cases (leb (length xs) offset)) [
    | inl past ↦
        page_past limit offset xs (ground arith)
        ∙ ap some (sym (drop-long-take limit offset xs (ground arith)))
    | inr within ↦ page_lem limit offset xs pos (ground arith)
  ]

  -- The calls of a caller that asks for one page after the other, from an offset on, each from where the
  -- last one ended, until a page is empty: the pages that it was given before the empty one.
  pub data Walk (limit : ℕ) (xs : List A) : ℕ → List (List A) → Type ℓ where
    over : {offset : ℕ} → page limit offset xs ≡ some [] → Walk limit xs offset []
    next :
        {offset : ℕ} {p : List A} {ps : List (List A)}
        → page limit offset xs ≡ some p
        → p ≢ []
        → Walk limit xs (offset + limit) ps
        → Walk limit xs offset (p ∷ ps)

  abbrev pub joined : List (List A) → List A
  joined [] = []
  joined (p ∷ ps) = p ++ joined ps

  nil_or_cons : (xs : List A) → (xs ≡ []) ⊎ (xs ≢ [])
  nil_or_cons [] = inl refl
  nil_or_cons (x ∷ xs) = inr (λ e. absurd (omega (arith, ap length e)))

  take-full : (n : ℕ) (xs : List A) → 0 < n → xs ≢ [] → take n xs ≢ []
  take-full zero xs pos full e = absurd (omega arith)
  take-full (suc n) [] pos full e = full refl
  take-full (suc n) (x ∷ xs) pos full e = absurd (omega (arith, ap length e))

  empty_page :
      (limit offset : ℕ) (xs : List A)
      → 0 < limit
      → length xs + limit < 2 ^ 63
      → drop offset xs ≡ []
      → page limit offset xs ≡ some []
  empty_page limit offset xs pos small gone =
      page_short limit offset xs pos small
      ∙ ap (λ (r : List A). some (take limit r)) gone
      ∙ ap some (take-long limit [] (omega arith))

  pages-drop :
      (f limit offset : ℕ) (xs : List A)
      → 0 < limit
      → length xs + limit < 2 ^ 63
      → length xs - offset ≤ f
      → (ps : List (List A)) × Walk limit xs offset ps
        × (joined ps ≡ drop offset xs)
        × (length ps ≤ f)
  pages-drop zero limit offset xs pos small enough =
      let gone = drop-long offset xs (omega (arith, enough)) in
      ([], over (empty_page limit offset xs pos small gone), sym gone, omega arith)
  pages-drop (suc f) limit offset xs pos small enough = elim (nil_or_cons (drop offset xs)) [
    | inl gone ↦ ([], over (empty_page limit offset xs pos small gone), sym gone, omega arith)
    | inr full ↦
        let (ps, calls, whole, few) =
          pages-drop f limit (offset + limit) xs pos small (omega (arith, enough)) in
        (
          take limit (drop offset xs) ∷ ps,
          next (page_short limit offset xs pos small) (take-full limit (drop offset xs) pos full)
              calls,
          ap (◌++◌ (take limit (drop offset xs))) (whole ∙ sym (drop-drop limit offset xs))
              ∙ take-append-drop limit (drop offset xs),
          omega (arith, few),
        )
  ]

  -- A caller that asks for the pages of a positive limit one after the other, each from where the last
  -- one ended, comes to an empty page after at most as many pages as the list has elements. No call
  -- panics, and the pages before the empty one, joined, are the whole list in its order; where the length
  -- and the limit together stay below 2^63.
  pub pages-whole :
      (limit : ℕ) (xs : List A)
      → 0 < limit
      → length xs + limit < 2 ^ 63
      → (ps : List (List A)) × Walk limit xs 0 ps × (joined ps ≡ xs) × (length ps ≤ length xs)
  pages-whole limit xs pos small = pages-drop (length xs) limit 0 xs pos small (omega arith)
