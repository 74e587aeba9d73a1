-- ===== src/Workspace/Names.antt =====
-- The names that Clean keeps of a rooted path, and of a path without "..".
use ironclaw_go.Shared.{
  String, Bool, true, false, ◌≡◌, refl, sym, ap, ◌∙◌, List, [], ◌∷◌, ◌++◌, All, All-append, keep_if,
  contains, starts_with, ◌==◌, ◌||◌, Bool-cases, inl, inr,
}
use Prim.Native.String
use text.Mathlib.TextEquality.{eq_iff, starts_with_iff}
use text.Mathlib.TextLemmas
use ironclaw_go.Workspace.Clean.{
  slash, is_slash, split, pieces, drop_last, at_top, go_up, push, push_all, slashes,
}
use ironclaw_go.Workspace.Paths.{
  IsPiece, IsName, is_plain, NotUp, pieces-slashes, pieces-slash, push_all-empty, push_all-plain,
}

drop_last-All : (ps : List String) → All IsName ps → All IsName (drop_last ps)
unfolding drop_last
drop_last-All [] h = tt
drop_last-All (p ∷ []) h = tt
drop_last-All (p ∷ q ∷ ps) (h, hs) = (h, drop_last-All (q ∷ ps) hs)

go_up-All : (ps : List String) → All IsName ps → All IsName (go_up true ps)
unfolding go_up
go_up-All ps h = elim (Bool-cases (at_top ps)) [
  | inl top ↦ rw top h
  | inr below ↦ rw below (drop_last-All ps h)
]

push-All : (xs : List String) (p : String) → All IsName xs → IsPiece p → All IsName (push true xs p)
unfolding push
push-All xs p h k = elim (Bool-cases (p == "")) [
  | inl empty ↦ rw empty h
  | inr full ↦ elim (Bool-cases (p == ".")) [
    | inl dot ↦ rw (full, dot) h
    | inr plain ↦ elim (Bool-cases (p == "..")) [
      | inl up ↦ rw (full, plain, up) (go_up-All xs h)
      | inr down ↦
          rw (full, plain, down)
            (All-append IsName xs (p ∷ []) h
              (record { piece = k; some_name = full; no_dot = plain; no_up = down }, tt))
    ]
  ]
]

-- At the root, what Clean keeps are names.
pub push_all-All :
    (xs ps : List String) → All IsName xs → All IsPiece ps → All IsName (push_all true xs ps)
unfolding push_all
push_all-All xs [] h k = h
push_all-All xs (p ∷ ps) h (k, ks) = push_all-All (push true xs p) ps (push-All xs p h k) ks

All-IsPiece : (ps : List String) → All IsName ps → All IsPiece ps
All-IsPiece [] h = tt
All-IsPiece (p ∷ ps) (h, hs) = (h.piece, All-IsPiece ps hs)

All-NotUp : (ps : List String) → All IsName ps → All NotUp ps
All-NotUp [] h = tt
All-NotUp (p ∷ ps) (h, hs) = (h.no_up, All-NotUp ps hs)

pub keep_if-names : (ps : List String) → All IsName ps → keep_if is_plain ps ≡ ps
keep_if-names [] h = refl
keep_if-names (p ∷ ps) (h, hs) =
    rw (h.some_name, h.no_dot) (ap (λ (r : List String). p ∷ r) (keep_if-names ps hs))

-- The pieces of a directory that Clean printed are pushed back as they were.
pub push_all-pieces-slashes :
    (p : String) (ps : List String)
    → All IsName (p ∷ ps)
    → push_all true [] (pieces (slashes (p ∷ ps))) ≡ p ∷ ps
unfolding slashes
push_all-pieces-slashes p ps h =
    ap (push_all true []) (pieces-slash (String.◌++◌ p (slashes ps)))
    ∙ push_all-empty (pieces (String.◌++◌ p (slashes ps)))
    ∙ rw (pieces-slashes p ps h.0.piece (All-IsPiece ps h.1))
        (push_all-plain true [] (p ∷ ps) (All-NotUp (p ∷ ps) h) ∙ keep_if-names (p ∷ ps) h)

pub slashes-append :
    (ps qs : List String) → slashes (ps ++ qs) ≡ String.◌++◌ (slashes ps) (slashes qs)
unfolding slashes
slashes-append [] qs = sym (TextLemmas.nil-append (slashes qs))
slashes-append (p ∷ ps) qs = rw (slashes-append ps qs) (
    ap (String.◌∷◌ slash) (sym (TextLemmas.append_assoc p (slashes ps) (slashes qs)))
    ∙ sym (TextLemmas.cons-append slash (String.◌++◌ p (slashes ps)) (slashes qs)))

-- A text starts with what stands before its first slash.
split-IsPrefix : (s : String) → (u : String) × (String.◌++◌ (split s).0 u ≡ s)
unfolding split
split-IsPrefix String.[] = ("", TextLemmas.nil-append "")
split-IsPrefix (String.◌∷◌ c s) =
    let (u, whole) = split-IsPrefix s in
    elim (Bool-cases (is_slash c)) [
      | inl here ↦ rw here (String.◌∷◌ c s, TextLemmas.nil-append (String.◌∷◌ c s))
      | inr away ↦ rw away (u, TextLemmas.cons-append c (split s).0 u ∙ ap (String.◌∷◌ c) whole)
    ]

-- A path that does not contain ".." has no piece "..".
head-NotUp : (s : String) → starts_with s ".." ≡ false → NotUp (split s).0
head-NotUp s h = elim (Bool-cases ((split s).0 == "..")) [
  | inl up ↦
      let (u, whole) = split-IsPrefix s in
      let starts : starts_with s ".." ≡ true =
        (starts_with_iff s "..").1
          (u, ap (λ p. String.◌++◌ p u) (sym ((eq_iff (split s).0 "..").0 up)) ∙ whole) in
      cc
  | inr down ↦ down
]

pub neither : (a b : Bool) → (a || b) ≡ false → (a ≡ false) × (b ≡ false)
neither true b h = cc
neither false b h = (refl, h)

pub split-NotUp : (s : String) → contains s ".." ≡ false → NotUp (split s).0 × All NotUp (split s).1
unfolding contains split
split-NotUp String.[] h = (refl, tt)
split-NotUp (String.◌∷◌ c s) h =
    let (first, later) = neither (starts_with (String.◌∷◌ c s) "..") (contains s "..") h in
    let (head, tail) = split-NotUp s later in
    (
      head-NotUp (String.◌∷◌ c s) first,
      elim (Bool-cases (is_slash c)) [ inl here ↦ rw here (head, tail) | inr away ↦ rw away tail ],
    )
