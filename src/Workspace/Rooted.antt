-- ===== src/Workspace/Rooted.antt =====
-- What Clean and Join of Workspace/Clean answer on rooted paths.
use ironclaw_go.Shared.{
  String, true, false, ◌≡◌, refl, ap, ◌∙◌, List, [], ◌∷◌, ◌++◌, append_assoc, All, keep_if,
  contains, ◌==◌, Bool-cases, inl, inr,
}
use Prim.Native.String
use text.Mathlib.TextEquality.{eq_iff}
use text.Mathlib.TextLemmas
use ironclaw_go.Workspace.Clean.{slash, pieces, push_all, slashes, print, is_rooted, clean, join}
use ironclaw_go.Workspace.Paths.{
  IsPiece, IsName, is_plain, NotUp, pieces-join, push_all-append, push_all-plain,
}
use ironclaw_go.Workspace.Names.{push_all-pieces-slashes, split-NotUp}

is_rooted-full : (s : String) → is_rooted s ≡ true → (s == "") ≡ false
unfolding is_rooted
is_rooted-full s h = elim (Bool-cases (s == "")) [
  | inl empty ↦ let bare : is_rooted s ≡ false = ap is_rooted ((eq_iff s "").0 empty) in cc
  | inr full ↦ full
]

pub pieces-NotUp : (s : String) → contains s ".." ≡ false → All NotUp (pieces s)
unfolding pieces
pieces-NotUp s h = split-NotUp s h

-- A path without ".." has names alone among the pieces that are kept.
pub keep_if-IsName :
    (ps : List String) → All IsPiece ps → All NotUp ps → All IsName (keep_if is_plain ps)
keep_if-IsName [] h k = tt
keep_if-IsName (p ∷ ps) (h, hs) (k, ks) = elim (Bool-cases (p == "")) [
  | inl empty ↦ rw empty (keep_if-IsName ps hs ks)
  | inr full ↦ elim (Bool-cases (p == ".")) [
    | inl dot ↦ rw (full, dot) (keep_if-IsName ps hs ks)
    | inr plain ↦
        rw (full, plain)
          (
            record { piece = h; some_name = full; no_dot = plain; no_up = k },
            keep_if-IsName ps hs ks,
          )
  ]
]

-- What a rooted text is cleaned to.
clean-rooted :
    (s : String) → is_rooted s ≡ true → clean s ≡ print true (push_all true [] (pieces s))
unfolding clean
clean-rooted s h = rw (is_rooted-full s h, h) refl

is_rooted-append : (s t : String) → is_rooted s ≡ true → is_rooted (String.◌++◌ s t) ≡ true
unfolding is_rooted
is_rooted-append String.[] t h = cc
is_rooted-append (String.◌∷◌ c s) t h = ap is_rooted (TextLemmas.cons-append c s t) ∙ h

pub join-rooted :
    (s t : String)
    → is_rooted s ≡ true
    → join s t ≡ print true (push_all true (push_all true [] (pieces s)) (pieces t))
unfolding join
join-rooted s t h = rw (is_rooted-full s h) (
    clean-rooted (String.◌++◌ s (String.◌∷◌ slash t)) (is_rooted-append s (String.◌∷◌ slash t) h)
    ∙ ap (λ ps. print true (push_all true [] ps)) (pieces-join s t)
    ∙ ap (print true) (push_all-append true [] (pieces s) (pieces t)))

print-full : (p : String) (ps : List String) → print true (p ∷ ps) ≡ slashes (p ∷ ps)
unfolding print
print-full p ps = refl

-- Where a piece stands, what is before it and after it prints as slashes.
pub print-middle :
    (xs : List String) (p : String) (ps : List String)
    → print true (xs ++ p ∷ ps) ≡ slashes (xs ++ p ∷ ps)
print-middle [] p ps = print-full p ps
print-middle (x ∷ xs) p ps = print-full x (xs ++ p ∷ ps)

-- A rooted text printed from names is cleaned to itself, and joined with a path without "..".
back-middle :
    (xs : List String) (p : String) (ps : List String)
    → All IsName (xs ++ p ∷ ps)
    → push_all true [] (pieces (slashes (xs ++ p ∷ ps))) ≡ xs ++ p ∷ ps
back-middle [] p ps h = push_all-pieces-slashes p ps h
back-middle (x ∷ xs) p ps h = push_all-pieces-slashes x (xs ++ p ∷ ps) h

is_rooted-middle :
    (xs : List String) (p : String) (ps : List String) → is_rooted (slashes (xs ++ p ∷ ps)) ≡ true
unfolding is_rooted slashes
is_rooted-middle [] p ps = refl
is_rooted-middle (x ∷ xs) p ps = refl

pub clean-middle :
    (xs : List String) (p : String) (ps : List String)
    → All IsName (xs ++ p ∷ ps)
    → clean (slashes (xs ++ p ∷ ps)) ≡ slashes (xs ++ p ∷ ps)
clean-middle xs p ps h =
    clean-rooted (slashes (xs ++ p ∷ ps)) (is_rooted-middle xs p ps)
    ∙ ap (print true) (back-middle xs p ps h)
    ∙ print-middle xs p ps

pub join-middle :
    (xs : List String) (p path : String)
    → All IsName (xs ++ p ∷ [])
    → contains path ".." ≡ false
    → join (slashes (xs ++ p ∷ [])) path ≡ slashes (xs ++ p ∷ keep_if is_plain (pieces path))
join-middle xs p path h down =
    join-rooted (slashes (xs ++ p ∷ [])) path (is_rooted-middle xs p [])
    ∙ ap (λ ps. print true (push_all true ps (pieces path))) (back-middle xs p [] h)
    ∙ ap (print true) (
        push_all-plain true (xs ++ p ∷ []) (pieces path) (pieces-NotUp path down)
        ∙ append_assoc xs (p ∷ []) (keep_if is_plain (pieces path)))
    ∙ print-middle xs p (keep_if is_plain (pieces path))
