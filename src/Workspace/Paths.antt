-- ===== src/Workspace/Paths.antt =====
-- The pieces of a path, and what Clean of Workspace/Clean makes of them.
use ironclaw_go.Shared.{
  String, Bool, true, false, ◌≡◌, refl, sym, ap, ◌∙◌, List, [], ◌∷◌, ◌++◌, append-nil, append_assoc,
  All, keep_if, not, ◌==◌, ◌&&◌, Bool-cases, inl, inr,
}
use Prim.Native.Char.{Char}
use Prim.Native.String
use text.Mathlib.TextLemmas
use ironclaw_go.Workspace.Clean.{slash, is_slash, split, pieces, push, push_all, slashes}

-- No character of the piece is a slash.
unfoldable pub IsPiece : String → Type 0
IsPiece String.[] = Unit
IsPiece (String.◌∷◌ c s) = (is_slash c ≡ false) × IsPiece s

-- A piece that names an entry of a directory.
pub record IsName (p : String) : Type 0 where
  pub piece : IsPiece p
  pub some_name : (p == "") ≡ false
  pub no_dot : (p == ".") ≡ false
  pub no_up : (p == "..") ≡ false

nil-append : (s : String) → String.◌++◌ "" s ≡ s
nil-append s = String.append.nil s

cons-append :
    (c : Char) (s t : String) → String.◌++◌ (String.◌∷◌ c s) t ≡ String.◌∷◌ c (String.◌++◌ s t)
cons-append c s t = String.append.cons c s t

-- A piece before a slash is split off.
split-piece :
    (p t : String) → IsPiece p → split (String.◌++◌ p (String.◌∷◌ slash t)) ≡ (p, pieces t)
unfolding IsPiece pieces
split-piece String.[] t h = ap split (nil-append (String.◌∷◌ slash t))
split-piece (String.◌∷◌ c p) t (h, hs) =
    ap split (cons-append c p (String.◌∷◌ slash t)) ∙ rw (split-piece p t hs, split) (rw h refl)

split_whole : (p : String) → IsPiece p → split p ≡ (p, [])
unfolding IsPiece split
split_whole String.[] h = refl
split_whole (String.◌∷◌ c p) (h, hs) = rw (split_whole p hs, split) (rw h refl)

-- A slash between two texts parts their pieces.
split-join :
    (s t : String)
    → split (String.◌++◌ s (String.◌∷◌ slash t)) ≡ ((split s).0, (split s).1 ++ pieces t)
unfolding split pieces
split-join String.[] t = ap split (nil-append (String.◌∷◌ slash t))
split-join (String.◌∷◌ c s) t =
    ap split (cons-append c s (String.◌∷◌ slash t)) ∙ elim (Bool-cases (is_slash c)) [
      | inl here ↦ rw (split-join s t, split) (rw here refl)
      | inr away ↦ rw (split-join s t, split) (rw away refl)
    ]

pub pieces-join :
    (s t : String) → pieces (String.◌++◌ s (String.◌∷◌ slash t)) ≡ pieces s ++ pieces t
unfolding pieces
pieces-join s t = rw (split-join s t) refl

-- Every piece is free of slashes.
split-IsPiece : (s : String) → IsPiece (split s).0 × All IsPiece (split s).1
unfolding split IsPiece
split-IsPiece String.[] = (tt, tt)
split-IsPiece (String.◌∷◌ c s) =
    let (head, tail) = split-IsPiece s in
    elim (Bool-cases (is_slash c)) [
      | inl here ↦ rw here (tt, (head, tail))
      | inr away ↦ rw away ((away, head), tail)
    ]

pub pieces-IsPiece : (s : String) → All IsPiece (pieces s)
unfolding pieces
pieces-IsPiece s = split-IsPiece s

-- The printed pieces split into themselves.
pub pieces-slashes :
    (p : String) (ps : List String)
    → IsPiece p
    → All IsPiece ps
    → pieces (String.◌++◌ p (slashes ps)) ≡ p ∷ ps
unfolding pieces slashes split
pieces-slashes p [] h hs = ap pieces (TextLemmas.append-nil p) ∙ rw (split_whole p h) refl
pieces-slashes p (q ∷ ps) h (k, ks) =
    rw (split-piece p (String.◌++◌ q (slashes ps)) h)
      (ap (λ (r : List String). p ∷ r) (pieces-slashes q ps k ks))

-- The pieces that Clean keeps of a path without "..".
abbrev pub is_plain : String → Bool
is_plain p = not (p == "") && not (p == ".")

abbrev pub NotUp : String → Type 0
NotUp p = (p == "..") ≡ false

pub push_all-append :
    (r : Bool) (xs ps qs : List String)
    → push_all r xs (ps ++ qs) ≡ push_all r (push_all r xs ps) qs
unfolding push_all
push_all-append r xs [] qs = refl
push_all-append r xs (p ∷ ps) qs = push_all-append r (push r xs p) ps qs

-- Without "..", the pieces that are kept follow what there is.
pub push_all-plain :
    (r : Bool) (xs ps : List String) → All NotUp ps → push_all r xs ps ≡ xs ++ keep_if is_plain ps
unfolding push_all push
push_all-plain r xs [] h = sym (append-nil xs)
push_all-plain r xs (p ∷ ps) (h, hs) = elim (Bool-cases (p == "")) [
  | inl empty ↦ rw empty (push_all-plain r xs ps hs)
  | inr full ↦ elim (Bool-cases (p == ".")) [
    | inl dot ↦ rw (full, dot) (push_all-plain r xs ps hs)
    | inr plain ↦
        rw (full, plain, h)
          (push_all-plain r (xs ++ p ∷ []) ps hs ∙ append_assoc xs (p ∷ []) (keep_if is_plain ps))
  ]
]

pub pieces-slash : (s : String) → pieces (String.◌∷◌ slash s) ≡ "" ∷ pieces s
unfolding pieces split
pieces-slash s = refl

pub push_all-empty : (ps : List String) → push_all true [] ("" ∷ ps) ≡ push_all true [] ps
unfolding push_all push
push_all-empty ps = refl

pub pieces-name : (p : String) → IsPiece p → pieces p ≡ p ∷ []
unfolding pieces
pieces-name p h = rw (split_whole p h) refl
