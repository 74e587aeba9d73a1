-- ===== src/Shared/Keys.antt =====
-- Keys that the program joins from two texts with a character between them: they tell apart the pairs
-- whose first text does not have that character.
use Prim.Native.Char.{Char, code}
use Prim.Native.String
use Prim.Native.String.{String}
use Prim.Native.Nat.{ℕ}
use mathlib.Core.Path.{◌≡◌, refl, sym, ap, ◌∙◌}
use mathlib.Core.Logic.{◌≢◌}
use mathlib.Core.Bool.{◌&&◌}
use native.Mathlib.Omega.{arith}
use text.Mathlib.Text.{◌==◌}
use text.Mathlib.TextEquality.{Char-path, eq_iff}

-- first + sep + second
unfoldable pub joined : Char → String → String → String
joined sep first second = String.◌++◌ first (String.◌∷◌ sep second)

-- No character of the text is `sep`.
unfoldable pub HasNo : Char → String → Type 0
HasNo sep String.[] = Unit
HasNo sep (String.◌∷◌ c s) = (code c ≢ code sep) × HasNo sep s

first_code : String → ℕ
first_code String.[] = 0
first_code (String.◌∷◌ c s) = code c

behind : String → String
behind String.[] = ""
behind (String.◌∷◌ c s) = s

parts : (c d : Char) (s t : String) → String.◌∷◌ c s ≡ String.◌∷◌ d t → (code c ≡ code d) × (s ≡ t)
unfolding first_code behind
parts c d s t e = (ap first_code e, ap behind e)

module _ (sep : Char) where
  joined-first : (second : String) → joined sep "" second ≡ String.◌∷◌ sep second
  unfolding joined
  joined-first second = String.append.nil (String.◌∷◌ sep second)

  joined-next :
      (c : Char) (first second : String)
      → joined sep (String.◌∷◌ c first) second ≡ String.◌∷◌ c (joined sep first second)
  unfolding joined
  joined-next c first second = String.append.cons c first (String.◌∷◌ sep second)

  pub joined-injective :
      (c1 c2 e1 e2 : String)
      → HasNo sep c1
      → HasNo sep c2
      → joined sep c1 e1 ≡ joined sep c2 e2
      → (c1 ≡ c2) × (e1 ≡ e2)
  unfolding HasNo
  joined-injective String.[] String.[] e1 e2 a b e =
      (refl, (parts sep sep e1 e2 (sym (joined-first e1) ∙ e ∙ joined-first e2)).1)
  joined-injective String.[] (String.◌∷◌ d t) e1 e2 a b e = absurd (
      b.0
        (sym (parts sep d e1 (joined sep t e2) (sym (joined-first e1) ∙ e ∙ joined-next d t e2)).0))
  joined-injective (String.◌∷◌ c s) String.[] e1 e2 a b e =
      absurd
        (a.0 (parts c sep (joined sep s e1) e2 (sym (joined-next c s e1) ∙ e ∙ joined-first e2)).0)
  joined-injective (String.◌∷◌ c s) (String.◌∷◌ d t) e1 e2 a b e =
      let (same, rest) =
        parts c d (joined sep s e1) (joined sep t e2)
          (sym (joined-next c s e1) ∙ e ∙ joined-next d t e2) in
      let (firsts, seconds) = joined-injective s t e1 e2 a.1 b.1 rest in
      (ap (λ x. String.◌∷◌ x s) (Char-path c d same) ∙ ap (String.◌∷◌ d) firsts, seconds)

  -- Two keys are compared as the two pairs are.
  pub joined-eq :
      (c1 c2 e1 e2 : String)
      → HasNo sep c1
      → HasNo sep c2
      → (joined sep c1 e1 == joined sep c2 e2) ≡ ((c1 == c2) && (e1 == e2))
  joined-eq c1 c2 e1 e2 a b = ground (
    arith,
    eq_iff (joined sep c1 e1) (joined sep c2 e2),
    eq_iff c1 c2,
    eq_iff e1 e2,
    joined-injective c1 c2 e1 e2 a b,
    alike,
  )
    where
      alike : c1 ≡ c2 → e1 ≡ e2 → joined sep c1 e1 ≡ joined sep c2 e2
      alike p q = ap (λ c. joined sep c e1) p ∙ ap (joined sep c2) q
