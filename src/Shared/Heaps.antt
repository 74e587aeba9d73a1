-- ===== src/Shared/Heaps.antt =====
-- A heap of objects that pointers share: a pointer is the place of its object, and objects are never
-- taken out.
use Prim.Native.Nat.{ℕ, zero, suc}
use mathlib.Core.Path.{◌≡◌, refl}
use mathlib.Core.Logic.{◌≢◌}
use mathlib.Core.Option.{Option, none, some}
use mathlib.Core.List.{List, [], ◌∷◌, ◌++◌}
use native.Mathlib.Omega.{arith}
use ironclaw_go.Shared.Lists.{length}

module _ {ℓ} {A : Type ℓ} where
  -- *p
  unfoldable pub get_elem? : List A → ℕ → Option A
  get_elem? [] i = none
  get_elem? (x ∷ xs) zero = some x
  get_elem? (x ∷ xs) (suc i) = get_elem? xs i

  -- *p = f(*p)
  unfoldable pub modify : ℕ → (A → A) → List A → List A
  modify i f [] = []
  modify zero f (x ∷ xs) = f x ∷ xs
  modify (suc i) f (x ∷ xs) = x ∷ modify i f xs

  -- p := &x
  unfoldable pub allocate : A → List A → List A × ℕ
  allocate x xs = (xs ++ x ∷ [], length xs)

  abbrev pub changed : (A → A) → Option A → Option A
  changed f none = none
  changed f (some x) = some (f x)

  pub get_elem?-modify :
      (i : ℕ) (f : A → A) (xs : List A) → get_elem? (modify i f xs) i ≡ changed f (get_elem? xs i)
  unfolding get_elem? modify
  get_elem?-modify i f [] = refl
  get_elem?-modify zero f (x ∷ xs) = refl
  get_elem?-modify (suc i) f (x ∷ xs) = get_elem?-modify i f xs

  pub get_elem?-modify_ne :
      (i j : ℕ) (f : A → A) (xs : List A) → i ≢ j → get_elem? (modify i f xs) j ≡ get_elem? xs j
  unfolding get_elem? modify
  get_elem?-modify_ne i j f [] ne = refl
  get_elem?-modify_ne zero zero f (x ∷ xs) ne = absurd (ne refl)
  get_elem?-modify_ne zero (suc j) f (x ∷ xs) ne = refl
  get_elem?-modify_ne (suc i) zero f (x ∷ xs) ne = refl
  get_elem?-modify_ne (suc i) (suc j) f (x ∷ xs) ne = get_elem?-modify_ne i j f xs (omega arith)

  pub get_elem?-allocate_new : (x : A) (xs : List A) → get_elem? (xs ++ x ∷ []) (length xs) ≡ some x
  unfolding get_elem?
  get_elem?-allocate_new x [] = refl
  get_elem?-allocate_new x (y ∷ xs) = get_elem?-allocate_new x xs

  pub get_elem?-allocate_old :
      (x y : A) (xs : List A) (i : ℕ)
      → get_elem? xs i ≡ some y
      → get_elem? (xs ++ x ∷ []) i ≡ some y
  unfolding get_elem?
  get_elem?-allocate_old x y [] i h = absurd (ground arith)
  get_elem?-allocate_old x y (z ∷ xs) zero h = h
  get_elem?-allocate_old x y (z ∷ xs) (suc i) h = get_elem?-allocate_old x y xs i h
