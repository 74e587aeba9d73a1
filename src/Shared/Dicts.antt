-- ===== src/Shared/Dicts.antt =====
-- Go's `map[string]T` as an association list. A Go program sees the entries of a map in no fixed
-- order; a model that walks a dictionary takes the order of the list, and the theorems hold for
-- every list.
use mathlib.Core.Path.{◌≡◌, refl}
use mathlib.Core.Bool.{Bool}
use mathlib.Core.Option.{Option, none, some}
use mathlib.Core.List.{List, [], ◌∷◌}
use native.Mathlib.Omega.{arith}
use Prim.Native.Nat.{◌+◌, ◌≤◌}
use Prim.Native.String.{String}
use text.Mathlib.Text.{◌==◌}
use text.Mathlib.TextEquality.{eq_iff}
use text.Mathlib.TextPositions.{eq_refl}
use ironclaw_go.Shared.Tests.{if◌then◌else◌, is_some}
use ironclaw_go.Shared.Lists.{length}

abbrev pub Dict {ℓ} : Type ℓ → Type ℓ
Dict V = List (String × V)

module _ {ℓ} {V : Type ℓ} where
  -- m[k]
  unfoldable pub get : String → Dict V → Option V
  get k [] = none
  get k ((j, v) ∷ m) = if j == k then some v else get k m

  -- m[k] = v
  unfoldable pub put : String → V → Dict V → Dict V
  put k v [] = (k, v) ∷ []
  put k v ((j, w) ∷ m) = if j == k then (k, v) ∷ m else (j, w) ∷ put k v m

  -- delete(m, k)
  unfoldable pub remove : String → Dict V → Dict V
  remove k [] = []
  remove k ((j, v) ∷ m) = let rest = remove k m in if j == k then rest else (j, v) ∷ rest

  -- for k, v := range m { if !keep(k, v) { delete(m, k) } }
  unfoldable pub retain : (String → V → Bool) → Dict V → Dict V
  unfolding remove
  retain keep [] = []
  retain keep ((j, v) ∷ m) =
      let rest = retain keep m in if keep j v then (j, v) ∷ rest else remove j rest

  -- the values, in the order in which a loop meets them
  unfoldable pub values : Dict V → List V
  values [] = []
  values ((j, v) ∷ m) = v ∷ values m

  -- the keys, in the order in which a loop meets them
  unfoldable pub keys : Dict V → List String
  keys [] = []
  keys ((j, v) ∷ m) = j ∷ keys m

  pub get-put :
      (k j : String) (v : V) (m : Dict V) → get j (put k v m) ≡ (if k == j then some v else get j m)
  unfolding get put
  get-put k j v [] = refl
  get-put k j v ((i, w) ∷ m) = ground (arith, eq_iff k j, eq_iff i k, eq_iff i j, get-put k j v m)

  pub get-remove :
      (k j : String) (m : Dict V) → get j (remove k m) ≡ (if k == j then none else get j m)
  unfolding get remove
  get-remove k j [] = ground arith
  get-remove k j ((i, w) ∷ m) = ground (arith, eq_iff k j, eq_iff i k, eq_iff i j, get-remove k j m)

  abbrev pub kept : (String → V → Bool) → String → Option V → Option V
  kept keep j none = none
  kept keep j (some v) = if keep j v then some v else none

  pub get-retain :
      (keep : String → V → Bool) (j : String) (m : Dict V)
      → get j (retain keep m) ≡ kept keep j (get j m)
  unfolding get retain
  get-retain keep j [] = refl
  get-retain keep j ((i, w) ∷ m) =
      ground (arith, eq_iff i j, get-retain keep j m, get-remove i j (retain keep m))

  pub get-put_self : (k : String) (v : V) (m : Dict V) → get k (put k v m) ≡ some v
  get-put_self k v m = simp (get-put, eq_refl)

  pub get-remove_self : (k : String) (m : Dict V) → get k (remove k m) ≡ none
  get-remove_self k m = simp (get-remove, eq_refl)

  -- the map grows by one for a new key, and keeps its size for an old one
  pub length-put :
      (k : String) (v : V) (m : Dict V)
      → length (put k v m) ≡ length m + (if is_some (get k m) then 0 else 1)
  unfolding get put
  length-put k v [] = refl
  length-put k v ((j, w) ∷ m) = ground (arith, length-put k v m)

  pub length-remove-le : (k : String) (m : Dict V) → length (remove k m) ≤ length m
  unfolding remove
  length-remove-le k [] = omega arith
  length-remove-le k ((j, w) ∷ m) = ground (arith, length-remove-le k m)

pub ruleset dict_laws = (get-put, get-remove, get-retain)
