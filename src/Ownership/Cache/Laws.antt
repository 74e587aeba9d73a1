-- ===== src/Ownership/Cache/Laws.antt =====
-- The cache of internal/ownership/cache.go as a map from pairs of a channel and an identifier.
use ironclaw_go.Shared.{
  HasNo, joined-eq, String, Option, none, some, ◌≡◌, refl, ◌&&◌, ◌==◌, get-put, get-remove,
  if◌then◌else◌,
}
use ironclaw_go.Ownership.{UserId}
use ironclaw_go.Ownership.Cache.{Cache, lookup, set, drop, key, slash}

-- Where no channel has a slash in its name, the cache is a map from pairs of a channel and an
-- external identifier: Set changes what Get finds at its own pair and at no other, and so does
-- Remove, after which Get finds nothing there.
pub lookup-set-drop :
    (c1 c2 e1 e2 : String) (user : Option UserId) (cache : Cache)
    → HasNo slash c1
    → HasNo slash c2
    → (lookup c2 e2 (set c1 e1 user cache) ≡ (
        if (c1 == c2) && (e1 == e2)
        then some (record { user_id = user; external_id = e1; channel = c1 })
        else lookup c2 e2 cache))
      × (lookup c2 e2 (drop c1 e1 cache)
          ≡ (if (c1 == c2) && (e1 == e2) then none else lookup c2 e2 cache))
unfolding lookup set drop key
lookup-set-drop c1 c2 e1 e2 user cache a b = (
  rw (get-put, joined-eq slash c1 c2 e1 e2 a b) refl,
  rw (get-remove, joined-eq slash c1 c2 e1 e2 a b) refl,
)
