-- ===== src/Ownership/Cache.antt =====
-- internal/ownership/cache.go: the users that the channels' external identifiers stand for.
use ironclaw_go.Shared.{String, Option, [], Dict, get, put, remove, ℕ, length, joined}
use Prim.Native.Char.{Char}
use ironclaw_go.Ownership.{UserId}
pub mod Laws
mod Tests

-- CacheEntry; a nil pointer is `none`.
pub record CacheEntry : Type 0 where
  pub user_id : Option UserId
  pub external_id : String
  pub channel : String

-- Cache
pub record Cache : Type 0 where
  pub by_key : Dict CacheEntry

-- NewCache
abbrev pub new_cache : Cache
new_cache = record { by_key = [] }

abbrev pub slash : Char
slash = "/"

-- Cache.key
unfoldable pub key : String → String → String
unfolding joined
key channel external_id = joined slash channel external_id

-- Cache.Get
unfoldable pub lookup : String → String → Cache → Option CacheEntry
lookup channel external_id c = get (key channel external_id) c.by_key

-- Cache.Set
unfoldable pub set : String → String → Option UserId → Cache → Cache
set channel external_id user c = record {
  by_key =
      put (key channel external_id)
        (record { user_id = user; external_id = external_id; channel = channel }) c.by_key;
}

-- Cache.Remove
unfoldable pub drop : String → String → Cache → Cache
drop channel external_id c = record { by_key = remove (key channel external_id) c.by_key }

-- Cache.Count
unfoldable pub count : Cache → ℕ
count c = length c.by_key
