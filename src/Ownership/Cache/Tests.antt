-- ===== src/Ownership/Cache/Tests.antt =====
-- The cache of internal/ownership/cache.go at a small input.
use ironclaw_go.Shared.{HasNo, true, ◌≡◌, refl, some, get, put, remove, arith}
use ironclaw_go.Ownership.{UserId, role_regular, role_admin, equal}
use ironclaw_go.Ownership.Cache.{Cache, new_cache, lookup, set, drop, count, key, slash}

abbrev ann : UserId
ann = record { id = "ann"; role = role_regular }

abbrev bob : UserId
bob = record { id = "bob"; role = role_regular }

abbrev cache : Cache
cache = set "repl" "ext1" (some ann) new_cache

-- A slash in a channel's name makes two pairs one key: bob's entry is found for another channel.
mistaken :
    lookup "web" "eu/7" (set "web/eu" "7" (some bob) cache)
    ≡ some (record { user_id = some bob; external_id = "7"; channel = "web/eu" })
unfolding lookup set key get put
mistaken = refl

counted : count (drop "repl" "ext1" cache) ≡ 0
unfolding count drop set key put remove
counted = refl

-- The role does not tell users apart.
same_user : equal (some ann) (some (record ann { role = role_admin })) ≡ true
unfolding equal
same_user = refl

repl-HasNo : HasNo slash "repl"
unfolding HasNo
repl-HasNo = (omega arith, (omega arith, (omega arith, (omega arith, tt))))

http-HasNo : HasNo slash "http"
unfolding HasNo
http-HasNo = (omega arith, (omega arith, (omega arith, (omega arith, tt))))
