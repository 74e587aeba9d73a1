-- ===== src/Ownership.antt =====
-- internal/ownership/ownership.go: the roles of a user and what tells two users apart. What reads a
-- role from text and checks an identifier is not modelled.
use ironclaw_go.Shared.{String, Bool, true, false, ◌==◌, Option, none, some}
pub mod Cache

-- UserRole
pub data UserRole : Type 0 where
  role_regular role_admin role_owner : UserRole

-- UserID
pub record UserId : Type 0 where
  pub id : String
  pub role : UserRole

-- UserID.Equal; a nil pointer is `none`.
unfoldable pub equal : Option UserId → Option UserId → Bool
equal none none = true
equal none (some v) = false
equal (some u) none = false
equal (some u) (some v) = u.id == v.id
