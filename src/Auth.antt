-- ===== src/Auth.antt =====
-- internal/auth/auth.go: who stands behind a credential.
use ironclaw_go.Shared.{String, Option, none, some, Dict, get, put, remove, Result, ok, err}

-- The two implementations of Authenticator: APIKeyAuth, by a table of keys, and NoAuth.
pub data Authenticator : Type 0 where
  api_key_auth : Dict String → Authenticator
  no_auth : Authenticator

-- APIKeyAuth.Authenticate
unfoldable pub user_of : Option String → Result String String
user_of none = err "invalid api key"
user_of (some user) = ok user

-- Authenticate
unfoldable pub authenticate : String → Authenticator → Result String String
unfolding user_of
authenticate k (api_key_auth keys) = user_of (get k keys)
authenticate k no_auth = ok "anonymous"

-- APIKeyAuth.AddKey
unfoldable pub add_key : String → String → Dict String → Dict String
add_key k user keys = put k user keys

-- APIKeyAuth.RemoveKey
unfoldable pub remove_key : String → Dict String → Dict String
remove_key k keys = remove k keys
