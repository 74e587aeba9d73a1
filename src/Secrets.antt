-- ===== src/Secrets.antt =====
-- internal/secrets/secrets.go: secrets under a master key. A Go string is its bytes here, since
-- every one of them is encrypted, encoded or measured.
pub mod Laws
pub mod Tests
use ironclaw_go.Shared.{
  ℕ, String, Bool, ◌||◌, Option, none, some, List, [], Bytes, bytes, Dict, get, put, remove, keys,
  length, take, drop, has_prefix, ◌++◌, ltb, leb, ◌&&◌, is_some, if◌then◌else◌, Result, ok, err,
  ◌>>=◌,
}

-- What the code uses of crypto/aes, crypto/cipher and encoding/base64; an error is its text. `seal`
-- answers what GCM's Seal appends to the text before it, and `unseal` is its Open.
pub record Crypto (Block Aead : Type 0) : Type 0 where
  pub new_cipher : Bytes → Result String Block
  pub new_gcm : Block → Result String Aead
  pub nonce_size : Aead → ℕ
  pub seal : Aead → Bytes → Bytes → Bytes
  pub unseal : Aead → Bytes → Bytes → Result String Bytes
  pub encode : Bytes → Bytes
  pub decode : Bytes → Result String Bytes

-- io.ReadFull of rand.Reader, by the number of bytes that it is to fill.
abbrev pub Draw : Type 0
Draw = ℕ → Result String Bytes

pub record Store : Type 0 where
  pub secrets : Dict Bytes
  pub master : Bytes

pub data SecretsError : Type 0 where
  bad_master : ℕ → SecretsError
  not_found : String → SecretsError
  encrypt_failed decrypt_failed : String → SecretsError
  too_short : SecretsError

abbrev pub same : ℕ → ℕ → Bool
same m n = leb m n && leb n m

-- NewStore
unfoldable pub new_store : Bytes → Result SecretsError Store
new_store key =
    let n = length key in
    if same n 16 || same n 24 || same n 32
    then ok (record { secrets = []; master = key })
    else err (bad_master n)

-- NewStoreFromEnv
unfoldable pub new_store_from_env : Result SecretsError Store
unfolding new_store
new_store_from_env = new_store (bytes "ironclaw-default-key-32bytes!!")

abbrev pub tagged : {A : Type 0} → (String → SecretsError) → Result String A → Result SecretsError A
tagged tag (ok a) = ok a
tagged tag (err e) = err (tag e)

-- Delete
unfoldable pub delete : String → Store → Store
delete key s = record s { secrets = remove key s.secrets }

-- List
unfoldable pub list : Store → List String
list s = keys s.secrets

-- HasKey
unfoldable pub has_key : String → Store → Bool
has_key key s = is_some (get key s.secrets)

-- Inject
unfoldable pub inject : Bytes → Store → Result SecretsError Bytes
inject template s = ok template

-- ConstantTimeCompare, less the time that it takes
unfoldable pub constant_time_compare : Bytes → Bytes → Bool
unfolding has_prefix
constant_time_compare a b = same (length a) (length b) && has_prefix a b

module _ {Block Aead : Type 0} (c : Crypto Block Aead) where
  abbrev pub gcm_of : Bytes → Result String Aead
  gcm_of key = do block ← c.new_cipher key; c.new_gcm block

  -- Store.encrypt
  unfoldable pub encrypt : Draw → Bytes → Store → Result String Bytes
  encrypt draw plaintext s = do
    gcm ← gcm_of s.master
    nonce ← draw (c.nonce_size gcm)
    ok (c.encode (nonce ++ c.seal gcm nonce plaintext))

  -- Store.decrypt
  unfoldable pub decrypt : Bytes → Store → Result SecretsError Bytes
  decrypt ciphertext s = do
    coded ← tagged decrypt_failed (c.decode ciphertext)
    gcm ← tagged decrypt_failed (gcm_of s.master)
    (let n = c.nonce_size gcm in
        if ltb (length coded) n
        then err too_short
        else tagged decrypt_failed (c.unseal gcm (take n coded) (drop n coded)))

  abbrev pub stored : String → Result String Bytes → Store → Store × Result SecretsError (Unit {0})
  stored key (ok e) s = (record s { secrets = put key e s.secrets }, ok tt)
  stored key (err e) s = (s, err (encrypt_failed e))

  -- Set
  unfoldable pub set : Draw → String → Bytes → Store → Store × Result SecretsError (Unit {0})
  unfolding encrypt
  set draw key value s = stored key (encrypt draw value s) s

  abbrev pub opened : String → Option Bytes → Store → Result SecretsError Bytes
  opened key none s = err (not_found key)
  opened key (some e) s = decrypt e s

  -- Get
  unfoldable pub get_secret : String → Store → Result SecretsError Bytes
  unfolding decrypt
  get_secret key s = opened key (get key s.secrets) s

-- A call that changes the store; each Set draws its own nonce.
pub data Call : Type 0 where
  sets : Draw → String → Bytes → Call
  deletes : String → Call
