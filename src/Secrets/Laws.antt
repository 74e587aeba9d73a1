-- ===== src/Secrets/Laws.antt =====
-- What Get of internal/secrets/secrets.go answers after any calls.
use ironclaw_go.Shared.{
  ℕ, String, Bool, true, false, ◌≡◌, refl, sym, ap, subst, ◌∙◌, ◌⊎◌, inl, inr, ◌||◌, Option, none,
  some, List, [], ◌∷◌, ◌++◌, Bytes, Dict, get, put, remove, get-put, get-remove, length, take, drop,
  ltb, le→ltb, if◌then◌else◌, ◌==◌, Result, ok, err, All, arith, take-append, Result-cases,
  Bool-cases, drop-append, length-append,
}
use ironclaw_go.Secrets.{
  Crypto, Draw, Store, SecretsError, not_found, Call, sets, deletes, new_store, delete, gcm_of,
  encrypt, decrypt, decrypt_failed, bad_master, same, tagged, set, stored, opened, get_secret,
}

abbrev pub IsAesKey : Bytes → Type 0
IsAesKey key = (length key ≡ 16) ⊎ ((length key ≡ 24) ⊎ (length key ≡ 32))

module _ {Block Aead : Type 0} where
  -- What the packages document: AES takes keys of these lengths, GCM has nonces of 12 bytes and opens what it sealed, and base64 is
  -- decoded to what was encoded.
  pub record Documented (c : Crypto Block Aead) : Type 0 where
    pub keyed : (key : Bytes) → IsAesKey key → (a : Aead) × (gcm_of c key ≡ ok a)
    pub nonces : (a : Aead) → c.nonce_size a ≡ 12
    pub opens :
        (a : Aead) (nonce plain : Bytes)
        → length nonce ≡ c.nonce_size a
        → c.unseal a nonce (c.seal a nonce plain) ≡ ok plain
    pub decodes : (b : Bytes) → c.decode (c.encode b) ≡ ok b

-- A draw fills all that it is asked to, or fails.
abbrev pub Fills : Draw → Type 0
Fills draw = (n : ℕ) (b : Bytes) → draw n ≡ ok b → length b ≡ n

abbrev pub CallFills : Call → Type 0
CallFills (sets draw key value) = Fills draw
CallFills (deletes key) = Unit

store_of : Result SecretsError Store → Store → Store
store_of (ok s) other = s
store_of (err e) other = other

aes_key : (n : ℕ) → (same n 16 || same n 24 || same n 32) ≡ true → (n ≡ 16) ⊎ ((n ≡ 24) ⊎ (n ≡ 32))
aes_key n h = ground arith

made_of :
    (fits : Bool) (n : ℕ) (t s : Store)
    → (if fits then ok t else err (bad_master n)) ≡ ok s
    → (fits ≡ true) × (s ≡ t)
unfolding store_of
made_of true n t s h = (refl, sym (ap (λ r. store_of r t) h))
made_of false n t s h = cc

new_store-ok :
    (master : Bytes) (s : Store)
    → new_store master ≡ ok s
    → IsAesKey master × (s ≡ record { secrets = []; master = master })
unfolding new_store
new_store-ok master s made =
    let n = length master in
    let (fits, fresh) =
      made_of (same n 16 || same n 24 || same n 32) n (record { secrets = []; master = master }) s
        made in
    (aes_key n fits, fresh)

-- What Get answers of a map of plain texts.
abbrev pub found : String → Option Bytes → Result SecretsError Bytes
found key none = err (not_found key)
found key (some v) = ok v

abbrev pub set_if_drawn : String → Bytes → Result String Bytes → Dict Bytes → Dict Bytes
set_if_drawn key value (ok nonce) plain = put key value plain
set_if_drawn key value (err e) plain = plain

-- The plain texts, where a Set counts that could draw its nonce.
unfoldable pub texts_step : Call → Dict Bytes → Dict Bytes
texts_step (sets draw key value) plain = set_if_drawn key value (draw 12) plain
texts_step (deletes key) plain = remove key plain

abbrev pub texts : List Call → Dict Bytes → Dict Bytes
texts [] plain = plain
texts (call ∷ calls) plain = texts calls (texts_step call plain)

module _ {Block Aead : Type 0} (c : Crypto Block Aead) where
  unfoldable pub step : Call → Store → Store
  unfolding set delete
  step (sets draw key value) s = (set c draw key value s).0
  step (deletes key) s = delete key s

  abbrev pub run : List Call → Store → Store
  run [] s = s
  run (call ∷ calls) s = run calls (step call s)

  -- The store holds the plain texts.
  abbrev Holds : Aead → Store → Dict Bytes → Type 0
  Holds a s plain =
      (gcm_of c s.master ≡ ok a) × ((key : String) → get_secret c key s ≡ found key (get key plain))

  -- What Set stores, Get opens, where the nonce is whole.
  decrypt-sealed :
      (doc : Documented c) (a : Aead) (nonce value : Bytes) (s : Store)
      → gcm_of c s.master ≡ ok a
      → length nonce ≡ c.nonce_size a
      → decrypt c (c.encode (nonce ++ c.seal a nonce value)) s ≡ ok value
  unfolding decrypt
  decrypt-sealed doc a nonce value s keyed whole =
      let coded = nonce ++ c.seal a nonce value in
      let fits : ltb (length coded) (c.nonce_size a) ≡ false =
        le→ltb (length coded) (c.nonce_size a)
          (omega (arith, whole, length-append nonce (c.seal a nonce value))) in
      let first : take (c.nonce_size a) coded ≡ nonce =
        rw (sym whole) (take-append nonce (c.seal a nonce value)) in
      let rest : drop (c.nonce_size a) coded ≡ c.seal a nonce value =
        rw (sym whole) (drop-append nonce (c.seal a nonce value)) in
      rw (doc.decodes coded, keyed, fits)
        (rw (first, rest) (ap (tagged decrypt_failed) (doc.opens a nonce value whole)))

  opened-secrets :
      (key : String) (o : Option Bytes) (s : Store) (kept : Dict Bytes)
      → opened c key o (record s { secrets = kept }) ≡ opened c key o s
  unfolding decrypt
  opened-secrets key none s kept = refl
  opened-secrets key (some e) s kept = refl

  get-put_sealed :
      (doc : Documented c) (a : Aead) (nonce value : Bytes) (key : String) (s : Store)
      (plain : Dict Bytes)
      → length nonce ≡ c.nonce_size a
      → Holds a s plain
      → Holds a
          (record s { secrets = put key (c.encode (nonce ++ c.seal a nonce value)) s.secrets })
          (put key value plain)
  unfolding get_secret
  get-put_sealed doc a nonce value key s plain whole (keyed, holds) = (
    keyed,
    λ j. elim (Bool-cases (key == j)) [
      | inl here ↦
          rw (get-put key j (c.encode (nonce ++ c.seal a nonce value)) s.secrets, here)
            (rw (get-put key j value plain, here)
              (decrypt-sealed doc a nonce value
                (record s {
                  secrets = put key (c.encode (nonce ++ c.seal a nonce value)) s.secrets;
                })
                keyed whole))
      | inr away ↦
          rw (get-put key j (c.encode (nonce ++ c.seal a nonce value)) s.secrets, away)
            (rw (get-put key j value plain, away)
              (opened-secrets j (get j s.secrets) s
                  (put key (c.encode (nonce ++ c.seal a nonce value)) s.secrets)
                ∙ holds j))
    ],
  )

  encrypt-ok :
      (draw : Draw) (value : Bytes) (s : Store) (a : Aead) (nonce : Bytes)
      → gcm_of c s.master ≡ ok a
      → draw (c.nonce_size a) ≡ ok nonce
      → encrypt c draw value s ≡ ok (c.encode (nonce ++ c.seal a nonce value))
  unfolding encrypt
  encrypt-ok draw value s a nonce keyed drawn = rw keyed (rw drawn refl)

  encrypt-err :
      (draw : Draw) (value : Bytes) (s : Store) (a : Aead) (e : String)
      → gcm_of c s.master ≡ ok a
      → draw (c.nonce_size a) ≡ err e
      → encrypt c draw value s ≡ err e
  unfolding encrypt
  encrypt-err draw value s a e keyed failed = rw keyed (rw failed refl)

  get-remove_secret :
      (key j : String) (s : Store) (plain : Dict Bytes)
      → ((i : String) → get_secret c i s ≡ found i (get i plain))
      → get_secret c j (delete key s) ≡ found j (get j (remove key plain))
  unfolding get_secret delete
  get-remove_secret key j s plain holds = elim (Bool-cases (key == j)) [
    | inl here ↦ rw (get-remove key j s.secrets, here) (rw (get-remove key j plain, here) refl)
    | inr away ↦
        rw (get-remove key j s.secrets, away)
          (rw (get-remove key j plain, away)
            (opened-secrets j (get j s.secrets) s (remove key s.secrets) ∙ holds j))
  ]

  step-Holds :
      (doc : Documented c) (call : Call) (a : Aead) (s : Store) (plain : Dict Bytes)
      → CallFills call
      → Holds a s plain
      → Holds a (step call s) (texts_step call plain)
  unfolding step texts_step set
  step-Holds doc (sets draw key value) a s plain h (keyed, holds) =
      let result = λ (r : Result String Bytes) (d : Result String Bytes).
        Holds a (stored c key r s).0 (set_if_drawn key value d plain) in
      elim (Result-cases (draw 12)) [
        | inl (nonce, drawn) ↦
            let whole : length nonce ≡ c.nonce_size a = h 12 nonce drawn ∙ sym (doc.nonces a) in
            let sealed = get-put_sealed doc a nonce value key s plain whole (keyed, holds) in
            let d = ap draw (doc.nonces a) ∙ drawn in
            subst (λ r. result r (draw 12)) (sym (encrypt-ok draw value s a nonce keyed d))
              (subst (result (ok (c.encode (nonce ++ c.seal a nonce value)))) (sym drawn) sealed)
        | inr (e, failed) ↦
            let d = ap draw (doc.nonces a) ∙ failed in
            subst (λ r. result r (draw 12)) (sym (encrypt-err draw value s a e keyed d))
              (subst (result (err e)) (sym failed) (keyed, holds))
      ]
  step-Holds doc (deletes key) a s plain h (keyed, holds) =
      (keyed, λ j. get-remove_secret key j s plain holds)

  run-Holds :
      (doc : Documented c) (calls : List Call) (a : Aead) (s : Store) (plain : Dict Bytes)
      → All CallFills calls
      → Holds a s plain
      → Holds a (run calls s) (texts calls plain)
  run-Holds doc [] a s plain h k = k
  run-Holds doc (call ∷ calls) a s plain (h, hs) k =
      run-Holds doc calls a (step call s) (texts_step call plain) hs
        (step-Holds doc call a s plain h k)

  start-Holds :
      (a : Aead) (master : Bytes) (s : Store)
      → gcm_of c master ≡ ok a
      → s ≡ record { secrets = []; master = master }
      → Holds a s []
  unfolding get_secret get
  start-Holds a master s keyed fresh = subst (λ t. Holds a t []) (sym fresh) (keyed, λ j. refl)

  -- Where the crypto packages do what they document and each nonce is drawn whole or not at all, Get
  -- answers after any calls of Set and Delete on a new store what a map of plain texts does: the value
  -- of the last Set of the key that could draw its nonce, unless a Delete came after it.
  pub run-texts :
      (doc : Documented c) (master : Bytes) (s : Store) (calls : List Call) (key : String)
      → new_store master ≡ ok s
      → All CallFills calls
      → get_secret c key (run calls s) ≡ found key (get key (texts calls []))
  run-texts doc master s calls key made fills =
      let (aes, fresh) = new_store-ok master s made in
      let (a, keyed) = doc.keyed master aes in
      (run-Holds doc calls a s [] fills (start-Holds a master s keyed fresh)).1 key
