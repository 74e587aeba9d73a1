-- ===== src/Secrets/Tests.antt =====
-- The store of internal/secrets/secrets.go on an example, with a cipher that changes nothing.
use ironclaw_go.Shared.{
  ℕ, zero, suc, String, ◌≡◌, refl, List, [], ◌∷◌, Bytes, bytes, get, put, remove, length, Result,
  ok, err, arith, ap, sym, ◌∙◌, All,
}
use ironclaw_go.Secrets.{
  Crypto, Draw, Store, bad_master, Call, sets, deletes, new_store, new_store_from_env, get_secret,
}
use ironclaw_go.Secrets.Laws.{Documented, CallFills, Fills, found, step, run, texts, run-texts}

abbrev plain : Crypto Bytes Bytes
plain = record {
  new_cipher = λ key. ok key;
  new_gcm = λ block. ok block;
  nonce_size = λ gcm. 12;
  seal = λ gcm nonce text. text;
  unseal = λ gcm nonce text. ok text;
  encode = λ b. b;
  decode = λ b. ok b;
}

plain-Documented : Documented plain
plain-Documented = record {
  keyed = λ key h. (key, refl);
  nonces = λ gcm. refl;
  opens = λ gcm nonce text h. refl;
  decodes = λ b. refl;
}

abbrev zeros : ℕ → Bytes
zeros zero = []
zeros (suc n) = 0 ∷ zeros n

length-zeros : (n : ℕ) → length (zeros n) ≡ n
length-zeros zero = refl
length-zeros (suc n) = omega (arith, length-zeros n)

abbrev bytes_of : Result String Bytes → Bytes
bytes_of (ok b) = b
bytes_of (err e) = []

abbrev draw : Draw
draw n = ok (zeros n)

draw-Fills : Fills draw
draw-Fills n b h = ap (λ r. length (bytes_of r)) (sym h) ∙ length-zeros n

abbrev master : Bytes
master = bytes "0123456789abcdef"

abbrev empty : Store
empty = record { secrets = []; master = master }

made : new_store master ≡ ok empty
unfolding new_store
made = refl

-- The key that stands for one from the environment has 30 bytes, which no store accepts.
no_store : new_store_from_env ≡ err (bad_master 30)
unfolding new_store_from_env new_store
no_store = refl

abbrev calls : List Call
calls =
    sets draw "a" (1 ∷ 2 ∷ []) ∷ sets draw "b" (3 ∷ []) ∷ sets draw "a" (4 ∷ []) ∷ deletes "b" ∷ []

last_set : get_secret plain "a" (run plain calls empty) ≡ ok (4 ∷ [])
unfolding get_secret get step remove put
last_set = refl

calls-Fills : All CallFills calls
calls-Fills = (draw-Fills, (draw-Fills, (draw-Fills, (tt, tt))))

run-texts_example :
    get_secret plain "a" (run plain calls empty) ≡ found "a" (get "a" (texts calls []))
run-texts_example = run-texts plain plain-Documented master empty calls "a" made calls-Fills
