-- ===== src/Safety/LeakDetector/Laws.antt =====
-- What the replacement of safety/leakdetector does to a text.
use ironclaw_go.Shared.{ℕ, zero, false, ◌≡◌, refl, [], ◌∷◌, Bytes, contains_bytes, arith}
use ironclaw_go.Safety.LeakDetector.{replace_from}

-- A text that does not hold the secret is left as it is.
replace_all-absent :
    (p : ℕ) (ps rep s : Bytes)
    → contains_bytes s (p ∷ ps) ≡ false
    → replace_from (p ∷ ps) rep zero s ≡ s
unfolding replace_from contains_bytes
replace_all-absent p ps rep [] h = refl
replace_all-absent p ps rep (c ∷ s) h = ground (arith, replace_all-absent p ps rep s)
