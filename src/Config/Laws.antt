-- ===== src/Config/Laws.antt =====
-- What Load of internal/config/config.go lets through.
use ironclaw_go.Shared.{
  ℕ, zero, suc, ap, arith, sym, String, true, false, not, ◌||◌, ◌&&◌, ◌≡◌, ◌≢◌, refl, sym, ap, ◌∙◌,
  ◌⊎◌, inl, inr, Result, ok, err, ◌>>=◌, Bool-cases, ◌==◌, eq_iff,
}
use ironclaw_go.Config.{
  ℤ, pos, negsuc, Config, ConfigError, invalid_env, invalid_driver, dsn_required, Env, Files,
  at_least_one, validate, load_from_env, load_files, load, default_config,
}

-- The layers of the configuration before it is validated.
abbrev pub layers : Env → Files → String → Result ConfigError Config
layers env files path = do c ← load_from_env env default_config; load_files files path c

abbrev pub IsEnv : String → Type 0
IsEnv e = (e ≡ "development") ⊎ ((e ≡ "staging") ⊎ (e ≡ "production"))

abbrev pub IsDriver : String → Type 0
IsDriver d = (d ≡ "memory") ⊎ ((d ≡ "postgres") ⊎ (d ≡ "libsql"))

-- What a configuration must have; the name of a database is not needed for the one in memory.
abbrev pub IsSound : Config → Type 0
IsSound c =
    IsEnv c.env
    × (IsDriver c.database.driver × ((c.database.driver ≡ "memory") ⊎ (c.database.dsn ≢ "")))

abbrev pub mended : Config → Config
mended c = record c {
  agent = record c.agent { max_parallel_jobs = at_least_one c.agent.max_parallel_jobs };
}

other : (s a : String) → (s == a) ≡ false → s ≢ a
other s a x e = let same = (eq_iff s a).1 e in cc

bind_assoc :
    {E A B C : Type 0} (r : Result E A) (f : A → Result E B) (g : B → Result E C)
    → ((r >>= f) >>= g) ≡ (r >>= (λ a. f a >>= g))
bind_assoc (ok a) f g = refl
bind_assoc (err e) f g = refl

-- A number of jobs from another: the same where that is positive, and otherwise 1.
abbrev pub IsPositive : ℤ → Type 0
IsPositive z = (n : ℕ) × (z ≡ pos (suc n))

abbrev pub Raised : ℤ → ℤ → Type 0
Raised old new = (IsPositive old × (new ≡ old)) ⊎ ((¬ (IsPositive old)) × (new ≡ pos 1))

positive_part : ℤ → ℕ
positive_part (pos n) = n
positive_part (negsuc n) = 0

at_least_one-Raised : (z : ℤ) → Raised z (at_least_one z)
unfolding positive_part
at_least_one-Raised (pos zero) =
    inr (λ h. let e : 0 ≡ suc h.0 = ap positive_part h.1 in absurd (omega (arith, e)), refl)
at_least_one-Raised (pos (suc n)) = inl ((n, refl), refl)
at_least_one-Raised (negsuc n) =
    inr (λ h. let e : 0 ≡ suc h.0 = ap positive_part h.1 in absurd (omega (arith, e)), refl)

one_of :
    (s a b c : String)
    → (((s == a || s == b || s == c) ≡ true) × ((s ≡ a) ⊎ ((s ≡ b) ⊎ (s ≡ c))))
      ⊎ (((s == a || s == b || s == c) ≡ false) × ¬ ((s ≡ a) ⊎ ((s ≡ b) ⊎ (s ≡ c))))
one_of s a b c = elim (Bool-cases (s == a)) [
  | inl x ↦ inl (rw x refl, inl ((eq_iff s a).0 x))
  | inr x ↦ elim (Bool-cases (s == b)) [
    | inl y ↦ inl (rw (x, y) refl, inr (inl ((eq_iff s b).0 y)))
    | inr y ↦ elim (Bool-cases (s == c)) [
      | inl z ↦ inl (rw (x, y, z) refl, inr (inr ((eq_iff s c).0 z)))
      | inr z ↦ inr (
        rw (x, y, z) refl,
        λ h. elim h [
          | inl e ↦ other s a x e
          | inr (inl e) ↦ other s b y e
          | inr (inr e) ↦ other s c z e
        ],
      )
    ]
  ]
]

needs_dsn :
    (driver dsn : String)
    → (((not (driver == "memory") && dsn == "") ≡ false) × ((driver ≡ "memory") ⊎ (dsn ≢ "")))
      ⊎ (((not (driver == "memory") && dsn == "") ≡ true) × ¬ ((driver ≡ "memory") ⊎ (dsn ≢ "")))
needs_dsn driver dsn = elim (Bool-cases (driver == "memory")) [
  | inl memory ↦ inl (rw memory refl, inl ((eq_iff driver "memory").0 memory))
  | inr away ↦ elim (Bool-cases (dsn == "")) [
    | inr named ↦ inl (rw (away, named) refl, inr (other dsn "" named))
    | inl unnamed ↦ inr (
      rw (away, unnamed) refl,
      λ h. elim h [
        | inl e ↦ other driver "memory" away e
        | inr ne ↦ ne ((eq_iff dsn "").0 unnamed)
      ],
    )
  ]
]

-- Validation answers the configuration, with one job at least, where it is sound, and an error where not.
validate-cases :
    (d : Config)
    → (IsSound d × (validate d ≡ ok (mended d)))
      ⊎ ((¬ (IsSound d)) × ((e : ConfigError) × (validate d ≡ err e)))
unfolding validate
validate-cases d = elim (one_of d.env "development" "staging" "production") [
  | inr (no_env, strange) ↦ inr (λ h. strange h.0, (invalid_env d.env, rw no_env refl))
  | inl (env, known) ↦ elim (one_of d.database.driver "memory" "postgres" "libsql") [
    | inr (no_driver, strange) ↦
        inr (λ h. strange h.1.0, (invalid_driver d.database.driver, rw (env, no_driver) refl))
    | inl (driver, kind) ↦ elim (needs_dsn d.database.driver d.database.dsn) [
      | inl (named, dsn) ↦ inl ((known, (kind, dsn)), rw (env, driver, named) refl)
      | inr (unnamed, lacking) ↦
          inr (λ h. lacking h.1.1, (dsn_required d.database.driver, rw (env, driver, unnamed) refl))
    ]
  ]
]

-- Where the defaults, the variables of the environment and the file make a configuration, Load answers it
-- if its environment and its driver are among those that are known and a driver other than "memory" has
-- a DSN, with max_parallel_jobs as it is where it is positive and 1 where it is not, and nothing else
-- changed; otherwise Load answers an error.
pub load-layers :
    (env : Env) (files : Files) (path : String) (d : Config)
    → layers env files path ≡ ok d
    → (IsSound d
        × ((jobs : ℤ) × (Raised d.agent.max_parallel_jobs jobs
              × (load env files path
                  ≡ ok (record d { agent = record d.agent { max_parallel_jobs = jobs } })))))
      ⊎ ((¬ (IsSound d)) × ((e : ConfigError) × (load env files path ≡ err e)))
unfolding load
load-layers env files path d made =
    let whole : load env files path ≡ validate d =
      sym (bind_assoc (load_from_env env default_config) (load_files files path) validate)
      ∙ ap (λ r. r >>= validate) made in
    elim (validate-cases d) [
      | inl (sound, valid) ↦ inl (
        sound,
        (
          at_least_one d.agent.max_parallel_jobs,
          (at_least_one-Raised d.agent.max_parallel_jobs, whole ∙ valid),
        ),
      )
      | inr (unsound, (e, refused)) ↦ inr (unsound, (e, whole ∙ refused))
    ]
