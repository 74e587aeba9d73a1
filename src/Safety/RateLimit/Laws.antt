-- ===== src/Safety/RateLimit/Laws.antt =====
-- How many calls safety/ratelimit.go lets through.
use ironclaw_go.Shared.{
  ℕ, ◌+◌, ◌-◌, ◌≤◌, min, max, String, Bool, true, false, ◌≡◌, refl, ◌∙◌, ◌≢◌, inl, inr, none, some,
  List, [], ◌∷◌, get, get-put, get-put_self, subst, eq_iff, eq_refl, arith, ltb, if◌then◌else◌,
  ◌==◌, All, Option-cases, Bool-cases,
}
use ironclaw_go.Safety.RateLimit.{RateLimit, RateLimiter, open_window, allow}

-- A sequence of calls, each with its time and its key.
abbrev pub Calls : Type 0
Calls = List (ℕ × String)

abbrev pub one_if : Bool → ℕ
one_if true = 1
one_if false = 0

-- The calls with the key `k`.
abbrev pub asked : String → Calls → ℕ
asked k [] = 0
asked k ((now, key) ∷ cs) = one_if (key == k) + asked k cs

-- The calls with the key `k` that are let through.
pub granted : String → Calls → RateLimiter → ℕ
granted k [] r = 0
granted k ((now, key) ∷ cs) r =
    (if key == k then one_if (allow now key r).1 else 0) + granted k cs (allow now key r).0

-- No call is later than `t`.
abbrev pub NoLater : ℕ → Calls → Type 0
NoLater t cs = All (λ c. c.0 ≤ t) cs

max_calls-allow :
    (now : ℕ) (key : String) (r : RateLimiter) → (allow now key r).0.max_calls ≡ r.max_calls
unfolding allow
max_calls-allow now key r = ground arith

window-allow : (now : ℕ) (key : String) (r : RateLimiter) → (allow now key r).0.window ≡ r.window
unfolding allow
window-allow now key r = ground arith

-- A call of one key leaves the window of every other key alone.
pub get-allow_ne :
    (now : ℕ) (key k : String) (r : RateLimiter)
    → key ≢ k
    → get k (allow now key r).0.limits ≡ get k r.limits
unfolding allow
get-allow_ne now key k r ne = elim (Option-cases (get key r.limits)) [
  | inl new ↦ rw (new, allow) (rw (get-put key k _ r.limits) (ground (arith, eq_iff key k)))
  | inr (lim, old) ↦
      rw (old, allow)
        (ground (
          arith,
          eq_iff key k,
          get-put key k (record { count = 1; window = now + r.window }) r.limits,
          get-put key k (record lim { count = lim.count + 1 }) r.limits,
        ))
]

-- A call within the key's window is let through if the count is below the limit, and is counted.
allow-within :
    (now : ℕ) (k : String) (r : RateLimiter) (lim : RateLimit)
    → get k r.limits ≡ some lim
    → now ≤ lim.window
    → ((allow now k r).1 ≡ ltb lim.count r.max_calls)
      × (get k (allow now k r).0.limits
          ≡ some (record lim { count = lim.count + one_if (ltb lim.count r.max_calls) }))
unfolding allow
allow-within now k r lim here h =
    rw (here, allow)
      (ground (arith, eq_refl k, get-put k k (record lim { count = lim.count + 1 }) r.limits))

granted-step_ne :
    (k key : String) (now : ℕ) (cs : Calls) (r : RateLimiter)
    → (key == k) ≡ false
    → granted k ((now, key) ∷ cs) r ≡ granted k cs (allow now key r).0
unfolding granted
granted-step_ne k key now cs r h = rw h (omega arith)

-- While the window that a key has lasts, of the calls of that key exactly as many are let through as
-- the limit leaves room for, whatever calls of other keys come between.
pub granted-within :
    (k : String) (cs : Calls) (r : RateLimiter) (lim : RateLimit)
    → get k r.limits ≡ some lim
    → NoLater lim.window cs
    → granted k cs r ≡ min (asked k cs) (r.max_calls - lim.count)
unfolding granted
granted-within k [] r lim here h = omega arith
granted-within k ((now, key) ∷ cs) r lim here h = elim (Bool-cases (key == k)) [
  | inl same ↦
      let e : key ≡ k = (eq_iff key k).0 same in
      let w = allow-within now key r lim (rw e here) h.0 in
      let after : RateLimit = record lim {
        count = lim.count + one_if (ltb lim.count r.max_calls);
      } in
      let at = subst (λ (j : String). get j (allow now key r).0.limits ≡ some after) e w.1 in
      let rest = granted-within k cs (allow now key r).0 after at h.1 in
      rw same (ground (arith, w.0, rest, max_calls-allow now key r))
  | inr differs ↦
      let rest =
        granted-within k cs (allow now key r).0 lim
          (get-allow_ne now key k r (λ e. ground (arith, eq_iff key k)) ∙ here) h.1 in
      granted-step_ne k key now cs r differs
      ∙ omega (arith, rest, max_calls-allow now key r, skipped differs)
]
  where
    skipped : (key == k) ≡ false → asked k ((now, key) ∷ cs) ≡ asked k cs
    skipped e = rw e (omega arith)

allow-opens :
    (now : ℕ) (k : String) (r : RateLimiter)
    → get k r.limits ≡ none
    → ((allow now k r).1 ≡ true)
      × (get k (allow now k r).0.limits ≡ some (record { count = 1; window = now + r.window }))
unfolding allow open_window
allow-opens now k r new = rw (new, allow) (refl, get-put_self k _ r.limits)

-- From a limiter that has seen no call of the key, of the calls of that key within one window of its
-- first call exactly as many are let through as the limit says, but always the first one, also where
-- the limit is zero.
pub granted-window :
    (k : String) (now : ℕ) (cs : Calls) (r : RateLimiter)
    → get k r.limits ≡ none
    → NoLater (now + r.window) cs
    → granted k ((now, k) ∷ cs) r ≡ min (asked k ((now, k) ∷ cs)) (max 1 r.max_calls)
unfolding granted
granted-window k now cs r new h =
    let w = allow-opens now k r new in
    let rest = granted-within k cs (allow now k r).0 _ w.1 h in
    rw (eq_refl k) (ground (arith, w.0, rest, max_calls-allow now k r))
