-- ===== src/Safety/RateLimit.antt =====
-- internal/safety/ratelimit.go: a fixed window for each key. Times are nanoseconds, and the mutex
-- makes each call of Allow one step. A negative limit or window acts as zero does.
pub mod Laws
use ironclaw_go.Shared.{
  ℕ, ◌+◌, String, Bool, true, false, ◌&&◌, ◌||◌, Option, none, some, List, [], ◌∷◌, Dict, get, put,
  ltb, leb, if◌then◌else◌,
}

-- rateLimit
pub record RateLimit : Type 0 where
  pub count : ℕ
  pub window : ℕ

-- RateLimiter
pub record RateLimiter : Type 0 where
  pub limits : Dict RateLimit
  pub max_calls : ℕ
  pub window : ℕ

-- NewRateLimiter
unfoldable pub new_rate_limiter : ℕ → ℕ → RateLimiter
new_rate_limiter max_calls window = record { limits = []; max_calls = max_calls; window = window }

-- The window that a key has is over: r.window > 0 && now.After(lim.window).
unfoldable pub is_over : ℕ → RateLimit → RateLimiter → Bool
is_over now lim r = ltb 0 r.window && ltb lim.window now

-- A new window with its first call.
unfoldable pub open_window : ℕ → String → RateLimiter → RateLimiter
open_window now key r = record r {
  limits = put key (record { count = 1; window = now + r.window }) r.limits;
}

-- RateLimiter.Allow
unfoldable pub allow : ℕ → String → RateLimiter → RateLimiter × Bool
unfolding is_over open_window
allow now key r = elim (get key r.limits) [
  | none ↦ (open_window now key r, true)
  | some lim ↦
      if is_over now lim r
      then (open_window now key r, true)
      else if leb r.max_calls lim.count
      then (r, false)
      else (record r { limits = put key (record lim { count = lim.count + 1 }) r.limits }, true)
]
