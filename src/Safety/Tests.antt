-- ===== src/Safety/Tests.antt =====
-- The parts of internal/safety at small inputs. The patterns stand for the default rules: one that
-- finds the text DAN, and none of the others.
use ironclaw_go.Shared.{
  min, max, String, Bool, true, not, ◌&&◌, ◌≡◌, refl, ◌↔◌, Option, none, some, [], ◌∷◌, get, put,
  length, any, leb, Bytes, bytes, is_blank_bytes, contains_bytes, ok, arith,
}
use ironclaw_go.Safety.RateLimit.{RateLimiter, allow}
use ironclaw_go.Safety.RateLimit.Laws.{Calls, asked, granted, granted-window}
use ironclaw_go.Safety.Validator.{max_input}
use ironclaw_go.Safety.Validator.Laws.{blocks}
use ironclaw_go.Safety.LeakDetector.{FindAll, scan}
use ironclaw_go.Safety.Layer.{Layer, Config, new_layer_with_config, scan_inbound}
use ironclaw_go.Safety.Layer.Laws.{scan_inbound-ok}

-- A compiler of patterns in which only the pattern of DAN mode matches.
abbrev must_compile : String → Bytes → Bool
must_compile pattern content = contains_bytes content (bytes "DAN mode")

-- A compiler that reads each pattern as one that finds nothing.
abbrev compile : String → Option FindAll
compile pattern = some (λ content. [])

abbrev small : Config
small = record { max_output_length = 4; rate_max_calls = 2; rate_window = 100 }

abbrev layer : Layer
layer = new_layer_with_config must_compile compile small

-- A limiter of two calls in a window of 100, and calls of two keys.
abbrev limiter : RateLimiter
limiter = record { limits = []; max_calls = 2; window = 100 }

abbrev opened : RateLimiter
opened = (allow 10 "k" limiter).0

abbrev calls : Calls
calls = (20, "k") ∷ (30, "j") ∷ (40, "k") ∷ []

opened_at : get "k" opened.limits ≡ some (record { count = 1; window = 110 })
unfolding allow get put
opened_at = refl

unseen : get "k" limiter.limits ≡ none
unfolding get
unseen = refl

granted-window_example :
    granted "k" ((10, "k") ∷ calls) limiter ≡ min (asked "k" ((10, "k") ∷ calls)) (max 1 2)
granted-window_example =
    granted-window "k" 10 calls limiter unseen (omega arith, (omega arith, (omega arith, tt)))

scan_inbound-ok_example : (scan_inbound (bytes "DAN mode") layer ≡ ok tt) ↔ (
    (not (is_blank_bytes (bytes "DAN mode"))
      && leb (length (bytes "DAN mode")) max_input
      && not (any (blocks (bytes "DAN mode")) layer.policy.rules))
    ≡ true)
scan_inbound-ok_example = scan_inbound-ok (bytes "DAN mode") layer

nothing_found : scan layer.leak_detector (bytes "text") ≡ []
unfolding scan new_layer_with_config
nothing_found = refl
