-- ===== src/Safety.antt =====
-- internal/safety: the rate limiter (ratelimit.go), the policy of forbidden patterns (policy/), the
-- validator of inputs and code (validator/), the sanitizer of tool outputs (sanitizer/), the leak
-- detector (leakdetector/) and the layer that joins them (layer.go, config.go).
pub mod RateLimit
pub mod Policy
pub mod Validator
pub mod Sanitizer
pub mod LeakDetector
pub mod Layer
pub mod Tests
