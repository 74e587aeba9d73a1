-- ===== src/Safety/Layer.antt =====
-- internal/safety/layer.go and config.go: the layer that joins the parts.
pub mod Laws
use ironclaw_go.Shared.{
  ℕ, ◌*◌, ◌^◌, String, Bool, true, false, Option, none, some, List, [], ◌∷◌, Bytes, concat, Result,
  ok, err, if◌then◌else◌,
}
use ironclaw_go.Safety.RateLimit.{RateLimiter, new_rate_limiter, allow}
use ironclaw_go.Safety.Policy.{Policy, new_policy, load_defaults}
use ironclaw_go.Safety.Validator.{Verdict, ValidationError, validate_input, scan_code}
use ironclaw_go.Safety.Sanitizer.{sanitize_tool_output}
use ironclaw_go.Safety.LeakDetector.{Detector, Compile, new_detector, scan_and_clean}

-- Config
pub record Config : Type 0 where
  pub max_output_length : ℕ
  pub rate_max_calls : ℕ
  pub rate_window : ℕ

-- DefaultConfig
abbrev pub default_config : Config
default_config = record {
  max_output_length = 10000;
  rate_max_calls = 100;
  rate_window = 60 * 10 ^ 9;
}

-- Layer. The validator and the sanitizer hold the policy and nothing else.
pub record Layer : Type 0 where
  pub policy : Policy
  pub leak_detector : Detector
  pub rate_limiter : RateLimiter
  pub config : Config

-- NewLayerWithConfig, with regexp.MustCompile and regexp.Compile
unfoldable pub new_layer_with_config : (String → Bytes → Bool) → Compile → Config → Layer
unfolding new_policy load_defaults new_detector new_rate_limiter
new_layer_with_config must_compile compile config = record {
  policy = load_defaults must_compile new_policy;
  leak_detector = new_detector compile;
  rate_limiter = new_rate_limiter config.rate_max_calls config.rate_window;
  config = config;
}

-- NewLayer
unfoldable pub new_layer : (String → Bytes → Bool) → Compile → Layer
unfolding new_layer_with_config
new_layer must_compile compile = new_layer_with_config must_compile compile default_config

-- The first error of a verdict as the message of an error, or a message where there is none.
unfoldable pub report : String → List ValidationError → String
report otherwise [] = otherwise
report otherwise (e ∷ es) = concat ("safety: " ∷ e.message ∷ [])

-- The end of ScanInbound and of ScanCode.
unfoldable pub outcome : String → Verdict → Result String (Unit {0})
unfolding report
outcome otherwise r = if r.is_valid then ok tt else err (report otherwise r.errors)

-- Layer.ScanInbound
unfoldable pub scan_inbound : Bytes → Layer → Result String (Unit {0})
unfolding validate_input outcome
scan_inbound content l = outcome "safety: input blocked by policy" (validate_input l.policy content)

-- Layer.SanitizeToolOutput. Its error is always nil.
unfoldable pub sanitize_output : Bytes → Layer → Result String Bytes
unfolding sanitize_tool_output scan_and_clean
sanitize_output content l =
    ok
      (scan_and_clean l.leak_detector
        (sanitize_tool_output l.policy "" content l.config.max_output_length).content).0

-- Layer.ScanCode
unfoldable pub scan_code_text : Bytes → Layer → Result String (Unit {0})
unfolding scan_code outcome
scan_code_text code l = outcome "safety: code blocked by policy" (scan_code code)

-- Layer.Allow
unfoldable pub allow_call : ℕ → String → Layer → Layer × Bool
unfolding allow
allow_call now key l =
    let (r, granted) = allow now key l.rate_limiter in (record l { rate_limiter = r }, granted)
