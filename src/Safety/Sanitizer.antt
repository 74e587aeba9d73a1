-- ===== src/Safety/Sanitizer.antt =====
-- internal/safety/sanitizer: the truncation of tool outputs (sanitizer.go) and its result (output.go).
pub mod Laws
use ironclaw_go.Shared.{
  ℕ, zero, suc, ◌+◌, ◌/◌, ◌%◌, String, Bool, true, false, ◌&&◌, List, [], ◌∷◌, ◌++◌, map, Bytes,
  bytes, length, take, concat, ltb, if◌then◌else◌,
}
use ironclaw_go.Safety.Policy.{Policy, Violation, Severity, low, evaluate}

-- Warning
pub record Warning : Type 0 where
  pub pattern : String
  pub severity : Severity
  pub location : ℕ × ℕ
  pub description : String

-- Output
pub record Output : Type 0 where
  pub content : Bytes
  pub warnings : List Warning
  pub was_modified : Bool

-- The decimal digits of a number, on fuel; a number has no more digits than its value plus one.
decimal_from : ℕ → ℕ → Bytes → Bytes
decimal_from zero n acc = acc
decimal_from (suc f) n acc =
    let rest = decimal_from f (n / 10) ((48 + n % 10) ∷ acc) in
    if ltb n 10 then (48 + n) ∷ acc else rest

unfoldable pub decimal : ℕ → Bytes
unfolding decimal_from
decimal n = decimal_from (suc n) n []

-- The text that is appended to a truncated output.
unfoldable pub truncation_note : ℕ → ℕ → Bytes
truncation_note shown total =
    10 ∷ 10 ∷ bytes "[... truncated: showing "
    ++ decimal shown
    ++ bytes "/"
    ++ decimal total
    ++ bytes " bytes. Use the json tool with source_tool_call_id to query the full output.]"

-- maxLen > 0 && len(content) > maxLen
unfoldable pub is_too_large : ℕ → Bytes → Bool
is_too_large max_len content = ltb 0 max_len && ltb max_len (length content)

-- The content after the truncation.
unfoldable pub truncated : ℕ → Bytes → Bytes
unfolding is_too_large truncation_note
truncated max_len content =
    if is_too_large max_len content
    then take max_len content ++ truncation_note max_len (length content)
    else content

-- The warning of a truncation.
unfoldable pub size_warnings : String → ℕ → Bytes → List Warning
unfolding is_too_large
size_warnings tool max_len content =
    if is_too_large max_len content
    then record {
      pattern = "output_too_large";
      severity = low;
      location = (max_len, length content);
      description = concat ("Output from tool '" ∷ tool ∷ "' was truncated due to size" ∷ []);
    }
      ∷ []
    else []

-- The warning of a violation.
abbrev pub warning_of : ℕ → Violation → Warning
warning_of size v = record {
  pattern = v.rule_id;
  severity = v.severity;
  location = (0, size);
  description = v.description;
}

-- Sanitizer.SanitizeToolOutput
unfoldable pub sanitize_tool_output : Policy → String → Bytes → ℕ → Output
unfolding truncated size_warnings
sanitize_tool_output p tool content max_len =
    let text = truncated max_len content in
    record {
      content = text;
      warnings =
          size_warnings tool max_len content ++ map (warning_of (length text)) (evaluate p text);
      was_modified = is_too_large max_len content;
    }
