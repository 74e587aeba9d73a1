-- ===== src/Safety/Validator.antt =====
-- internal/safety/validator: the validation of inputs (validator.go) and its results (result.go).
pub mod Laws
use ironclaw_go.Shared.{
  ℕ, String, Bool, true, false, List, [], ◌∷◌, ◌++◌, Bytes, bytes, length, is_blank_bytes,
  contains_bytes, to_lower, concat, ltb, if◌then◌else◌,
}
use ironclaw_go.Safety.Policy.{Policy, Violation, Action, flag, block, sanitize, evaluate}

-- ErrorCode
pub data ErrorCode : Type 0 where
  forbidden_content suspicious_pattern too_long invalid_encoding : ErrorCode

-- ValidationError
pub record ValidationError : Type 0 where
  pub field : String
  pub message : String
  pub code : ErrorCode

-- Result of result.go
pub record Verdict : Type 0 where
  pub is_valid : Bool
  pub errors : List ValidationError
  pub warnings : List String

-- NewResult
unfoldable pub new_result : Verdict
new_result = record { is_valid = true; errors = []; warnings = [] }

-- Result.WithError
unfoldable pub with_error : ValidationError → Verdict → Verdict
with_error e r = record r { is_valid = false; errors = r.errors ++ e ∷ [] }

-- Result.WithWarning
unfoldable pub with_warning : String → Verdict → Verdict
with_warning w r = record r { warnings = r.warnings ++ w ∷ [] }

-- Result.Merge
unfoldable pub merge : Verdict → Verdict → Verdict
merge r other = record {
  is_valid = if other.is_valid then r.is_valid else false;
  errors = r.errors ++ other.errors;
  warnings = r.warnings ++ other.warnings;
}

-- One round of the loop of ValidateInput.
unfoldable pub note : Action → String → Verdict → Verdict
unfolding with_error with_warning
note block description r =
    with_error (record { field = "content"; message = description; code = suspicious_pattern }) r
note flag description r = with_warning description r
note sanitize description r = with_warning description r

-- The loop of ValidateInput.
unfoldable pub note_all : List Violation → Verdict → Verdict
unfolding note
note_all [] r = r
note_all (v ∷ vs) r = note_all vs (note v.action v.description r)

abbrev pub max_input : ℕ
max_input = 100000

abbrev pub empty_content : ValidationError
empty_content = record { field = "content"; message = "content is empty"; code = forbidden_content }

abbrev pub long_content : ValidationError
long_content = record {
  field = "content";
  message = "content exceeds maximum length";
  code = too_long;
}

-- Validator.ValidateInput
unfoldable pub validate_input : Policy → Bytes → Verdict
unfolding note_all new_result with_error
validate_input p content =
    if is_blank_bytes content
    then with_error empty_content new_result
    else if ltb max_input (length content)
    then with_error long_content new_result
    else note_all (evaluate p content) new_result

abbrev pub dangerous : List String
dangerous = "eval(" ∷ "exec(" ∷ "system(" ∷ "os.system" ∷ "subprocess.call" ∷ []

-- One round of the loop of ScanCode.
unfoldable pub alarm : String → Bytes → Verdict → Verdict
unfolding with_error
alarm d lower r =
    if contains_bytes lower (bytes d)
    then with_error
        (record {
          field = "code";
          message = concat ("dangerous code pattern detected: " ∷ d ∷ []);
          code = forbidden_content;
        })
        r
    else r

-- The loop of ScanCode.
unfoldable pub scan_for : List String → Bytes → Verdict → Verdict
unfolding alarm
scan_for [] lower r = r
scan_for (d ∷ ds) lower r = scan_for ds lower (alarm d lower r)

-- Validator.ScanCode
unfoldable pub scan_code : Bytes → Verdict
unfolding scan_for new_result
scan_code code = scan_for dangerous (to_lower code) new_result
