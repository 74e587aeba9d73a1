-- ===== src/Safety/Layer/Laws.antt =====
-- What the layer of safety/layer.go lets through.
use ironclaw_go.Shared.{
  ◌≤◌, String, Bool, true, false, not, ◌&&◌, ◌≡◌, refl, sym, ◌∙◌, ◌↔◌, ◌⊎◌, inl, inr, List, [], ◌∷◌,
  Bytes, bytes, contains_bytes, to_lower, ap, length, is_blank_bytes, any, leb, arith, Result, ok,
  err, concat,
}
use ironclaw_go.Safety.Validator.{
  Verdict, ValidationError, validate_input, max_input, scan_code, dangerous,
}
use ironclaw_go.Safety.Validator.Laws.{
  no_errors, validate_input-IsCoherent, scan_code-IsCoherent, blocks, is_valid-validate_input,
  is_valid-scan_code,
}
use ironclaw_go.Safety.Sanitizer.Laws.{sanitize_tool_output-small}
use ironclaw_go.Safety.LeakDetector.{scan, scan_and_clean, redact}
use ironclaw_go.Safety.Layer.{Layer, outcome, scan_inbound, scan_code_text, sanitize_output}

not-true : {b : Bool} → not b ≡ true → b ≡ false
not-true h = ground arith

-- A verdict turned into an error: none for a positive one, otherwise the message of its first error.
abbrev pub FirstError : Verdict → Result String (Unit {0}) → Type 0
FirstError r o =
    ((r.is_valid ≡ true) × (o ≡ ok tt))
    ⊎ ((e : ValidationError) × (es : List ValidationError) × (r.is_valid ≡ false)
        × (r.errors ≡ e ∷ es)
        × (o ≡ err (concat ("safety: " ∷ e.message ∷ []))))

outcome-FirstError :
    (otherwise : String) (r : Verdict) (es : List ValidationError)
    → r.errors ≡ es
    → r.is_valid ≡ no_errors es
    → FirstError r (outcome otherwise r)
unfolding outcome
outcome-FirstError otherwise r [] e c = inl (c, rw c refl)
outcome-FirstError otherwise r (x ∷ es) e c = inr (x, es, c, e, rw (c, e) refl)

-- ScanInbound lets an input through exactly if the validator accepts it, and otherwise fails with
-- the first error that the validator lists; its message without an error is never used.
pub scan_inbound-FirstError :
    (content : Bytes) (l : Layer)
    → FirstError (validate_input l.policy content) (scan_inbound content l)
unfolding scan_inbound
scan_inbound-FirstError content l =
    outcome-FirstError "safety: input blocked by policy" (validate_input l.policy content)
      (validate_input l.policy content).errors refl (validate_input-IsCoherent l.policy content)

-- ScanInbound succeeds exactly on the inputs that are not blank, have at most 100000 bytes, and on
-- which no rule of the policy that blocks fires.
pub scan_inbound-ok :
    (content : Bytes) (l : Layer)
    → (scan_inbound content l ≡ ok tt) ↔ (
        (not (is_blank_bytes content)
          && leb (length content) max_input
          && not (any (blocks content) l.policy.rules))
        ≡ true)
scan_inbound-ok content l = elim (scan_inbound-FirstError content l) [
  | inl (valid, o) ↦ ((λ h. sym (is_valid-validate_input l.policy content) ∙ valid), (λ h. o))
  | inr (e, es, invalid, _, o) ↦
      ((λ h. absurd (cc (o, h))), (λ h. absurd (cc (is_valid-validate_input l.policy content))))
]

scan_code_text-FirstError :
    (code : Bytes) (l : Layer) → FirstError (scan_code code) (scan_code_text code l)
unfolding scan_code_text
scan_code_text-FirstError code l =
    outcome-FirstError "safety: code blocked by policy" (scan_code code) (scan_code code).errors
      refl (scan_code-IsCoherent code)

-- ScanCode succeeds exactly on the code that, with its ASCII letters made lower case, contains none
-- of the five dangerous texts.
pub scan_code_text-ok :
    (code : Bytes) (l : Layer)
    → (scan_code_text code l ≡ ok tt)
      ↔ (any (λ d. contains_bytes (to_lower code) (bytes d)) dangerous ≡ false)
scan_code_text-ok code l = elim (scan_code_text-FirstError code l) [
  | inl (valid, o) ↦ ((λ h. not-true (sym (is_valid-scan_code code) ∙ valid)), (λ h. o))
  | inr (e, es, invalid, _, o) ↦
      ((λ h. absurd (cc (o, h))), (λ h. absurd (cc (is_valid-scan_code code, ap not h))))
]

-- An output within the limit in which the leak detector finds nothing is passed on unchanged.
pub sanitize_output-clean :
    (content : Bytes) (l : Layer)
    → length content ≤ l.config.max_output_length
    → scan l.leak_detector content ≡ []
    → sanitize_output content l ≡ ok content
unfolding sanitize_output scan_and_clean redact
sanitize_output-clean content l fits none_found =
    rw ((sanitize_tool_output-small l.policy "" content l.config.max_output_length (inr fits)).1)
      (rw (none_found, redact) refl)
