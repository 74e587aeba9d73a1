-- ===== src/Safety/Validator/Laws.antt =====
-- What the validator of safety/validator accepts.
use ironclaw_go.Shared.{
  String, Bool, true, false, not, ◌&&◌, ◌||◌, ◌≡◌, refl, sym, ◌∙◌, inl, inr, List, [], ◌∷◌, ◌++◌,
  Bytes, bytes, length, is_blank_bytes, contains_bytes, to_lower, any, ltb, leb, arith, Bool-cases,
}
use ironclaw_go.Safety.Policy.{
  Policy, Rule, Violation, Action, flag, block, sanitize, evaluate, violations, fires,
}
use ironclaw_go.Safety.Validator.{
  Verdict, ValidationError, new_result, with_error, note, note_all, max_input, validate_input,
  empty_content, long_content, dangerous, alarm, scan_for, scan_code,
}

abbrev pub is_block : Action → Bool
is_block flag = false
is_block block = true
is_block sanitize = false

-- A rule that fires on the content and blocks it.
abbrev pub blocks : Bytes → Rule → Bool
blocks content rule = fires rule content && is_block rule.action

is_valid-note_all :
    (rules : List Rule) (content : Bytes) (r : Verdict)
    → (note_all (violations rules content) r).is_valid
      ≡ r.is_valid && not (any (blocks content) rules)
unfolding note_all violations
is_valid-note_all [] content r = ground arith
is_valid-note_all (rule ∷ rules) content r = elim (Bool-cases (fires rule content)) [
  | inl hit ↦ rw hit (
      is_valid-note_all rules content (note rule.action rule.description r)
      ∙ after rule.action rule.description r (any (blocks content) rules))
  | inr miss ↦ rw miss (is_valid-note_all rules content r)
]
  where
    after :
        (a : Action) (d : String) (r : Verdict) (b : Bool)
        → (note a d r).is_valid && not b ≡ r.is_valid && not (is_block a || b)
    after flag d r b = refl
    after block d r b = ground arith
    after sanitize d r b = refl

-- An input is accepted exactly if it is not blank, has at most 100000 bytes, and no rule of the
-- policy that blocks fires on it.
pub is_valid-validate_input :
    (p : Policy) (content : Bytes)
    → (validate_input p content).is_valid
      ≡ not (is_blank_bytes content)
        && leb (length content) max_input
        && not (any (blocks content) p.rules)
unfolding validate_input evaluate
is_valid-validate_input p content = ground (arith, is_valid-note_all p.rules content new_result)

abbrev pub no_errors : List ValidationError → Bool
no_errors [] = true
no_errors (e ∷ es) = false

-- A verdict is negative exactly if it lists an error.
abbrev pub IsCoherent : Verdict → Type 0
IsCoherent r = r.is_valid ≡ no_errors r.errors

no_errors-append :
    (es : List ValidationError) (e : ValidationError) → no_errors (es ++ e ∷ []) ≡ false
no_errors-append [] e = refl
no_errors-append (x ∷ es) e = refl

with_error-IsCoherent : (e : ValidationError) (r : Verdict) → IsCoherent (with_error e r)
unfolding with_error
with_error-IsCoherent e r = sym (no_errors-append r.errors e)

note-IsCoherent : (a : Action) (d : String) (r : Verdict) → IsCoherent r → IsCoherent (note a d r)
unfolding note
note-IsCoherent flag d r h = h
note-IsCoherent block d r h = with_error-IsCoherent _ r
note-IsCoherent sanitize d r h = h

note_all-IsCoherent :
    (vs : List Violation) (r : Verdict) → IsCoherent r → IsCoherent (note_all vs r)
unfolding note_all
note_all-IsCoherent [] r h = h
note_all-IsCoherent (v ∷ vs) r h =
    note_all-IsCoherent vs (note v.action v.description r)
      (note-IsCoherent v.action v.description r h)

pub validate_input-IsCoherent :
    (p : Policy) (content : Bytes) → IsCoherent (validate_input p content)
unfolding validate_input new_result
validate_input-IsCoherent p content = elim (Bool-cases (is_blank_bytes content)) [
  | inl blank ↦ rw blank (with_error-IsCoherent empty_content new_result)
  | inr text ↦ rw text (elim (Bool-cases (ltb max_input (length content))) [
    | inl long ↦ rw long (with_error-IsCoherent long_content new_result)
    | inr fits ↦ rw fits (note_all-IsCoherent (evaluate p content) new_result refl)
  ])
]

alarm-IsCoherent :
    (d : String) (lower : Bytes) (r : Verdict) → IsCoherent r → IsCoherent (alarm d lower r)
unfolding alarm
alarm-IsCoherent d lower r h = elim (Bool-cases (contains_bytes lower (bytes d))) [
  | inl found ↦ rw found (sym (no_errors-append r.errors _))
  | inr absent ↦ rw absent h
]

scan_for-IsCoherent :
    (ds : List String) (lower : Bytes) (r : Verdict)
    → IsCoherent r
    → IsCoherent (scan_for ds lower r)
unfolding scan_for
scan_for-IsCoherent [] lower r h = h
scan_for-IsCoherent (d ∷ ds) lower r h =
    scan_for-IsCoherent ds lower (alarm d lower r) (alarm-IsCoherent d lower r h)

pub scan_code-IsCoherent : (code : Bytes) → IsCoherent (scan_code code)
unfolding scan_code new_result
scan_code-IsCoherent code = scan_for-IsCoherent dangerous (to_lower code) new_result refl

is_valid-alarm :
    (d : String) (lower : Bytes) (r : Verdict)
    → (alarm d lower r).is_valid ≡ r.is_valid && not (contains_bytes lower (bytes d))
unfolding alarm
is_valid-alarm d lower r = ground arith

and_not_or : (a b c : Bool) → (a && not b) && not c ≡ a && not (b || c)
and_not_or a b c = ground arith

is_valid-scan_for :
    (ds : List String) (lower : Bytes) (r : Verdict)
    → (scan_for ds lower r).is_valid
      ≡ r.is_valid && not (any (λ d. contains_bytes lower (bytes d)) ds)
unfolding scan_for
is_valid-scan_for [] lower r = ground arith
is_valid-scan_for (d ∷ ds) lower r =
    is_valid-scan_for ds lower (alarm d lower r)
    ∙ rw (is_valid-alarm d lower r) (
        and_not_or r.is_valid (contains_bytes lower (bytes d))
          (any (λ d. contains_bytes lower (bytes d)) ds))

-- Code is accepted exactly if, with its ASCII letters made lower case, it contains none of the
-- dangerous texts.
pub is_valid-scan_code :
    (code : Bytes)
    → (scan_code code).is_valid
      ≡ not (any (λ d. contains_bytes (to_lower code) (bytes d)) dangerous)
unfolding scan_code new_result
is_valid-scan_code code = is_valid-scan_for dangerous (to_lower code) new_result
