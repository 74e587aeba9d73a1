-- ===== src/Safety/LeakDetector.antt =====
-- internal/safety/leakdetector: secrets in tool outputs, found by patterns and replaced. `compile`
-- stands for regexp.Compile: it gives the function of FindAllString, or none for a bad pattern.
pub mod Laws
use ironclaw_go.Shared.{
  ℕ, zero, suc, ◌-◌, String, Bool, true, false, Option, none, some, List, [], ◌∷◌, ◌++◌, Bytes,
  bytes, length, has_prefix, leb, ◌&&◌, if◌then◌else◌,
}

-- PatternInfo
pub record PatternInfo : Type 0 where
  pub name : String
  pub pattern : String
  pub type : String

-- Match
pub record Match : Type 0 where
  pub pattern : Bytes
  pub type : String

abbrev pub FindAll : Type 0
FindAll = Bytes → List Bytes

abbrev pub Compile : Type 0
Compile = String → Option FindAll

-- Detector
pub record Detector : Type 0 where
  pub patterns : List PatternInfo
  pub compiled : List FindAll

-- Detector.loadDefaults
abbrev pub default_patterns : List PatternInfo
default_patterns =
    record { name = "openai-api-key"; pattern = "\\b(sk-[a-zA-Z0-9]{20,})\\b"; type = "api_key" }
    ∷ record {
      name = "generic-api-key";
      pattern = "(?i)(api[_-]?key|apikey)\\s*[:=]\\s*['\"]?[a-zA-Z0-9_-]{20,}['\"]?";
      type = "api_key";
    }
    ∷ record {
      name = "password";
      pattern = "(?i)(password|passwd|pwd)\\s*[:=]\\s*['\"]?[^\\s'\"]+['\"]?";
      type = "password";
    }
    ∷ record {
      name = "token-secret";
      pattern = "(?i)(token|secret)\\s*[:=]\\s*['\"]?[a-zA-Z0-9_-]{16,}['\"]?";
      type = "token";
    }
    ∷ record {
      name = "private-key";
      pattern = "(?i)-----BEGIN\\s+(RSA\\s+)?PRIVATE\\s+KEY-----";
      type = "private_key";
    }
    ∷ []

-- Detector.compile: a pattern that does not compile is left out.
unfoldable pub compile_all : Compile → List PatternInfo → List FindAll
compile_all compile [] = []
compile_all compile (p ∷ ps) =
    let rest = compile_all compile ps in
    elim (compile p.pattern) [ none ↦ rest | some find ↦ find ∷ rest ]

-- New
unfoldable pub new_detector : Compile → Detector
unfolding compile_all
new_detector compile = record {
  patterns = default_patterns;
  compiled = compile_all compile default_patterns;
}

-- The matches of one pattern, with the type at its place.
unfoldable pub matches_of : String → List Bytes → List Match
matches_of type [] = []
matches_of type (f ∷ fs) = record { pattern = f; type = type } ∷ matches_of type fs

-- The loop of Scan: the i-th compiled pattern takes the type of the i-th pattern.
unfoldable pub scan_with : List FindAll → List PatternInfo → Bytes → List Match
unfolding matches_of
scan_with [] ps content = []
scan_with (find ∷ finds) [] content = []
scan_with (find ∷ finds) (p ∷ ps) content =
    matches_of p.type (find content) ++ scan_with finds ps content

-- Detector.Scan
unfoldable pub scan : Detector → Bytes → List Match
unfolding scan_with
scan d content = scan_with d.compiled d.patterns content

-- ReplaceAllString of a quoted, non-empty text: from left to right, with `skip` bytes of a match
-- still to be passed over.
unfoldable pub replace_from : Bytes → Bytes → ℕ → Bytes → Bytes
replace_from pat rep skip [] = []
replace_from pat rep (suc skip) (c ∷ s) = replace_from pat rep skip s
replace_from pat rep zero (c ∷ s) =
    if has_prefix (c ∷ s) pat
    then rep ++ replace_from pat rep (length pat - 1) s
    else c ∷ replace_from pat rep zero s

-- ReplaceAllString of the empty text: one replacement before each character, and one at the end.
unfoldable pub insert_between : Bytes → Bytes → Bytes
insert_between rep [] = rep
insert_between rep (c ∷ s) =
    let rest = c ∷ insert_between rep s in if leb 0x80 c && leb c 0xBF then rest else rep ++ rest

-- regexp.MustCompile(regexp.QuoteMeta(pat)).ReplaceAllString(s, rep)
unfoldable pub replace_all : Bytes → Bytes → Bytes → Bytes
unfolding replace_from insert_between
replace_all [] rep s = insert_between rep s
replace_all (p ∷ ps) rep s = replace_from (p ∷ ps) rep zero s

abbrev pub redacted : Bytes
redacted = bytes "[REDACTED]"

-- The loop of ScanAndClean.
unfoldable pub redact : List Match → Bytes → Bytes
unfolding replace_all
redact [] s = s
redact (m ∷ ms) s = redact ms (replace_all m.pattern redacted s)

-- Detector.ScanAndClean
unfoldable pub scan_and_clean : Detector → Bytes → Bytes × List Match
unfolding redact scan
scan_and_clean d content = (redact (scan d content) content, scan d content)
