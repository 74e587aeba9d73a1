-- ===== src/Shared/Octets.antt =====
-- Go strings that the program cuts or scans by bytes: lists of byte values.
use Prim.Native.Nat.{ℕ, ◌+◌, ◌/◌, ◌%◌}
use Prim.Native.Char.{code}
use Prim.Native.String.{String}
use mathlib.Core.Bool.{Bool, true, false, ◌&&◌, ◌||◌}
use mathlib.Core.List.{List, [], ◌∷◌, ◌++◌, map}
use ironclaw_go.Shared.Tests.{leb, if◌then◌else◌}

abbrev pub Bytes : Type 0
Bytes = List ℕ

-- The UTF-8 encoding of a code point.
abbrev pub encode : ℕ → Bytes
encode n =
    if leb n 0x7F
    then n ∷ []
    else if leb n 0x7FF
    then (0xC0 + n / 64) ∷ (0x80 + n % 64) ∷ []
    else if leb n 0xFFFF
    then (0xE0 + n / 4096) ∷ (0x80 + n / 64 % 64) ∷ (0x80 + n % 64) ∷ []
    else (0xF0 + n / 262144) ∷ (0x80 + n / 4096 % 64) ∷ (0x80 + n / 64 % 64) ∷ (0x80 + n % 64) ∷ []

-- The bytes of a text.
abbrev pub bytes : String → Bytes
bytes String.[] = []
bytes (String.◌∷◌ c s) = encode (code c) ++ bytes s

between : ℕ → ℕ → ℕ → Bool
between lo hi n = leb lo n && leb n hi

-- A white space character of one, two or three bytes of UTF-8.
unfoldable pub space_1 : ℕ → Bool
unfolding between
space_1 a = between 9 13 a || between 32 32 a

unfoldable pub space_2 : ℕ → ℕ → Bool
unfolding between
space_2 a b = between 0xC2 0xC2 a && (between 0x85 0x85 b || between 0xA0 0xA0 b)

unfoldable pub space_3 : ℕ → ℕ → ℕ → Bool
unfolding between
space_3 a b c =
    (between 0xE1 0xE1 a && between 0x9A 0x9A b && between 0x80 0x80 c)
    || (between 0xE2 0xE2 a
        && between 0x80 0x80 b
        && (between 0x80 0x8A c || between 0xA8 0xA9 c || between 0xAF 0xAF c))
    || (between 0xE2 0xE2 a && between 0x81 0x81 b && between 0x9F 0x9F c)
    || (between 0xE3 0xE3 a && between 0x80 0x80 b && between 0x80 0x80 c)

-- strings.TrimSpace(s) == "": nothing but white space.
unfoldable pub is_blank_bytes : Bytes → Bool
unfolding space_1 space_2 space_3
is_blank_bytes [] = true
is_blank_bytes (a ∷ []) = space_1 a
is_blank_bytes (a ∷ b ∷ []) = (space_1 a && space_1 b) || space_2 a b
is_blank_bytes (a ∷ b ∷ c ∷ rest) = elim (space_1 a) [
  | true ↦ is_blank_bytes (b ∷ c ∷ rest)
  | false ↦ elim (space_2 a b) [
    | true ↦ is_blank_bytes (c ∷ rest)
    | false ↦ elim (space_3 a b c) [ true ↦ is_blank_bytes rest | false ↦ false ]
  ]
]

-- strings.HasPrefix(s, prefix)
unfoldable pub has_prefix : Bytes → Bytes → Bool
has_prefix s [] = true
has_prefix [] (p ∷ ps) = false
has_prefix (c ∷ s) (p ∷ ps) = leb c p && leb p c && has_prefix s ps

-- strings.Contains(s, sub)
unfoldable pub contains_bytes : Bytes → Bytes → Bool
unfolding has_prefix
contains_bytes [] sub = has_prefix [] sub
contains_bytes (c ∷ s) sub = has_prefix (c ∷ s) sub || contains_bytes s sub

-- strings.ToLower on the ASCII letters; other bytes stay.
unfoldable pub lower_byte : ℕ → ℕ
unfolding between
lower_byte c = if between b'A' b'Z' c then c + 32 else c

abbrev pub to_lower : Bytes → Bytes
to_lower = map lower_byte
