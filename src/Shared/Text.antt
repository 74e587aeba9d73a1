-- ===== src/Shared/Text.antt =====
-- The functions of Go's `strings` and `fmt` packages that the program calls, over code points.
-- `to_lower` changes the ASCII letters alone; `is_space` is the whole of Unicode's White_Space.
use Prim.Native.Nat.{ℕ}
use Prim.Native.Char.{Char, code}
use Prim.Native.String.{String}
use Prim.Native.String
use mathlib.Core.Bool.{Bool, true, ◌&&◌, ◌||◌}
use mathlib.Core.List.{List, [], ◌∷◌}
use text.Mathlib.Text.{◌==◌}
use ironclaw_go.Shared.Tests.{leb, if◌then◌else◌}
pub use text.Mathlib.Text.{starts_with}

-- The pieces of a formatted message, joined.
abbrev pub concat : List String → String
concat [] = ""
concat (s ∷ rest) = String.◌++◌ s (concat rest)

-- strings.Contains(s, sub)
unfoldable pub contains : String → String → Bool
contains String.[] sub = sub == ""
contains (String.◌∷◌ c s) sub = starts_with (String.◌∷◌ c s) sub || contains s sub

-- A white space character, by its code point.
unfoldable pub is_space : Char → Bool
is_space c =
    let n = code c in
    (leb 9 n && leb n 13)
    || (leb 32 n && leb n 32)
    || (leb 133 n && leb n 133)
    || (leb 160 n && leb n 160)
    || (leb 5760 n && leb n 5760)
    || (leb 8192 n && leb n 8202)
    || (leb 8232 n && leb n 8233)
    || (leb 8239 n && leb n 8239)
    || (leb 8287 n && leb n 8287)
    || (leb 12288 n && leb n 12288)

-- strings.TrimSpace(s) == "": every character is white space.
unfoldable pub is_blank : String → Bool
unfolding is_space
is_blank String.[] = true
is_blank (String.◌∷◌ c s) = is_space c && is_blank s

-- strings.TrimLeftFunc(s, unicode.IsSpace)
unfoldable pub trim_left : String → String
unfolding is_space
trim_left String.[] = ""
trim_left (String.◌∷◌ c s) = let rest = trim_left s in if is_space c then rest else String.◌∷◌ c s

-- strings.TrimRightFunc(s, unicode.IsSpace)
unfoldable pub trim_right : String → String
unfolding is_space is_blank
trim_right String.[] = ""
trim_right (String.◌∷◌ c s) =
    let rest = trim_right s in if is_space c && is_blank s then "" else String.◌∷◌ c rest

-- strings.TrimSpace(s)
unfoldable pub trim_space : String → String
unfolding trim_left trim_right
trim_space s = trim_right (trim_left s)

-- strings.TrimPrefix(s, prefix) for a prefix of k characters that is known to be there.
unfoldable pub skip : ℕ → String → String
skip ℕ.zero s = s
skip (ℕ.suc k) String.[] = ""
skip (ℕ.suc k) (String.◌∷◌ c s) = skip k s
