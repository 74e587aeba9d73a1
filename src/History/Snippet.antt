-- ===== src/History/Snippet.antt =====
-- extractSnippet of internal/history/store.go: the part of a text that is shown for a match.
pub mod Laws
use ironclaw_go.Shared.{
  ℕ, zero, suc, ◌+◌, ◌-◌, ◌*◌, ◌/◌, ◌≤◌, ◌<◌, ◌≡◌, refl, sym, ap, ◌∙◌, Bool, true, false, ◌&&◌,
  ◌||◌, Option, none, some, List, [], ◌∷◌, ◌++◌, map, Bytes, bytes, to_lower, lower_byte,
  has_prefix, contains_bytes, length, take, drop, leb, ltb, if◌then◌else◌, arith, Bool-cases, inl,
  inr, length-append, length-drop,
}
use ironclaw_go.Db.Paging.{slice}

abbrev pub shifted : Option ℕ → Option ℕ
shifted none = none
shifted (some i) = some (suc i)

-- strings.Index(s, sub)
unfoldable pub index : Bytes → Bytes → Option ℕ
unfolding has_prefix
index [] sub = if has_prefix [] sub then some 0 else none
index (c ∷ s) sub =
    let later = shifted (index s sub) in if has_prefix (c ∷ s) sub then some 0 else later

abbrev dots : Bytes
dots = bytes "..."

-- The part from `lo` to `hi`, with dots where something is left out.
unfoldable pub marked : ℕ → ℕ → Bytes → Bytes
unfolding slice
marked lo hi content =
    (if ltb 0 lo then dots else [])
    ++ (slice lo hi content ++ (if ltb hi (length content) then dots else []))

-- The window around a match at `i`: where it begins, and where it ends.
unfoldable pub window : ℕ → ℕ → ℕ → ℕ × ℕ
window i max_len n =
    let start = i - max_len / 4 in
    if ltb n (start + max_len) then (n - max_len, n) else (start, start + max_len)

abbrev pub around : Bytes → ℕ → Option ℕ → Bytes
around content max_len none = take max_len content ++ dots
around content max_len (some i) =
    let (start, end) = window i max_len (length content) in marked start end content

-- extractSnippet, with `lower` for strings.ToLower. The place of the match in the lowered text is taken for
-- one in the text itself.
unfoldable pub extract_snippet : (Bytes → Bytes) → Bytes → Bytes → ℕ → Bytes
unfolding index window marked
extract_snippet lower content query max_len =
    if leb (length content) max_len
    then content
    else around content max_len (index (lower content) (lower query))
