-- ===== src/Safety/Sanitizer/Laws.antt =====
-- What the sanitizer of safety/sanitizer promises.
use ironclaw_go.Shared.{
  ℕ, zero, suc, ◌+◌, ◌≤◌, ◌<◌, min, String, true, false, ◌≡◌, refl, ◌∙◌, ap, ◌⊎◌, List, [], ◌∷◌,
  ◌++◌, map, Bytes, length, take, length-append, arith,
}
use ironclaw_go.Safety.Policy.{Policy, evaluate}
use ironclaw_go.Safety.Sanitizer.{
  is_too_large, truncated, truncation_note, size_warnings, warning_of, sanitize_tool_output,
}

length-take {ℓ} : {A : Type ℓ} (n : ℕ) (xs : List A) → length (take n xs) ≡ min n (length xs)
length-take zero xs = omega arith
length-take (suc n) [] = omega arith
length-take (suc n) (x ∷ xs) = omega (arith, length-take n xs)

length-map {ℓ κ} :
    {A : Type ℓ} {B : Type κ} (xs : List A) (f : A → B) → length (map f xs) ≡ length xs
length-map [] f = refl
length-map (x ∷ xs) f = ap suc (length-map xs f)

is_too_large_large :
    (max_len : ℕ) (content : Bytes)
    → 0 < max_len
    → max_len < length content
    → is_too_large max_len content ≡ true
unfolding is_too_large
is_too_large_large max_len content pos long = ground arith

is_too_large_small :
    (max_len : ℕ) (content : Bytes)
    → (max_len ≡ 0) ⊎ (length content ≤ max_len)
    → is_too_large max_len content ≡ false
unfolding is_too_large
is_too_large_small max_len content h = ground arith

length-truncated :
    (max_len : ℕ) (content : Bytes)
    → max_len < length content
    → length (take max_len content ++ truncation_note max_len (length content))
      ≡ max_len + length (truncation_note max_len (length content))
length-truncated max_len content long =
    length-append (take max_len content) (truncation_note max_len (length content))
    ∙ omega (arith, length-take max_len content)

-- With a positive limit, an output longer than the limit is marked as modified and keeps exactly its
-- first bytes up to the limit, followed by a note that gives both lengths; its warnings are one
-- for the size and one for each rule that fires on the text with the note.
pub sanitize_tool_output-large :
    (p : Policy) (tool : String) (content : Bytes) (max_len : ℕ)
    → 0 < max_len
    → max_len < length content
    → let out = sanitize_tool_output p tool content max_len in
      (out.was_modified ≡ true)
      × (out.content ≡ take max_len content ++ truncation_note max_len (length content))
      × (length out.content ≡ max_len + length (truncation_note max_len (length content)))
      × (length out.warnings ≡ suc (length (evaluate p out.content)))
sanitize_tool_output-large p tool content max_len pos long = (large, text, size, warned)
  where
    large : (sanitize_tool_output p tool content max_len).was_modified ≡ true
    large = unfold sanitize_tool_output in is_too_large_large max_len content pos long

    text :
        (sanitize_tool_output p tool content max_len).content
        ≡ take max_len content ++ truncation_note max_len (length content)
    text =
        unfold sanitize_tool_output truncated in
        rw (is_too_large_large max_len content pos long) refl

    size :
        length (sanitize_tool_output p tool content max_len).content
        ≡ max_len + length (truncation_note max_len (length content))
    size = ap length text ∙ length-truncated max_len content long

    warned :
        length (sanitize_tool_output p tool content max_len).warnings
        ≡ suc (length (evaluate p (sanitize_tool_output p tool content max_len).content))
    warned =
        unfold sanitize_tool_output size_warnings in
        rw (is_too_large_large max_len content pos long) (ap suc (length-map _ _))

-- An output within the limit, or any output where the limit is zero, is passed on unchanged and
-- unmarked, with one warning for each rule that fires on it.
pub sanitize_tool_output-small :
    (p : Policy) (tool : String) (content : Bytes) (max_len : ℕ)
    → (max_len ≡ 0) ⊎ (length content ≤ max_len)
    → let out = sanitize_tool_output p tool content max_len in
      (out.was_modified ≡ false)
      × (out.content ≡ content)
      × (length out.warnings ≡ length (evaluate p content))
unfolding sanitize_tool_output truncated size_warnings
sanitize_tool_output-small p tool content max_len h =
    rw (is_too_large_small max_len content h)
      (refl, refl, length-map (evaluate p content) (warning_of (length content)))
