-- ===== src/Db/Tests.antt =====
-- The database in memory of internal/db/memory.go at a small input.
use ironclaw_go.Shared.{
  ◌^◌, ◌-◌, ◌≤◌, ℕ, ◌≡◌, refl, none, some, List, [], ◌∷◌, length, ok, get, put, arith,
}
use ironclaw_go.Db.Paging.{page, Walk, joined, pages-whole}
use ironclaw_go.Db.Memory.{new_memory_db, set_setting, get_setting}

abbrev numbers : List ℕ
numbers = 4 ∷ 8 ∷ 1 ∷ 6 ∷ 3 ∷ []

second_page : page 2 2 numbers ≡ some (1 ∷ 6 ∷ [])
unfolding page
second_page = refl

-- An end past the largest int64 is negative, and the slice panics.
too_far : page (2 ^ 63 - 1) 1 numbers ≡ none
unfolding page
too_far = refl

setting : get_setting "ann" "k" (set_setting "ann" "k" "v" new_memory_db) ≡ ok "v"
unfolding get_setting set_setting get put
setting = refl

pages-whole_example :
    (ps : List (List ℕ)) × Walk 2 numbers 0 ps
    × (joined ps ≡ numbers)
    × (length ps ≤ length numbers)
pages-whole_example = pages-whole 2 numbers (omega arith) (omega arith)
