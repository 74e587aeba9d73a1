-- ===== src/History/Tests.antt =====
-- The parts of internal/history at a small input.
use ironclaw_go.Shared.{
  Bytes, keep_if, not, ◌&&◌, ◌++◌, ℕ, ◌≡◌, ◌≤◌, ◌+◌, refl, true, List, [], ◌∷◌, bytes, String,
  length, leb, contains_bytes, to_lower, lower_byte, arith,
}
use mathlib.Core.List.{Perm}
use ironclaw_go.Db.{Message, Conversation}
use ironclaw_go.Db.Memory.{MemoryDb, new_memory_db}
use ironclaw_go.History.Sort.{sort_messages_desc, IsDescending, sort_messages_desc-sorts}
use ironclaw_go.History.Snippet.{extract_snippet}
use ironclaw_go.History.Snippet.Laws.{extract_snippet-shows}

abbrev message : String → String → ℕ → Message
message id content at = record {
  id = id;
  thread_id = "t1";
  user_id = "ann";
  role = "user";
  content = bytes content;
  tool_calls = [];
  created_at = at;
}

abbrev thread : Conversation
thread = record {
  id = "t1";
  user_id = "ann";
  channel = "repl";
  title = "";
  messages = [];
  created_at = 1;
  updated_at = 1;
}

abbrev kept : List Message
kept =
    message "m1" "how is the Weather" 10
    ∷ message "m2" "sunny weather" 30
    ∷ message "m3" "thanks" 20
    ∷ []

abbrev store : MemoryDb
store = record new_memory_db { conversations = ("t1", thread) ∷ []; messages = ("t1", kept) ∷ [] }

sorted :
    sort_messages_desc kept
    ≡ message "m2" "sunny weather" 30
      ∷ message "m3" "thanks" 20
      ∷ message "m1" "how is the Weather" 10
      ∷ []
unfolding sort_messages_desc
sorted = refl

shortened :
    extract_snippet to_lower (bytes "a very long text with a match in it") (bytes "match") 12
    ≡ bytes "... a match in ..."
unfolding extract_snippet lower_byte
shortened = refl

-- A lower case that is shorter than the text: the byte 176 is left out.
abbrev shortens : Bytes → Bytes
shortens b = keep_if (λ c. not (leb 176 c && leb c 176)) b

abbrev dotted : Bytes
dotted = 196 ∷ 176 ∷ 196 ∷ 176 ∷ 196 ∷ 176 ∷ 196 ∷ 176 ∷ bytes "m"

-- The snippet is cut before the match.
missed :
    extract_snippet shortens dotted (bytes "m") 4
    ≡ bytes "..." ++ (176 ∷ 196 ∷ 176 ∷ 196 ∷ bytes "...")
unfolding extract_snippet
missed = refl

sort_messages_desc-sorts_example :
    IsDescending (sort_messages_desc kept) × Perm (sort_messages_desc kept) kept
sort_messages_desc-sorts_example = sort_messages_desc-sorts kept

text_matches :
    contains_bytes (to_lower (bytes "It is SUNNY today")) (to_lower (bytes "sunny")) ≡ true
unfolding contains_bytes lower_byte
text_matches = refl

extract_snippet-shows_example :
    (contains_bytes
        (to_lower (extract_snippet to_lower (bytes "It is SUNNY today") (bytes "sunny") 8))
        (to_lower (bytes "sunny"))
      ≡ true)
    × (length (extract_snippet to_lower (bytes "It is SUNNY today") (bytes "sunny") 8) ≤ 8 + 6)
extract_snippet-shows_example =
    extract_snippet-shows to_lower (bytes "It is SUNNY today") (bytes "sunny") 8 refl refl
      text_matches (omega arith)
