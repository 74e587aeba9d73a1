-- ===== src/History/Search.antt =====
-- SearchMessages of internal/history/store.go finds the first matches.
use ironclaw_go.Shared.{
  ℕ, String, Bool, List, [], ◌∷◌, ◌++◌, map, Bytes, contains_bytes, length, take, keep_if, leb, get,
  values, ◌==◌,
}
use ironclaw_go.Db.{Message, Conversation}
use ironclaw_go.Db.Memory.{MemoryDb, or_nil}
use ironclaw_go.History.{SearchResult}
use ironclaw_go.History.Snippet.{extract_snippet}

-- What is kept of a message that contains the query, where `lower` is strings.ToLower.
abbrev pub found : (Bytes → Bytes) → Bytes → Message → SearchResult
found lower query msg = record {
  thread_id = msg.thread_id;
  message_id = msg.id;
  role = msg.role;
  content = msg.content;
  matched_text = extract_snippet lower msg.content query 80;
  created_at = msg.created_at;
}

-- All the messages that contain the query once both are in lower case, in order.
abbrev pub matches : (Bytes → Bytes) → Bytes → List Message → List SearchResult
matches lower query msgs =
    map (found lower query) (keep_if (λ msg. contains_bytes (lower msg.content) (lower query)) msgs)

-- All matches of the first thousand messages of each conversation.
abbrev pub all_matches : (Bytes → Bytes) → Bytes → List Conversation → MemoryDb → List SearchResult
all_matches lower query [] m = []
all_matches lower query (c ∷ cs) m =
    matches lower query (take 1000 (or_nil (get c.id m.messages))) ++ all_matches lower query cs m

-- The first hundred conversations of a user.
abbrev pub conversations_of : String → MemoryDb → List Conversation
conversations_of user m = take 100 (keep_if (λ c. c.user_id == user) (values m.conversations))

-- What a search that may give `n` results makes of all that there are, and whether it is over.
abbrev first : ℕ → List SearchResult → List SearchResult × Bool
first n all = (take n all, leb n (length all))
