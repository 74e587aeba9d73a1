-- ===== src/History.antt =====
-- internal/history/store.go: what a user said and did, over the database in memory. `none` is the panic
-- of a page, and `lower` is strings.ToLower, by Unicode's tables.
pub mod Sort
pub mod Snippet
pub mod Search
pub mod Tests
use ironclaw_go.Shared.{
  ℕ, String, Bool, true, false, Option, none, some, List, [], ◌∷◌, ◌++◌, Bytes, contains_bytes,
  length, take, leb, ltb, if◌then◌else◌,
}
use ironclaw_go.Db.{Message, Conversation, Job, ActionRecord}
use ironclaw_go.Db.Memory.{
  MemoryDb, list_conversations, get_messages_by_thread, delete_messages_by_thread,
  delete_conversation, list_jobs, list_action_records_by_job,
}
use ironclaw_go.History.Sort.{sort_messages_desc}
use ironclaw_go.History.Snippet.{extract_snippet}

-- Store.ThreadHistory
unfoldable pub thread_history : String → ℕ → ℕ → MemoryDb → Option (List Message)
thread_history thread limit offset m = get_messages_by_thread thread limit offset m

-- Store.UserConversations
unfoldable pub user_conversations : String → ℕ → ℕ → MemoryDb → Option (List Conversation)
user_conversations user limit offset m = list_conversations user limit offset m

-- The loop of RecentMessages: a page of each conversation.
unfoldable pub gather : ℕ → List Conversation → MemoryDb → Option (List Message)
gather limit [] m = some []
gather limit (c ∷ cs) m =
    let rest = gather limit cs m in
    elim (get_messages_by_thread c.id limit 0 m) [
      | none ↦ none
      | some msgs ↦ elim rest [ none ↦ none | some more ↦ some (msgs ++ more) ]
    ]

-- if len(all) > limit { all = all[:limit] }
unfoldable pub capped : ℕ → List Message → List Message
capped limit all = if ltb limit (length all) then take limit all else all

-- Store.RecentMessages
unfoldable pub recent_messages : String → ℕ → MemoryDb → Option (List Message)
unfolding gather capped
recent_messages user limit m = elim (list_conversations user 100 0 m) [
  | none ↦ none
  | some convs ↦ elim (gather limit convs m) [
    | none ↦ none
    | some all ↦ some (capped limit (sort_messages_desc all))
  ]
]

-- Store.ArchiveThread
unfoldable pub archive_thread : String → MemoryDb → MemoryDb
archive_thread thread m = delete_messages_by_thread thread m

-- Store.DeleteThread
unfoldable pub delete_thread : String → MemoryDb → MemoryDb
delete_thread thread m = delete_conversation thread (delete_messages_by_thread thread m)

-- Store.JobHistory
unfoldable pub job_history : String → ℕ → ℕ → MemoryDb → Option (List Job)
job_history user limit offset m = list_jobs user limit offset m

-- Store.ActionHistory
unfoldable pub action_history : String → MemoryDb → List ActionRecord
action_history job m = list_action_records_by_job job m

-- SearchResult
pub record SearchResult : Type 0 where
  pub thread_id : String
  pub message_id : String
  pub role : String
  pub content : Bytes
  pub matched_text : Bytes
  pub created_at : ℕ

module _ (lower : Bytes → Bytes) where
  -- strings.Contains(strings.ToLower(msg.Content), queryLower)
  unfoldable pub is_match : Bytes → Message → Bool
  is_match query msg = contains_bytes (lower msg.content) (lower query)

  unfoldable pub result_of : Bytes → Message → SearchResult
  result_of query msg = record {
    thread_id = msg.thread_id;
    message_id = msg.id;
    role = msg.role;
    content = msg.content;
    matched_text = extract_snippet lower msg.content query 80;
    created_at = msg.created_at;
  }

  -- The inner loop of SearchMessages: the results so far, and whether the search is over.
  unfoldable pub search_thread :
      Bytes → ℕ → List Message → List SearchResult → List SearchResult × Bool
  unfolding is_match result_of
  search_thread query limit [] results = (results, false)
  search_thread query limit (msg ∷ msgs) results = elim (is_match query msg) [
    | false ↦ search_thread query limit msgs results
    | true ↦ elim (leb limit (length (results ++ result_of query msg ∷ []))) [
      | true ↦ (results ++ result_of query msg ∷ [], true)
      | false ↦ search_thread query limit msgs (results ++ result_of query msg ∷ [])
    ]
  ]

  -- The outer loop; `rest` is the search in the other conversations.
  unfoldable pub then_search :
      List SearchResult × Bool
      → (List SearchResult → Option (List SearchResult))
      → Option (List SearchResult)
  then_search (results, true) rest = some results
  then_search (results, false) rest = rest results

  unfoldable pub search_threads :
      Bytes → ℕ → List Conversation → MemoryDb → List SearchResult → Option (List SearchResult)
  unfolding search_thread then_search
  search_threads query limit [] m results = some results
  search_threads query limit (c ∷ cs) m results = elim (get_messages_by_thread c.id 1000 0 m) [
    | none ↦ none
    | some msgs ↦
        then_search (search_thread query limit msgs results) (search_threads query limit cs m)
  ]

  -- Store.SearchMessages
  unfoldable pub search_messages : String → Bytes → ℕ → MemoryDb → Option (List SearchResult)
  unfolding search_threads
  search_messages user [] limit m = some []
  search_messages user (b ∷ query) limit m = elim (list_conversations user 100 0 m) [
    | none ↦ none
    | some convs ↦ search_threads (b ∷ query) limit convs m []
  ]
