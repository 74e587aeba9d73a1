-- ===== src/Db/Memory.antt =====
-- internal/db/memory.go. The methods store the pointers that they are given; as no caller writes
-- through one afterwards, the maps hold values.
pub mod Keys
use ironclaw_go.Shared.{
  ℕ, String, Bool, true, false, Option, none, some, List, [], ◌∷◌, ◌++◌, Dict, get, put, remove,
  values, Bytes, keep_if, Result, ok, err, leb, if◌then◌else◌, ◌==◌, ◌||◌,
}
use ironclaw_go.Db.{
  Message, Conversation, Job, ActionRecord, DbError, user_missing, key_missing,
  conversation_missing, job_missing,
}
use ironclaw_go.Db.Paging.{page}

-- MemoryDB
pub record MemoryDb : Type 0 where
  pub settings : Dict (Dict String)
  pub conversations : Dict Conversation
  pub messages : Dict (List Message)
  pub jobs : Dict Job
  pub actions : Dict (List ActionRecord)

-- NewMemoryDB
abbrev pub new_memory_db : MemoryDb
new_memory_db = record { settings = []; conversations = []; messages = []; jobs = []; actions = [] }

-- The value of a missing key: the nil slice or map.
abbrev pub or_nil {ℓ} : {A : Type ℓ} → Option (List A) → List A
or_nil none = []
or_nil (some xs) = xs

-- GetSetting
unfoldable pub get_setting : String → String → MemoryDb → Result DbError String
get_setting user k m = elim (get user m.settings) [
  | none ↦ err (user_missing user)
  | some found ↦ elim (get k found) [ none ↦ err (key_missing k) | some v ↦ ok v ]
]

-- SetSetting
unfoldable pub set_setting : String → String → String → MemoryDb → MemoryDb
set_setting user k v m = record m {
  settings = put user (put k v (or_nil (get user m.settings))) m.settings;
}

-- DeleteSetting: the map of the user is shared, so what is deleted from it is deleted for good.
unfoldable pub delete_setting : String → String → MemoryDb → MemoryDb
delete_setting user k m = elim (get user m.settings) [
  | none ↦ m
  | some found ↦ record m { settings = put user (remove k found) m.settings }
]

-- A creation time that was not set is now.
abbrev pub stamped : ℕ → ℕ → ℕ
stamped now t = if leb t 0 then now else t

-- SaveConversation
unfoldable pub save_conversation : ℕ → Conversation → MemoryDb → MemoryDb
save_conversation now c m = record m {
  conversations =
      put c.id (record c { created_at = stamped now c.created_at; updated_at = now })
        m.conversations;
}

-- GetConversation
unfoldable pub get_conversation : String → MemoryDb → Result DbError Conversation
get_conversation id m = elim (get id m.conversations) [
  | none ↦ err (conversation_missing id)
  | some c ↦ ok c
]

-- ListConversations; `none` is a panic.
unfoldable pub list_conversations : String → ℕ → ℕ → MemoryDb → Option (List Conversation)
unfolding page
list_conversations user limit offset m =
    page limit offset (keep_if (λ c. c.user_id == user) (values m.conversations))

-- DeleteConversation
unfoldable pub delete_conversation : String → MemoryDb → MemoryDb
delete_conversation id m = record m {
  conversations = remove id m.conversations;
  messages = remove id m.messages;
}

-- if conv, ok := m.conversations[...]; ok { conv.UpdatedAt = time.Now() }
unfoldable pub touch : ℕ → String → MemoryDb → MemoryDb
touch now id m = elim (get id m.conversations) [
  | none ↦ m
  | some c ↦ record m { conversations = put id (record c { updated_at = now }) m.conversations }
]

-- SaveMessage
unfoldable pub save_message : ℕ → Message → MemoryDb → MemoryDb
unfolding touch
save_message now msg m = touch now msg.thread_id (record m {
  messages =
      put msg.thread_id
        (or_nil (get msg.thread_id m.messages)
          ++ (record msg { created_at = stamped now msg.created_at } ∷ []))
        m.messages;
})

-- GetMessagesByThread; `none` is a panic.
unfoldable pub get_messages_by_thread : String → ℕ → ℕ → MemoryDb → Option (List Message)
unfolding page
get_messages_by_thread thread limit offset m = page limit offset (or_nil (get thread m.messages))

-- DeleteMessagesByThread
unfoldable pub delete_messages_by_thread : String → MemoryDb → MemoryDb
delete_messages_by_thread thread m = record m { messages = remove thread m.messages }

-- SaveJob
unfoldable pub save_job : ℕ → Job → MemoryDb → MemoryDb
save_job now j m = record m {
  jobs = put j.id (record j { created_at = stamped now j.created_at; updated_at = now }) m.jobs;
}

-- GetJob
unfoldable pub get_job : String → MemoryDb → Result DbError Job
get_job id m = elim (get id m.jobs) [ none ↦ err (job_missing id) | some j ↦ ok j ]

-- The jobs of a user, or of all for an empty name.
abbrev pub of_user : String → Job → Bool
of_user user j = user == "" || j.user_id == user

-- ListJobs; `none` is a panic.
unfoldable pub list_jobs : String → ℕ → ℕ → MemoryDb → Option (List Job)
unfolding page
list_jobs user limit offset m = page limit offset (keep_if (of_user user) (values m.jobs))

-- UpdateJobStatus
unfoldable pub update_job_status :
    ℕ → String → String → Bytes → String → MemoryDb → MemoryDb × Result DbError (Unit {0})
update_job_status now id status output error m = elim (get id m.jobs) [
  | none ↦ (m, err (job_missing id))
  | some j ↦ (
    record m {
      jobs =
          put id (record j { status = status; output = output; error = error; updated_at = now })
            m.jobs;
    },
    ok tt,
  )
]

-- DeleteJob
unfoldable pub delete_job : String → MemoryDb → MemoryDb
delete_job id m = record m { jobs = remove id m.jobs; actions = remove id m.actions }

-- SaveActionRecord
unfoldable pub save_action_record : ℕ → ActionRecord → MemoryDb → MemoryDb
save_action_record now r m = record m {
  actions =
      put r.job_id
        (or_nil (get r.job_id m.actions)
          ++ (record r { created_at = stamped now r.created_at } ∷ []))
        m.actions;
}

-- ListActionRecordsByJob
unfoldable pub list_action_records_by_job : String → MemoryDb → List ActionRecord
list_action_records_by_job job m = or_nil (get job m.actions)
