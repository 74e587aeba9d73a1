-- ===== src/Db.antt =====
-- internal/db/db.go: what the program keeps, and its errors. What a tool put out and what a message
-- says are lists of bytes. Times are numbers of nanoseconds; a time
-- that was never set is 0.
use ironclaw_go.Shared.{ℕ, String, List, Bytes}
pub mod Paging
pub mod Memory
pub mod Tests

-- ToolCall
pub record ToolCall : Type 0 where
  pub id : String
  pub name : String
  pub arguments : String
  pub result : String
  pub error : String
  pub status : String

-- Message
pub record Message : Type 0 where
  pub id : String
  pub thread_id : String
  pub user_id : String
  pub role : String
  pub content : Bytes
  pub tool_calls : List ToolCall
  pub created_at : ℕ

-- Conversation
pub record Conversation : Type 0 where
  pub id : String
  pub user_id : String
  pub channel : String
  pub title : String
  pub messages : List Message
  pub created_at : ℕ
  pub updated_at : ℕ

-- Job
pub record Job : Type 0 where
  pub id : String
  pub user_id : String
  pub name : String
  pub status : String
  pub input : String
  pub output : Bytes
  pub error : String
  pub created_at : ℕ
  pub updated_at : ℕ

-- ActionRecord
pub record ActionRecord : Type 0 where
  pub id : String
  pub job_id : String
  pub tool_name : String
  pub input : String
  pub output : String
  pub error : String
  pub duration : ℕ
  pub created_at : ℕ

-- The errors of MemoryDB.
pub data DbError : Type 0 where
  user_missing : String → DbError
  key_missing : String → DbError
  conversation_missing : String → DbError
  job_missing : String → DbError
