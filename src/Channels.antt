-- ===== src/Channels.antt =====
-- internal/channels: the messages, responses and events that pass between the program and its
-- users (channel.go), the hub of events (httpgw/events.go) and the manager of channels (manager.go).
pub mod EventHub
pub mod Gateway
pub mod Manager
use ironclaw_go.Shared.{ℕ, String, List, Bytes, Params}

-- AttachmentKind
pub data AttachmentKind : Type 0 where
  audio image document : AttachmentKind

-- Attachment
pub record Attachment : Type 0 where
  pub id : String
  pub kind : AttachmentKind
  pub mime_type : String
  pub filename : String
  pub size_bytes : ℕ
  pub source_url : String
  pub storage_key : String
  pub local_path : String
  pub extracted_text : String
  pub content : Bytes
  pub duration_secs : ℕ

-- IncomingMessage
pub record IncomingMessage : Type 0 where
  pub id : String
  pub channel : String
  pub user_id : String
  pub content : String
  pub thread_id : String
  pub attachments : List Attachment

-- OutgoingResponse
pub record OutgoingResponse : Type 0 where
  pub content : Bytes
  pub thread_id : String
  pub status : String

-- EventType
pub data EventType : Type 0 where
  agent_response tool_call tool_result gate_pending gate_resolved error ping : EventType

-- Event
pub record Event : Type 0 where
  pub kind : EventType
  pub user_id : String
  pub thread_id : String
  pub payload : String
  pub meta : Params
