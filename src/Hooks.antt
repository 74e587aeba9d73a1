-- ===== src/Hooks.antt =====
-- internal/hooks/hooks.go: functions that see the events of a message and may refuse it. What a
-- handler answers is a function of the event.
use ironclaw_go.Shared.{
  ℕ, String, Bool, Option, none, some, List, [], ◌∷◌, ◌++◌, Params, Bytes, concat, length, ltb,
}

-- EventType
pub data EventType : Type 0 where
  before_message after_message before_tool_call after_tool_call before_response : EventType

-- The texts of the types.
unfoldable pub type_text : EventType → String
type_text before_message = "before:message"
type_text after_message = "after:message"
type_text before_tool_call = "before:tool_call"
type_text after_tool_call = "after:tool_call"
type_text before_response = "before:response"

-- The data of an event, by the keys that the agent sets: content; content and response; tool and
-- params; tool, output, error and duration; response.
pub data Data : Type 0 where
  message_data : Bytes → Data
  answer_data : Bytes → Bytes → Data
  call_data : String → Params → Data
  result_data : String → Bytes → String → ℕ → Data
  response_data : Bytes → Data

-- Event
pub record Event : Type 0 where
  pub type : EventType
  pub user_id : String
  pub channel : String
  pub fields : Data

-- Handler
abbrev pub Handler : Type 0
Handler = Event → Option String

-- Registry: the handlers of each type.
pub record Registry : Type 0 where
  pub before_message_handlers : List Handler
  pub after_message_handlers : List Handler
  pub before_tool_call_handlers : List Handler
  pub after_tool_call_handlers : List Handler
  pub before_response_handlers : List Handler

-- NewRegistry
unfoldable pub new_registry : Registry
new_registry = record {
  before_message_handlers = [];
  after_message_handlers = [];
  before_tool_call_handlers = [];
  after_tool_call_handlers = [];
  before_response_handlers = [];
}

-- r.handlers[eventType]
unfoldable pub handlers_of : EventType → Registry → List Handler
handlers_of before_message r = r.before_message_handlers
handlers_of after_message r = r.after_message_handlers
handlers_of before_tool_call r = r.before_tool_call_handlers
handlers_of after_tool_call r = r.after_tool_call_handlers
handlers_of before_response r = r.before_response_handlers

-- Registry.Register
unfoldable pub register : EventType → Handler → Registry → Registry
register before_message h r = record r {
  before_message_handlers = r.before_message_handlers ++ h ∷ [];
}
register after_message h r = record r {
  after_message_handlers = r.after_message_handlers ++ h ∷ [];
}
register before_tool_call h r = record r {
  before_tool_call_handlers = r.before_tool_call_handlers ++ h ∷ [];
}
register after_tool_call h r = record r {
  after_tool_call_handlers = r.after_tool_call_handlers ++ h ∷ [];
}
register before_response h r = record r {
  before_response_handlers = r.before_response_handlers ++ h ∷ [];
}

-- The loop of Trigger: the first error.
unfoldable pub first_error : List Handler → Event → Option String
first_error [] e = none
first_error (h ∷ hs) e =
    let rest = first_error hs e in
    elim (h e) [
      | none ↦ rest
      | some text ↦ some (concat ("hook " ∷ type_text e.type ∷ ": " ∷ text ∷ []))
    ]

-- Registry.Trigger
unfoldable pub trigger : Event → Registry → Option String
unfolding handlers_of first_error type_text
trigger e r = first_error (handlers_of e.type r) e

-- Registry.HasHandlers
unfoldable pub has_handlers : EventType → Registry → Bool
unfolding handlers_of
has_handlers type r = ltb 0 (length (handlers_of type r))
