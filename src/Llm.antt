-- ===== src/Llm.antt =====
-- internal/llm/llm.go: the messages that the agent exchanges with a language model. The providers
-- themselves (openai.go, anthropic.go, gemini.go, ollama.go) speak HTTP and are a parameter.
use ironclaw_go.Shared.{Bytes, String, List, Result}

-- MessageRole
pub data MessageRole : Type 0 where
  role_system role_user role_assistant role_tool : MessageRole

-- FunctionCall: the arguments are JSON text.
pub record FunctionCall : Type 0 where
  pub name : String
  pub arguments : String

-- ToolCall
pub record ToolCall : Type 0 where
  pub id : String
  pub type : String
  pub function : FunctionCall

-- Message
pub record Message : Type 0 where
  pub role : MessageRole
  pub content : Bytes
  pub tool_calls : List ToolCall
  pub tool_name : String
  pub tool_id : String

-- FunctionSchema, less its parameters, which only the model reads.
pub record FunctionSchema : Type 0 where
  pub name : String
  pub description : String

-- ToolDefinition
pub record ToolDefinition : Type 0 where
  pub type : String
  pub function : FunctionSchema

-- CompletionResponse, less the counts of tokens, which the agent does not read.
pub record CompletionResponse : Type 0 where
  pub content : Bytes
  pub tool_calls : List ToolCall

-- LlmProvider: what Complete answers.
abbrev pub Complete : Type 0
Complete = List Message → List ToolDefinition → Result String CompletionResponse
