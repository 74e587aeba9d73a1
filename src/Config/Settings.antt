-- ===== src/Config/Settings.antt =====
-- The records of internal/config/config.go and their defaults.
use ironclaw_go.Shared.{ℕ, String, Bool, true, false, List, [], Dict}

-- An int of the program.
pub data ℤ : Type 0 where
  pos : ℕ → ℤ
  negsuc : ℕ → ℤ

-- DatabaseConfig
pub record DatabaseConfig : Type 0 where
  pub driver : String
  pub dsn : String
  pub max_conns : ℤ
  pub min_conns : ℤ

-- LLMConfig; a float64 is its decimal notation.
pub record LlmConfig : Type 0 where
  pub provider : String
  pub model : String
  pub api_key : String
  pub base_url : String
  pub timeout_sec : ℤ
  pub max_tokens : ℤ
  pub temperature : String
  pub extra : Dict String

-- ChannelConfig
pub record ChannelConfig : Type 0 where
  pub repl : Bool
  pub http : Bool
  pub web_socket : Bool
  pub http_port : ℤ
  pub web_socket_port : ℤ

-- SafetyConfig
pub record SafetyConfig : Type 0 where
  pub scan_inbound : Bool
  pub scan_outbound : Bool
  pub max_tool_calls_per_min : ℤ

-- SidecarConfig
pub record SidecarConfig : Type 0 where
  pub address : String
  pub max_memory_mb : ℤ
  pub max_fuel : ℕ

-- AgentConfig
pub record AgentConfig : Type 0 where
  pub name : String
  pub max_parallel_jobs : ℤ
  pub auto_approve_tools : Bool
  pub allowed_tools : List String

pub record Config : Type 0 where
  pub owner_id : String
  pub env : String
  pub log_level : String
  pub api_key : String
  pub agent : AgentConfig
  pub database : DatabaseConfig
  pub llm : LlmConfig
  pub channels : ChannelConfig
  pub safety : SafetyConfig
  pub sidecar : SidecarConfig

-- DefaultConfig
abbrev pub default_config : Config
default_config = record {
  owner_id = "owner";
  env = "development";
  log_level = "info";
  api_key = "";
  agent = record {
    name = "IronClaw";
    max_parallel_jobs = pos 4;
    auto_approve_tools = false;
    allowed_tools = [];
  };
  database = record { driver = "memory"; dsn = ""; max_conns = pos 10; min_conns = pos 2 };
  llm = record {
    provider = "openai";
    model = "gpt-4o-mini";
    api_key = "";
    base_url = "";
    timeout_sec = pos 60;
    max_tokens = pos 4096;
    temperature = "0.7";
    extra = [];
  };
  channels = record {
    repl = true;
    http = false;
    web_socket = false;
    http_port = pos 8080;
    web_socket_port = pos 8081;
  };
  safety = record { scan_inbound = true; scan_outbound = true; max_tool_calls_per_min = pos 60 };
  sidecar = record {
    address = "/tmp/ironclaw-sidecar.sock";
    max_memory_mb = pos 128;
    max_fuel = 10000000000;
  };
}
