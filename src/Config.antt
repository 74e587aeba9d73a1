-- ===== src/Config.antt =====
-- internal/config/config.go: the configuration and the layers that it is loaded from.
pub mod Settings
pub mod Laws
pub mod Tests
use ironclaw_go.Shared.{
  ℕ, zero, suc, ◌+◌, ◌-◌, ◌*◌, ◌^◌, String, Bool, true, false, not, ◌||◌, ◌&&◌, Option, none, some,
  List, [], ◌∷◌, map, Dict, Result, ok, err, ◌>>=◌, if◌then◌else◌, ◌==◌, leb, ltb, concat,
}
use mathlib.Core.Option
use Prim.Native.Char.{code}
use Prim.Native.String
use ironclaw_go.Workspace.Clean.{join}
pub use ironclaw_go.Config.Settings.{
  ℤ, pos, negsuc, DatabaseConfig, LlmConfig, ChannelConfig, SafetyConfig, SidecarConfig,
  AgentConfig, Config, default_config,
}

pub data ConfigError : Type 0 where
  invalid_number : String → ConfigError
  decode_failed : String → ConfigError
  unknown_keys : List String → ConfigError
  invalid_env : String → ConfigError
  invalid_driver : String → ConfigError
  dsn_required : String → ConfigError
  load_toml : String → ConfigError → ConfigError

-- The value of decimal digits after those that make `n`.
unfoldable pub digits : ℕ → String → Option ℕ
digits n String.[] = some n
digits n (String.◌∷◌ c s) =
    let rest = digits (10 * n + (code c - 48)) s in
    if leb 48 (code c) && leb (code c) 57 then rest else none

abbrev pub natural : String → Option ℕ
natural s = if s == "" then none else digits 0 s

abbrev pub up_to : ℕ → Option ℕ → Option ℕ
up_to bound none = none
up_to bound (some n) = if leb n bound then some n else none

abbrev pub negated : ℕ → ℤ
negated zero = pos 0
negated (suc n) = negsuc n

-- strconv.Atoi, where an int has 64 bits
unfoldable pub atoi : String → Option ℤ
unfolding digits
atoi String.[] = none
atoi (String.◌∷◌ c s) =
    if leb 45 (code c) && leb (code c) 45
    then Option.map negated (up_to (2 ^ 63) (natural s))
    else if leb 43 (code c) && leb (code c) 43
    then Option.map pos (up_to (2 ^ 63 - 1) (natural s))
    else Option.map pos (up_to (2 ^ 63 - 1) (natural (String.◌∷◌ c s)))

-- A variable that is set and not empty takes the place of the value; one that is not set is "".
abbrev pub or_keep : String → String → String
or_keep v old = if v == "" then old else v

unfoldable pub number_or_keep : String → String → ℤ → Result ConfigError ℤ
unfolding atoi
number_or_keep name v old =
    if v == "" then ok old else elim (atoi v) [ none ↦ err (invalid_number name) | some n ↦ ok n ]

abbrev pub Env : Type 0
Env = String → String

-- The key of MiniMax brings its provider, its model and its address, where these are the defaults.
unfoldable pub with_minimax : String → LlmConfig → LlmConfig
with_minimax key llm = if key == "" then llm else record llm {
  api_key = key;
  provider = if llm.provider == "" || llm.provider == "openai" then "minimax" else llm.provider;
  model = if llm.model == "" || llm.model == "gpt-4o-mini" then "MiniMax-M2.7" else llm.model;
  base_url = if llm.base_url == "" then "https://api.minimax.chat/v1" else llm.base_url;
}

unfoldable pub llm_from_env : Env → LlmConfig → LlmConfig
unfolding with_minimax
llm_from_env env llm =
    let named = record llm {
      provider = or_keep (env "IRONCLAW_LLM_PROVIDER") llm.provider;
      model = or_keep (env "IRONCLAW_LLM_MODEL") llm.model;
      api_key = or_keep (env "IRONCLAW_LLM_API_KEY") llm.api_key;
    } in
    let keyed = with_minimax (env "MINIMAX_API_KEY") named in
    record keyed { base_url = or_keep (env "IRONCLAW_LLM_BASE_URL") keyed.base_url }

abbrev pub http_or_keep : String → Bool → Bool
http_or_keep v old = if v == "" then old else v == "true" || v == "1" || v == "yes"

-- loadFromEnv, by the values of the variables
unfoldable pub load_from_env : Env → Config → Result ConfigError Config
unfolding number_or_keep llm_from_env
load_from_env env c = do
  jobs ←
      number_or_keep "IRONCLAW_AGENT_MAX_PARALLEL_JOBS" (env "IRONCLAW_AGENT_MAX_PARALLEL_JOBS")
        c.agent.max_parallel_jobs
  port ←
      number_or_keep "IRONCLAW_CHANNELS_HTTP_PORT" (env "IRONCLAW_CHANNELS_HTTP_PORT")
        c.channels.http_port
  ok (record c {
    owner_id = or_keep (env "IRONCLAW_OWNER_ID") c.owner_id;
    env = or_keep (env "IRONCLAW_ENV") c.env;
    log_level = or_keep (env "IRONCLAW_LOG_LEVEL") c.log_level;
    api_key = or_keep (env "IRONCLAW_API_KEY") c.api_key;
    agent = record c.agent {
      name = or_keep (env "IRONCLAW_AGENT_NAME") c.agent.name;
      max_parallel_jobs = jobs;
      auto_approve_tools =
          env "IRONCLAW_AGENT_AUTO_APPROVE_TOOLS" == "true" || c.agent.auto_approve_tools;
    };
    database = record c.database {
      driver = or_keep (env "IRONCLAW_DATABASE_DRIVER") c.database.driver;
      dsn = or_keep (env "IRONCLAW_DATABASE_DSN") c.database.dsn;
    };
    llm = llm_from_env env c.llm;
    channels = record c.channels {
      http = http_or_keep (env "IRONCLAW_CHANNELS_HTTP") c.channels.http;
      http_port = port;
    };
    sidecar = record c.sidecar {
      address = or_keep (env "IRONCLAW_SIDECAR_ADDRESS") c.sidecar.address;
    };
  })

-- What the operating system and the toml package answer: whether os.Stat finds a file, the directory of
-- the user, and what toml.DecodeFile makes of a configuration, with the keys that it does not know.
pub record Files : Type 0 where
  pub exists : String → Bool
  pub home : String
  pub decode : String → Config → Result String (Config × List String)

-- loadFromFile
unfoldable pub load_from_file : Files → String → Config → Result ConfigError Config
load_from_file files path c = elim (files.decode path c) [
  | err e ↦ err (decode_failed e)
  | ok (d, []) ↦ ok d
  | ok (d, k ∷ ks) ↦ err (unknown_keys (k ∷ ks))
]

-- defaultConfigPaths
unfoldable pub default_config_paths : String → List String
unfolding join
default_config_paths home =
    "ironclaw.toml"
    ∷ ".ironclaw.toml"
    ∷ join home ".config/ironclaw/config.toml"
    ∷ join home ".ironclaw/config.toml"
    ∷ []

abbrev pub in_toml : String → Result ConfigError Config → Result ConfigError Config
in_toml path (ok c) = ok c
in_toml path (err e) = err (load_toml path e)

-- The first file of the paths that there is.
unfoldable pub load_first : Files → List String → Config → Result ConfigError Config
unfolding load_from_file
load_first files [] c = ok c
load_first files (p ∷ ps) c =
    let rest = load_first files ps c in
    if files.exists p then in_toml p (load_from_file files p c) else rest

unfoldable pub load_files : Files → String → Config → Result ConfigError Config
unfolding load_first default_config_paths
load_files files path c =
    if path == ""
    then load_first files (default_config_paths files.home) c
    else load_first files (path ∷ []) c

abbrev pub at_least_one : ℤ → ℤ
at_least_one (pos zero) = pos 1
at_least_one (pos (suc n)) = pos (suc n)
at_least_one (negsuc n) = pos 1

-- validate
unfoldable pub validate : Config → Result ConfigError Config
validate c =
    if not (c.env == "development" || c.env == "staging" || c.env == "production")
    then err (invalid_env c.env)
    else if not (
        c.database.driver == "memory"
        || c.database.driver == "postgres"
        || c.database.driver == "libsql")
    then err (invalid_driver c.database.driver)
    else if not (c.database.driver == "memory") && c.database.dsn == ""
    then err (dsn_required c.database.driver)
    else ok (record c {
      agent = record c.agent { max_parallel_jobs = at_least_one c.agent.max_parallel_jobs };
    })

-- Load
unfoldable pub load : Env → Files → String → Result ConfigError Config
unfolding load_from_env load_files validate
load env files path = do
  c ← load_from_env env default_config
  d ← load_files files path c
  validate d
