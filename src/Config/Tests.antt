-- ===== src/Config/Tests.antt =====
-- The configuration of internal/config/config.go on examples.
use ironclaw_go.Shared.{◌≡◌, refl, ◌⊎◌, [], if◌then◌else◌, ◌==◌, ok, err, none, some}
use ironclaw_go.Config.{
  ℤ, negsuc, Config, ConfigError, Env, Files, atoi, invalid_number, load_from_env, load_files,
  default_config, load,
}
use ironclaw_go.Config.Laws.{IsSound, Raised, layers, load-layers}

abbrev variables : Env
variables name =
    if name == "IRONCLAW_AGENT_MAX_PARALLEL_JOBS"
    then "-3"
    else if name == "IRONCLAW_DATABASE_DRIVER"
    then "postgres"
    else if name == "MINIMAX_API_KEY"
    then "key"
    else ""

-- A file that sets the DSN.
abbrev files : Files
files = record {
  exists = λ path. path == ".ironclaw.toml";
  home = "/home/ann";
  decode = λ path c. ok (record c { database = record c.database { dsn = "host=db" } }, []);
}

negative : atoi "-3" ≡ some (negsuc 2)
unfolding atoi
negative = refl

too_large : atoi "9223372036854775808" ≡ none
unfolding atoi
too_large = refl

not_a_number :
    load (λ name. if name == "IRONCLAW_CHANNELS_HTTP_PORT" then "80a" else "") files ""
    ≡ err (invalid_number "IRONCLAW_CHANNELS_HTTP_PORT")
unfolding load
not_a_number = refl

abbrev layered : Config
layered = record default_config {
  agent = record default_config.agent { max_parallel_jobs = negsuc 2 };
  database = record default_config.database { driver = "postgres"; dsn = "host=db" };
  llm = record default_config.llm {
    provider = "minimax";
    model = "MiniMax-M2.7";
    api_key = "key";
    base_url = "https://api.minimax.chat/v1";
  };
}

layers-layered : layers variables files "" ≡ ok layered
unfolding load_from_env load_files
layers-layered = refl

load-layers_example :
    (IsSound layered
      × ((jobs : ℤ) × (Raised layered.agent.max_parallel_jobs jobs
            × (load variables files ""
                ≡ ok (record layered {
                  agent = record layered.agent { max_parallel_jobs = jobs };
                })))))
    ⊎ ((¬ (IsSound layered)) × ((e : ConfigError) × (load variables files "" ≡ err e)))
load-layers_example = load-layers variables files "" layered layers-layered
