-- ===== src/Skills/Tests.antt =====
-- A registry with an installed skill.
use ironclaw_go.Shared.{values, String, true, ◌≡◌, refl, [], ◌∷◌, List, All, any, some, bytes}
use ironclaw_go.Llm.{ToolDefinition}
use ironclaw_go.Agent.Samples.{agent}
use ironclaw_go.Agent.Conversation.{build_llm_tools}
use ironclaw_go.Skills.{is_below, Skill, Registry, trust_installed, all_skills}
use ironclaw_go.Skills.Attenuation.{is_read_only, skills_of}
use ironclaw_go.Skills.Laws.{is_installed, build_llm_tools-safe}

abbrev definition : String → ToolDefinition
definition name = record { type = "function"; function = record { name = name; description = "" } }

abbrev tools : List ToolDefinition
tools = definition "echo" ∷ definition "shell" ∷ []

abbrev found_online : Skill
found_online = record {
  name = "poet";
  activation = record { keywords = []; exclude_keywords = [] };
  content = bytes "rhyme";
  trust = trust_installed;
}

abbrev registry : Registry
registry = ("poet", found_online) ∷ []

low_trust : any is_installed (all_skills registry) ≡ true
unfolding all_skills values is_below
low_trust = refl

build_llm_tools-safe_example :
    All
      (λ t. is_read_only t ≡ true)
      (build_llm_tools (record agent { tools = some tools; skills = some (skills_of registry) }))
build_llm_tools-safe_example = build_llm_tools-safe agent registry tools low_trust
