-- ===== src/Skills/Attenuation.antt =====
-- internal/skills/attenuation.go
use ironclaw_go.Shared.{String, Bool, List, [], ◌∷◌, ◌==◌, any, if◌then◌else◌}
use ironclaw_go.Llm.{ToolDefinition}
use ironclaw_go.Agent.Loop
use ironclaw_go.Skills.{
  TrustLevel, trust_installed, trust_trusted, Skill, Registry, lowest, all_skills,
  build_system_prompt,
}

-- ReadOnlyTools
abbrev pub read_only_tools : List String
read_only_tools =
    "echo" ∷ "time" ∷ "json" ∷ "memory_read" ∷ "memory_search" ∷ "skill_list" ∷ "skill_search" ∷ []

-- slices.Contains(ReadOnlyTools, t.Function.Name)
unfoldable pub is_read_only : ToolDefinition → Bool
is_read_only t = any (λ name. name == t.function.name) read_only_tools

-- AttenuationResult, less its explanation, a text made from the other fields.
pub record AttenuationResult : Type 0 where
  pub tools : List ToolDefinition
  pub min_trust : TrustLevel
  pub removed : List String

-- The loop over the tools: those that are kept, and the names of the others.
unfoldable pub keep_read_only : List ToolDefinition → List ToolDefinition
unfolding is_read_only
keep_read_only [] = []
keep_read_only (t ∷ tools) =
    let rest = keep_read_only tools in if is_read_only t then t ∷ rest else rest

unfoldable pub removed_names : List ToolDefinition → List String
unfolding is_read_only
removed_names [] = []
removed_names (t ∷ tools) =
    let rest = removed_names tools in if is_read_only t then rest else t.function.name ∷ rest

-- The switch of AttenuateTools.
unfoldable pub at_trust : TrustLevel → List ToolDefinition → AttenuationResult
unfolding keep_read_only removed_names
at_trust trust_trusted tools = record { tools = tools; min_trust = trust_trusted; removed = [] }
at_trust trust_installed tools = record {
  tools = keep_read_only tools;
  min_trust = trust_installed;
  removed = removed_names tools;
}

-- AttenuateTools
unfoldable pub attenuate_tools : List ToolDefinition → List Skill → AttenuationResult
unfolding lowest at_trust
attenuate_tools tools [] = record { tools = tools; min_trust = trust_trusted; removed = [] }
attenuate_tools tools (s ∷ skills) = at_trust (lowest trust_trusted (s ∷ skills)) tools

-- What the agent takes from the registry of skills.
unfoldable pub skills_of : Registry → Loop.Skills
unfolding attenuate_tools all_skills build_system_prompt
skills_of r = record {
  system_prompt = build_system_prompt r;
  attenuate = λ defs. (attenuate_tools defs (all_skills r)).tools;
}
