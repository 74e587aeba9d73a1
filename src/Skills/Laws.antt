-- ===== src/Skills/Laws.antt =====
-- Which tools the language model is shown while skills of low trust are active.
use ironclaw_go.Shared.{
  String, Bool, true, not, ◌||◌, ◌≡◌, refl, ap, inl, inr, some, List, [], ◌∷◌, All, any, keep_if,
  map, if◌then◌else◌, Bool-cases,
}
use ironclaw_go.Llm.{ToolDefinition}
use ironclaw_go.Agent.Loop.{Agent}
use ironclaw_go.Agent.Conversation.{build_llm_tools}
use ironclaw_go.Skills.{
  TrustLevel, trust_installed, trust_trusted, Skill, Registry, is_below, lowest, all_skills,
}
use ironclaw_go.Skills.Attenuation.{
  is_read_only, keep_read_only, removed_names, at_trust, attenuate_tools, skills_of,
}

-- Whether a skill is not fully trusted.
abbrev pub is_installed : Skill → Bool
is_installed s = is_below s.trust trust_trusted

lowest-installed : (skills : List Skill) → lowest trust_installed skills ≡ trust_installed
unfolding lowest is_below
lowest-installed [] = refl
lowest-installed (s ∷ skills) = go s.trust (lowest-installed skills)
  where
    go :
        (t : TrustLevel)
        → lowest trust_installed skills ≡ trust_installed
        → lowest (if is_below t trust_installed then t else trust_installed) skills
          ≡ trust_installed
    go trust_installed h = h
    go trust_trusted h = h

-- The lowest trust is full trust exactly if no skill is below it.
lowest-any :
    (skills : List Skill)
    → lowest trust_trusted skills
      ≡ (if any is_installed skills then trust_installed else trust_trusted)
unfolding lowest is_below
lowest-any [] = refl
lowest-any (s ∷ skills) = go s.trust (lowest-installed skills) (lowest-any skills)
  where
    go :
        (t : TrustLevel)
        → lowest trust_installed skills ≡ trust_installed
        → lowest trust_trusted skills
          ≡ (if any is_installed skills then trust_installed else trust_trusted)
        → lowest (if is_below t trust_trusted then t else trust_trusted) skills ≡ (
            if is_below t trust_trusted || any is_installed skills
            then trust_installed
            else trust_trusted)
    go trust_installed low high = low
    go trust_trusted low high = high

keep_read_only-keep_if :
    (tools : List ToolDefinition) → keep_read_only tools ≡ keep_if is_read_only tools
unfolding keep_read_only
keep_read_only-keep_if [] = refl
keep_read_only-keep_if (t ∷ tools) = rw (keep_read_only-keep_if tools) refl

-- The name of a tool.
abbrev pub name_of : ToolDefinition → String
name_of t = t.function.name

removed_names-keep_if :
    (tools : List ToolDefinition)
    → removed_names tools ≡ map name_of (keep_if (λ t. not (is_read_only t)) tools)
unfolding removed_names
removed_names-keep_if [] = refl
removed_names-keep_if (t ∷ tools) = elim (Bool-cases (is_read_only t)) [
  | inl harmless ↦ rw harmless (removed_names-keep_if tools)
  | inr harmful ↦ rw harmful (ap (λ ns. name_of t ∷ ns) (removed_names-keep_if tools))
]

-- While any active skill is not fully trusted, exactly the read-only tools are left, in their order,
-- and the names of the others are reported as removed; without such a skill every tool is left and
-- none is reported.
pub attenuate_tools-keep_if :
    (tools : List ToolDefinition) (skills : List Skill)
    → ((attenuate_tools tools skills).tools
        ≡ (if any is_installed skills then keep_if is_read_only tools else tools))
      × ((attenuate_tools tools skills).removed ≡ (
          if any is_installed skills
          then map name_of (keep_if (λ t. not (is_read_only t)) tools)
          else []))
unfolding attenuate_tools at_trust
attenuate_tools-keep_if tools [] = (refl, refl)
attenuate_tools-keep_if tools (s ∷ skills) = elim (Bool-cases (any is_installed (s ∷ skills))) [
  | inl low ↦
      rw (lowest-any (s ∷ skills), low) (keep_read_only-keep_if tools, removed_names-keep_if tools)
  | inr high ↦ rw (lowest-any (s ∷ skills), high) (refl, refl)
]

keep_if-All :
    (tools : List ToolDefinition) → All (λ t. is_read_only t ≡ true) (keep_if is_read_only tools)
keep_if-All [] = tt
keep_if-All (t ∷ tools) = elim (Bool-cases (is_read_only t)) [
  | inl harmless ↦ rw harmless (harmless, keep_if-All tools)
  | inr harmful ↦ rw harmful (keep_if-All tools)
]

-- An agent whose registry holds a skill that is not fully trusted shows the language model read-only
-- tools alone.
pub build_llm_tools-safe :
    (a : Agent) (r : Registry) (defs : List ToolDefinition)
    → any is_installed (all_skills r) ≡ true
    → All
        (λ t. is_read_only t ≡ true)
        (build_llm_tools (record a { tools = some defs; skills = some (skills_of r) }))
unfolding build_llm_tools skills_of
build_llm_tools-safe a r defs h =
    rw ((attenuate_tools-keep_if defs (all_skills r)).0, h) (keep_if-All defs)
