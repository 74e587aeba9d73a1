-- ===== src/Skills.antt =====
-- internal/skills: trust levels (skills.go), the skills and their registry (skill.go, registry.go) and
-- the tools that they leave to the language model (attenuation.go).
pub mod Attenuation
pub mod Laws
pub mod Tests
use ironclaw_go.Shared.{
  ℕ, String, Bool, true, false, ◌&&◌, ◌||◌, not, Option, none, some, List, [], ◌∷◌, ◌++◌, Dict, get,
  put, remove, keys, values, length, Bytes, bytes, contains_bytes, to_lower, any, keep_if,
  if◌then◌else◌,
}

-- TrustLevel
pub data TrustLevel : Type 0 where
  trust_installed trust_trusted : TrustLevel

-- The activation of a manifest.
pub record Activation : Type 0 where
  pub keywords : List Bytes
  pub exclude_keywords : List Bytes

-- Skill, with its manifest's name and activation; its source is not read.
pub record Skill : Type 0 where
  pub name : String
  pub activation : Activation
  pub content : Bytes
  pub trust : TrustLevel

-- The comparison of trust levels: s.Trust < minTrust
unfoldable pub is_below : TrustLevel → TrustLevel → Bool
is_below trust_installed trust_trusted = true
is_below trust_installed trust_installed = false
is_below trust_trusted trust = false

-- Skill.IsTrusted
unfoldable pub is_trusted : Skill → Bool
is_trusted s = not (is_below s.trust trust_trusted)

-- strings.Contains(inputLower, strings.ToLower(kw))
unfoldable pub mentions : Bytes → Bytes → Bool
mentions lower keyword = contains_bytes lower (to_lower keyword)

-- The second half of MatchInput: a skill without keywords is always active.
unfoldable pub match_keywords : List Bytes → Bytes → Bool
unfolding mentions
match_keywords [] lower = true
match_keywords (k ∷ ks) lower = any (mentions lower) (k ∷ ks)

-- Skill.MatchInput
unfoldable pub match_input : Bytes → Skill → Bool
unfolding match_keywords
match_input input s =
    let lower = to_lower input in
    if any (mentions lower) s.activation.exclude_keywords
    then false
    else match_keywords s.activation.keywords lower

-- Registry
abbrev pub Registry : Type 0
Registry = Dict Skill

-- Registry.Register
unfoldable pub register : Skill → Registry → Registry
register s r = put s.name s r

-- Registry.Get
unfoldable pub find_skill : String → Registry → Option Skill
find_skill name r = get name r

-- Registry.List
unfoldable pub list_skills : Registry → List String
list_skills r = keys r

-- Registry.All
unfoldable pub all_skills : Registry → List Skill
all_skills r = values r

-- Registry.Count
unfoldable pub count_skills : Registry → ℕ
count_skills r = length r

-- Registry.Remove
unfoldable pub remove_skill : String → Registry → Registry
remove_skill name r = remove name r

-- Registry.MatchSkills
unfoldable pub match_skills : Bytes → Registry → List Skill
unfolding match_input
match_skills input r = keep_if (match_input input) (values r)

-- The loop of MinTrust, and of AttenuateTools: the lowest trust so far.
unfoldable pub lowest : TrustLevel → List Skill → TrustLevel
unfolding is_below
lowest trust [] = trust
lowest trust (s ∷ skills) = lowest (if is_below s.trust trust then s.trust else trust) skills

-- Registry.MinTrust
unfoldable pub min_trust : Registry → TrustLevel
unfolding lowest
min_trust r = lowest trust_trusted (values r)

-- One round of the loop of BuildSystemPrompt.
unfoldable pub add_prompt : Skill → Bytes → Bytes
add_prompt s [] = bytes "# Skill: " ++ bytes s.name ++ bytes "\n\n" ++ s.content
add_prompt s (b ∷ bs) =
    (b ∷ bs)
    ++ bytes "\n\n---\n\n"
    ++ bytes "# Skill: "
    ++ bytes s.name
    ++ bytes "\n\n"
    ++ s.content

-- The loop of BuildSystemPrompt.
unfoldable pub add_prompts : List Skill → Bytes → Bytes
unfolding add_prompt
add_prompts [] sb = sb
add_prompts (s ∷ skills) sb = add_prompts skills (add_prompt s sb)

-- Registry.BuildSystemPrompt
unfoldable pub build_system_prompt : Registry → Bytes
unfolding add_prompts
build_system_prompt r = add_prompts (values r) []
