-- ===== src/Agent/Router.antt =====
-- internal/agent/router.go
pub mod Laws
pub mod Tests
use ironclaw_go.Shared.{
  ℕ, String, Bool, true, false, Option, none, some, List, [], ◌∷◌, trim_space, is_space,
  starts_with, skip, ◌==◌, if◌then◌else◌,
}
use Prim.Native.Char.{Char, code}
use Prim.Native.String
use ironclaw_go.Shared.{leb, ◌&&◌}

-- The types of intents with the fields that each sets.
pub data Intent : Type 0 where
  system_cmd : String → List String → String → Intent
  tool_call : String → String → String → Intent
  llm_query : String → Intent
  chat : String → Intent

-- A character in front of a list of words whose first word it belongs to.
abbrev pub onto_word : Char → List String → List String
onto_word c [] = String.◌∷◌ c "" ∷ []
onto_word c (w ∷ ws) = String.◌∷◌ c w ∷ ws

-- Whether a text starts with a character that is no white space.
abbrev pub starts_word : String → Bool
starts_word String.[] = false
starts_word (String.◌∷◌ c s) = if is_space c then false else true

-- strings.Fields(s)
unfoldable pub fields : String → List String
unfolding is_space
fields String.[] = []
fields (String.◌∷◌ c s) =
    let rest = fields s in
    if is_space c then rest else if starts_word s then onto_word c rest else String.◌∷◌ c "" ∷ rest

-- The two parts of strings.SplitN(s, " ", 2): what stands before the first space, and what follows
-- it, if there is one.
unfoldable pub cut : String → String × Option String
cut String.[] = ("", none)
cut (String.◌∷◌ c s) =
    let (before, after) = cut s in
    if leb (code c) 32 && leb 32 (code c) then ("", some s) else (String.◌∷◌ c before, after)

-- The command and its arguments: the first word without its slash, and the other words.
unfoldable pub command_of : String → List String → Intent
command_of content [] = system_cmd "" [] content
command_of content (word ∷ args) = system_cmd (skip 1 word) args content

abbrev pub trimmed : Option String → String
trimmed none = ""
trimmed (some s) = trim_space s

-- The tool and its parameters.
unfoldable pub tool_of : String → String × Option String → Intent
tool_of content (name, params) = tool_call (trim_space name) (trimmed params) content

-- Router.Route
unfoldable pub route : String → Intent
unfolding fields cut command_of tool_of trim_space skip
route input =
    let content = trim_space input in
    if starts_with content "/"
    then command_of content (fields content)
    else if starts_with content "tool:"
    then tool_of content (cut (skip 5 content))
    else if starts_with content "?"
    then llm_query (skip 1 content)
    else chat content
