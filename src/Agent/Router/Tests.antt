-- ===== src/Agent/Router/Tests.antt =====
-- A command with one argument.
use ironclaw_go.Shared.{String, ◌≡◌, refl, true, List, ◌∷◌, trim_space, starts_with}
use ironclaw_go.Agent.Router.{system_cmd, fields, route}
use ironclaw_go.Agent.Router.Laws.{slash, route-command}

abbrev input : String
input = " /switch id1 "

slashed : starts_with (trim_space input) "/" ≡ true
unfolding trim_space
slashed = refl

route-command_example :
    (w : String) × (args : List String) × (fields (trim_space input) ≡ String.◌∷◌ slash w ∷ args)
    × (route input ≡ system_cmd w args (trim_space input))
route-command_example = route-command input slashed
