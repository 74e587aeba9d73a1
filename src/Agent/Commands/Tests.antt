-- ===== src/Agent/Commands/Tests.antt =====
-- A message and a direct call that a hook refuses.
use ironclaw_go.Shared.{String, ◌≡◌, refl, some, [], ◌∷◌, concat, err}
use ironclaw_go.Hooks.{Registry, before_message, register, new_registry}
use ironclaw_go.Agent.Samples.{agent, model, ticks, tick}
use ironclaw_go.Agent.Commands.{ask_hooks, before_input, process_message}
use ironclaw_go.Agent.Commands.Laws.{process_message-errors}

abbrev closed : Registry
closed = register before_message (λ e. some "closed") new_registry

abbrev refusal : String
refusal = "before:message hook rejected: hook before:message: closed"

stops :
    (process_message
      (some model)
      (some closed)
      10
      "id1"
      ticks
      tick
      "ann"
      "repl"
      "t1"
      "hello"
      agent).1
    ≡ err refusal
unfolding process_message register new_registry
stops = refl

process_message-errors_example :
    (e : String) × (ask_hooks (some closed) (before_input "ann" "repl" "hello") ≡ some e)
    × (refusal ≡ concat ("before:message hook rejected: " ∷ e ∷ []))
    × ((process_message
          (some model)
          (some closed)
          10
          "id1"
          ticks
          tick
          "ann"
          "repl"
          "t1"
          "hello"
          agent).0
        ≡ agent)
process_message-errors_example =
    process_message-errors (some model) (some closed) 10 "id1" ticks tick "ann" "repl" "t1" "hello"
      refusal agent stops
