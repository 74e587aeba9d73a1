-- ===== src/Agent/Commands/Laws.antt =====
-- What a hook that refuses keeps from happening in agent/agent.go.
use ironclaw_go.Shared.{
  ℕ, String, ◌≡◌, refl, inl, inr, Option-cases, arith, Option, some, [], ◌∷◌, concat, err,
}
use ironclaw_go.Llm.{Complete}
use ironclaw_go.Hooks.{Registry}
use ironclaw_go.Agent.Loop.{Agent, Tick}
use ironclaw_go.Agent.Commands.{ask_hooks, before_input, process_message}

-- ProcessMessage fails only where a hook refused the message, with that hook's error, and then it
-- leaves the agent as it was: whatever goes wrong behind the router is answered, not returned.
pub process_message-errors :
    (model : Option Complete) (hooks : Option Registry) (now : ℕ) (id : String) (ticks : ℕ → Tick)
    (t : Tick) (user channel thread content failure : String) (a : Agent)
    → (process_message model hooks now id ticks t user channel thread content a).1 ≡ err failure
    → (e : String) × (ask_hooks hooks (before_input user channel content) ≡ some e)
      × (failure ≡ concat ("before:message hook rejected: " ∷ e ∷ []))
      × ((process_message model hooks now id ticks t user channel thread content a).0 ≡ a)
unfolding process_message
process_message-errors model hooks now id ticks t user channel thread content failure a =
    elim (Option-cases (ask_hooks hooks (before_input user channel content))) [
      | inl passes ↦ rw (passes, process_message) (λ h. absurd (ground arith))
      | inr (e, refused) ↦ rw (refused, process_message) (λ h. (e, refl, ground arith, refl))
    ]
