-- ===== src/Gate/Approval/Laws.antt =====
-- The decisions of the approval gate of gate/approval.go.
use ironclaw_go.Shared.{Bool, true, ◌≡◌, refl, ◌≢◌, ◌⊎◌, ◌↔◌, inl, get, arith}
use ironclaw_go.Gate.{
  ApprovalRequirement, never, unless_auto_approved, always, ExecutionMode, interactive, autonomous,
  allow, deny, pause, GateContext,
}
use ironclaw_go.Gate.Approval.{RequirementFn, flag, decide_on, evaluate, new_approval_gate}

decide_on-allow :
    (m : ExecutionMode) (r : ApprovalRequirement) (b : Bool)
    → (decide_on m r b ≡ allow) ↔ ((r ≡ never) ⊎ ((r ≡ unless_auto_approved) × (b ≡ true)))
unfolding decide_on
decide_on-allow interactive never b = ((λ h. inl refl), (λ h. refl))
decide_on-allow interactive unless_auto_approved b = ((λ h. ground arith), (λ h. ground arith))
decide_on-allow interactive always b = ((λ h. absurd (ground arith)), (λ h. ground arith))
decide_on-allow autonomous never b = ((λ h. inl refl), (λ h. refl))
decide_on-allow autonomous unless_auto_approved b = ((λ h. ground arith), (λ h. ground arith))
decide_on-allow autonomous always b = ((λ h. absurd (ground arith)), (λ h. ground arith))

-- In both execution modes, the approval gate lets a call through exactly when the call requires no
-- approval, or requires one that can be given in advance and its tool was approved in advance.
pub evaluate-allow :
    (requirement : RequirementFn) (ctx : GateContext)
    → ((new_approval_gate requirement).evaluate ctx ≡ allow) ↔ (
        (requirement ctx.tool_name ctx.params ctx.user_id ≡ never)
        ⊎ ((requirement ctx.tool_name ctx.params ctx.user_id ≡ unless_auto_approved)
            × (flag (get ctx.tool_name ctx.auto_approved) ≡ true)))
unfolding new_approval_gate evaluate
evaluate-allow requirement ctx =
    decide_on-allow ctx.execution_mode (requirement ctx.tool_name ctx.params ctx.user_id)
      (flag (get ctx.tool_name ctx.auto_approved))

decide_on-refusal :
    (m : ExecutionMode) (r : ApprovalRequirement) (b : Bool)
    → decide_on m r b ≢ allow
    → ((m ≡ interactive) × (decide_on m r b ≡ pause))
      ⊎ ((m ≡ autonomous) × (decide_on m r b ≡ deny))
unfolding decide_on
decide_on-refusal interactive never b h = absurd (h refl)
decide_on-refusal interactive unless_auto_approved b h = ground arith
decide_on-refusal interactive always b h = ground arith
decide_on-refusal autonomous never b h = absurd (h refl)
decide_on-refusal autonomous unless_auto_approved b h = ground arith
decide_on-refusal autonomous always b h = ground arith

-- A call that the approval gate does not let through is paused where the mode of its context is
-- interactive, and denied where it is autonomous.
pub evaluate-refusal :
    (requirement : RequirementFn) (ctx : GateContext)
    → (new_approval_gate requirement).evaluate ctx ≢ allow
    → ((ctx.execution_mode ≡ interactive) × ((new_approval_gate requirement).evaluate ctx ≡ pause))
      ⊎ ((ctx.execution_mode ≡ autonomous) × ((new_approval_gate requirement).evaluate ctx ≡ deny))
unfolding new_approval_gate evaluate
evaluate-refusal requirement ctx =
    decide_on-refusal ctx.execution_mode (requirement ctx.tool_name ctx.params ctx.user_id)
      (flag (get ctx.tool_name ctx.auto_approved))
