-- ===== src/Decision/Constraints.antt =====
-- crates/decision/src/lib.rs: the hard constraints on a tier. The children say what each of them
-- comes to.
pub mod Permits
use route_d.Prelude.{
  ℕ, Bool, true, false, not, Option, none, some, List, Text, text_ord, ◌&&◌, ◌||◌, any, all,
  contains, is_empty, if◌then◌else◌, ltb, saturating_add, or_else,
}
use route_d.Api.{Capability, tools, capability_ord, jurisdiction_ord, operator_control_ord}
use route_d.Float.{Float}
use route_d.Snapshot.{CompiledTier, CompiledDataClass, CompiledPolicy}
use route_d.Snapshot.Cost.{estimate_cost}
use route_d.Decision.Types.{
  DecisionInput, Findings, EliminationReason, data_class_not_allowed,
  data_class_require_jurisdiction, data_class_forbid_cloud_act_exposed,
  data_class_require_operator_control, data_class_forbid_capabilities, require_capabilities,
  tools_not_supported, context_window, max_risk_score, tool_calling_not_allowed,
  max_cost_per_request,
}

module _ {F : Type 0} where
  unfoldable pub data_class_violation :
      CompiledTier F → CompiledDataClass F → Option EliminationReason
  data_class_violation tier dc =
      if not (contains tier.allowed_data_classes dc.name)
      then some data_class_not_allowed
      else if not (is_empty dc.require_jurisdiction)
          && not (contains dc.require_jurisdiction tier.jurisdiction)
      then some data_class_require_jurisdiction
      else if dc.forbid_cloud_act_exposed && tier.cloud_act_exposed
      then some data_class_forbid_cloud_act_exposed
      else if not (is_empty dc.require_operator_control)
          && not (contains dc.require_operator_control tier.operator_control)
      then some data_class_require_operator_control
      else if any (λ c. contains dc.forbid_capabilities c) tier.capabilities
      then some data_class_forbid_capabilities
      else none

  -- the block on the data class that both checks begin with
  class_check :
      CompiledTier F → CompiledPolicy F → Option (CompiledDataClass F) → Option EliminationReason
  class_check tier policy none = none
  class_check tier policy (some dc) =
      if policy.respect_data_class then data_class_violation tier dc else none

module _ {F : Type 0} ⦃f : Float F⦄ where
  -- `risk > tier.max_risk_score`, where there is a risk score
  risk_exceeded : CompiledTier F → Option F → Bool
  risk_exceeded tier none = false
  risk_exceeded tier (some risk) = f.lt tier.max_risk_score risk

  -- the blocks on capabilities, context window and tier security, which both checks share
  facts_check :
      CompiledTier F
      → CompiledPolicy F
      → DecisionInput
      → Findings F
      → ℕ
      → ℕ
      → Option EliminationReason
  unfolding risk_exceeded
  facts_check tier policy input findings input_tokens output_tokens =
      if not (all (λ c. contains tier.capabilities c) policy.require_capabilities)
      then some require_capabilities
      else if input.tools_present && not (contains tier.capabilities tools)
      then some tools_not_supported
      else if ltb tier.context_window (saturating_add input_tokens output_tokens)
      then some context_window
      else if risk_exceeded tier findings.risk_score
      then some max_risk_score
      else if input.tools_present && not tier.tool_calling_allowed
      then some tool_calling_not_allowed
      else none

  -- the cost cap
  cost_check : CompiledTier F → CompiledPolicy F → ℕ → ℕ → Option ℕ → Option EliminationReason
  cost_check tier policy input_tokens output_tokens none = none
  cost_check tier policy input_tokens output_tokens (some cap) =
      if ltb cap (estimate_cost tier input_tokens output_tokens)
      then some max_cost_per_request
      else none

  unfoldable pub request_fact_violation :
      CompiledTier F
      → CompiledPolicy F
      → DecisionInput
      → Findings F
      → Option (CompiledDataClass F)
      → Option EliminationReason
  unfolding class_check facts_check
  request_fact_violation tier policy input findings data_class =
      or_else (class_check tier policy data_class) (
        facts_check tier policy input findings input.estimated_input_tokens
          input.estimated_output_tokens)

  unfoldable pub hard_constraint_violation :
      CompiledTier F
      → CompiledPolicy F
      → DecisionInput
      → Findings F
      → Option (CompiledDataClass F)
      → ℕ
      → ℕ
      → Option EliminationReason
  unfolding class_check facts_check cost_check
  hard_constraint_violation tier policy input findings data_class input_tokens output_tokens =
      or_else (class_check tier policy data_class) (
        or_else (facts_check tier policy input findings input_tokens output_tokens)
          (cost_check tier policy input_tokens output_tokens policy.max_cost_micro_eur))
