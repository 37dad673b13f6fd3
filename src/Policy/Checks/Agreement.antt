-- ===== src/Policy/Checks/Agreement.antt =====
-- `data_class_violation` of crates/policy/src/lib.rs, which re-implements the one of
-- crates/decision/src/lib.rs.
use route_d.Prelude.{◌≡◌, Text, text, text_ord, arith}
use mathlib.Core.Option
use route_d.Api.{capability_ord, jurisdiction_ord, operator_control_ord}
use route_d.Snapshot.{CompiledTier, CompiledDataClass}
use route_d.Decision.Types.{
  EliminationReason, data_class_not_allowed, data_class_require_jurisdiction,
  data_class_forbid_cloud_act_exposed, data_class_require_operator_control,
  data_class_forbid_capabilities,
}
use route_d.Decision.Constraints
use route_d.Policy.Checks.{data_class_violation}

-- the words that the compiler has for a reason of the engine
abbrev pub in_words : EliminationReason → Text
in_words data_class_not_allowed = text "not in tier.sovereignty.allowedDataClasses"
in_words data_class_require_jurisdiction = text "jurisdiction not allowed"
in_words data_class_forbid_cloud_act_exposed = text "CLOUD Act exposed"
in_words data_class_require_operator_control = text "operator control not allowed"
in_words data_class_forbid_capabilities = text "offers a forbidden capability"
in_words _ = text ""

-- The compiler's check of a tier against a data class fails exactly when the engine's does, and for
-- the same reason.
pub data_class_violation-agrees :
    {F : Type 0} (tier : CompiledTier F) (dc : CompiledDataClass F)
    → data_class_violation tier dc ≡ Option.map in_words (Constraints.data_class_violation tier dc)
unfolding data_class_violation Constraints.data_class_violation
data_class_violation-agrees tier dc = ground arith
