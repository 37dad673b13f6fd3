-- ===== src/Api/Policies.antt =====
-- crates/api/src/v1alpha1/routingpolicy.rs. `priority`, an `i32`, is read from -2^31 on, as in
-- Snapshot.antt: it is only compared.
use route_d.Prelude.{ℕ, Bool, Option, List, Text, BTreeMap}
use route_d.Api.{Capability, Complexity, ReasoningLevel, ObjectiveMode}
use route_d.Api.Resources.{Resource}

pub record PolicyMatch : Type 0 where
  pub tenants : List Text
  pub agents : List Text
  pub paths : List Text
  pub model_aliases : List Text

pub record TierSelector : Type 0 where
  pub match_labels : BTreeMap Text Text

pub record Candidates : Type 0 where
  pub tier_selector : TierSelector
  pub include : List Text
  pub exclude : List Text

pub record HardConstraints (F : Type 0) : Type 0 where
  pub respect_data_class : Bool
  pub max_cost_per_request_eur : Option F
  pub require_capabilities : List Capability
  pub deny_if_risk_score_above : Option F

pub record ObjectiveWeights (F : Type 0) : Type 0 where
  pub cost : F
  pub quality : F
  pub latency : F

pub record Objective (F : Type 0) : Type 0 where
  pub mode : ObjectiveMode
  pub quality_floor : Option F
  pub weights : Option (ObjectiveWeights F)

pub record LearnedRouterSettings (F : Type 0) : Type 0 where
  pub enabled : Bool
  pub profile : Option Text
  pub min_confidence : F

pub record ReasoningBudget : Type 0 where
  pub enabled : Bool
  pub map : BTreeMap Complexity ReasoningLevel

pub record FallbackDecision : Type 0 where
  pub tier : Option Text

pub record RoutingPolicySpec (F : Type 0) : Type 0 where
  pub priority : ℕ
  pub match_ : PolicyMatch
  pub candidates : Candidates
  pub hard_constraints : HardConstraints F
  pub objective : Objective F
  pub learned_router : LearnedRouterSettings F
  pub reasoning_budget : ReasoningBudget
  pub fallback_decision : FallbackDecision
  pub explain : Bool
  pub overridable : Bool

abbrev pub RoutingPolicy : Type 0 → Type 0
RoutingPolicy F = Resource (RoutingPolicySpec F)
