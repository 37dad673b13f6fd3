-- ===== src/Api/Tiers.antt =====
-- crates/api/src/v1alpha1/modeltier.rs
use route_d.Prelude.{ℕ, Bool, Option, List, Text, BTreeMap}
use route_d.Api.{Capability, Currency, Jurisdiction, OperatorControl}
use route_d.Api.Resources.{Resource}

pub record Cost (F : Type 0) : Type 0 where
  pub input_per_million : F
  pub output_per_million : F
  pub currency : Currency

pub record Quality (F : Type 0) : Type 0 where
  pub baseline : F
  pub by_task : BTreeMap Text F

pub record Latency : Type 0 where
  pub p50_ms : ℕ
  pub p95_ms : ℕ

pub record Sovereignty : Type 0 where
  pub jurisdiction : Jurisdiction
  pub data_residency : Option Text
  pub operator_control : OperatorControl
  pub cloud_act_exposed : Bool
  pub allowed_data_classes : List Text

pub record TierSecurity (F : Type 0) : Type 0 where
  pub max_risk_score : F
  pub tool_calling_allowed : Bool

pub record ModelTierSpec (F : Type 0) : Type 0 where
  pub gateway_model : Text
  pub provider : Option Text
  pub capabilities : List Capability
  pub context_window : ℕ
  pub cost : Cost F
  pub quality : Quality F
  pub latency : Latency
  pub sovereignty : Sovereignty
  pub security : TierSecurity F
  pub labels : BTreeMap Text Text

abbrev pub ModelTier : Type 0 → Type 0
ModelTier F = Resource (ModelTierSpec F)
