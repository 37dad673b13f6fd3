-- ===== src/Snapshot.antt =====
-- crates/snapshot/src/lib.rs: the compiled configuration that the decision engine reads. The type
-- of floats is a parameter `F` of the records that hold one.
pub mod Lookup
pub mod Cost
pub mod Normalise
pub mod Holder
use route_d.Prelude.{ℕ, Bool, Option, List, Text, BTreeMap, BTreeSet}
use route_d.Api.{
  Capability, Jurisdiction, OperatorControl, Currency, Complexity, ReasoningLevel, PiiEntity,
  ArtifactType, ObjectiveMode,
}

-- Micro-EUR: one millionth of a euro. All money is integer in this unit.
abbrev pub MicroEur : Type 0
MicroEur = ℕ

pub record CompiledTier (F : Type 0) : Type 0 where
  pub name : Text
  pub gateway_model : Text
  pub provider : Option Text
  pub capabilities : BTreeSet Capability
  pub context_window : ℕ
  pub input_micro_eur_per_million : MicroEur
  pub output_micro_eur_per_million : MicroEur
  pub currency : Currency
  pub quality_baseline : F
  pub quality_by_task : BTreeMap Text F
  pub latency_p50_ms : ℕ
  pub latency_p95_ms : ℕ
  pub jurisdiction : Jurisdiction
  pub data_residency : Option Text
  pub operator_control : OperatorControl
  pub cloud_act_exposed : Bool
  pub allowed_data_classes : BTreeSet Text
  pub max_risk_score : F
  pub tool_calling_allowed : Bool
  pub labels : BTreeMap Text Text

pub record CompiledDataClass (F : Type 0) : Type 0 where
  pub name : Text
  pub rank : ℕ
  pub header_values : BTreeSet Text
  pub pii_entities : BTreeSet PiiEntity
  pub min_confidence : F
  pub require_jurisdiction : BTreeSet Jurisdiction
  pub forbid_cloud_act_exposed : Bool
  pub require_operator_control : BTreeSet OperatorControl
  pub forbid_capabilities : BTreeSet Capability
  pub max_retention_days : Option ℕ

-- Normalised scoring weights.
pub record Weights (F : Type 0) : Type 0 where
  pub cost : F
  pub quality : F
  pub latency : F

pub record CompiledMatch : Type 0 where
  pub tenants : List Text
  pub agents : List Text
  pub paths : List Text
  pub model_aliases : List Text

pub record CompiledLearnedRouter (F : Type 0) : Type 0 where
  pub enabled : Bool
  pub profile : Option Text
  pub min_confidence : F

-- `priority`, an `i32` in the source, is read from -2^31 on: it is only compared.
pub record CompiledPolicy (F : Type 0) : Type 0 where
  pub key : Text
  pub namespace : Text
  pub name : Text
  pub priority : ℕ
  pub match_ : CompiledMatch
  pub candidates : List Text
  pub respect_data_class : Bool
  pub max_cost_micro_eur : Option MicroEur
  pub require_capabilities : BTreeSet Capability
  pub deny_if_risk_score_above : Option F
  pub mode : ObjectiveMode
  pub quality_floor : Option F
  pub weights : Weights F
  pub learned_router : CompiledLearnedRouter F
  pub reasoning_enabled : Bool
  pub reasoning_map : BTreeMap Complexity ReasoningLevel
  pub fallback_tier : Option Text
  pub explain : Bool
  pub overridable : Bool

pub record CompiledProfile (F : Type 0) : Type 0 where
  pub name : Text
  pub classifier_type : ArtifactType
  pub classifier_uri : Option Text
  pub classifier_tokenizer_uri : Option Text
  pub classifier_timeout_ms : ℕ
  pub task_labels : List Text
  pub sensitivity_labels : List Text
  pub embedder_uri : Option Text
  pub embedder_dimensions : Option ℕ
  pub learned_router_uri : Option Text
  pub calibration : BTreeMap Text F
  pub pii_detector_uri : Option Text
  pub injection_detector_uri : Option Text
  pub default_output_tokens : ℕ

pub record SnapshotCore (F : Type 0) : Type 0 where
  pub schema_version : ℕ
  pub compiler_version : Text
  pub tiers : BTreeMap Text (CompiledTier F)
  pub data_classes : BTreeMap Text (CompiledDataClass F)
  pub policies : List (CompiledPolicy F)
  pub profiles : BTreeMap Text (CompiledProfile F)

pub record Snapshot (F : Type 0) : Type 0 where
  pub hash : Text
  pub core : SnapshotCore F
