-- ===== src/Api/Classes.antt =====
-- crates/api/src/v1alpha1/dataclass.rs
use route_d.Prelude.{ℕ, Bool, Option, List, Text}
use route_d.Api.{Capability, Jurisdiction, OperatorControl, PiiEntity}
use route_d.Api.Resources.{Resource}

pub record Detection (F : Type 0) : Type 0 where
  pub header_values : List Text
  pub pii_entities : List PiiEntity
  pub min_confidence : F

pub record DataClassConstraints : Type 0 where
  pub require_jurisdiction : List Jurisdiction
  pub forbid_cloud_act_exposed : Bool
  pub require_operator_control : List OperatorControl
  pub forbid_capabilities : List Capability
  pub max_retention_days : Option ℕ

pub record DataClassSpec (F : Type 0) : Type 0 where
  pub rank : ℕ
  pub description : Option Text
  pub detection : Detection F
  pub constraints : DataClassConstraints

abbrev pub DataClass : Type 0 → Type 0
DataClass F = Resource (DataClassSpec F)
