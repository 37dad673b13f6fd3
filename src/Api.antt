-- ===== src/Api.antt =====
-- The enums that several resource kinds share (crates/api/src/v1alpha1/common.rs and
-- crates/api/src/v1alpha1/routingpolicy.rs), with their derived order; the children have the resources.
pub mod Resources
pub mod Tiers
pub mod Classes
pub mod Policies
pub mod Profiles
use route_d.Prelude.{ℕ, ◌≡◌, arith, Ord, by_index}

pub data Capability : Type 0 where
  chat tools json vision audio embeddings reasoning : Capability

abbrev pub capability_index : Capability → ℕ
capability_index chat = 0
capability_index tools = 1
capability_index json = 2
capability_index vision = 3
capability_index audio = 4
capability_index embeddings = 5
capability_index reasoning = 6

pub capability_index_inj : (a b : Capability) → capability_index a ≡ capability_index b → a ≡ b
capability_index_inj a b h = ground arith

instance abbrev pub capability_ord : Ord Capability
capability_ord = by_index capability_index capability_index_inj

pub data Jurisdiction : Type 0 where
  eu us other : Jurisdiction

abbrev pub jurisdiction_index : Jurisdiction → ℕ
jurisdiction_index eu = 0
jurisdiction_index us = 1
jurisdiction_index other = 2

pub jurisdiction_index_inj :
    (a b : Jurisdiction) → jurisdiction_index a ≡ jurisdiction_index b → a ≡ b
jurisdiction_index_inj a b h = ground arith

instance abbrev pub jurisdiction_ord : Ord Jurisdiction
jurisdiction_ord = by_index jurisdiction_index jurisdiction_index_inj

pub data OperatorControl : Type 0 where
  eu_entity us_entity on_prem : OperatorControl

abbrev pub operator_control_index : OperatorControl → ℕ
operator_control_index eu_entity = 0
operator_control_index us_entity = 1
operator_control_index on_prem = 2

pub operator_control_index_inj :
    (a b : OperatorControl) → operator_control_index a ≡ operator_control_index b → a ≡ b
operator_control_index_inj a b h = ground arith

instance abbrev pub operator_control_ord : Ord OperatorControl
operator_control_ord = by_index operator_control_index operator_control_index_inj

pub data Currency : Type 0 where
  eur usd : Currency

pub data Complexity : Type 0 where
  low medium high : Complexity

abbrev pub complexity_index : Complexity → ℕ
complexity_index low = 0
complexity_index medium = 1
complexity_index high = 2

pub complexity_index_inj : (a b : Complexity) → complexity_index a ≡ complexity_index b → a ≡ b
complexity_index_inj a b h = ground arith

instance abbrev pub complexity_ord : Ord Complexity
complexity_ord = by_index complexity_index complexity_index_inj

pub data ReasoningLevel : Type 0 where
  none low medium high : ReasoningLevel

pub data PiiEntity : Type 0 where
  person email phone iban national_id health credit_card address : PiiEntity

abbrev pub pii_entity_index : PiiEntity → ℕ
pii_entity_index person = 0
pii_entity_index email = 1
pii_entity_index phone = 2
pii_entity_index iban = 3
pii_entity_index national_id = 4
pii_entity_index health = 5
pii_entity_index credit_card = 6
pii_entity_index address = 7

pub pii_entity_index_inj : (a b : PiiEntity) → pii_entity_index a ≡ pii_entity_index b → a ≡ b
pii_entity_index_inj a b h = ground arith

instance abbrev pub pii_entity_ord : Ord PiiEntity
pii_entity_ord = by_index pii_entity_index pii_entity_index_inj

pub data ArtifactType : Type 0 where
  onnx http heuristic stub : ArtifactType

pub data ObjectiveMode : Type 0 where
  cost_first_with_quality_floor quality_first balanced latency_first : ObjectiveMode
