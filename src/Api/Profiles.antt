-- ===== src/Api/Profiles.antt =====
-- crates/api/src/v1alpha1/routerprofile.rs
use route_d.Prelude.{ℕ, Option, List, Text, BTreeMap}
use route_d.Api.{ArtifactType}
use route_d.Api.Resources.{Resource}

pub record ClassifierLabels : Type 0 where
  pub task : List Text
  pub complexity : List Text
  pub sensitivity : List Text

pub record ClassifierSpec : Type 0 where
  pub type_ : ArtifactType
  pub uri : Option Text
  pub tokenizer_uri : Option Text
  pub labels : ClassifierLabels
  pub timeout_ms : ℕ

pub record EmbedderSpec : Type 0 where
  pub type_ : ArtifactType
  pub uri : Option Text
  pub dimensions : ℕ

pub record LearnedRouterSpec (F : Type 0) : Type 0 where
  pub type_ : ArtifactType
  pub uri : Option Text
  pub calibration : BTreeMap Text F

pub record ArtifactRef : Type 0 where
  pub type_ : ArtifactType
  pub uri : Option Text

pub record SecuritySpec : Type 0 where
  pub pii_detector : Option ArtifactRef
  pub injection_detector : Option ArtifactRef

pub record CostModel (F : Type 0) : Type 0 where
  pub fx_to_eur : BTreeMap Text F
  pub default_output_tokens : ℕ

pub record RouterProfileSpec (F : Type 0) : Type 0 where
  pub classifier : ClassifierSpec
  pub embedder : Option EmbedderSpec
  pub learned_router : Option (LearnedRouterSpec F)
  pub security : SecuritySpec
  pub cost_model : CostModel F

abbrev pub RouterProfile : Type 0 → Type 0
RouterProfile F = Resource (RouterProfileSpec F)
