-- ===== src/Api/Resources.antt =====
-- What every Kubernetes resource of crates/api/src/v1alpha1 has beside its spec, as far as the
-- compiler reads it.
use route_d.Prelude.{Option, Text}

pub record Metadata : Type 0 where
  pub name : Option Text
  pub namespace : Option Text

-- a resource with its spec `S`
pub record Resource (S : Type 0) : Type 0 where
  pub metadata : Metadata
  pub spec : S
