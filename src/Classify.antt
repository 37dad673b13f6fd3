-- ===== src/Classify.antt =====
-- crates/classify/src/lib.rs: what a classifier is given, how it fails, and what it is to the
-- pipeline. The implementations are parameters.
use route_d.Prelude.{Option, List, Text, Result}
use route_d.Decision.Types.{Findings}

pub record ClassifyInput : Type 0 where
  pub system_prompt : Option Text
  pub user_text : Text
  pub history : List Text
  pub tool_outputs : List Text

pub data ClassifyError : Type 0 where
  timeout unavailable failed : Text → ClassifyError

pub record Classifier (F : Type 0) : Type 0 where
  pub name : Text
  pub classify : ClassifyInput → Result (Findings F) ClassifyError
