-- ===== src/Decision/Types.antt =====
-- crates/decision/src/types.rs: input, output and explanation types of the engine. The texts that
-- the engine formats for people are values here, a constructor for each `format!` with its
-- arguments.
use route_d.Prelude.{ℕ, Bool, true, false, Option, none, some, List, [], Text, BTreeMap, BTreeSet}
use mathlib.Core.Option
use route_d.Api.{Complexity, PiiEntity, ReasoningLevel}
use route_d.Float.{Float}
use route_d.Decision.Round.{round6}

pub record RequestHints : Type 0 where
  pub data_classes : List Text
  pub policy : Option Text
  pub dry_run : Bool

pub record DecisionInput : Type 0 where
  pub tenant : Option Text
  pub agent : Option Text
  pub path : Text
  pub requested_model : Text
  pub tools_present : Bool
  pub estimated_input_tokens : ℕ
  pub estimated_output_tokens : ℕ
  pub hints : RequestHints

pub record Findings (F : Type 0) : Type 0 where
  pub task : Option Text
  pub complexity : Option Complexity
  pub risk_score : Option F
  pub pii_entities : BTreeSet PiiEntity
  pub pii_confidence : BTreeMap PiiEntity F
  pub inferred_data_class : Option Text
  pub degraded : List Text

-- `Findings::default()`
abbrev pub no_findings : {F : Type 0} → Findings F
no_findings = record {
  task = none;
  complexity = none;
  risk_score = none;
  pii_entities = [];
  pii_confidence = [];
  inferred_data_class = none;
  degraded = [];
}

pub record DecisionContext : Type 0 where
  pub id : Text

pub data Outcome : Type 0 where
  route pass_through block : Outcome

pub data EliminationReason : Type 0 where
  deny_if_risk_score_above : EliminationReason
  data_class_not_allowed : EliminationReason
  data_class_require_jurisdiction : EliminationReason
  data_class_forbid_cloud_act_exposed : EliminationReason
  data_class_require_operator_control : EliminationReason
  data_class_forbid_capabilities : EliminationReason
  require_capabilities : EliminationReason
  tools_not_supported : EliminationReason
  context_window : EliminationReason
  max_risk_score : EliminationReason
  tool_calling_not_allowed : EliminationReason
  max_cost_per_request : EliminationReason
  quality_floor : EliminationReason

unfoldable pub is_hard : EliminationReason → Bool
is_hard quality_floor = false
is_hard _ = true

pub record Candidate (F : Type 0) : Type 0 where
  pub tier : Text
  pub eliminated_by : Option EliminationReason
  pub predicted_quality : Option F
  pub estimated_cost_eur : Option F
  pub score : Option F
  pub selected : Bool

abbrev pub eliminated : {F : Type 0} → Text → EliminationReason → Candidate F
eliminated tier reason = record {
  tier = tier;
  eliminated_by = some reason;
  predicted_quality = none;
  estimated_cost_eur = none;
  score = none;
  selected = false;
}

pub record Parameters : Type 0 where
  pub reasoning : Option ReasoningLevel
  pub max_tokens : Option ℕ

pub record Classification (F : Type 0) : Type 0 where
  pub task : Option Text
  pub complexity : Option Complexity
  pub risk_score : Option F
  pub pii_entities : BTreeSet PiiEntity

-- Why the fallback was asked for.
pub data Why : Type 0 where
  classification_degraded no_candidate_satisfies : Why

-- `reason` of a decision.
pub data Reason (F : Type 0) : Type 0 where
  no_policy_matches : Reason F
  not_routed_alias : (model key : Text) → Reason F
  risk_exceeds : (risk threshold : F) → Reason F
  no_fallback_tier : Why → Reason F
  fallback_not_in_snapshot : Why → (tier : Text) → Reason F
  fallback_eliminated : Why → (tier : Text) → EliminationReason → Reason F
  using_fallback : Why → Reason F
  below_quality_floor : (floor : F) → Reason F

-- The texts that `ignored` collects (crates/security/src/headers.rs). An ingress puts them into the
-- notes.
pub data Ignored : Type 0 where
  malformed_name malformed_value expected_bool not_an_input duplicate : Text → Ignored

-- `notes` of a decision.
pub data Note : Type 0 where
  policy_not_overridable : (name key : Text) → Note
  policy_not_matching : (name : Text) → Note
  unknown_data_class : (value : Text) → Note
  fallback_relaxed : (tier : Text) → EliminationReason → Note
  ignored_header : Ignored → Note

pub record Decision (F : Type 0) : Type 0 where
  pub id : Text
  pub outcome : Outcome
  pub policy : Option Text
  pub requested_model : Text
  pub selected_tier : Option Text
  pub gateway_model : Option Text
  pub parameters : Parameters
  pub data_class : Option Text
  pub classification : Classification F
  pub candidates : List (Candidate F)
  pub estimated_cost_eur : Option F
  pub estimated_savings_eur : Option F
  pub latency_ms : ℕ
  pub snapshot_hash : Text
  pub reason : Option (Reason F)
  pub fallback : Bool
  pub degraded : List Text
  pub notes : List Note
  pub dry_run : Bool

-- `Decision::new`
unfoldable pub new_decision :
    {F : Type 0} ⦃f : Float F⦄ → DecisionContext → DecisionInput → Findings F → Text → Decision F
new_decision ctx input findings snapshot_hash = record {
  id = ctx.id;
  outcome = pass_through;
  policy = none;
  requested_model = input.requested_model;
  selected_tier = none;
  gateway_model = none;
  parameters = record { reasoning = none; max_tokens = none };
  data_class = none;
  classification = record {
    task = findings.task;
    complexity = findings.complexity;
    risk_score = Option.map round6 findings.risk_score;
    pii_entities = findings.pii_entities;
  };
  candidates = [];
  estimated_cost_eur = none;
  estimated_savings_eur = none;
  latency_ms = 0;
  snapshot_hash = snapshot_hash;
  reason = none;
  fallback = false;
  degraded = findings.degraded;
  notes = [];
  dry_run = input.hints.dry_run;
}
