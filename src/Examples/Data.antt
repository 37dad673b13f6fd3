-- ===== src/Examples/Data.antt =====
-- A small configuration: two data classes, two tiers and one policy, in the numbers of
-- Float/Fixed.antt.
use route_d.Prelude.{true, false, none, some, [], ◌∷◌, text}
use route_d.Api.{Capability, Jurisdiction, OperatorControl, Currency, PiiEntity, ObjectiveMode}
use route_d.Float.Fixed.{Fixed, fixed, fixed_float}
use route_d.Snapshot.{CompiledTier, CompiledDataClass, CompiledPolicy, SnapshotCore, Snapshot}
use route_d.Decision.Types.{DecisionInput, Findings, no_findings, DecisionContext}

abbrev pub eu_small : CompiledTier Fixed
eu_small = record {
  name = text "eu-small";
  gateway_model = text "openai/small";
  provider = none;
  capabilities = Capability.chat ∷ Capability.tools ∷ [];
  context_window = 8_000;
  input_micro_eur_per_million = 100_000;
  output_micro_eur_per_million = 200_000;
  currency = Currency.eur;
  quality_baseline = fixed 7 1;
  quality_by_task = (text "code", fixed 5 1) ∷ [];
  latency_p50_ms = 300;
  latency_p95_ms = 900;
  jurisdiction = Jurisdiction.eu;
  data_residency = none;
  operator_control = OperatorControl.eu_entity;
  cloud_act_exposed = false;
  allowed_data_classes = text "confidential" ∷ text "public" ∷ [];
  max_risk_score = fixed 1 0;
  tool_calling_allowed = true;
  labels = [];
}

abbrev pub us_large : CompiledTier Fixed
us_large = record {
  name = text "us-large";
  gateway_model = text "openai/large";
  provider = none;
  capabilities = Capability.chat ∷ Capability.tools ∷ Capability.reasoning ∷ [];
  context_window = 200_000;
  input_micro_eur_per_million = 3_000_000;
  output_micro_eur_per_million = 15_000_000;
  currency = Currency.usd;
  quality_baseline = fixed 9 1;
  quality_by_task = [];
  latency_p50_ms = 1_200;
  latency_p95_ms = 4_000;
  jurisdiction = Jurisdiction.us;
  data_residency = none;
  operator_control = OperatorControl.us_entity;
  cloud_act_exposed = true;
  allowed_data_classes = text "public" ∷ [];
  max_risk_score = fixed 5 1;
  tool_calling_allowed = true;
  labels = [];
}

abbrev pub confidential : CompiledDataClass Fixed
confidential = record {
  name = text "confidential";
  rank = 2;
  header_values = text "secret" ∷ [];
  pii_entities = PiiEntity.iban ∷ [];
  min_confidence = fixed 8 1;
  require_jurisdiction = Jurisdiction.eu ∷ [];
  forbid_cloud_act_exposed = true;
  require_operator_control = [];
  forbid_capabilities = [];
  max_retention_days = none;
}

abbrev pub public_data : CompiledDataClass Fixed
public_data = record {
  name = text "public";
  rank = 0;
  header_values = [];
  pii_entities = [];
  min_confidence = fixed 8 1;
  require_jurisdiction = [];
  forbid_cloud_act_exposed = false;
  require_operator_control = [];
  forbid_capabilities = [];
  max_retention_days = none;
}

abbrev pub agents : CompiledPolicy Fixed
agents = record {
  key = text "default/agents";
  namespace = text "default";
  name = text "agents";
  priority = 10;
  match_ = record {
    tenants = [];
    agents = [];
    paths = text "/v1/*" ∷ [];
    model_aliases = text "auto*" ∷ [];
  };
  candidates = text "eu-small" ∷ text "us-large" ∷ [];
  respect_data_class = true;
  max_cost_micro_eur = some 50_000;
  require_capabilities = Capability.chat ∷ [];
  deny_if_risk_score_above = some (fixed 8 1);
  mode = ObjectiveMode.balanced;
  quality_floor = some (fixed 6 1);
  weights = record { cost = fixed 5 1; quality = fixed 3 1; latency = fixed 2 1 };
  learned_router = record { enabled = false; profile = none; min_confidence = fixed 0 0 };
  reasoning_enabled = false;
  reasoning_map = [];
  fallback_tier = some (text "eu-small");
  explain = true;
  overridable = false;
}

abbrev pub core : SnapshotCore Fixed
core = record {
  schema_version = 1;
  compiler_version = text "0.1.0";
  tiers = (text "eu-small", eu_small) ∷ (text "us-large", us_large) ∷ [];
  data_classes = (text "confidential", confidential) ∷ (text "public", public_data) ∷ [];
  policies = agents ∷ [];
  profiles = [];
}

abbrev pub snapshot : Snapshot Fixed
snapshot = record { hash = text "sha256:0"; core = core }

abbrev pub request : DecisionInput
request = record {
  tenant = none;
  agent = none;
  path = text "/v1/chat/completions";
  requested_model = text "auto";
  tools_present = true;
  estimated_input_tokens = 1_000;
  estimated_output_tokens = 200;
  hints = record { data_classes = []; policy = none; dry_run = false };
}

-- a request with an account number, after a complete classification
abbrev pub with_iban : Findings Fixed
with_iban = record no_findings { risk_score = some (fixed 1 1); pii_entities = PiiEntity.iban ∷ [] }

-- a request that no detector answered for
abbrev pub unclassified : Findings Fixed
unclassified = record no_findings { degraded = text "pii:timeout" ∷ [] }

-- a request that looks like an injection
abbrev pub hostile : Findings Fixed
hostile = record no_findings { risk_score = some (fixed 9 1); degraded = text "pii:timeout" ∷ [] }

abbrev pub ctx : DecisionContext
ctx = record { id = text "r-1" }
