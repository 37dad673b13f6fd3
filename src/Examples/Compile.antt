-- ===== src/Examples/Compile.antt =====
-- A small configuration as resources, through `compile` (crates/policy/src/lib.rs).
use route_d.Prelude.{
  ◌≡◌, inr, refl, true, false, none, some, [], ◌∷◌, ◌++◌, map, BTreeMap, Text, text, get, insert,
  insert_set, collect_set, text_ord,
}
use mathlib.Core.Option
use route_d.Api.{
  Capability, Jurisdiction, OperatorControl, Currency, PiiEntity, ArtifactType, ObjectiveMode,
}
use route_d.Api.Tiers.{ModelTier}
use route_d.Api.Classes.{DataClass}
use route_d.Api.Policies.{RoutingPolicy}
use route_d.Api.Profiles.{RouterProfile}
use route_d.Float.Fixed.{Fixed, fixed, fixed_float, Fixed-IsIeee}
use route_d.Snapshot.{CompiledTier, CompiledDataClass, CompiledMatch, SnapshotCore}
use route_d.Snapshot.Lookup.{from_core}
use route_d.Snapshot.Normalise.{for_mode, normalised}
use route_d.Decision.Scoring.{no_predictor}
use route_d.Decision.Engine.{decide, is_routed}
use route_d.Decision.Engine.Total.{IsDecided}
use route_d.Policy.Report.{
  CompileReport, violates, has_errors, push, require, report_unless, ns_name,
}
use route_d.Policy.Checks.{within, to_micro_eur, data_class_violation}
use route_d.Policy.Rates.{collect_rates}
use route_d.Policy.Profiles.{compile_profiles, check_profile}
use route_d.Policy.Classes.{compile_classes}
use route_d.Policy.Tiers.{
  TierState, compile_tiers, compile_tier, add_tier, compiled_tier, check_tier, check_tasks,
  check_allowed, tier_prices,
}
use route_d.Policy.Candidates.{
  in_ns, selected_tiers, include_tiers, remove_set, exclude_tiers, resolve_candidates,
}
use route_d.Policy.Policies.{
  check_numbers, compile_weights, check_learned_router, check_fallback, compiled_policy,
  push_policy, add_policy, compile_policy, compile_policies,
}
use route_d.Policy.Compile.{
  CompileInput, push_group, by_priority, group_policies, warn_groups, compile_tables, compile_core,
  compile,
}
use route_d.Policy.Compile.Sound.{IsSound, compile-IsSound, compiled-IsDecided}
use route_d.Policy.Tiers.Warnings.{warnings_of, compile_tier-warns}
use route_d.Examples.Engine.{engine}
use route_d.Examples.Data.{confidential, request, with_iban, ctx}

abbrev small : ModelTier Fixed
small = record {
  metadata = record { name = some (text "eu-small"); namespace = none };
  spec = record {
    gateway_model = text "openai/small";
    provider = none;
    capabilities = Capability.tools ∷ Capability.chat ∷ [];
    context_window = 8_000;
    cost = record {
      input_per_million = fixed 1 1;
      output_per_million = fixed 2 1;
      currency = Currency.usd;
    };
    quality = record { baseline = fixed 7 1; by_task = [] };
    latency = record { p50_ms = 300; p95_ms = 900 };
    sovereignty = record {
      jurisdiction = Jurisdiction.eu;
      data_residency = none;
      operator_control = OperatorControl.eu_entity;
      cloud_act_exposed = false;
      allowed_data_classes = text "confidential" ∷ [];
    };
    security = record { max_risk_score = fixed 1 0; tool_calling_allowed = true };
    labels = [];
  };
}

abbrev class : DataClass Fixed
class = record {
  metadata = record { name = some (text "confidential"); namespace = none };
  spec = record {
    rank = 2;
    description = none;
    detection = record {
      header_values = text "Secret" ∷ [];
      pii_entities = PiiEntity.iban ∷ [];
      min_confidence = fixed 7 1;
    };
    constraints = record {
      require_jurisdiction = Jurisdiction.eu ∷ [];
      forbid_cloud_act_exposed = true;
      require_operator_control = [];
      forbid_capabilities = [];
      max_retention_days = none;
    };
  };
}

abbrev agents_policy : RoutingPolicy Fixed
agents_policy = record {
  metadata = record { name = some (text "agents"); namespace = none };
  spec = record {
    priority = 10;
    match_ = record { tenants = []; agents = []; paths = []; model_aliases = text "auto" ∷ [] };
    candidates = record {
      tier_selector = record { match_labels = [] };
      include = text "eu-small" ∷ [];
      exclude = [];
    };
    hard_constraints = record {
      respect_data_class = true;
      max_cost_per_request_eur = some (fixed 5 2);
      require_capabilities = [];
      deny_if_risk_score_above = none;
    };
    objective = record {
      mode = ObjectiveMode.balanced;
      quality_floor = some (fixed 6 1);
      weights = none;
    };
    learned_router = record { enabled = false; profile = none; min_confidence = fixed 6 1 };
    reasoning_budget = record { enabled = false; map = [] };
    fallback_decision = record { tier = some (text "eu-small") };
    explain = true;
    overridable = false;
  };
}

abbrev default_profile : RouterProfile Fixed
default_profile = record {
  metadata = record { name = some (text "default"); namespace = none };
  spec = record {
    classifier = record {
      type_ = ArtifactType.heuristic;
      uri = none;
      tokenizer_uri = none;
      labels = record { task = []; complexity = []; sensitivity = [] };
      timeout_ms = 25;
    };
    embedder = none;
    learned_router = none;
    security = record { pii_detector = none; injection_detector = none };
    cost_model = record { fx_to_eur = (text "USD", fixed 9 1) ∷ []; default_output_tokens = 256 };
  };
}

abbrev input : CompileInput Fixed
input = record {
  tiers = small ∷ [];
  data_classes = class ∷ [];
  policies = agents_policy ∷ [];
  profiles = default_profile ∷ [];
}

-- a hash and a JSON text that are constant
abbrev hash_of : SnapshotCore Fixed → Text
hash_of c = text "sha256:0"

abbrev json_of : CompiledMatch → Text
json_of m = text "{}"

abbrev core : SnapshotCore Fixed
core = (compile_core json_of (text "0.1.0") input).0

abbrev report : CompileReport Fixed
report = (compile_core json_of (text "0.1.0") input).1

-- named on an `unfolding` line, it makes the runs below compute
compiler : Unit {0}
unfolding engine compile compile_core compile_tables push_group by_priority group_policies
    warn_groups compile_policies compile_policy add_policy push_policy compiled_policy
    check_fallback check_learned_router compile_weights check_numbers resolve_candidates
    exclude_tiers remove_set include_tiers selected_tiers in_ns compile_tiers compile_tier add_tier
    compiled_tier check_tier check_tasks check_allowed tier_prices compile_classes compile_profiles
    check_profile collect_rates within to_micro_eur data_class_violation has_errors push require
    report_unless ns_name for_mode normalised from_core insert insert_set collect_set fixed_float
compiler = tt

compiled : compile json_of (text "0.1.0") hash_of input ≡ inr (from_core hash_of core, report)
unfolding compiler
compiled = refl

-- 0.1 USD at 0.9 EUR are 90000 micro-EUR
compiled_price :
    Option.map (λ t. t.input_micro_eur_per_million) (get core.tiers (text "eu-small")) ≡ some 90_000
unfolding compiler
compiled_price = refl

no_diagnostics : report.diags ≡ []
unfolding compiler
no_diagnostics = refl

-- a quality above 1 is refused
abbrev too_good : ModelTier Fixed
too_good = record small {
  spec = record small.spec { quality = record { baseline = fixed 2 0; by_task = [] } };
}

refused :
    has_errors (compile_core json_of (text "0.1.0") (record input { tiers = too_good ∷ [] })).1
    ≡ true
unfolding compiler
refused = refl

request_routed : is_routed (from_core hash_of core) request ≡ true
unfolding compiler
request_routed = refl

compile-IsSound_example : IsSound hash_of (from_core hash_of core)
compile-IsSound_example =
    compile-IsSound json_of (text "0.1.0") hash_of input (from_core hash_of core) report compiled

compiled-IsDecided_example :
    IsDecided (decide no_predictor (from_core hash_of core) request with_iban ctx)
compiled-IsDecided_example =
    compiled-IsDecided json_of (text "0.1.0") hash_of input Fixed-IsIeee (from_core hash_of core)
      report no_predictor request with_iban ctx compiled request_routed

-- a tier that claims a class which forbids it, and what the compiler has before it
abbrev exposed : ModelTier Fixed
exposed = record small {
  spec = record small.spec {
    sovereignty = record small.spec.sovereignty { cloud_act_exposed = true };
  };
}

abbrev class_table : BTreeMap Text (CompiledDataClass Fixed)
class_table = (text "confidential", confidential) ∷ []

abbrev rates : BTreeMap Text Fixed
rates = (text "USD", fixed 9 1) ∷ []

abbrev no_tiers : TierState Fixed
no_tiers = record { tiers = []; tier_ns = []; report = record { diags = [] } }

exposed_passes :
    (check_tier
      (ns_name exposed.metadata)
      exposed.spec
      class_table
      (tier_prices exposed.spec rates)
      no_tiers.report).0
    ≡ true
unfolding compiler
exposed_passes = refl

compile_tier-warns_example :
    let after =
      compile_tier exposed.metadata
        (some (text "eu-small"))
        exposed.spec
        class_table
        rates
        no_tiers in
    (t : CompiledTier Fixed) × (get after.tiers (text "eu-small") ≡ some t)
    × (after.report.diags
        ≡ (check_tier
            (ns_name exposed.metadata)
            exposed.spec
            class_table
            (tier_prices exposed.spec rates)
            no_tiers.report).1.diags
          ++ warnings_of (ns_name exposed.metadata) class_table t t.allowed_data_classes)
unfolding get
compile_tier-warns_example =
    compile_tier-warns exposed.metadata (text "eu-small") exposed.spec class_table rates no_tiers
      refl exposed_passes

-- one warning
exposed_warned :
    map
      (λ d. d.message)
      (compile_tier exposed.metadata
        (some (text "eu-small"))
        exposed.spec
        class_table
        rates
        no_tiers).report.diags
    ≡ violates (text "confidential") (text "CLOUD Act exposed") ∷ []
unfolding compiler
exposed_warned = refl
