-- ===== src/Policy/Tiers.antt =====
-- crates/policy/src/lib.rs, `compile`: the tiers. The child proves what is kept.
pub mod Kept
pub mod Warnings
use route_d.Prelude.{
  ℕ, Bool, true, false, not, Option, none, some, List, [], ◌∷◌, ◌++◌, map, Text, text, text_ord,
  nat_ord, ◌==◌, if◌then◌else◌, is_some, is_empty, trim, and_then, unwrap_or, BTreeMap, get, insert,
  collect_set,
}
use mathlib.Core.Option
use route_d.Api.{capability_ord}
use route_d.Api.Resources.{Metadata, Resource}
use route_d.Api.Tiers.{ModelTier, ModelTierSpec}
use route_d.Float.{Float}
use route_d.Snapshot.{CompiledTier, CompiledDataClass, MicroEur}
use route_d.Policy.Report.{
  Message, CompileReport, error, warning, said, class_not_found, no_rate, violates, push, require,
  ns_name,
}
use route_d.Policy.Checks.{data_class_violation, is_probability, is_amount, to_micro_eur}

-- the maps that the loop fills, and the report
pub record TierState (F : Type 0) : Type 0 where
  pub tiers : BTreeMap Text (CompiledTier F)
  pub tier_ns : BTreeMap Text Text
  pub report : CompileReport F

module _ {F : Type 0} ⦃f : Float F⦄ where
  abbrev pub tier_error :
      Bool → Text → Text → Message F → Bool × CompileReport F → Bool × CompileReport F
  tier_error passes tname = require passes (text "ModelTier") tname

  unfoldable pub check_tasks :
      Text → BTreeMap Text F → Bool × CompileReport F → Bool × CompileReport F
  check_tasks tname [] st = st
  check_tasks tname ((task, q) ∷ es) st = check_tasks tname es (
      tier_error (is_probability q) tname (text "spec.quality.byTask." ++ task)
        (said (text "must be in 0..=1")) st)

  unfoldable pub check_allowed :
      Text
      → BTreeMap Text (CompiledDataClass F)
      → List Text
      → Bool × CompileReport F
      → Bool × CompileReport F
  check_allowed tname classes [] st = st
  check_allowed tname classes (dcn ∷ dcns) st = check_allowed tname classes dcns (
      tier_error (is_some (get classes dcn)) tname (text "spec.sovereignty.allowedDataClasses")
        (class_not_found dcn) st)

  -- both prices, if there is a rate
  unfoldable pub tier_prices : ModelTierSpec F → BTreeMap Text F → Option (MicroEur × MicroEur)
  tier_prices s fx =
      and_then (to_micro_eur s.cost.input_per_million s.cost.currency fx)
        λ i. Option.map (λ o. (i, o)) (to_micro_eur s.cost.output_per_million s.cost.currency fx)

  -- everything that makes a tier not `ok`, in the source's order
  unfoldable pub check_tier :
      Text
      → ModelTierSpec F
      → BTreeMap Text (CompiledDataClass F)
      → Option (MicroEur × MicroEur)
      → CompileReport F
      → Bool × CompileReport F
  unfolding check_tasks check_allowed
  check_tier tname s classes prices r =
      let a =
        tier_error (not (is_empty (trim s.gateway_model))) tname (text "spec.gatewayModel")
          (said (text "must not be empty")) (true, r) in
      let b =
        tier_error (not (s.context_window == 0)) tname (text "spec.contextWindow")
          (said (text "must be > 0")) a in
      let c =
        tier_error (is_amount s.cost.input_per_million) tname (text "spec.cost.inputPerMillion")
          (said (text "must be a non-negative number")) b in
      let d =
        tier_error (is_amount s.cost.output_per_million) tname (text "spec.cost.outputPerMillion")
          (said (text "must be a non-negative number")) c in
      let e =
        tier_error (is_probability s.quality.baseline) tname (text "spec.quality.baseline")
          (said (text "must be in 0..=1")) d in
      let g = check_tasks tname s.quality.by_task e in
      let h =
        tier_error (is_probability s.security.max_risk_score) tname
          (text "spec.security.maxRiskScore") (said (text "must be in 0..=1")) g in
      let i = check_allowed tname classes s.sovereignty.allowed_data_classes h in
      tier_error (is_some prices) tname (text "spec.cost.currency") (no_rate s.cost.currency) i

  unfoldable pub compiled_tier : Text → ModelTierSpec F → MicroEur × MicroEur → CompiledTier F
  compiled_tier name s (input_micro, output_micro) = record {
    name = name;
    gateway_model = s.gateway_model;
    provider = s.provider;
    capabilities = collect_set s.capabilities;
    context_window = s.context_window;
    input_micro_eur_per_million = input_micro;
    output_micro_eur_per_million = output_micro;
    currency = s.cost.currency;
    quality_baseline = s.quality.baseline;
    quality_by_task = s.quality.by_task;
    latency_p50_ms = s.latency.p50_ms;
    latency_p95_ms = s.latency.p95_ms;
    jurisdiction = s.sovereignty.jurisdiction;
    data_residency = s.sovereignty.data_residency;
    operator_control = s.sovereignty.operator_control;
    cloud_act_exposed = s.sovereignty.cloud_act_exposed;
    allowed_data_classes = collect_set s.sovereignty.allowed_data_classes;
    max_risk_score = s.security.max_risk_score;
    tool_calling_allowed = s.security.tool_calling_allowed;
    labels = s.labels;
  }

  -- a tier that claims a data class must satisfy its constraints
  warn_claim : Text → Text → Option Text → CompileReport F → CompileReport F
  warn_claim tname dcn none r = r
  warn_claim tname dcn (some reason) r =
      push warning (text "ModelTier") tname (text "spec.sovereignty.allowedDataClasses")
        (violates dcn reason) r

  warn_claims :
      Text
      → BTreeMap Text (CompiledDataClass F)
      → CompiledTier F
      → List Text
      → CompileReport F
      → CompileReport F
  unfolding warn_claim
  warn_claims tname classes t [] r = r
  warn_claims tname classes t (dcn ∷ dcns) r =
      warn_claims tname classes t dcns
        (warn_claim tname dcn (and_then (get classes dcn) (data_class_violation t)) r)

  -- `if !ok { continue; }`, and what follows it
  unfoldable pub add_tier :
      Metadata
      → Text
      → ModelTierSpec F
      → BTreeMap Text (CompiledDataClass F)
      → MicroEur × MicroEur
      → Bool × CompileReport F
      → TierState F
      → TierState F
  unfolding warn_claims
  add_tier meta name s classes prices (ok, r) st =
      let t = compiled_tier name s prices in
      if ok
      then record {
        tiers = insert st.tiers name t;
        tier_ns = insert st.tier_ns name (unwrap_or meta.namespace (text "default"));
        report = warn_claims (ns_name meta) classes t t.allowed_data_classes r;
      }
      else record st { report = r }

  unfoldable pub compile_tier :
      Metadata
      → Option Text
      → ModelTierSpec F
      → BTreeMap Text (CompiledDataClass F)
      → BTreeMap Text F
      → TierState F
      → TierState F
  compile_tier meta none s classes fx st = record st {
    report =
        push error (text "ModelTier") (ns_name meta) (text "metadata.name")
          (said (text "missing name")) st.report;
  }
  compile_tier meta (some name) s classes fx st =
      if is_some (get st.tiers name)
      then record st {
        report =
            push error (text "ModelTier") (ns_name meta) (text "metadata.name")
              (said (text "tier names must be unique within one snapshot")) st.report;
      }
      else (let prices = tier_prices s fx in
          add_tier meta name s classes (unwrap_or prices (0, 0))
            (check_tier (ns_name meta) s classes prices st.report) st)

  unfoldable pub compile_tiers :
      List (ModelTier F)
      → BTreeMap Text (CompiledDataClass F)
      → BTreeMap Text F
      → TierState F
      → TierState F
  compile_tiers [] classes fx st = st
  compile_tiers (t ∷ ts) classes fx st =
      compile_tiers ts classes fx (compile_tier t.metadata t.metadata.name t.spec classes fx st)
