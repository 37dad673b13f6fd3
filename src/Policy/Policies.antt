-- ===== src/Policy/Policies.antt =====
-- crates/policy/src/lib.rs, `compile`: the policies. The child proves what is kept.
pub mod Resolved
use route_d.Prelude.{
  ℕ, Bool, true, false, not, Option, none, some, List, [], ◌∷◌, ◌++◌, map, Text, text, text_ord,
  nat_ord, ◌==◌, ◌&&◌, ◌||◌, if◌then◌else◌, is_some, is_empty, and_then, unwrap_or, BTreeMap,
  BTreeSet, get, insert, sort_by, then_cmp, compare, cmp_text, Ordering, values, insert_set,
  collect_set, filter, all, contains,
}
use mathlib.Core.Option
use route_d.Api.{capability_ord, eur}
use route_d.Api.Resources.{Metadata, Resource}
use route_d.Api.Policies.{
  RoutingPolicy, RoutingPolicySpec, Candidates, Objective, ObjectiveWeights, LearnedRouterSettings,
}
use route_d.Float.{Float}
use route_d.Snapshot.{
  CompiledTier, CompiledDataClass, CompiledPolicy, CompiledMatch, CompiledProfile, Weights,
}
use route_d.Snapshot.Normalise.{for_mode, normalised}
use route_d.Policy.Report.{
  Message, CompileReport, error, warning, said, not_in_namespace, tier_not_found, profile_not_found,
  cannot_serve, push, require, report_unless, ns_name,
}
use route_d.Policy.Candidates.{Compiled, in_ns, policy_error, policy_warning, resolve_candidates}
use route_d.Policy.Checks.{data_class_violation, is_probability, is_amount, to_micro_eur}

-- what it fills
pub record PolicyState (F : Type 0) : Type 0 where
  pub policies : List (CompiledPolicy F)
  pub seen_keys : BTreeSet Text
  pub report : CompileReport F

module _ {F : Type 0} ⦃f : Float F⦄ where
  -- `if let Some(v) = … { if !within(…) … }`
  abbrev pub holds_of : Option F → (F → Bool) → Bool
  holds_of none p = true
  holds_of (some v) p = p v

  unfoldable pub check_numbers :
      Text → RoutingPolicySpec F → Bool × CompileReport F → Bool × CompileReport F
  check_numbers pname s st =
      let a =
        policy_error (holds_of s.hard_constraints.max_cost_per_request_eur is_amount) pname
          (text "spec.hardConstraints.maxCostPerRequestEUR")
          (said (text "must be a non-negative number")) st in
      let b =
        policy_error (holds_of s.hard_constraints.deny_if_risk_score_above is_probability) pname
          (text "spec.hardConstraints.denyIfRiskScoreAbove") (said (text "must be in 0..=1")) a in
      policy_error (holds_of s.objective.quality_floor is_probability) pname
        (text "spec.objective.qualityFloor") (said (text "must be in 0..=1")) b

  unfoldable pub compile_weights :
      Text
      → Objective F
      → Option (ObjectiveWeights F)
      → Bool × CompileReport F
      → Weights F × (Bool × CompileReport F)
  compile_weights pname o none st = (for_mode o.mode, st)
  compile_weights pname o (some w) st = (
    normalised (record { cost = w.cost; quality = w.quality; latency = w.latency }) o.mode,
    policy_error (is_amount w.cost && is_amount w.quality && is_amount w.latency) pname
        (text "spec.objective.weights") (said (text "weights must be non-negative numbers")) st,
  )

  check_router_profile :
      Compiled F → Text → Option Text → Bool × CompileReport F → Bool × CompileReport F
  check_router_profile c pname none st =
      policy_error false pname (text "spec.learnedRouter.profile")
        (said (text "required when learnedRouter.enabled")) st
  check_router_profile c pname (some pr) st =
      policy_error (is_some (get c.profiles pr)) pname (text "spec.learnedRouter.profile")
        (profile_not_found pr) st

  unfoldable pub check_learned_router :
      Compiled F → Text → LearnedRouterSettings F → Bool × CompileReport F → Bool × CompileReport F
  unfolding check_router_profile
  check_learned_router c pname s st =
      if s.enabled
      then policy_error (is_probability s.min_confidence) pname
          (text "spec.learnedRouter.minConfidence") (said (text "must be in 0..=1"))
          (check_router_profile c pname s.profile st)
      else st

  warn_unserved :
      Text → Text → CompiledTier F → List (CompiledDataClass F) → CompileReport F → CompileReport F
  warn_unserved pname ft t [] r = r
  warn_unserved pname ft t (dc ∷ dcs) r =
      warn_unserved pname ft t dcs (unserved (data_class_violation t dc))
    where
      unserved : Option Text → CompileReport F
      unserved none = r
      unserved (some reason) =
          push warning (text "RoutingPolicy") pname (text "spec.fallbackDecision.tier")
            (cannot_serve ft dc.name reason) r

  -- `match tiers.get(ft).filter(|_| in_ns(ft))`
  check_found :
      Compiled F
      → Text
      → Text
      → Bool
      → Text
      → Option (CompiledTier F)
      → Bool × CompileReport F
      → Bool × CompileReport F
  unfolding warn_unserved
  check_found c pname namespace respect ft none st =
      policy_error false pname (text "spec.fallbackDecision.tier") (not_in_namespace ft namespace)
        st
  check_found c pname namespace respect ft (some t) (ok, r) =
      if respect then (ok, warn_unserved pname ft t (values c.classes) r) else (ok, r)

  unfoldable pub check_fallback :
      Compiled F
      → Text
      → Text
      → Bool
      → Option Text
      → Bool × CompileReport F
      → Bool × CompileReport F
  unfolding check_found
  check_fallback c pname namespace respect none st = st
  check_fallback c pname namespace respect (some ft) st =
      check_found c pname namespace respect ft
        (if in_ns c namespace ft then get c.tiers ft else none) st

  unfoldable pub compiled_policy :
      Compiled F → Text → Text → BTreeSet Text → Weights F → RoutingPolicySpec F → CompiledPolicy F
  compiled_policy c namespace name candidates weights s = record {
    key = namespace ++ text "/" ++ name;
    namespace = namespace;
    name = name;
    priority = s.priority;
    match_ = record {
      tenants = s.match_.tenants;
      agents = s.match_.agents;
      paths = s.match_.paths;
      model_aliases = s.match_.model_aliases;
    };
    candidates = candidates;
    respect_data_class = s.hard_constraints.respect_data_class;
    max_cost_micro_eur =
        and_then s.hard_constraints.max_cost_per_request_eur (λ v. to_micro_eur v eur c.fx);
    require_capabilities = collect_set s.hard_constraints.require_capabilities;
    deny_if_risk_score_above = s.hard_constraints.deny_if_risk_score_above;
    mode = s.objective.mode;
    quality_floor = s.objective.quality_floor;
    weights = weights;
    learned_router = record {
      enabled = s.learned_router.enabled;
      profile = s.learned_router.profile;
      min_confidence = s.learned_router.min_confidence;
    };
    reasoning_enabled = s.reasoning_budget.enabled;
    reasoning_map = s.reasoning_budget.map;
    fallback_tier = s.fallback_decision.tier;
    explain = s.explain;
    overridable = s.overridable;
  }

  -- `if !ok { continue; } policies.push(…)`
  unfoldable pub push_policy :
      CompiledPolicy F → Bool × CompileReport F → PolicyState F → PolicyState F
  push_policy p (ok, r) st =
      if ok
      then record st { policies = st.policies ++ p ∷ []; report = r }
      else record st { report = r }

  -- a policy that is no duplicate
  unfoldable pub add_policy :
      Compiled F → Text → Text → Text → RoutingPolicySpec F → PolicyState F → PolicyState F
  add_policy c pname namespace name s st =
      let (candidates, a) = resolve_candidates c namespace pname s.candidates st.report in
      let (weights, b) =
        compile_weights pname s.objective s.objective.weights (check_numbers pname s a) in
      let d = check_learned_router c pname s.learned_router b in
      let (ok, r) =
        check_fallback c pname namespace s.hard_constraints.respect_data_class
          s.fallback_decision.tier d in
      let r' =
        policy_warning (not (is_empty s.match_.model_aliases)) pname
          (text "spec.match.modelAliases")
          (said
            (text "empty: no request will be routed by this policy (everything passes through)"))
          r in
      push_policy (compiled_policy c namespace name candidates weights s) (ok, r') st

  unfoldable pub compile_policy :
      Compiled F → Metadata → Option Text → RoutingPolicySpec F → PolicyState F → PolicyState F
  compile_policy c meta none s st = record st {
    report =
        push error (text "RoutingPolicy") (ns_name meta) (text "metadata.name")
          (said (text "missing name")) st.report;
  }
  compile_policy c meta (some name) s st =
      let namespace = unwrap_or meta.namespace (text "default") in
      let key = namespace ++ text "/" ++ name in
      if contains st.seen_keys key
      then record st {
        report =
            push error (text "RoutingPolicy") (ns_name meta) (text "metadata.name")
              (said (text "duplicate policy")) st.report;
      }
      else add_policy c (ns_name meta) namespace name s
          (record st { seen_keys = insert_set st.seen_keys key })

  unfoldable pub compile_policies :
      Compiled F → List (RoutingPolicy F) → PolicyState F → PolicyState F
  compile_policies c [] st = st
  compile_policies c (p ∷ ps) st =
      compile_policies c ps (compile_policy c p.metadata p.metadata.name p.spec st)
