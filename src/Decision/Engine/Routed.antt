-- ===== src/Decision/Engine/Routed.antt =====
-- `is_routed` of crates/decision/src/lib.rs against `Engine::decide`: when a request passes through.
use route_d.Prelude.{ap, ◌≡◌, refl, sym, subst, ◌∙◌, false, Option, none, some, [], if◌then◌else◌}
use route_d.Float.{Float}
use route_d.Snapshot.{CompiledPolicy, Snapshot}
use route_d.Decision.Types.{
  pass_through, DecisionContext, DecisionInput, Findings, no_findings, Decision, new_decision,
}
use route_d.Decision.Scope.{matching_policies, select_policy}
use route_d.Decision.Scope.Selection.{select_policy-same, select_policy-notes}
use route_d.Decision.Scoring.{QualityPredictor}
use route_d.Decision.Engine.{decide_policy, decide_selected, decide, routed_by, is_routed}

module _ {F : Type 0} ⦃f : Float F⦄ where
  -- A decision that leaves the request alone.
  pub record Untouched (r : Decision F) : Type 0 where
    pub outcome : r.outcome ≡ pass_through
    pub tier : r.selected_tier ≡ none
    pub model : r.gateway_model ≡ none
    pub candidates : r.candidates ≡ []
    pub fallback : r.fallback ≡ false

  module _ (predictor : QualityPredictor F) (s : Snapshot F) (input : DecisionInput)
      (findings : Findings F) where
    selected-Untouched :
        (o : Option (CompiledPolicy F)) (d : Decision F)
        → routed_by input o ≡ false
        → Untouched d
        → Untouched (decide_selected predictor s input findings o d)
    unfolding decide_selected decide_policy
    selected-Untouched none d h u = record {
      outcome = refl;
      tier = u.tier;
      model = u.model;
      candidates = u.candidates;
      fallback = u.fallback;
    }
    selected-Untouched (some p) d h u =
        rw (h, if◌then◌else◌)
          (record {
            outcome = refl;
            tier = u.tier;
            model = u.model;
            candidates = u.candidates;
            fallback = u.fallback;
          })

    -- A request that `is_routed` refuses passes through `decide` untouched, whatever the findings
    -- are, so the ingress may skip their classification.
    pub decide-Untouched :
        (ctx : DecisionContext)
        → is_routed s input ≡ false
        → Untouched (decide predictor s input findings ctx)
    unfolding decide is_routed new_decision
    decide-Untouched ctx h =
        let d = new_decision ctx input findings s.hash in
        let scratch = new_decision {F = F} (record { id = [] }) input no_findings s.hash in
        let matching = matching_policies s input in
        let hint = input.hints.policy in
        selected-Untouched (select_policy matching hint d).0 (select_policy matching hint d).1
          (ap (routed_by input) (select_policy-same matching hint d scratch) ∙ h)
          (subst Untouched (sym (select_policy-notes matching hint d)) (record {
            outcome = refl;
            tier = refl;
            model = refl;
            candidates = refl;
            fallback = refl;
          }))
