-- ===== src/Decision/Engine/Safety.antt =====
-- What `Engine::decide` of crates/decision/src/lib.rs may route to.
use route_d.Prelude.{
  ap, ◌≡◌, inl, inr, refl, ◌∙◌, true, Option, none, some, if◌then◌else◌, Bool-cases,
}
use mathlib.Core.Option
use route_d.Float.{Float}
use route_d.Snapshot.{CompiledDataClass, CompiledPolicy, Snapshot}
use route_d.Decision.Types.{
  route, pass_through, DecisionContext, DecisionInput, Findings, Decision, new_decision,
}
use route_d.Decision.Scope.{matching_policies, select_policy, is_alias}
use route_d.Decision.Scope.Selection.{IsSelected, select_policy-IsSelected, select_policy-notes}
use route_d.Decision.DataClass.{resolve_data_class}
use route_d.Decision.DataClass.Resolution.{resolve-notes}
use route_d.Decision.DataClass.Restriction.{IsStrictest, resolve-IsStrictest}
use route_d.Decision.Scoring.{QualityPredictor}
use route_d.Decision.Engine.{decide_class, decide_policy, decide_selected, decide}
use route_d.Decision.Engine.Routes.{RoutesSafely, risk-Safe}

module _ {F : Type 0} ⦃f : Float F⦄ where
  -- A routed decision comes from a policy that the hint may select among those in scope and that
  -- routes the requested model, and is safe for the strictest data class that applies.
  pub record IsSafeRoute (s : Snapshot F) (input : DecisionInput) (findings : Findings F)
      (r : Decision F) : Type 0 where
    pub policy : CompiledPolicy F
    pub governs : IsSelected (matching_policies s input) input.hints.policy policy
    pub aliased : is_alias policy input.requested_model ≡ true
    pub class : Option (CompiledDataClass F)
    pub strictest : IsStrictest s input findings class
    pub safe : RoutesSafely s policy input findings class r

  module _ (predictor : QualityPredictor F) (s : Snapshot F) (input : DecisionInput)
      (findings : Findings F) where
    class-Safe :
        (policy : CompiledPolicy F) (d : Decision F)
        → d.outcome ≡ pass_through
        → (decide_class predictor s input findings policy d).outcome ≡ route
        → RoutesSafely s policy input findings
            (resolve_data_class s input findings d).0
            (decide_class predictor s input findings policy d)
    unfolding decide_class
    class-Safe policy d p h =
        let (data_class, d') = resolve_data_class s input findings d in
        risk-Safe predictor s policy input findings data_class policy.deny_if_risk_score_above
          findings.risk_score (record d' { data_class = Option.map (λ dc. dc.name) data_class })
          (ap (λ x. x.outcome) (resolve-notes s input findings d) ∙ p) h

    policy-Safe :
        (policy : CompiledPolicy F) (d : Decision F)
        → IsSelected (matching_policies s input) input.hints.policy policy
        → d.outcome ≡ pass_through
        → (decide_policy predictor s input findings policy d).outcome ≡ route
        → IsSafeRoute s input findings (decide_policy predictor s input findings policy d)
    unfolding decide_policy
    policy-Safe policy d sel p h =
        let d' : Decision F = record d { policy = some policy.key } in
        elim (Bool-cases (is_alias policy input.requested_model)) [
          | inr e ↦ absurd (cc (rw (e, if◌then◌else◌) at h))
          | inl e ↦
              rw (e, if◌then◌else◌)
                (record {
                  policy = policy;
                  governs = sel;
                  aliased = e;
                  class = (resolve_data_class s input findings d').0;
                  strictest = resolve-IsStrictest s input findings d';
                  safe = class-Safe policy d' p (rw (e, if◌then◌else◌) at h);
                })
        ]

    selected-Safe :
        (o : Option (CompiledPolicy F)) (d : Decision F)
        → ((p : CompiledPolicy F)
            → o ≡ some p
            → IsSelected (matching_policies s input) input.hints.policy p)
        → d.outcome ≡ pass_through
        → (decide_selected predictor s input findings o d).outcome ≡ route
        → IsSafeRoute s input findings (decide_selected predictor s input findings o d)
    unfolding decide_selected
    selected-Safe none d sel p h = absurd (cc)
    selected-Safe (some policy) d sel p h = policy-Safe policy d (sel policy refl) p h

    -- Whatever `decide` routes is safe. The tier that it names is in the snapshot, under a name that
    -- a candidate or the fallback of the policy has. The policy is in the scope of the request, is
    -- the first such or the one that the hint may choose, and routes the requested model. The
    -- strictest data class that applies to the request allows the tier, if the policy respects
    -- data classes; the tier has the capabilities, the context window, the tool calling and the
    -- risk tolerance that the request needs; and its estimated cost is within the cap of the
    -- policy, except for a fallback under degraded classification.
    pub decide-IsSafeRoute :
        (ctx : DecisionContext)
        → (decide predictor s input findings ctx).outcome ≡ route
        → IsSafeRoute s input findings (decide predictor s input findings ctx)
    unfolding decide new_decision
    decide-IsSafeRoute ctx h =
        let d = new_decision ctx input findings s.hash in
        let matching = matching_policies s input in
        selected-Safe (select_policy matching input.hints.policy d).0
          (select_policy matching input.hints.policy d).1
          (select_policy-IsSelected matching input.hints.policy d)
          (ap (λ x. x.outcome) (select_policy-notes matching input.hints.policy d)) h
