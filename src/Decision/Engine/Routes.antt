-- ===== src/Decision/Engine/Routes.antt =====
-- What the steps of `decide` of crates/decision/src/lib.rs that follow the data class may route to.
use route_d.Prelude.{
  ap, ◌≡◌, ◌⊎◌, inl, inr, refl, ◌∙◌, true, false, Option, none, some, List, [], Text, if◌then◌else◌,
  Bool-cases, Elem, is_empty,
}
use route_d.Float.{Float}
use route_d.Snapshot.{CompiledTier, CompiledDataClass, CompiledPolicy, Snapshot}
use route_d.Snapshot.Lookup.{tier}
use route_d.Decision.Types.{
  route, pass_through, DecisionInput, Findings, Candidate, EliminationReason, Decision, Why,
  no_candidate_satisfies, classification_degraded,
}
use route_d.Decision.Constraints.{hard_constraint_violation}
use route_d.Decision.Constraints.Permits.{
  ClassAllows, Serves, WithinCap, request_fact_violation-none_iff,
  hard_constraint_violation-none_iff,
}
use route_d.Decision.Scoring.{QualityPredictor, score_and_select}
use route_d.Decision.Fallback.{fallback_violation, fallback_or_block}
use route_d.Decision.Fallback.Safety.{fallback_or_block-cases, fallback_or_block-Keeps}
use route_d.Decision.Engine.{
  prune, decide_survivors, degraded_list, decide_degraded, block_on_risk, decide_risk,
}
use route_d.Decision.Engine.Stages.{prune_sound, score_and_select_sound}

module _ {F : Type 0} ⦃f : Float F⦄ where
  -- `r` names a tier of the snapshot that a candidate or the fallback of the policy names, that the
  -- resolved data class allows, that meets the facts of the request and the risk score, and that
  -- is within the cost cap or is used because classification is degraded.
  pub record RoutesSafely (s : Snapshot F) (policy : CompiledPolicy F) (input : DecisionInput)
      (findings : Findings F) (data_class : Option (CompiledDataClass F)) (r : Decision F)
      : Type 0 where
    pub name : Text
    pub t : CompiledTier F
    pub found : tier s name ≡ some t
    pub origin : Elem name policy.candidates ⊎ (policy.fallback_tier ≡ some name)
    pub selected : r.selected_tier ≡ some t.name
    pub model : r.gateway_model ≡ some t.gateway_model
    pub class : ClassAllows policy data_class t
    pub serves :
        Serves t policy input findings input.estimated_input_tokens input.estimated_output_tokens
    pub cap :
        WithinCap t policy input.estimated_input_tokens input.estimated_output_tokens
        ⊎ ((r.fallback ≡ true) × (is_empty r.degraded ≡ false))

  module _ (predictor : QualityPredictor F) (s : Snapshot F) (policy : CompiledPolicy F)
      (input : DecisionInput) (findings : Findings F)
      (data_class : Option (CompiledDataClass F)) where
    abbrev pub Safe : Decision F → Type 0
    Safe = RoutesSafely s policy input findings data_class

    -- the fallback after a complete classification
    strict_fallback-Safe :
        (d : Decision F) (why : Why)
        → let r = fallback_or_block predictor s policy input findings data_class d why false in
          r.outcome ≡ route → Safe r
    unfolding fallback_violation
    strict_fallback-Safe d why h =
        elim (fallback_or_block-cases predictor s policy input findings data_class d why false) [
          | inr b ↦ let blocked = b.blocked in absurd (cc)
          | inl x ↦
              let (class, serves, cap) =
                (hard_constraint_violation-none_iff x.t policy input findings data_class _ _).0
                  x.passes in
              record {
                name = x.name;
                t = x.t;
                found = x.found;
                origin = inr x.configured;
                selected = x.selected;
                model = x.model;
                class = class;
                serves = serves;
                cap = inl cap;
              }
        ]

    -- the fallback under degraded classification
    degraded_fallback-Safe :
        (d : Decision F) (why : Why)
        → d.fallback ≡ true
        → is_empty d.degraded ≡ false
        → let r = fallback_or_block predictor s policy input findings data_class d why true in
          r.outcome ≡ route → Safe r
    unfolding fallback_violation
    degraded_fallback-Safe d why fb deg h =
        elim (fallback_or_block-cases predictor s policy input findings data_class d why true) [
          | inr b ↦ let blocked = b.blocked in absurd (cc)
          | inl x ↦
              let (class, serves) =
                (request_fact_violation-none_iff x.t policy input findings data_class).0 x.passes in
              let (k, l, m, n) =
                fallback_or_block-Keeps predictor s policy input findings data_class d why true in
              record {
                name = x.name;
                t = x.t;
                found = x.found;
                origin = inr x.configured;
                selected = x.selected;
                model = x.model;
                class = class;
                serves = serves;
                cap = inr (k ∙ fb, ap is_empty l ∙ deg);
              }
        ]

    -- the check of the pruning loop
    abbrev check : CompiledTier F → Option EliminationReason
    check t =
        hard_constraint_violation t policy input findings data_class input.estimated_input_tokens
          input.estimated_output_tokens

    survivor-Safe :
        (cs : List (Candidate F)) (t : CompiledTier F) (r : Decision F)
        → Elem t (prune s check policy.candidates ([], cs)).0
        → r.selected_tier ≡ some t.name
        → r.gateway_model ≡ some t.gateway_model
        → Safe r
    survivor-Safe cs t r m sel model = elim (prune_sound s check policy.candidates ([], cs) t m) [
      | inl bad ↦ absurd bad
      | inr (name, k, e, c) ↦
          let (class, serves, cap) =
            (hard_constraint_violation-none_iff t policy input findings data_class _ _).0 c in
          record {
            name = name;
            t = t;
            found = e;
            origin = inl k;
            selected = sel;
            model = model;
            class = class;
            serves = serves;
            cap = inl cap;
          }
    ]

    survivors-Safe :
        (d : Decision F)
        → d.outcome ≡ pass_through
        → (decide_survivors predictor s policy input findings data_class d).outcome ≡ route
        → Safe (decide_survivors predictor s policy input findings data_class d)
    unfolding decide_survivors
    survivors-Safe d p h =
        let i = input.estimated_input_tokens in
        let o = input.estimated_output_tokens in
        let pruned = prune s check policy.candidates ([], d.candidates) in
        elim (Bool-cases (is_empty pruned.0)) [
          | inl e ↦
              rw (e, if◌then◌else◌)
                (strict_fallback-Safe (record d { candidates = pruned.1; fallback = true })
                  no_candidate_satisfies (rw (e, if◌then◌else◌) at h))
          | inr e ↦
              let d' : Decision F = record d { candidates = pruned.1 } in
              let h' : (score_and_select predictor policy pruned.0 findings i o d').outcome
                  ≡ route =
                rw (e, if◌then◌else◌) at h in
              let (t, m, sel, model) =
                score_and_select_sound predictor policy pruned.0 findings i o d' p h' in
              rw (e, if◌then◌else◌) (survivor-Safe d.candidates t _ m sel model)
        ]

    degraded-Safe :
        (d : Decision F)
        → d.outcome ≡ pass_through
        → (decide_degraded predictor s policy input findings data_class d).outcome ≡ route
        → Safe (decide_degraded predictor s policy input findings data_class d)
    unfolding decide_degraded
    degraded-Safe d p h =
        let degraded = degraded_list s policy findings d.degraded in
        elim (Bool-cases (is_empty degraded)) [
          | inl e ↦
              rw (e, if◌then◌else◌)
                (survivors-Safe (record d { degraded = degraded }) p (rw (e, if◌then◌else◌) at h))
          | inr e ↦
              rw (e, if◌then◌else◌)
                (degraded_fallback-Safe (record d { degraded = degraded; fallback = true })
                  classification_degraded refl e (rw (e, if◌then◌else◌) at h))
        ]

    pub risk-Safe :
        (threshold risk : Option F) (d : Decision F)
        → d.outcome ≡ pass_through
        → (decide_risk predictor s policy input findings data_class threshold risk d).outcome
          ≡ route
        → Safe (decide_risk predictor s policy input findings data_class threshold risk d)
    unfolding decide_risk block_on_risk
    risk-Safe none risk d p h = degraded-Safe d p h
    risk-Safe (some threshold) none d p h = degraded-Safe d p h
    risk-Safe (some threshold) (some risk) d p h = elim (Bool-cases (f.lt threshold risk)) [
      | inl e ↦ absurd (cc (rw (e, if◌then◌else◌) at h))
      | inr e ↦ rw (e, if◌then◌else◌) (degraded-Safe d p (rw (e, if◌then◌else◌) at h))
    ]
