-- ===== src/Decision/Engine/Total.antt =====
-- `Engine::decide` of crates/decision/src/lib.rs decides every routed request: over a snapshot with
-- finite qualities it never lets one through.
use route_d.Prelude.{
  ℕ, ap, ◌≡◌, ◌⊎◌, inl, inr, refl, subst, ◌∙◌, Bool, true, false, Option, none, some, List, [], ◌∷◌,
  if◌then◌else◌, Bool-cases, Elem, All, All_elem, All-of_Elem, is_empty, values, Elem-values_of_get,
  text_ord, Elem-of_map,
}
use route_d.Float.{Float, IsIeee}
use route_d.Snapshot.{CompiledTier, CompiledDataClass, CompiledPolicy, Snapshot}
use route_d.Snapshot.Lookup.{tier}
use route_d.Decision.Types.{
  route, block, DecisionContext, DecisionInput, Findings, no_findings, Decision, Candidate,
  EliminationReason, Why, new_decision, classification_degraded, no_candidate_satisfies,
}
use route_d.Decision.Scope.{matching_policies, select_policy}
use route_d.Decision.Scope.Selection.{select_policy-same}
use route_d.Decision.DataClass.{resolve_data_class}
use route_d.Decision.Constraints.{hard_constraint_violation}
use route_d.Decision.Scoring.{QualityPredictor, Scored, scored_tier, score_and_select}
use route_d.Decision.Scoring.Quality.{HasFiniteQuality, predicted_quality-finite}
use route_d.Decision.Scoring.Floor.{apply_floor-some}
use route_d.Decision.Scoring.Optimal.{scored, score_and_select-Selects}
use route_d.Decision.Fallback.{fallback_or_block}
use route_d.Decision.Fallback.Safety.{fallback_or_block-cases}
use route_d.Decision.Engine.{
  prune, decide_survivors, degraded_list, decide_degraded, block_on_risk, decide_risk, decide_class,
  decide_policy, decide_selected, decide, routed_by, is_routed,
}
use route_d.Decision.Engine.Stages.{prune_sound}

-- the two ends of a decision
abbrev pub IsDecided : {F : Type 0} → Decision F → Type 0
IsDecided r = (r.outcome ≡ route) ⊎ (r.outcome ≡ block)

module _ {F : Type 0} ⦃f : Float F⦄ where
  module _ (laws : IsIeee F) where
    module _ (predictor : QualityPredictor F) (s : Snapshot F)
        (finite : All HasFiniteQuality (values s.core.tiers)) (input : DecisionInput)
        (findings : Findings F) where
      module _ (policy : CompiledPolicy F) (data_class : Option (CompiledDataClass F)) where
        fallback-IsDecided :
            (d : Decision F) (why : Why) (degraded : Bool)
            → IsDecided
                (fallback_or_block predictor s policy input findings data_class d why degraded)
        fallback-IsDecided d why degraded =
            elim (fallback_or_block-cases predictor s policy input findings data_class d why
              degraded) [ inl x ↦ inl x.routed | inr b ↦ inr b.blocked ]

        scoring-IsDecided :
            (survivors : List (CompiledTier F)) (i o : ℕ) (d : Decision F)
            → All HasFiniteQuality survivors
            → is_empty survivors ≡ false
            → IsDecided (score_and_select predictor policy survivors findings i o d)
        unfolding is_empty scored_tier
        scoring-IsDecided [] i o d h e = absurd (cc)
        scoring-IsDecided (t ∷ ts) i o d h e =
            let all_finite =
              All-of_Elem (λ (x : Scored F). f.is_finite x.quality ≡ true)
                (scored predictor policy (t ∷ ts) findings i o d)
                (λ x m.
                  let (u, k, same) =
                    Elem-of_map (scored_tier predictor policy findings i o) (t ∷ ts) x m in
                  subst (λ (y : Scored F). f.is_finite y.quality ≡ true) same
                    (predicted_quality-finite laws predictor u findings policy
                      (All_elem HasFiniteQuality (t ∷ ts) u h k))) in
            let (x, m) = apply_floor-some laws policy.quality_floor _ _ d all_finite in
            inl (score_and_select-Selects predictor policy (t ∷ ts) findings i o d x m).4.routed

        survivor-finite :
            (check : CompiledTier F → Option EliminationReason) (cs : List (Candidate F))
            (t : CompiledTier F)
            → Elem t (prune s check policy.candidates ([], cs)).0
            → HasFiniteQuality t
        unfolding tier
        survivor-finite check cs t m = elim (prune_sound s check policy.candidates ([], cs) t m) [
          | inl bad ↦ absurd bad
          | inr (name, k, e, c) ↦
              All_elem HasFiniteQuality (values s.core.tiers) t finite
                (Elem-values_of_get s.core.tiers name t e)
        ]

        survivors-IsDecided :
            (d : Decision F)
            → IsDecided (decide_survivors predictor s policy input findings data_class d)
        unfolding decide_survivors
        survivors-IsDecided d =
            let i = input.estimated_input_tokens in
            let o = input.estimated_output_tokens in
            let check = λ (t : CompiledTier F).
              hard_constraint_violation t policy input findings data_class i o in
            let pruned = prune s check policy.candidates ([], d.candidates) in
            elim (Bool-cases (is_empty pruned.0)) [
              | inl e ↦
                  rw (e, if◌then◌else◌)
                    (fallback-IsDecided (record d { candidates = pruned.1; fallback = true })
                      no_candidate_satisfies false)
              | inr e ↦
                  rw (e, if◌then◌else◌)
                    (scoring-IsDecided pruned.0 i o (record d { candidates = pruned.1 })
                      (All-of_Elem HasFiniteQuality pruned.0 (survivor-finite check d.candidates))
                      e)
            ]

        degraded-IsDecided :
            (d : Decision F)
            → IsDecided (decide_degraded predictor s policy input findings data_class d)
        unfolding decide_degraded
        degraded-IsDecided d =
            let degraded = degraded_list s policy findings d.degraded in
            elim (Bool-cases (is_empty degraded)) [
              | inl e ↦
                  rw (e, if◌then◌else◌) (survivors-IsDecided (record d { degraded = degraded }))
              | inr e ↦
                  rw (e, if◌then◌else◌)
                    (fallback-IsDecided (record d { degraded = degraded; fallback = true })
                      classification_degraded true)
            ]

        risk-IsDecided :
            (threshold risk : Option F) (d : Decision F)
            → IsDecided (decide_risk predictor s policy input findings data_class threshold risk d)
        unfolding decide_risk block_on_risk
        risk-IsDecided none risk d = degraded-IsDecided d
        risk-IsDecided (some threshold) none d = degraded-IsDecided d
        risk-IsDecided (some threshold) (some risk) d = elim (Bool-cases (f.lt threshold risk)) [
          | inl e ↦ rw (e, if◌then◌else◌) (inr refl)
          | inr e ↦ rw (e, if◌then◌else◌) (degraded-IsDecided d)
        ]

      selected-IsDecided :
          (o : Option (CompiledPolicy F)) (d : Decision F)
          → routed_by input o ≡ true
          → IsDecided (decide_selected predictor s input findings o d)
      unfolding decide_selected decide_policy decide_class
      selected-IsDecided none d h = absurd (cc)
      selected-IsDecided (some p) d h =
          rw (h, if◌then◌else◌)
            (risk-IsDecided p
              (resolve_data_class s input findings (record d { policy = some p.key })).0
              p.deny_if_risk_score_above findings.risk_score _)

      -- Over a snapshot whose tiers have finite quality priors, a request that `is_routed` accepts
      -- is routed or blocked, and never passes through: scoring never runs out of tiers, with
      -- whatever quality the predictor answers.
      pub decide-IsDecided :
          (ctx : DecisionContext)
          → is_routed s input ≡ true
          → IsDecided (decide predictor s input findings ctx)
      unfolding decide is_routed
      decide-IsDecided ctx h =
          let d = new_decision ctx input findings s.hash in
          let scratch = new_decision {F = F} (record { id = [] }) input no_findings s.hash in
          let matching = matching_policies s input in
          let hint = input.hints.policy in
          selected-IsDecided (select_policy matching hint d).0 (select_policy matching hint d).1
            (ap (routed_by input) (select_policy-same matching hint d scratch) ∙ h)
