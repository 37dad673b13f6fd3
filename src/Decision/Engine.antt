-- ===== src/Decision/Engine.antt =====
-- crates/decision/src/lib.rs: `Engine::decide` and `is_routed`. A decision is made in the steps of
-- the source, each of which returns or goes on to the next.
pub mod Stages
pub mod Routed
pub mod Routes
pub mod Safety
pub mod Risk
pub mod Total
use route_d.Prelude.{
  ℕ, Bool, true, false, not, Option, none, some, List, [], ◌∷◌, ◌++◌, map, Text, text, text_ord,
  ◌==◌, ◌&&◌, ◌||◌, any, filter, if◌then◌else◌, and_then, is_some, is_empty, contains,
}
use mathlib.Core.Option
use route_d.Float.{Float}
use route_d.Snapshot.{CompiledTier, CompiledDataClass, CompiledPolicy, Snapshot}
use route_d.Snapshot.Lookup.{tier}
use route_d.Decision.Types.{
  route, pass_through, block, DecisionContext, DecisionInput, Findings, no_findings, Candidate,
  eliminated, Decision, EliminationReason, deny_if_risk_score_above, no_policy_matches,
  not_routed_alias, risk_exceeds, classification_degraded, no_candidate_satisfies, new_decision,
}
use route_d.Decision.Round.{round6}
use route_d.Decision.Scope.{matching_policies, select_policy, is_alias}
use route_d.Decision.DataClass.{resolve_data_class}
use route_d.Decision.Constraints.{hard_constraint_violation}
use route_d.Decision.Scoring.{QualityPredictor, score_and_select}
use route_d.Decision.Fallback.{fallback_or_block}

-- the value that `risk_score: None` adds to `degraded`
abbrev pub risk_missing : Text
risk_missing = text "risk:missing"

module _ {F : Type 0} where
  -- the survivors and the candidates of one round of the loop over the policy's candidates
  judge :
      CompiledTier F
      → Text
      → Option EliminationReason
      → List (CompiledTier F) × List (Candidate F)
      → List (CompiledTier F) × List (Candidate F)
  judge t name (some reason) (survivors, cs) = (survivors, cs ++ eliminated name reason ∷ [])
  judge t name none (survivors, cs) = (survivors ++ t ∷ [], cs)

  unfoldable pub round :
      (CompiledTier F → Option EliminationReason)
      → Text
      → Option (CompiledTier F)
      → List (CompiledTier F) × List (Candidate F)
      → List (CompiledTier F) × List (Candidate F)
  unfolding judge
  round check name none acc = acc
  round check name (some t) acc = judge t name (check t) acc

module _ {F : Type 0} ⦃f : Float F⦄ where
  -- 4c-e: the loop over the candidates; `check` is `hard_constraint_violation` for the request.
  unfoldable pub prune :
      Snapshot F
      → (CompiledTier F → Option EliminationReason)
      → List Text
      → List (CompiledTier F) × List (Candidate F)
      → List (CompiledTier F) × List (Candidate F)
  prune s check [] acc = acc
  prune s check (name ∷ names) acc = prune s check names (round check name (tier s name) acc)

  -- a tier of the policy may refuse a risk score: `max_risk_score < 1.0`
  abbrev depends_on_risk : Snapshot F → Text → Bool
  depends_on_risk s name = elim (tier s name) [
    | none ↦ false
    | some t ↦ f.lt t.max_risk_score (f.decimal 1 0)
  ]

  unfoldable pub risk_needed : Snapshot F → CompiledPolicy F → Bool
  risk_needed s policy =
      is_some policy.deny_if_risk_score_above || any (depends_on_risk s) policy.candidates

  -- 4b: what counts as degraded
  unfoldable pub degraded_list : Snapshot F → CompiledPolicy F → Findings F → List Text → List Text
  degraded_list s policy findings degraded =
      if not (is_some findings.risk_score)
        && risk_needed s policy
        && not (contains degraded risk_missing)
      then degraded ++ risk_missing ∷ []
      else degraded

  module _ (predictor : QualityPredictor F) (s : Snapshot F) (policy : CompiledPolicy F)
      (input : DecisionInput) (findings : Findings F)
      (data_class : Option (CompiledDataClass F)) where
    -- 5 and 6
    unfoldable pub decide_survivors : Decision F → Decision F
    decide_survivors d =
        let i = input.estimated_input_tokens in
        let o = input.estimated_output_tokens in
        let check = λ (t : CompiledTier F).
          hard_constraint_violation t policy input findings data_class i o in
        let (survivors, cs) = prune s check policy.candidates ([], d.candidates) in
        if is_empty survivors
        then fallback_or_block predictor s policy input findings data_class
            (record d { candidates = cs; fallback = true }) no_candidate_satisfies false
        else score_and_select predictor policy survivors findings i o (record d { candidates = cs })

    -- 4b on
    unfoldable pub decide_degraded : Decision F → Decision F
    decide_degraded d =
        let degraded = degraded_list s policy findings d.degraded in
        if is_empty degraded
        then decide_survivors (record d { degraded = degraded })
        else fallback_or_block predictor s policy input findings data_class
            (record d { degraded = degraded; fallback = true }) classification_degraded true

    -- 4a: the block on the risk score
    unfoldable pub block_on_risk : F → F → Decision F → Decision F
    block_on_risk threshold risk d = record d {
      candidates =
          d.candidates ++ map (λ name. eliminated name deny_if_risk_score_above) policy.candidates;
      outcome = block;
      reason = some (risk_exceeds (round6 risk) threshold);
    }

    unfoldable pub decide_risk : Option F → Option F → Decision F → Decision F
    decide_risk (some threshold) (some risk) d =
        if f.lt threshold risk then block_on_risk threshold risk d else decide_degraded d
    decide_risk none risk d = decide_degraded d
    decide_risk (some threshold) none d = decide_degraded d

  module _ (predictor : QualityPredictor F) (s : Snapshot F) (input : DecisionInput)
      (findings : Findings F) where
    -- 3 on
    unfoldable pub decide_class : CompiledPolicy F → Decision F → Decision F
    decide_class policy d =
        let (data_class, d') = resolve_data_class s input findings d in
        decide_risk predictor s policy input findings data_class policy.deny_if_risk_score_above
          findings.risk_score (record d' { data_class = Option.map (λ dc. dc.name) data_class })

    -- 2 on
    unfoldable pub decide_policy : CompiledPolicy F → Decision F → Decision F
    decide_policy policy d =
        let d' : Decision F = record d { policy = some policy.key } in
        if is_alias policy input.requested_model then decide_class policy d' else record d' {
          outcome = pass_through;
          reason = some (not_routed_alias input.requested_model policy.key);
        }

    decide_selected : Option (CompiledPolicy F) → Decision F → Decision F
    decide_selected none d = record d { outcome = pass_through; reason = some no_policy_matches }
    decide_selected (some policy) d = decide_policy policy d

    unfoldable pub decide : DecisionContext → Decision F
    unfolding decide_selected
    decide ctx =
        let d = new_decision ctx input findings s.hash in
        let (selected, d') = select_policy (matching_policies s input) input.hints.policy d in
        decide_selected selected d'

  abbrev routed_by : DecisionInput → Option (CompiledPolicy F) → Bool
  routed_by input none = false
  routed_by input (some p) = is_alias p input.requested_model

  unfoldable pub is_routed : Snapshot F → DecisionInput → Bool
  is_routed s input =
      let scratch = new_decision (record { id = [] }) input no_findings s.hash in
      routed_by input (select_policy (matching_policies s input) input.hints.policy scratch).0
