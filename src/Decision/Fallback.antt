-- ===== src/Decision/Fallback.antt =====
-- crates/decision/src/lib.rs: `fallback_or_block`. The child proves what it may route to.
pub mod Safety
use route_d.Prelude.{
  ℕ, Bool, true, false, not, Option, none, some, List, [], ◌∷◌, ◌++◌, Text, text_ord, ◌==◌, any,
  filter, find, if◌then◌else◌, and_then, sort_by,
}
use route_d.Float.{Float}
use route_d.Snapshot.{CompiledTier, CompiledDataClass, CompiledPolicy, Snapshot}
use route_d.Snapshot.Cost.{estimate_cost}
use route_d.Snapshot.Lookup.{tier}
use route_d.Decision.Types.{
  route, block, DecisionInput, Findings, Candidate, eliminated, Decision, EliminationReason, Note,
  Why, no_fallback_tier, fallback_not_in_snapshot, fallback_eliminated, using_fallback,
  fallback_relaxed,
}
use route_d.Decision.Round.{round6, micro_to_eur}
use route_d.Decision.Constraints.{request_fact_violation, hard_constraint_violation}
use route_d.Decision.Scoring.{QualityPredictor, predicted_quality, by_tier, parameters_for}

abbrev relaxed_notes : Text → Option EliminationReason → List Note → List Note
relaxed_notes fb_name none notes = notes
relaxed_notes fb_name (some prev) notes = notes ++ fallback_relaxed fb_name prev ∷ []

module _ {F : Type 0} where
  -- `c.tier == tier.name`
  abbrev is_about : Text → Candidate F → Bool
  is_about name c = c.tier == name

module _ {F : Type 0} ⦃f : Float F⦄ where
  -- the fallback tier violates a constraint
  unfoldable pub block_fallback :
      Why → Text → CompiledTier F → EliminationReason → Decision F → Decision F
  block_fallback why fb_name t reason d =
      let pushed =
        if any (is_about t.name) d.candidates
        then d.candidates
        else d.candidates ++ eliminated t.name reason ∷ [] in
      record d {
        candidates = sort_by by_tier pushed;
        outcome = block;
        reason = some (fallback_eliminated why fb_name reason);
      }

  -- the fallback tier is used
  unfoldable pub use_fallback :
      QualityPredictor F
      → CompiledPolicy F
      → DecisionInput
      → Findings F
      → Why
      → Text
      → CompiledTier F
      → Decision F
      → Decision F
  use_fallback predictor policy input findings why fb_name t d =
      let cost = estimate_cost t input.estimated_input_tokens input.estimated_output_tokens in
      let quality = predicted_quality predictor t findings policy in
      let prev = and_then (find (is_about t.name) d.candidates) (λ c. c.eliminated_by) in
      let others = filter (λ c. not (is_about t.name c)) d.candidates in
      let chosen : Candidate F = record {
        tier = t.name;
        eliminated_by = none;
        predicted_quality = some (round6 quality);
        estimated_cost_eur = some (micro_to_eur cost);
        score = none;
        selected = true;
      } in
      record d {
        notes = relaxed_notes fb_name prev d.notes;
        candidates = sort_by by_tier (others ++ chosen ∷ []);
        outcome = route;
        reason = some (using_fallback why);
        selected_tier = some t.name;
        gateway_model = some t.gateway_model;
        estimated_cost_eur = some (micro_to_eur cost);
        estimated_savings_eur = some (f.decimal 0 0);
        parameters = parameters_for policy findings;
      }

  -- which check the fallback tier has to pass
  unfoldable pub fallback_violation :
      CompiledPolicy F
      → DecisionInput
      → Findings F
      → Option (CompiledDataClass F)
      → Bool
      → CompiledTier F
      → Option EliminationReason
  fallback_violation policy input findings data_class degraded t =
      if degraded
      then request_fact_violation t policy input findings data_class
      else hard_constraint_violation t policy input findings data_class input.estimated_input_tokens
          input.estimated_output_tokens

  -- `let Some(tier) = snapshot.tier(fb_name) else …`, and what follows it
  judge_fallback :
      QualityPredictor F
      → CompiledPolicy F
      → DecisionInput
      → Findings F
      → Why
      → Text
      → CompiledTier F
      → Option EliminationReason
      → Decision F
      → Decision F
  judge_fallback predictor policy input findings why fb_name t (some reason) d =
      block_fallback why fb_name t reason d
  judge_fallback predictor policy input findings why fb_name t none d =
      use_fallback predictor policy input findings why fb_name t d

  try_fallback :
      QualityPredictor F
      → CompiledPolicy F
      → DecisionInput
      → Findings F
      → Option (CompiledDataClass F)
      → Why
      → Bool
      → Text
      → Option (CompiledTier F)
      → Decision F
      → Decision F
  unfolding judge_fallback
  try_fallback predictor policy input findings data_class why degraded fb_name none d = record d {
    outcome = block;
    reason = some (fallback_not_in_snapshot why fb_name);
  }
  try_fallback predictor policy input findings data_class why degraded fb_name (some t) d =
      judge_fallback predictor policy input findings why fb_name t
        (fallback_violation policy input findings data_class degraded t) d

  -- `let Some(fb_name) = &policy.fallback_tier else …`, and what follows it
  name_fallback :
      QualityPredictor F
      → Snapshot F
      → CompiledPolicy F
      → DecisionInput
      → Findings F
      → Option (CompiledDataClass F)
      → Why
      → Bool
      → Option Text
      → Decision F
      → Decision F
  unfolding try_fallback
  name_fallback predictor s policy input findings data_class why degraded none d = record d {
    outcome = block;
    reason = some (no_fallback_tier why);
  }
  name_fallback predictor s policy input findings data_class why degraded (some fb_name) d =
      try_fallback predictor policy input findings data_class why degraded fb_name (tier s fb_name)
        d

  unfoldable pub fallback_or_block :
      QualityPredictor F
      → Snapshot F
      → CompiledPolicy F
      → DecisionInput
      → Findings F
      → Option (CompiledDataClass F)
      → Decision F
      → Why
      → Bool
      → Decision F
  unfolding name_fallback
  fallback_or_block predictor s policy input findings data_class d why degraded =
      name_fallback predictor s policy input findings data_class why degraded policy.fallback_tier d
