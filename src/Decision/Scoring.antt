-- ===== src/Decision/Scoring.antt =====
-- crates/decision/src/lib.rs: predicted quality, the quality floor, the scores and the selection.
-- The children prove what is selected.
pub mod Quality
pub mod Floor
pub mod Optimal
use route_d.Prelude.{
  ℕ, Bool, true, false, not, Option, none, some, List, [], ◌∷◌, ◌++◌, map, Text, text_ord, ◌==◌,
  ◌&&◌, any, filter, first, if◌then◌else◌, ltb, and_then, get, unwrap_or, sort_by, then_cmp,
  cmp_text, compare, Ordering, saturating_sub,
}
use route_d.Api.{complexity_ord}
use route_d.Float.{Float, clamp, cmp_or_equal}
use route_d.Snapshot.{CompiledTier, CompiledPolicy, MicroEur}
use route_d.Snapshot.Cost.{estimate_cost, quality_for}
use route_d.Decision.Types.{
  Outcome, route, Findings, Candidate, Parameters, Decision, below_quality_floor, quality_floor,
}
use route_d.Decision.Round.{round6, micro_to_eur, minmax, norm}

-- `trait QualityPredictor`: quality and confidence, if there is a prediction.
pub record QualityPredictor (F : Type 0) : Type 0 where
  pub predict : CompiledTier F → Findings F → Option (F × F)

-- `NoPredictor`
abbrev pub no_predictor : {F : Type 0} → QualityPredictor F
no_predictor = record { predict = λ tier findings. none }

pub record Scored (F : Type 0) : Type 0 where
  pub tier : CompiledTier F
  pub quality : F
  pub cost : MicroEur
  pub latency : ℕ

-- an entry of `results`
pub record Ranked (F : Type 0) : Type 0 where
  pub score : F
  pub item : Scored F

module _ {F : Type 0} where
  unfoldable pub parameters_for : CompiledPolicy F → Findings F → Parameters
  parameters_for policy findings = record {
    reasoning =
        if policy.reasoning_enabled
        then and_then findings.complexity (get policy.reasoning_map)
        else none;
    max_tokens = none;
  }

  -- `a.tier.cmp(&b.tier)`
  abbrev pub by_tier : Candidate F → Candidate F → Ordering
  by_tier a b = cmp_text a.tier b.tier

  -- `results.iter().map(|(_, s)| s.cost).max().unwrap_or(…)`
  unfoldable pub max_cost : MicroEur → List (Ranked F) → MicroEur
  max_cost m [] = m
  max_cost m (r ∷ rs) = max_cost (if ltb m r.item.cost then r.item.cost else m) rs

module _ {F : Type 0} ⦃f : Float F⦄ where
  predicted : CompiledPolicy F → F → Option (F × F) → F
  predicted policy prior none = prior
  predicted policy prior (some (q, conf)) =
      if f.le policy.learned_router.min_confidence conf && f.is_finite q
      then clamp (f.decimal 0 0) (f.decimal 1 0) q
      else prior

  unfoldable pub predicted_quality :
      QualityPredictor F → CompiledTier F → Findings F → CompiledPolicy F → F
  unfolding predicted
  predicted_quality predictor tier findings policy =
      let prior = quality_for tier findings.task in
      if policy.learned_router.enabled
      then predicted policy prior (predictor.predict tier findings)
      else prior

  unfoldable pub scored_tier :
      QualityPredictor F → CompiledPolicy F → Findings F → ℕ → ℕ → CompiledTier F → Scored F
  scored_tier predictor policy findings input_tokens output_tokens t = record {
    tier = t;
    quality = predicted_quality predictor t findings policy;
    cost = estimate_cost t input_tokens output_tokens;
    latency = t.latency_p50_ms;
  }

  -- the candidate that the quality floor eliminates
  abbrev pub floored : Scored F → Candidate F
  floored s = record {
    tier = s.tier.name;
    eliminated_by = some quality_floor;
    predicted_quality = some (round6 s.quality);
    estimated_cost_eur = some (micro_to_eur s.cost);
    score = none;
    selected = false;
  }

  -- the loop that keeps what passes and eliminates the rest
  unfoldable pub keep_passing :
      (Scored F → Bool)
      → List (Scored F)
      → List (Scored F)
      → List (Candidate F)
      → List (Scored F) × List (Candidate F)
  keep_passing pass [] kept candidates = (kept, candidates)
  keep_passing pass (s ∷ ss) kept candidates =
      keep_passing pass ss (if pass s then kept ++ s ∷ [] else kept)
        (if pass s then candidates else candidates ++ floored s ∷ [])

  -- `s.quality + 1e-9 >= floor`
  abbrev pub meets : F → Scored F → Bool
  meets floor s = f.le floor (f.add s.quality (f.decimal 1 9))

  pub best_quality : F → List (Scored F) → F
  best_quality best [] = best
  best_quality best (s ∷ ss) = best_quality (f.most best s.quality) ss

  -- `(s.quality - best).abs() < 1e-12`
  abbrev pub is_best : F → Scored F → Bool
  is_best best s = f.lt (f.abs (f.sub s.quality best)) (f.decimal 1 12)

  -- the block on the quality floor
  unfoldable pub apply_floor :
      Option F → List (Scored F) → Decision F → List (Scored F) × Decision F
  unfolding best_quality keep_passing
  apply_floor none scored d = (scored, d)
  apply_floor (some floor) scored d =
      if any (meets floor) scored
      then (let (kept, candidates) = keep_passing (meets floor) scored [] d.candidates in
          (kept, record d { candidates = candidates }))
      else (let best = best_quality f.lowest scored in
          let (kept, candidates) = keep_passing (is_best best) scored [] d.candidates in
          (kept, record d { candidates = candidates; reason = some (below_quality_floor floor) }))

  -- the score of one survivor against the ranges of all of them
  unfoldable pub score_of : CompiledPolicy F → F × F → F × F → F × F → Scored F → F
  score_of policy (min_c, max_c) (min_q, max_q) (min_l, max_l) s =
      let w = policy.weights in
      let one = f.decimal 1 0 in
      let cost_n = norm (f.of_nat s.cost) min_c max_c in
      let q_n = norm s.quality min_q max_q in
      let lat_n = norm (f.of_nat s.latency) min_l max_l in
      round6 (
        f.add (f.add (f.mul w.cost (f.sub one cost_n)) (f.mul w.quality q_n))
          (f.mul w.latency (f.sub one lat_n)))

  unfoldable pub rank_all : CompiledPolicy F → List (Scored F) → List (Ranked F)
  rank_all policy scored =
      let c = minmax (map (λ s. f.of_nat s.cost) scored) in
      let q = minmax (map (λ s. s.quality) scored) in
      let l = minmax (map (λ s. f.of_nat s.latency) scored) in
      map (λ s. record { score = score_of policy c q l s; item = s }) scored

  -- score descending, cost ascending, name ascending
  unfoldable pub by_score : Ranked F → Ranked F → Ordering
  by_score a b =
      then_cmp (cmp_or_equal b.score a.score)
        (then_cmp (compare a.item.cost b.item.cost) (cmp_text a.item.tier.name b.item.tier.name))

  abbrev pub scored_candidate : Text → Ranked F → Candidate F
  scored_candidate best_name r = record {
    tier = r.item.tier.name;
    eliminated_by = none;
    predicted_quality = some (round6 r.item.quality);
    estimated_cost_eur = some (micro_to_eur r.item.cost);
    score = some r.score;
    selected = r.item.tier.name == best_name;
  }

  -- what is written to the decision once the results are sorted
  unfoldable pub select_best :
      CompiledPolicy F → Findings F → List (Ranked F) → Decision F → Decision F
  select_best policy findings [] d = d
  select_best policy findings (best ∷ rest) d =
      let results = best ∷ rest in
      let best_name = best.item.tier.name in
      let dearest = max_cost best.item.cost results in
      record d {
        candidates = sort_by by_tier (d.candidates ++ map (scored_candidate best_name) results);
        outcome = route;
        selected_tier = some best_name;
        gateway_model = some best.item.tier.gateway_model;
        estimated_cost_eur = some (micro_to_eur best.item.cost);
        estimated_savings_eur = some (micro_to_eur (saturating_sub dearest best.item.cost));
        parameters = parameters_for policy findings;
      }

  unfoldable pub score_and_select :
      QualityPredictor F
      → CompiledPolicy F
      → List (CompiledTier F)
      → Findings F
      → ℕ
      → ℕ
      → Decision F
      → Decision F
  score_and_select predictor policy survivors findings input_tokens output_tokens d =
      let scored =
        map (scored_tier predictor policy findings input_tokens output_tokens) survivors in
      let (kept, d') = apply_floor policy.quality_floor scored d in
      select_best policy findings (sort_by by_score (rank_all policy kept)) d'
