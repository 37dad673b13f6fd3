-- ===== src/Examples/Steps.antt =====
-- The steps of a decision (crates/decision/src/lib.rs) at concrete arguments.
use route_d.Prelude.{
  ◌≡◌, ◌≤◌, ◌↔◌, ◌⊎◌, inl, inr, refl, true, false, none, some, List, [], ◌∷◌, text, All, Any, Elem,
}
use route_d.Float.Fixed.{Fixed, fixed, fixed_float, Fixed-IsIeee}
use route_d.Snapshot.{CompiledTier}
use route_d.Decision.Types.{DecisionInput, Decision, new_decision, no_candidate_satisfies}
use route_d.Decision.Glob.{glob_match}
use route_d.Decision.Glob.Matching.{Globs, glob_match_iff}
use route_d.Decision.Scope.{select_policy}
use route_d.Decision.Scope.Selection.{IsSelected, select_policy-IsSelected}
use route_d.Decision.DataClass.{resolve_data_class}
use route_d.Decision.DataClass.Resolution.{rank_of}
use route_d.Decision.DataClass.Restriction.{
  IsStrictest, resolve-IsStrictest, with_hints, rank_of-with_hints,
}
use route_d.Decision.Constraints.{hard_constraint_violation}
use route_d.Decision.Constraints.Permits.{
  ClassAllows, Serves, WithinCap, hard_constraint_violation-none_iff,
}
use route_d.Decision.Scoring.{
  no_predictor, score_and_select, scored_tier, Scored, Ranked, apply_floor, meets,
}
use route_d.Float.{IsNumber}
use route_d.Decision.Scoring.Optimal.{Preferred, Selects, scored, ranked, score_and_select_optimal}
use route_d.Decision.Scoring.Floor.{apply_floor-some}
use route_d.Decision.Fallback.{fallback_or_block}
use route_d.Decision.Fallback.Safety.{
  RoutesToFallback, BlocksWithoutFallback, fallback_or_block-cases,
}
use route_d.Examples.Engine.{engine}
use route_d.Examples.Data.{
  eu_small, us_large, confidential, agents, snapshot, request, with_iban, ctx,
}

abbrev fresh : Decision Fixed
fresh = new_decision ctx request with_iban snapshot.hash

glob_match_iff_example :
    (glob_match (text "auto*") (text "auto-cheap") ≡ true)
    ↔ Globs (text "auto*") (text "auto-cheap")
glob_match_iff_example = glob_match_iff (text "auto*") (text "auto-cheap")

agents_selected : (select_policy (agents ∷ []) (some (text "agents")) fresh).0 ≡ some agents
unfolding engine
agents_selected = refl

select_policy-IsSelected_example : IsSelected (agents ∷ []) (some (text "agents")) agents
select_policy-IsSelected_example =
    select_policy-IsSelected (agents ∷ []) (some (text "agents")) fresh agents agents_selected

-- `X-Routed-Data-Class: Public`
abbrev asking : DecisionInput
asking = with_hints request (text "Public" ∷ [])

resolved : (resolve_data_class snapshot asking with_iban fresh).0 ≡ some confidential
unfolding engine
resolved = refl

resolve-IsStrictest_example :
    IsStrictest snapshot asking with_iban (resolve_data_class snapshot asking with_iban fresh).0
resolve-IsStrictest_example = resolve-IsStrictest snapshot asking with_iban fresh

rank_of-with_hints_example :
    rank_of
      (resolve_data_class snapshot (with_hints request (text "Public" ∷ [])) with_iban fresh).0
    ≤ rank_of
        (resolve_data_class snapshot
          (with_hints request (text "secret" ∷ text "Public" ∷ []))
          with_iban
          fresh).0
rank_of-with_hints_example =
    rank_of-with_hints snapshot request with_iban (text "Public" ∷ [])
      (text "secret" ∷ text "Public" ∷ []) fresh fresh (λ h m. inr m)

hard_constraint_violation-none_iff_example :
    (hard_constraint_violation eu_small agents request with_iban (some confidential) 1_000 200
      ≡ none)
    ↔ (ClassAllows agents (some confidential) eu_small
        × Serves eu_small agents request with_iban 1_000 200
        × WithinCap eu_small agents 1_000 200)
hard_constraint_violation-none_iff_example =
    hard_constraint_violation-none_iff eu_small agents request with_iban (some confidential) 1_000
      200

-- the two tiers as they are scored, the small one below a floor of 0.8
abbrev small_scored : Scored Fixed
small_scored = scored_tier no_predictor agents with_iban 1_000 200 eu_small

abbrev large_scored : Scored Fixed
large_scored = scored_tier no_predictor agents with_iban 1_000 200 us_large

large_meets : Any (λ x. meets (fixed 8 1) x ≡ true) (small_scored ∷ large_scored ∷ [])
unfolding engine
large_meets = inr (inl refl)

large_kept :
    Elem large_scored (apply_floor (some (fixed 8 1)) (small_scored ∷ large_scored ∷ []) fresh).0
unfolding engine
large_kept = inl refl

finite_scored : All (λ x. fixed_float.is_finite x.quality ≡ true) (small_scored ∷ large_scored ∷ [])
unfolding engine
finite_scored = (refl, (refl, tt))

-- a floor that neither tier meets
apply_floor-some_example :
    (x : Scored Fixed) × Elem x
      (apply_floor (some (fixed 99 2)) (small_scored ∷ large_scored ∷ []) fresh).0
apply_floor-some_example =
    apply_floor-some Fixed-IsIeee (some (fixed 99 2)) small_scored (large_scored ∷ []) fresh
      finite_scored

fallback_or_block-cases_example :
    let r =
      fallback_or_block no_predictor snapshot agents request with_iban
        (some confidential)
        fresh
        no_candidate_satisfies
        false in
    RoutesToFallback no_predictor snapshot agents request with_iban (some confidential) false r
    ⊎ BlocksWithoutFallback no_predictor snapshot agents request with_iban
        (some confidential)
        false
        r
fallback_or_block-cases_example =
    fallback_or_block-cases no_predictor snapshot agents request with_iban (some confidential) fresh
      no_candidate_satisfies false

abbrev both : List (CompiledTier Fixed)
both = eu_small ∷ us_large ∷ []

abbrev both_ranked : List (Ranked Fixed)
both_ranked = ranked no_predictor agents both with_iban 1_000 200 fresh

small_kept :
    Elem small_scored
      (apply_floor agents.quality_floor
        (scored no_predictor agents both with_iban 1_000 200 fresh)
        fresh).0
unfolding engine
small_kept = inl refl

ranked-IsNumber : All (λ r. IsNumber r.score) both_ranked
unfolding engine
ranked-IsNumber = (refl, (refl, tt))

score_and_select_optimal_example :
    (best : Ranked Fixed) × Elem best both_ranked
    × Elem best.item.tier both
    × Selects (score_and_select no_predictor agents both with_iban 1_000 200 fresh) best
    × All (Preferred best) both_ranked
score_and_select_optimal_example =
    score_and_select_optimal no_predictor agents both with_iban 1_000 200 fresh Fixed-IsIeee
      small_scored small_kept ranked-IsNumber
