-- ===== src/Examples/Decisions.antt =====
-- Decisions of `Engine::decide` (crates/decision/src/lib.rs) at concrete requests.
use route_d.Prelude.{
  ◌≡◌, ◌⊎◌, inl, map, values, refl, true, false, Option, none, some, [], ◌∷◌, Text, text, All,
}
use route_d.Float.Fixed.{Fixed, fixed, fixed_float, Fixed-IsIeee}
use route_d.Decision.Types.{
  DecisionInput, Findings, Decision, route, block, Outcome, Candidate, EliminationReason,
}
use route_d.Decision.Scoring.{no_predictor}
use route_d.Decision.Scoring.Quality.{HasFiniteQuality}
use route_d.Decision.Engine.{decide, is_routed}
use route_d.Decision.Engine.Safety.{IsSafeRoute, decide-IsSafeRoute}
use route_d.Decision.Engine.Risk.{
  Governs, IsDenied, decide-IsDenied, IsIncomplete, FallsBack, decide-FallsBack,
}
use route_d.Decision.Engine.Total.{IsDecided, decide-IsDecided}
use route_d.Decision.Engine.Routed.{Untouched, decide-Untouched}
use route_d.Examples.Engine.{engine}
use route_d.Examples.Data.{agents, snapshot, request, with_iban, unclassified, hostile, ctx}

abbrev run : DecisionInput → Findings Fixed → Decision Fixed
run input findings = decide no_predictor snapshot input findings ctx

abbrev outcome_and_tier : Decision Fixed → Outcome × Option Text
outcome_and_tier d = (d.outcome, d.selected_tier)

abbrev tier_and_reason : Candidate Fixed → Text × Option EliminationReason
tier_and_reason c = (c.tier, c.eliminated_by)

-- The class of the account number keeps the request in the EU.
iban_stays : outcome_and_tier (run request with_iban) ≡ (route, some (text "eu-small"))
unfolding engine
iban_stays = refl

iban_candidates :
    map tier_and_reason (run request with_iban).candidates
    ≡ (text "eu-small", none)
      ∷ (text "us-large", some EliminationReason.data_class_not_allowed)
      ∷ []
unfolding engine
iban_candidates = refl

-- The same request without it is answered by the tier with the better score.
plain_request :
    outcome_and_tier (run request (record with_iban { pii_entities = [] }))
    ≡ (route, some (text "eu-small"))
unfolding engine
plain_request = refl

-- A text that does not fit the small tier goes to the large one.
long_request :
    outcome_and_tier (
      run
        (record request { estimated_input_tokens = 9_000 })
        (record with_iban { pii_entities = [] }))
    ≡ (route, some (text "us-large"))
unfolding engine
long_request = refl

unclassified_falls_back :
    (outcome_and_tier (run request unclassified) ≡ (route, some (text "eu-small")))
    × ((run request unclassified).fallback ≡ true)
unfolding engine
unclassified_falls_back = (refl, refl)

hostile_blocked : outcome_and_tier (run request hostile) ≡ (block, none)
unfolding engine
hostile_blocked = refl

governed : Governs snapshot request agents
unfolding engine
governed = (refl, refl)

finite_snapshot : All HasFiniteQuality (values snapshot.core.tiers)
unfolding engine
finite_snapshot = (
  record { baseline = refl; by_task = (refl, tt) },
  (record { baseline = refl; by_task = tt }, tt),
)

-- a model that no policy routes
abbrev direct : DecisionInput
direct = record request { requested_model = text "gpt-4o" }

routed_request : is_routed snapshot request ≡ true
unfolding engine
routed_request = refl

unrouted_request : is_routed snapshot direct ≡ false
unfolding engine
unrouted_request = refl

iban_routed : (run request with_iban).outcome ≡ route
unfolding engine
iban_routed = refl

above_threshold : fixed_float.lt (fixed 8 1) (fixed 9 1) ≡ true
unfolding engine
above_threshold = refl

incomplete : IsIncomplete snapshot agents unclassified
unfolding engine
incomplete = inl refl

decide-IsSafeRoute_example : IsSafeRoute snapshot request with_iban (run request with_iban)
decide-IsSafeRoute_example =
    decide-IsSafeRoute no_predictor snapshot request with_iban ctx iban_routed

decide-IsDenied_example : IsDenied agents (fixed 8 1) (fixed 9 1) (run request hostile)
decide-IsDenied_example =
    decide-IsDenied no_predictor snapshot request hostile agents (fixed 8 1) (fixed 9 1) ctx
      governed refl refl above_threshold

decide-FallsBack_example :
    FallsBack no_predictor snapshot agents request unclassified (run request unclassified)
    ⊎ ((run request unclassified).outcome ≡ block)
decide-FallsBack_example =
    decide-FallsBack no_predictor snapshot request unclassified agents ctx governed incomplete

decide-IsDecided_example : IsDecided (run request with_iban)
decide-IsDecided_example =
    decide-IsDecided Fixed-IsIeee no_predictor snapshot finite_snapshot request with_iban ctx
      routed_request

decide-Untouched_example : Untouched (run direct with_iban)
decide-Untouched_example =
    decide-Untouched no_predictor snapshot direct with_iban ctx unrouted_request
