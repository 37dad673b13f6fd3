-- ===== src/Router/Pipeline.antt =====
-- crates/router/src/lib.rs: headers, body, classification and decision, composed. The warning that
-- is logged on a failed classification is left out.
pub mod Failing
use route_d.Prelude.{
  ℕ, Option, none, some, List, [], ◌∷◌, ◌++◌, Text, text, text_ord, first, get, values, or_else,
  Result, ok, err, ◌>>=◌,
}
use route_d.Float.{Float}
use route_d.Snapshot.{CompiledProfile, Snapshot}
use route_d.Decision.Types.{DecisionContext, DecisionInput, Findings, no_findings, Decision}
use route_d.Decision.Scoring.{QualityPredictor}
use route_d.Decision.Engine.{decide}
use route_d.Security.Headers.{RequestHeaders, extract_headers}
use route_d.Json.{Serde}
use route_d.Classify.{ClassifyInput, ClassifyError, timeout, unavailable, failed, Classifier}
use route_d.Router.Extract.{ParseError, ParsedRequest, to_input, parse_request}

-- `Pipeline`; the predictor is that of its engine.
pub record Pipeline (F : Type 0) : Type 0 where
  pub predictor : QualityPredictor F
  pub snapshot : Snapshot F
  pub classifier : Classifier F

pub record Outcome (F : Type 0) : Type 0 where
  pub decision : Decision F
  pub input : DecisionInput
  pub findings : Findings F
  pub headers : RequestHeaders

unfoldable pub degraded_name : Text → ClassifyError → Text
degraded_name classifier (timeout e) = classifier ++ text ":timeout"
degraded_name classifier (unavailable e) = classifier ++ text ":unavailable"
degraded_name classifier (failed e) = classifier ++ text ":failed"

module _ {F : Type 0} where
  unfoldable pub degraded_findings : Text → ClassifyError → Findings F
  degraded_findings name e = record no_findings { degraded = degraded_name name e ∷ [] }

  unfoldable pub tokens_of_profile : Option (CompiledProfile F) → ℕ
  tokens_of_profile none = 256
  tokens_of_profile (some p) = p.default_output_tokens

  -- the `default_output` of `run` and of the ingress
  unfoldable pub default_output : Snapshot F → ℕ
  default_output s =
      tokens_of_profile
        (or_else (get s.core.profiles (text "default")) (first (values s.core.profiles)))

  -- the inner `match`
  unfoldable pub findings_of : Text → Result (Findings F) ClassifyError → Findings F
  findings_of name (ok f) = f
  findings_of name (err e) = degraded_findings name e

  -- `match findings_override`
  unfoldable pub find : Classifier F → Option (Findings F) → ClassifyInput → Findings F
  find c (some f) input = f
  find c none input = findings_of c.name (c.classify input)

module _ {F : Type 0} ⦃f : Float F⦄ where
  unfoldable pub outcome_of :
      Pipeline F
      → Text
      → RequestHeaders
      → Option (Findings F)
      → DecisionContext
      → ParsedRequest
      → Outcome F
  outcome_of p path headers findings_override ctx parsed =
      let input = to_input parsed path headers (default_output p.snapshot) in
      let findings = find p.classifier findings_override parsed.classify_input in
      record {
        decision = decide p.predictor p.snapshot input findings ctx;
        input = input;
        findings = findings;
        headers = headers;
      }

  unfoldable pub run :
      Serde
      → Pipeline F
      → Text
      → List (Text × Text)
      → List ℕ
      → Option (Findings F)
      → DecisionContext
      → Result (Outcome F) ParseError
  run serde p path headers body findings_override ctx = do
    let h = extract_headers headers
    parsed ← parse_request serde path body
    ok (outcome_of p path h findings_override ctx parsed)
