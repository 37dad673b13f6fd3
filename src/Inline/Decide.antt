-- ===== src/Inline/Decide.antt =====
-- crates/ingress-inline/src/pipeline.rs, and `decide_bytes` of handlers.rs: from the bytes of a
-- request to its decision, with what is counted and recorded on the way. Both ingresses share it.
pub mod Refines
use route_d.Prelude.{
  ℕ, Bool, true, false, not, Option, none, some, List, [], ◌∷◌, ◌++◌, map, Text, text,
  if◌then◌else◌, and_then, unwrap_or, to_u64_or_max, Result, ok, err,
}
use route_d.Float.{Float}
use route_d.Snapshot.{CompiledPolicy, Snapshot}
use route_d.Snapshot.Holder.{SnapshotHolder, load}
use route_d.Snapshot.Lookup.{policy}
use route_d.Decision.Types.{
  DecisionContext, DecisionInput, Findings, no_findings, Decision, ignored_header,
}
use route_d.Decision.Scoring.{QualityPredictor}
use route_d.Decision.Engine.{decide, is_routed}
use route_d.Security.Headers.{RequestHeaders, extract_headers}
use route_d.Json.{Serde}
use route_d.Classify.{ClassifyInput, ClassifyError, timeout, unavailable, failed}
use route_d.Router.Extract.{ParseError, ParsedRequest, parse_request, to_input}
use route_d.Router.Pipeline.{degraded_findings, default_output}
use route_d.Inline.Http.{Http}
use route_d.Inline.Replies.{Response, parse_failed, not_ready, bad_request}

-- What the metrics, the spans and the feedback journal are told.
pub data Event (F : Type 0) : Type 0 where
  rejected : (name : Text) → Event F
  classified : (name : Text) → Event F
  classifier_error : (name kind : Text) → Event F
  recorded : Decision F → (mode : Text) → Event F
  journaled : Decision F → (mode : Text) → Event F
  answered : (hundreds : ℕ) → Event F

-- How one run of the classifier on the blocking pool goes: no permit within the deadline, or what
-- the task comes back with within the rest of it.
pub data Attempt (F : Type 0) : Type 0 where
  no_permit : Attempt F
  ran : Result (Findings F) ClassifyError → Attempt F
  panicked : Text → Attempt F
  timed_out : Attempt F

pub record Config : Type 0 where
  pub max_body_bytes : ℕ
  pub decision_header_max : ℕ
  pub passthrough_all : Bool

-- `AppState`; the predictor is that of its engine.
pub record AppState (F : Type 0) : Type 0 where
  pub snapshot : SnapshotHolder (Snapshot F)
  pub predictor : QualityPredictor F
  pub classifier : Text
  pub config : Config

-- What a request meets: its new id, how its classification goes, and the milliseconds it takes.
pub record Circumstances (F : Type 0) : Type 0 where
  pub ctx : DecisionContext
  pub attempt : ClassifyInput → Attempt F
  pub latency_ms : ℕ

-- `Decided`
pub record Decided (F : Type 0) : Type 0 where
  pub decision : Decision F
  pub parsed : ParsedRequest
  pub explain : Bool

unfoldable pub error_kind : ClassifyError → Text
error_kind (timeout e) = text "timeout"
error_kind (unavailable e) = text "unavailable"
error_kind (failed e) = text "failed"

module _ {F : Type 0} where
  unfoldable pub degraded : Text → ClassifyError → Findings F × List (Event F)
  degraded name e = (degraded_findings name e, classifier_error name (error_kind e) ∷ [])

  -- `ClassifyRunner::run`
  unfoldable pub run_classifier : Text → Attempt F → Findings F × List (Event F)
  run_classifier name no_permit = degraded name (timeout name)
  run_classifier name (ran (ok f)) = (f, classified name ∷ [])
  run_classifier name (ran (err e)) = degraded name e
  run_classifier name (panicked join) = degraded name (failed join)
  run_classifier name timed_out = degraded name (timeout name)

  unfoldable pub explains : Option (CompiledPolicy F) → Bool
  explains none = true
  explains (some p) = p.explain

-- the headers as `extract_headers` reads them
unfoldable pub header_pairs : (x : Http) → x.Headers → List (Text × Text)
header_pairs x h = map (λ e. (e.0, unwrap_or (x.to_str e.1) [])) (x.entries h)

module _ {F : Type 0} ⦃f : Float F⦄ where
  -- the risk score of a request whose classification is skipped
  unfoldable pub skipped_findings : Findings F
  skipped_findings = record no_findings { risk_score = some (f.decimal 0 0) }

  -- Classification, skipped when the request will pass through anyway.
  unfoldable pub findings_for :
      AppState F
      → Circumstances F
      → Snapshot F
      → DecisionInput
      → ClassifyInput
      → Findings F × List (Event F)
  findings_for state c s input text =
      if is_routed s input
      then run_classifier state.classifier (c.attempt text)
      else (skipped_findings, [])

  -- what follows the engine: notes and latency
  unfoldable pub completed : Decision F → RequestHeaders → ℕ → Decision F
  completed d headers ms = record d {
    notes = d.notes ++ map ignored_header headers.ignored;
    latency_ms = to_u64_or_max ms;
  }

  unfoldable pub decide_parsed :
      AppState F
      → Circumstances F
      → Snapshot F
      → Text
      → RequestHeaders
      → Text
      → ParsedRequest
      → Decided F × List (Event F)
  decide_parsed state c s path headers mode parsed =
      let input = to_input parsed path headers (default_output s) in
      let (findings, events) = findings_for state c s input parsed.classify_input in
      let d = completed (decide state.predictor s input findings c.ctx) headers c.latency_ms in
      (
        record { decision = d; parsed = parsed; explain = explains (and_then d.policy (policy s)) },
        events ++ recorded d mode ∷ journaled d mode ∷ [],
      )

  module _ (serde : Serde) (x : Http) where
    -- `match parse_request(path, body)`
    unfoldable pub decide_read :
        AppState F
        → Circumstances F
        → Snapshot F
        → Text
        → RequestHeaders
        → Text
        → Result ParsedRequest ParseError
        → Result (Decided F) (Response x F) × List (Event F)
    decide_read state c s path headers mode (ok parsed) =
        let (d, events) = decide_parsed state c s path headers mode parsed in (ok d, events)
    decide_read state c s path headers mode (err e) =
        (err (bad_request x (parse_failed e)), rejected (text "malformed") ∷ [])

    -- `let Some(snapshot) = state.snapshot.load() else …`
    unfoldable pub decide_loaded :
        AppState F
        → Circumstances F
        → Option (Snapshot F)
        → Text
        → x.Headers
        → List ℕ
        → Text
        → Result (Decided F) (Response x F) × List (Event F)
    decide_loaded state c none path headers body mode =
        (err (not_ready x), rejected (text "not-ready") ∷ [])
    decide_loaded state c (some s) path headers body mode =
        decide_read state c s path (extract_headers (header_pairs x headers)) mode
          (parse_request serde path body)

    unfoldable pub decide_bytes :
        AppState F
        → Circumstances F
        → Text
        → x.Headers
        → List ℕ
        → Text
        → Result (Decided F) (Response x F) × List (Event F)
    decide_bytes state c path headers body mode =
        decide_loaded state c (load state.snapshot) path headers body mode
