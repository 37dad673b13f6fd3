-- ===== src/Router/Pipeline/Failing.antt =====
-- crates/router/src/lib.rs: what a failing classifier leads to.
use route_d.Prelude.{ℕ, ◌≡◌, ◌⊎◌, inl, refl, ap, false, none, is_empty, List, Text, ok, err}
use route_d.Float.{Float}
use route_d.Snapshot.{CompiledPolicy}
use route_d.Decision.Types.{block, DecisionContext}
use route_d.Decision.Engine.Risk.{Governs, FallsBack, decide-FallsBack}
use route_d.Security.Headers.{extract_headers}
use route_d.Json.{Serde}
use route_d.Classify.{ClassifyError}
use route_d.Router.Extract.{ParsedRequest, parse_request, to_input}
use route_d.Router.Pipeline.{
  Pipeline, Outcome, default_output, degraded_findings, findings_of, find, outcome_of, run,
}

module _ {F : Type 0} ⦃f : Float F⦄ (serde : Serde) (p : Pipeline F) where
  -- If the classifier fails on a body that can be parsed, then the pipeline still decides, on the
  -- input of that body, and if a policy governs that input, then the request is blocked, or goes
  -- to the policy's fallback tier, marked as a fallback, as the strictest data class, the facts of
  -- the request and the risk score allow.
  pub run-FallsBack :
      (path : Text) (headers : List (Text × Text)) (body : List ℕ) (ctx : DecisionContext)
      (parsed : ParsedRequest) (e : ClassifyError) (policy : CompiledPolicy F)
      → parse_request serde path body ≡ ok parsed
      → p.classifier.classify parsed.classify_input ≡ err e
      → Governs p.snapshot
          (to_input parsed path (extract_headers headers) (default_output p.snapshot))
          policy
      → (out : Outcome F) × (run serde p path headers body none ctx ≡ ok out)
        × (FallsBack p.predictor p.snapshot policy out.input out.findings out.decision
            ⊎ (out.decision.outcome ≡ block))
  unfolding run outcome_of find findings_of degraded_findings is_empty
  run-FallsBack path headers body ctx parsed e policy read fails governs =
      let c = p.classifier in
      let degraded : is_empty (find c none parsed.classify_input).degraded ≡ false =
        ap (λ r. is_empty (findings_of c.name r).degraded) fails in
      (
        outcome_of p path (extract_headers headers) none ctx parsed,
        rw read refl,
        decide-FallsBack p.predictor p.snapshot
            (to_input parsed path (extract_headers headers) (default_output p.snapshot))
            (find c none parsed.classify_input) policy ctx governs (inl degraded),
      )
