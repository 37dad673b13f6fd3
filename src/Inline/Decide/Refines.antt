-- ===== src/Inline/Decide/Refines.antt =====
-- crates/ingress-inline/src/handlers.rs, `decide_bytes`, against `Pipeline::run` of crates/router.
use route_d.Prelude.{◌≡◌, true, false, List, Result, ok, err}
use route_d.Float.{Float}
use route_d.Decision.Types.{Decision}
use route_d.Decision.Engine.{is_routed}
use route_d.Decision.Engine.Routed.{Untouched}
use route_d.Json.{Serde}
use route_d.Router.Extract.{ParseError}
use route_d.Router.Pipeline.{Pipeline, Outcome}
use route_d.Inline.Http.{Http}
use route_d.Inline.Replies.{Response, parse_failed, bad_request}
use route_d.Inline.Decide.{Event, AppState, Circumstances, Decided, completed}

module _ {F : Type 0} ⦃f : Float F⦄ (serde : Serde) (x : Http) (state : AppState F)
    (c : Circumstances F) (p : Pipeline F) where
  -- What `decide_bytes` owes to an outcome of the pipeline.
  abbrev pub Refines :
      Result (Outcome F) ParseError → Result (Decided F) (Response x F) × List (Event F) → Type 0
  Refines (ok out) r =
      (d : Decided F) × (r.0 ≡ ok d)
      × (is_routed p.snapshot out.input ≡ true
          → d.decision ≡ completed out.decision out.headers c.latency_ms)
      × (is_routed p.snapshot out.input ≡ false → Untouched d.decision × Untouched out.decision)
  Refines (err e) r = r.0 ≡ err (bad_request x (parse_failed e))
