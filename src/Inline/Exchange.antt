-- ===== src/Inline/Exchange.antt =====
-- crates/ingress-inline/src/handlers.rs and forward.rs: what a handler exchanges with the client and
-- with the upstream. A handler replies, or sends one request to the upstream and goes on with what
-- comes back; either way it says what it has counted and recorded until then. A body is what
-- reading it within the limit and the deadline gives.
use route_d.Prelude.{
  ℕ, ◌/◌, false, Option, none, some, List, [], ◌∷◌, Text, text, text_ord, nat_ord, if◌then◌else◌,
  and_then, starts_with, Result, ok, err,
}
use route_d.Inline.Http.{Http, get_header}
use route_d.Inline.Forward.{outbound, inbound}
use route_d.Inline.Replies.{
  fixed, upstream, Response, content_type, error_response, bad_request, too_large,
}
use route_d.Inline.Decide.{Event, answered}

pub data BodyRead : Type 0 where
  bytes : List ℕ → BodyRead
  too_long unreadable late : BodyRead

-- `AuthDecision`, less the identity, which no handler reads
pub data AuthDecision : Type 0 where
  allow : AuthDecision
  deny : (status : ℕ) (reason : Text) → AuthDecision

module _ (x : Http) where
  pub record Request : Type 0 where
    pub method : Text
    pub path : Text
    pub query : Option Text
    pub headers : x.Headers
    pub body : BodyRead

  -- What is passed to the upstream: the body of the request as it streams in, or bytes.
  pub data Payload : Type 0 where
    streamed : BodyRead → Payload
    buffered : List ℕ → Payload

  pub record Sent : Type 0 where
    pub method : Text
    pub path_and_query : Text
    pub headers : x.Headers
    pub body : Payload

  -- What `forward` comes back with.
  pub data Answer : Type 0 where
    failed : Text → Answer
    came : (status : ℕ) → x.Headers → List ℕ → Answer

  pub data Action (F : Type 0) : Type 0 where
    reply : Response x F → List (Event F) → Action F
    send : Sent → List (Event F) → (Answer → Response x F × List (Event F)) → Action F

  -- The authenticator, the trace context of the span, and the parser and printer of numbers.
  pub record Surroundings : Type 0 where
    pub authenticate : x.Headers → AuthDecision
    pub trace : List (Text × Text)
    pub parse_u64 : Text → Option ℕ
    pub decimal : ℕ → Text

  -- a stream is never to be buffered on its way
  unfoldable pub unbuffered : x.Headers → x.Headers
  unbuffered h =
      if elim (and_then (get_header x h content_type) x.to_str) [
        | none ↦ false
        | some ct ↦ starts_with ct (text "text/event-stream")
      ]
      then x.insert (x.insert h (text "cache-control") (text "no-cache")) (text "x-accel-buffering")
          (text "no")
      else h

  -- `Upstream::forward`
  unfoldable pub forward : Surroundings → Text → Text → x.Headers → Payload → Option Text → Sent
  forward o method path_and_query headers body len = record {
    method = method;
    path_and_query = path_and_query;
    headers = outbound x headers len o.trace;
    body = body;
  }

module _ (x : Http) {F : Type 0} where
  unfoldable pub read_body : ℕ → BodyRead → Result (List ℕ) (Response x F)
  read_body limit (bytes b) = ok b
  read_body limit too_long = err (too_large x limit)
  read_body limit unreadable = err (bad_request x (fixed (text "request body could not be read")))
  read_body limit late = err (
      error_response x 408 (text "invalid_request_error") (text "routed_body_timeout")
        (fixed (text "request body was not received within 30s")) none)

  unfoldable pub observe : Response x F → Response x F × List (Event F)
  observe resp =
      (record resp { headers = unbuffered x resp.headers }, answered (resp.status / 100) ∷ [])

  unfoldable pub forwarded : ℕ → x.Headers → List ℕ → Response x F
  forwarded status headers body = record {
    status = status;
    headers = inbound x headers;
    body = upstream body;
  }
