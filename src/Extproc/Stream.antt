-- ===== src/Extproc/Stream.antt =====
-- crates/ingress-extproc/src/lib.rs, `stream_loop`: one stream of Envoy, from message to message.
pub mod Buffers
pub mod Refines
pub mod Fits
pub mod Trailers
use route_d.Prelude.{ℕ, Bool, true, false, Option, none, some, List, [], ◌∷◌, Text, if◌then◌else◌}
use route_d.Float.{Float}
use route_d.Snapshot.{Snapshot}
use route_d.Snapshot.Holder.{SnapshotHolder}
use route_d.Decision.Types.{Decision}
use route_d.Json.{Serde}
use route_d.Inline.Rewrite.{IndexMap, RawJson}
use route_d.Inline.Http.{Http}
use route_d.Inline.Replies.{Printing, apply}
use route_d.Inline.Decide.{Event, AppState, Circumstances}
use route_d.Inline.Exchange.{Surroundings}
use route_d.Extproc.Envoy.{
  HeaderMutation, HttpBody, Req, request_headers, request_body, response_headers, response_body,
  request_trailers, response_trailers, body_response, response_headers_response,
  response_body_response, trailers_response, response_trailers_response, ProcessingResponse, Bytes,
  plain, to_set_headers,
}
use route_d.Extproc.Phases.{Pending, Answered, Phase, on_request_body, on_request_headers}

-- What the loop keeps from message to message.
pub record Stream (x : Http) (F : Type 0) : Type 0 where
  pub pending : Option (Pending x)
  pub decided : Option (Decision F × Bool)

-- What a message meets: the snapshots that are loaded, what a decision meets, and whether the
-- response to it is taken.
pub record Moment (F : Type 0) : Type 0 where
  pub snapshot : SnapshotHolder (Snapshot F)
  pub circumstances : Circumstances F
  pub taken : Bool

pub data Inbound (F : Type 0) : Type 0 where
  broken : Text → Inbound F
  message : Option Req → Moment F → Inbound F

pub record Turn (F : Type 0) : Type 0 where
  pub response : ProcessingResponse F
  pub events : List (Event F)
  pub taken : Bool

-- `if dec.is_some() { decided = dec }`
unfoldable pub keep : {A : Type 0} → Option A → Option A → Option A
keep decided none = decided
keep decided (some d) = some d

-- an acknowledgement of a chunk
abbrev pub acknowledged : {F : Type 0} → ProcessingResponse F
acknowledged = plain (body_response none)

module _ (x : Http) {F : Type 0} where
  unfoldable pub after_headers :
      Stream x F → Phase x F → Stream x F × ProcessingResponse F × List (Event F)
  after_headers s h =
      (record { pending = h.pending; decided = keep s.decided h.outcome.1 }, h.outcome.0, h.events)

  unfoldable pub after_body :
      Stream x F
      → Pending x × Option (Answered F) × List (Event F)
      → Stream x F × ProcessingResponse F × List (Event F)
  after_body s (q, none, events) = (record s { pending = some q }, acknowledged, events)
  after_body s (q, some (resp, dec), events) =
      (record { pending = some q; decided = keep s.decided dec }, resp, events)

  -- the decision headers of the response
  unfoldable pub own_headers : Printing F → ℕ → Option (Decision F × Bool) → Option HeaderMutation
  own_headers p max none = none
  own_headers p max (some (d, explain)) = some (record {
    set_headers = to_set_headers x (apply x p x.none_yet d explain max);
    remove_headers = [];
  })

  module _ (b : Bytes) (p : Printing F) (im : IndexMap) (j : RawJson im.Map) (o : Surroundings x)
      (serde : Serde) ⦃f : Float F⦄ (state : AppState F) where
    -- the state of the router when a message is handled
    abbrev pub at : Moment F → AppState F
    at m = record state { snapshot = m.snapshot }

    unfoldable pub on_body :
        Stream x F
        → Option (Pending x)
        → HttpBody
        → Moment F
        → Stream x F × ProcessingResponse F × List (Event F)
    on_body s none h m = (s, acknowledged, [])
    on_body s (some q) h m =
        after_body s (on_request_body x b p im j o (at m) serde m.circumstances q h)

    -- `match msg.request`
    unfoldable pub handle :
        Stream x F → Req → Moment F → Stream x F × ProcessingResponse F × List (Event F)
    handle s (request_headers h) m =
        after_headers s (on_request_headers x b p im j o (at m) serde m.circumstances h)
    handle s (request_body h) m = on_body s s.pending h m
    handle s response_headers m = (
      s,
      plain (
          response_headers_response (
            some (record {
              header_mutation = own_headers p state.config.decision_header_max s.decided;
              body_mutation = none;
            }))),
      [],
    )
    handle s response_body m = (s, plain response_body_response, [])
    handle s request_trailers m = (s, plain trailers_response, [])
    handle s response_trailers m = (s, plain response_trailers_response, [])

    -- The loop ends with the stream, at a broken message, or when a response is not taken.
    unfoldable pub stream_loop : Stream x F → List (Inbound F) → List (Turn F)
    stream_loop s [] = []
    stream_loop s (broken e ∷ ms) = []
    stream_loop s (message none m ∷ ms) = stream_loop s ms
    stream_loop s (message (some r) m ∷ ms) =
        let (s', resp, events) = handle s r m in
        let rest = stream_loop s' ms in
        record { response = resp; events = events; taken = m.taken }
        ∷ (if m.taken then rest else [])
