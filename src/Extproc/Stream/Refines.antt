-- ===== src/Extproc/Stream/Refines.antt =====
-- crates/ingress-extproc: a request that Envoy hands over in pieces is answered as the inline
-- ingress answers it in one.
use route_d.Prelude.{
  ℕ, ◌≡◌, refl, true, false, Option, none, some, List, [], ◌∷◌, ◌++◌, Text, text, text_ord,
  cmp_text, if◌then◌else◌, Result,
}
use route_d.Float.{Float}
use route_d.Json.{Serde}
use route_d.Decision.Types.{Decision}
use route_d.Inline.Paths.{normalize_path, is_routed_path}
use route_d.Inline.Rewrite.{IndexMap, RawJson}
use route_d.Inline.Http.{Http}
use route_d.Inline.Replies.{Printing, Response}
use route_d.Inline.Decide.{Event, AppState, Decided, decide_bytes}
use route_d.Inline.Exchange.{bytes, Request, Action, Surroundings}
use route_d.Inline.Handlers.{proxy}
use route_d.Extproc.Envoy.{
  HttpHeaders, request_headers, headers_response, Bytes, plain, Split, split_envoy_headers,
}
use route_d.Extproc.Phases.{
  Pending, Answered, or_empty, before_query, mutate, awaiting, on_path, pending_of,
  on_request_headers,
}
use route_d.Extproc.Phases.Agrees.{Agrees}
use route_d.Extproc.Stream.{
  Stream, Moment, Inbound, message, Turn, keep, after_headers, handle, at, stream_loop,
}
use route_d.Extproc.Stream.Buffers.{
  Chunk, joined, as_message, chunks_then, acks_then, and_bytes, waiting,
}

module _ (x : Http) {F : Type 0} (b : Bytes) (p : Printing F) (im : IndexMap) (j : RawJson im.Map)
    (o : Surroundings x) (serde : Serde) ⦃f : Float F⦄ (state : AppState F) where
  abbrev loop : Stream x F → List (Inbound F) → List (Turn F)
  loop = stream_loop x b p im j o serde state

  -- the request that the inline ingress would see
  abbrev pub whole_request : Split x → Option Text → List ℕ → Request x
  whole_request s query body = record {
    method = s.method;
    path = before_query s.path;
    query = query;
    headers = s.headers;
    body = bytes body;
  }

  -- what the inline ingress does with it, at the moment of the last chunk
  abbrev pub inline_action : Split x → Option Text → List ℕ → Moment F → Action x F
  inline_action s query body m =
      proxy x p serde im j o (at x b p im j o serde state m) m.circumstances
        (whole_request s query body)

  -- The last chunk is answered as `action` says, and the loop goes on.
  record IsAnswered (s : Stream x F) (q : Pending x) (last : Chunk F) (ms : List (Inbound F))
      (action : Action x F) : Type 0 where
    out : Answered F
    events : List (Event F)
    turns :
        loop s (as_message true last ∷ ms)
        ≡ record { response = out.0; events = events; taken = last.moment.taken }
          ∷ (if last.moment.taken
              then loop
                  (record {
                    pending = some (and_bytes x q last.bytes);
                    decided = keep s.decided out.1;
                  })
                  ms
              else [])
    agrees :
        Agrees x b p im j o
          (at x b p im j o serde state last.moment)
          (and_bytes x q last.bytes)
          action
          out

  module _ (q : Pending x) (last : Chunk F) where
    -- what `decide_bytes` makes of the body with its last chunk
    abbrev decision_of : Result (Decided F) (Response x F) × List (Event F)
    decision_of =
        decide_bytes serde x (at x b p im j o serde state last.moment) last.moment.circumstances
          q.path q.headers (q.body ++ last.bytes) (text "extproc")

    abbrev answer_of : Answered F
    answer_of =
        mutate x b p im j o (at x b p im j o serde state last.moment) (and_bytes x q last.bytes)
          decision_of.0

  module _ (s : Split x) (path : Text) (post : s.method ≡ text "POST")
      (normal : normalize_path (before_query s.path) ≡ some path)
      (routed : is_routed_path path ≡ true) where
    pub headers-turn :
        (h : HttpHeaders) (m : Moment F) (start : Stream x F)
        → split_envoy_headers x b h.headers ≡ s
        → h.end_of_stream ≡ false
        → handle x b p im j o serde state start (request_headers h) m ≡ (
          waiting x start.decided (record { path = path; headers = s.headers; body = [] }),
          plain (headers_response none),
          [],
        )
    unfolding handle after_headers on_request_headers on_path pending_of awaiting or_empty keep
        cmp_text plain
    headers-turn h m start e more = rw (e, post, normal, routed, more) refl

    -- a request whose body comes in chunks
    abbrev pub in_pieces :
        HttpHeaders → Moment F → List (Chunk F) → Chunk F → List (Inbound F) → List (Inbound F)
    in_pieces h m cs last ms =
        message (some (request_headers h)) m ∷ chunks_then cs (as_message true last ∷ ms)

    abbrev pub whole : List (Chunk F) → Chunk F → Pending x
    whole cs last = record { path = path; headers = s.headers; body = joined cs ++ last.bytes }

    pub record Refines (query : Option Text) (h : HttpHeaders) (m : Moment F) (start : Stream x F)
        (cs : List (Chunk F)) (last : Chunk F) (ms : List (Inbound F)) : Type 0 where
      pub out : Answered F
      pub events : List (Event F)
      pub turns :
          loop start (in_pieces h m cs last ms)
          ≡ record { response = plain (headers_response none); events = []; taken = true }
            ∷ acks_then cs (
                record { response = out.0; events = events; taken = last.moment.taken }
                ∷ (if last.moment.taken
                    then loop
                        (record {
                          pending = some (whole cs last);
                          decided = keep start.decided out.1;
                        })
                        ms
                    else []))
      pub agrees :
          Agrees x b p im j o
            (at x b p im j o serde state last.moment)
            (whole cs last)
            (inline_action s query (joined cs ++ last.bytes) last.moment)
            out
