-- ===== src/Examples/Processed.antt =====
-- The ingress behind Envoy (crates/ingress-extproc) over the configuration of Data.antt, at
-- concrete streams.
use route_d.Prelude.{
  ◌≡◌, refl, true, false, none, some, [], ◌∷◌, Text, text, arith, All, contains, cmp_text,
}
use route_d.Float.Fixed.{Fixed, fixed_float}
use route_d.Inline.Paths.{normalize_path, is_routed_path}
use route_d.Inline.Handlers.{list_len}
use route_d.Extproc.Envoy.{
  EnvoyHeaderValue, HttpHeaders, request_headers, response_headers, request_trailers, Bytes, Split,
  value_bytes, append_parsed, split_header, split_headers, or_none, split_envoy_headers,
}
use route_d.Extproc.Phases.{before_query}
use route_d.Extproc.Stream.{Stream, Moment, message, stream_loop}
use route_d.Extproc.Stream.Buffers.{Chunk, chunks_then}
use route_d.Extproc.Stream.Refines.{Refines}
use route_d.Extproc.Stream.Fits.{AllFit, stream_loop-AllFit}
use route_d.Extproc.Stream.Trailers.{is_later, LetsThrough, later_messages, stream_loop-Unaltered}
use route_d.Examples.Wire.{http, index_map, raw_json}
use route_d.Examples.Requests.{serde, paths}
use route_d.Examples.Proxied.{state, circumstances, printing, surroundings}

abbrev envoy_bytes : Bytes
envoy_bytes = record { lossy = λ t. t; utf8 = λ t. t; from_bytes = some }

abbrev envoy_header : Text → Text → EnvoyHeaderValue
envoy_header key value = record { key = key; value = value; raw_value = [] }

-- the headers of a client that tries to pass for routeD
abbrev handed_over : HttpHeaders
handed_over = record {
  headers = some (
      envoy_header (text ":method") (text "POST")
      ∷ envoy_header (text ":path") (text "/v1/chat/completions?beta=1")
      ∷ envoy_header (text "x-routed-tier") (text "us-large")
      ∷ []);
  end_of_stream = false;
}

abbrev handed_split : Split http
handed_split = record {
  method = text "POST";
  path = text "/v1/chat/completions?beta=1";
  headers = (text "x-routed-tier", text "us-large") ∷ [];
}

abbrev moment : Moment Fixed
moment = record { snapshot = state.snapshot; circumstances = circumstances; taken = true }

abbrev piece : Chunk Fixed
piece = record { bytes = 1 ∷ []; moment = moment }

abbrev last_piece : Chunk Fixed
last_piece = record { bytes = []; moment = moment }

abbrev fresh : Stream http Fixed
fresh = record { pending = none; decided = none }

-- named on an `unfolding` line, it makes the splitting of headers compute
unfoldable pub splitting : Unit {0}
unfolding paths split_envoy_headers split_headers split_header append_parsed value_bytes or_none
    before_query list_len contains is_later cmp_text
splitting = tt

path_IsNormal : normalize_path (before_query handed_split.path) ≡ some (text "/v1/chat/completions")
unfolding splitting
path_IsNormal = refl

path_routed : is_routed_path (text "/v1/chat/completions") ≡ true
unfolding splitting
path_routed = refl

stream_loop-AllFit_example :
    AllFit
      (message (some (request_headers (record handed_over { end_of_stream = true }))) moment ∷ [])
      (stream_loop http envoy_bytes printing index_map raw_json surroundings serde state fresh (
        message (some (request_headers (record handed_over { end_of_stream = true }))) moment ∷ []))
unfolding splitting
stream_loop-AllFit_example =
    stream_loop-AllFit http envoy_bytes printing index_map raw_json surroundings serde state
      (text "expected value") fresh
      (message (some (request_headers (record handed_over { end_of_stream = true }))) moment ∷ [])
      refl

stream_loop-Unaltered_example : All LetsThrough (
    stream_loop http envoy_bytes printing index_map raw_json surroundings serde state fresh (
      message (some (request_headers handed_over)) moment
      ∷ chunks_then
          (piece ∷ [])
          (later_messages ((request_trailers, moment) ∷ (response_headers, moment) ∷ []))))
unfolding splitting
stream_loop-Unaltered_example =
    stream_loop-Unaltered http envoy_bytes printing index_map raw_json surroundings serde state
      handed_split (text "/v1/chat/completions") handed_over moment (piece ∷ [])
      ((request_trailers, moment) ∷ (response_headers, moment) ∷ []) refl path_IsNormal path_routed
      refl refl refl (refl, tt) (ground arith) (refl, (refl, tt))
