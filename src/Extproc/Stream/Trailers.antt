-- ===== src/Extproc/Stream/Trailers.antt =====
-- crates/ingress-extproc: a request whose body ends with trailers.
use route_d.Prelude.{
  ◌≤◌, ◌≡◌, refl, Bool, true, false, Option, none, some, List, [], ◌∷◌, All, Text, text,
  if◌then◌else◌, is_some, not, ◌&&◌,
}
use route_d.Float.{Float}
use route_d.Json.{Serde}
use route_d.Inline.Paths.{normalize_path, is_routed_path}
use route_d.Inline.Rewrite.{IndexMap, RawJson}
use route_d.Inline.Http.{Http}
use route_d.Inline.Replies.{Printing}
use route_d.Inline.Decide.{AppState}
use route_d.Inline.Exchange.{Surroundings}
use route_d.Inline.Handlers.{list_len}
use route_d.Extproc.Envoy.{
  HttpHeaders, Req, request_headers, request_body, response_headers, response_body,
  request_trailers, response_trailers, Resp, body_response, response_headers_response,
  response_body_response, response_trailers_response, headers_response, trailers_response, Bytes,
  plain, Split, split_envoy_headers,
}
use route_d.Extproc.Phases.{Pending, before_query}
use route_d.Extproc.Stream.{
  Stream, Moment, Inbound, message, Turn, handle, own_headers, stream_loop,
}
use route_d.Extproc.Stream.Buffers.{Chunk, joined, chunks_then, acks_then, stream_loop-buffers}
use route_d.Extproc.Stream.Refines.{headers-turn}

-- what is not of the headers and the body of the request
unfoldable pub is_later : Req → Bool
is_later (request_headers h) = false
is_later (request_body h) = false
is_later _ = true

module _ {F : Type 0} where
  -- The answer changes no header and no body, and answers nothing in the place of the upstream.
  unfoldable pub unaltered : Resp F → Bool
  unaltered (headers_response none) = true
  unaltered (body_response none) = true
  unaltered (response_headers_response (some c)) =
      not (is_some c.header_mutation) && not (is_some c.body_mutation)
  unaltered response_body_response = true
  unaltered trailers_response = true
  unaltered response_trailers_response = true
  unaltered _ = false

  abbrev pub LetsThrough : Turn F → Type 0
  LetsThrough t = (unaltered t.response.response ≡ true) × (t.events ≡ [])

  -- what comes after the pieces of a body
  abbrev pub later_messages : List (Req × Moment F) → List (Inbound F)
  later_messages [] = []
  later_messages ((r, m) ∷ ls) = message (some r) m ∷ later_messages ls

  acks-LetsThrough :
      (cs : List (Chunk F)) (ts : List (Turn F))
      → All LetsThrough ts
      → All LetsThrough (acks_then cs ts)
  unfolding unaltered plain
  acks-LetsThrough [] ts h = h
  acks-LetsThrough (c ∷ cs) ts h = ((refl, refl), acks-LetsThrough cs ts h)

module _ (x : Http) {F : Type 0} (b : Bytes) (p : Printing F) (im : IndexMap) (j : RawJson im.Map)
    (o : Surroundings x) (serde : Serde) ⦃f : Float F⦄ (state : AppState F) where
  if-LetsThrough :
      (t : Bool) (ts : List (Turn F)) → All LetsThrough ts → All LetsThrough (if t then ts else [])
  if-LetsThrough true ts h = h
  if-LetsThrough false ts h = tt

  later-LetsThrough :
      (q : Option (Pending x)) (ls : List (Req × Moment F))
      → All (λ l. is_later l.0 ≡ true) ls
      → All LetsThrough (
          stream_loop x b p im j o serde state
            (record { pending = q; decided = none })
            (later_messages ls))
  unfolding stream_loop handle own_headers unaltered plain is_later
  later-LetsThrough q [] h = tt
  later-LetsThrough q ((request_headers r, m) ∷ ls) (h, hs) = absurd (cc)
  later-LetsThrough q ((request_body r, m) ∷ ls) (h, hs) = absurd (cc)
  later-LetsThrough q ((response_headers, m) ∷ ls) (h, hs) =
      ((refl, refl), if-LetsThrough m.taken _ (later-LetsThrough q ls hs))
  later-LetsThrough q ((response_body, m) ∷ ls) (h, hs) =
      ((refl, refl), if-LetsThrough m.taken _ (later-LetsThrough q ls hs))
  later-LetsThrough q ((request_trailers, m) ∷ ls) (h, hs) =
      ((refl, refl), if-LetsThrough m.taken _ (later-LetsThrough q ls hs))
  later-LetsThrough q ((response_trailers, m) ∷ ls) (h, hs) =
      ((refl, refl), if-LetsThrough m.taken _ (later-LetsThrough q ls hs))

  -- A request to a decision path of which no piece is marked as the last, as where trailers follow,
  -- passes undecided if each answer is taken and the pieces are within the limit: every answer to
  -- it, to its trailers and to the response lets through what it is about as it is, so that no
  -- decision header of the client is removed, and nothing is counted.
  pub stream_loop-Unaltered :
      (s : Split x) (path : Text) (h : HttpHeaders) (m : Moment F) (cs : List (Chunk F))
      (ls : List (Req × Moment F))
      → s.method ≡ text "POST"
      → normalize_path (before_query s.path) ≡ some path
      → is_routed_path path ≡ true
      → split_envoy_headers x b h.headers ≡ s
      → h.end_of_stream ≡ false
      → m.taken ≡ true
      → All (λ c. c.moment.taken ≡ true) cs
      → list_len (joined cs) ≤ state.config.max_body_bytes
      → All (λ l. is_later l.0 ≡ true) ls
      → All LetsThrough (
          stream_loop x b p im j o serde state
            (record { pending = none; decided = none })
            (message (some (request_headers h)) m ∷ chunks_then cs (later_messages ls)))
  unfolding stream_loop unaltered plain
  stream_loop-Unaltered s path h m cs ls post normal routed e more t ts fits after =
      let start : Stream x F = record { pending = none; decided = none } in
      let q : Pending x = record { path = path; headers = s.headers; body = [] } in
      rw
        (
          headers-turn x b p im j o serde state s path post normal routed h m start e more,
          t,
          stream_loop-buffers x b p im j o serde state none q cs (later_messages ls) ts fits,
        )
        ((refl, refl), acks-LetsThrough cs _ (later-LetsThrough _ ls after))
