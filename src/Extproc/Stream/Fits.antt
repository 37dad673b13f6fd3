-- ===== src/Extproc/Stream/Fits.antt =====
-- crates/ingress-extproc: Envoy is given one answer of the right kind to every message.
use route_d.Prelude.{
  ℕ, ◌≡◌, refl, ap, ◌∙◌, Bool, true, false, Option, none, some, List, [], ◌∷◌, ◌++◌, Text, text,
  text_ord, if◌then◌else◌, arith, Result, ok, err, ltb, saturating_add, Bool-cases, inl, inr,
}
use route_d.Float.{Float}
use route_d.Snapshot.{Snapshot}
use route_d.Snapshot.Holder.{load}
use route_d.Json.{Serde}
use route_d.Router.Extract.{parse_request, json}
use route_d.Inline.Rewrite.{IndexMap, RawJson, rewrite_body}
use route_d.Inline.Http.{Http}
use route_d.Inline.Replies.{Printing, Response, too_large, bad_request, parse_failed}
use route_d.Inline.Decide.{
  Event, AppState, Circumstances, Decided, decide_read, decide_loaded, decide_bytes,
}
use route_d.Inline.Exchange.{Surroundings}
use route_d.Inline.Handlers.{list_len}
use route_d.Extproc.Envoy.{
  HttpHeaders, HttpBody, Req, request_headers, request_body, response_headers, response_body,
  request_trailers, response_trailers, Resp, headers_response, body_response,
  response_headers_response, response_body_response, trailers_response, response_trailers_response,
  immediate_response, Bytes, plain, immediate, routed_header_names,
}
use route_d.Extproc.Phases.{
  Pending, Answered, go_on, rewritten_or_refused, mutate, decide_pending, on_request_body, awaiting,
  without_body, not_ours, on_path, pending_of, on_request_headers,
}
use route_d.Extproc.Stream.{
  Stream, Moment, Inbound, broken, message, Turn, after_headers, after_body, on_body, handle, at,
  stream_loop,
}

module _ {F : Type 0} where
  -- The answers that Envoy takes to a message: that of its phase, or in the phases of the request an
  -- immediate response.
  unfoldable pub fits : Req → Resp F → Bool
  fits (request_headers h) (headers_response r) = true
  fits (request_headers h) (immediate_response i) = true
  fits (request_body h) (body_response r) = true
  fits (request_body h) (immediate_response i) = true
  fits response_headers (response_headers_response r) = true
  fits response_body response_body_response = true
  fits request_trailers trailers_response = true
  fits response_trailers response_trailers_response = true
  fits _ _ = false

  -- Every message has one answer, which fits it, until the stream ends or breaks or an answer is
  -- not taken.
  abbrev pub AllFit : List (Inbound F) → List (Turn F) → Type 0
  AllFit [] ts = ts ≡ []
  AllFit (broken e ∷ ms) ts = ts ≡ []
  AllFit (message none m ∷ ms) ts = AllFit ms ts
  AllFit (message (some r) m ∷ ms) ts =
      (t : Turn F) × (rest : List (Turn F)) × (ts ≡ t ∷ rest)
      × (fits r t.response.response ≡ true)
      × (if m.taken then AllFit ms rest else (rest ≡ []))

  if_taken :
      (t : Bool) (ms : List (Inbound F)) (ts : List (Turn F))
      → AllFit ms ts
      → (if t then AllFit ms (if t then ts else []) else ((if t then ts else []) ≡ []))
  if_taken true ms ts h = h
  if_taken false ms ts h = refl

module _ (x : Http) (b : Bytes) {F : Type 0} (p : Printing F) (im : IndexMap) (j : RawJson im.Map)
    (o : Surroundings x) (serde : Serde) ⦃f : Float F⦄ where
  rewritten-fits :
      (h : HttpBody) (strip : List Text) (d : Decided F) (r : Result (List ℕ) Text)
      → fits (request_body h) (rewritten_or_refused x b o strip d r).0.response ≡ true
  unfolding rewritten_or_refused go_on immediate plain fits
  rewritten-fits h strip d (ok bytes) = refl
  rewritten-fits h strip d (err e) = refl

  mutate-fits :
      (state : AppState F) (h : HttpBody) (q : Pending x) (r : Result (Decided F) (Response x F))
      → fits (request_body h) (mutate x b p im j o state q r).0.response ≡ true
  unfolding mutate immediate plain fits go_on
  mutate-fits state h q (err resp) = refl
  mutate-fits state h q (ok d) = ground (
    arith,
    rewritten-fits h (routed_header_names x q.headers) d
        (rewrite_body im j q.path q.body d.decision),
  )

  -- The three ways in which a piece of a body is taken.
  on_request_body-outcome :
      (P : Option (Answered F) → Type 0) (state : AppState F) (c : Circumstances F) (q : Pending x)
      (h : HttpBody)
      → P (some (immediate x (too_large x state.config.max_body_bytes), none))
      → (h.end_of_stream ≡ false → P none)
      → (h.end_of_stream ≡ true
          → P (
              some (
                mutate x b p im j o state
                  (record q { body = q.body ++ h.body })
                  (decide_bytes serde x state c q.path q.headers
                    (q.body ++ h.body)
                    (text "extproc")).0)))
      → P (on_request_body x b p im j o state serde c q h).1
  unfolding on_request_body decide_pending
  on_request_body-outcome P state c q h large mid end =
      elim (Bool-cases
        (ltb state.config.max_body_bytes (saturating_add (list_len q.body) (list_len h.body)))) [
          | inl e ↦ rw e large
          | inr e ↦ elim (Bool-cases h.end_of_stream) [
            | inl l ↦ rw (e, l) (end l)
            | inr l ↦ rw (e, l) (mid l)
          ]
        ]

  abbrev OutcomeFits : Req → Option (Answered F) → Type 0
  OutcomeFits r none = Unit
  OutcomeFits r (some a) = fits r a.0.response ≡ true

  after_body-fits :
      (s : Stream x F) (h : HttpBody) (r : Pending x × Option (Answered F) × List (Event F))
      → OutcomeFits (request_body h) r.1
      → fits (request_body h) (after_body x s r).1.response ≡ true
  unfolding after_body fits plain
  after_body-fits s h (q, none, events) e = refl
  after_body-fits s h (q, some (resp, dec), events) e = e

  on_body-fits :
      (state : AppState F) (s : Stream x F) (q : Option (Pending x)) (h : HttpBody) (m : Moment F)
      → fits (request_body h) (on_body x b p im j o serde state s q h m).1.response ≡ true
  unfolding on_body fits plain immediate
  on_body-fits state s none h m = refl
  on_body-fits state s (some q) h m = after_body-fits s h _ (
      on_request_body-outcome (OutcomeFits (request_body h)) (at x b p im j o serde state m)
        m.circumstances q h refl (λ mid. tt)
        (λ end. mutate-fits (at x b p im j o serde state m) h _ _))

  parse_request-empty :
      (path e : Text) → serde.from_slice [] ≡ err e → parse_request serde path [] ≡ err (json e)
  unfolding parse_request
  parse_request-empty path e empty = rw empty refl

  decide_loaded-empty :
      (state : AppState F) (c : Circumstances F) (s : Option (Snapshot F)) (path : Text)
      (headers : x.Headers) (mode e : Text)
      → serde.from_slice [] ≡ err e
      → (r : Response x F) × ((decide_loaded serde x state c s path headers [] mode).0 ≡ err r)
  unfolding decide_loaded decide_read
  decide_loaded-empty state c none path headers mode e empty = (_, refl)
  decide_loaded-empty state c (some s) path headers mode e empty =
      (bad_request x (parse_failed (json e)), rw (parse_request-empty path e empty) refl)

  -- Nothing is decided about an empty body.
  decide_bytes-empty :
      (state : AppState F) (c : Circumstances F) (path : Text) (headers : x.Headers) (mode e : Text)
      → serde.from_slice [] ≡ err e
      → (r : Response x F) × ((decide_bytes serde x state c path headers [] mode).0 ≡ err r)
  unfolding decide_bytes
  decide_bytes-empty state c path headers mode e empty =
      decide_loaded-empty state c (load state.snapshot) path headers mode e empty

  without_body-fits :
      (state : AppState F) (c : Circumstances F) (h : HttpHeaders) (q : Pending x)
      (r : Pending x × Option (Answered F) × List (Event F))
      → OutcomeFits (request_headers h) r.1
      → fits (request_headers h) (without_body x b p im j o state serde c q r).outcome.0.response
        ≡ true
  unfolding without_body awaiting fits plain
  without_body-fits state c h q (q', none, events) e = refl
  without_body-fits state c h q (q', some out, events) e = e

  mutate_err-fits :
      (state : AppState F) (h : HttpHeaders) (q : Pending x) (r : Result (Decided F) (Response x F))
      (resp : Response x F)
      → r ≡ err resp
      → fits (request_headers h) (mutate x b p im j o state q r).0.response ≡ true
  unfolding mutate immediate plain fits
  mutate_err-fits state h q r resp e = rw e refl

  on_path-fits :
      (state : AppState F) (c : Circumstances F) (h : HttpHeaders) (method : Text) (q : Pending x)
      (end : Bool) (e : Text)
      → q.body ≡ []
      → serde.from_slice [] ≡ err e
      → fits
          (request_headers h)
          (on_path x b p im j o state serde c method q end).outcome.0.response
        ≡ true
  unfolding on_path not_ours awaiting fits plain immediate
  on_path-fits state c h method q end e nothing empty =
      let (resp, refused) = decide_bytes-empty state c q.path q.headers (text "extproc") e empty in
      let body_fits =
        without_body-fits state c h q
          (on_request_body x b p im j o state serde c q
            (record { body = []; end_of_stream = true }))
          (on_request_body-outcome (OutcomeFits (request_headers h)) state c q
            (record { body = []; end_of_stream = true }) refl (λ mid. tt)
            (λ last.
              mutate_err-fits state h (record q { body = q.body ++ [] }) _ resp
                (ap
                    (λ bs.
                      (decide_bytes serde x state c q.path q.headers (bs ++ []) (text "extproc")).0)
                    nothing
                  ∙ refused))) in
      ground (arith, body_fits)

  handle-fits :
      (state : AppState F) (s : Stream x F) (r : Req) (m : Moment F) (e : Text)
      → serde.from_slice [] ≡ err e
      → fits r (handle x b p im j o serde state s r m).1.response ≡ true
  unfolding handle after_headers on_request_headers pending_of fits plain
  handle-fits state s (request_headers h) m e empty =
      on_path-fits (at x b p im j o serde state m) m.circumstances h _ _ h.end_of_stream e refl
        empty
  handle-fits state s (request_body h) m e empty = on_body-fits state s s.pending h m
  handle-fits state s response_headers m e empty = refl
  handle-fits state s response_body m e empty = refl
  handle-fits state s request_trailers m e empty = refl
  handle-fits state s response_trailers m e empty = refl

  -- If an empty body is no JSON, then Envoy is given, until the stream ends or breaks or an answer
  -- is not taken, exactly one answer to each message, in order, and each is the answer of the phase
  -- that the message is from, or in the two phases of a request an immediate response.
  pub stream_loop-AllFit :
      (state : AppState F) (e : Text) (s : Stream x F) (ms : List (Inbound F))
      → serde.from_slice [] ≡ err e
      → AllFit ms (stream_loop x b p im j o serde state s ms)
  unfolding stream_loop
  stream_loop-AllFit state e s [] empty = refl
  stream_loop-AllFit state e s (broken w ∷ ms) empty = refl
  stream_loop-AllFit state e s (message none m ∷ ms) empty = stream_loop-AllFit state e s ms empty
  stream_loop-AllFit state e s (message (some r) m ∷ ms) empty =
      let rest = stream_loop-AllFit state e (handle x b p im j o serde state s r m).0 ms empty in
      (_, _, refl, handle-fits state s r m e empty, if_taken m.taken ms _ rest)
