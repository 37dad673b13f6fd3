-- ===== src/Inline/Handlers.antt =====
-- crates/ingress-inline/src/handlers.rs: the handlers.
pub mod Sends
pub mod Spoofing
use mathlib.Core.Option
use route_d.Prelude.{
  ℕ, ◌+◌, ◌/◌, Bool, true, false, not, Option, none, some, List, [], ◌∷◌, ◌++◌, Text, text,
  text_ord, nat_ord, ◌==◌, ◌&&◌, ◌||◌, if◌then◌else◌, and_then, starts_with, Result, ok, err,
  byte_len,
}
use route_d.Float.{Float}
use route_d.Snapshot.Holder.{is_ready}
use route_d.Decision.Types.{Decision, Outcome, route, pass_through, block}
use route_d.Json.{Serde}
use route_d.Inline.Paths.{normalize_path, passthrough_allowed, is_routed_path}
use route_d.Inline.Rewrite.{IndexMap, RawJson, rewrite_body}
use route_d.Inline.Http.{Http, get_header}
use route_d.Inline.Forward.{content_length, outbound, inbound}
use route_d.Inline.Replies.{
  Words, fixed, cannot_rewrite, Body, decided, plain, upstream, Printing, Response, content_type,
  application_json, typed, error_response, auth_denied, bad_request, too_large, bad_gateway, apply,
  block_response,
}
use route_d.Inline.Decide.{Event, answered, AppState, Circumstances, Decided, decide_bytes}
use route_d.Inline.Exchange.{
  BodyRead, AuthDecision, allow, deny, Request, Payload, streamed, buffered, Sent, Answer, failed,
  came, Action, reply, send, Surroundings, forward, forwarded, observe, read_body,
}

abbrev pub is_route : Outcome → Bool
is_route route = true
is_route _ = false

abbrev pub is_block : Outcome → Bool
is_block block = true
is_block _ = false

-- `?` and the query
unfoldable pub query_text : Option Text → Text
query_text none = []
query_text (some q) = 63 ∷ q

unfoldable pub list_len : List ℕ → ℕ
list_len [] = 0
list_len (b ∷ bs) = 1 + list_len bs

module _ (x : Http) {F : Type 0} where
  unfoldable pub readyz : AppState F → Response x F
  readyz state =
      let text_plain = text "text/plain; charset=utf-8" in
      if is_ready state.snapshot
      then typed x 200 text_plain (plain (text "ready"))
      else typed x 503 text_plain (plain (text "no snapshot loaded"))

  -- the verbatim pass-through, streamed both ways
  unfoldable pub streamed_back : Answer x → Response x F × List (Event F)
  streamed_back (failed e) = (bad_gateway x e, [])
  streamed_back (came status headers body) = observe x (forwarded x status headers body)

  unfoldable pub pass_on : Surroundings x → AppState F → Text → Text → Request x → Action x F
  pass_on o state path path_and_query req =
      if not (passthrough_allowed path state.config.passthrough_all)
      then reply
          (error_response x 404 (text "invalid_request_error") (text "routed_path_not_allowed")
            (fixed (
              text
                "only the /v1 API surface is forwarded (set --passthrough-all to forward everything)"))
            none)
          []
      else let len =
          and_then (and_then (get_header x req.headers content_length) x.to_str) o.parse_u64 in
        send
          (forward x o req.method path_and_query req.headers (streamed req.body)
            (Option.map o.decimal len))
          [] streamed_back

  module _ (p : Printing F) where
    -- what follows a forwarded decision
    unfoldable pub decided_back : AppState F → Decided F → Answer x → Response x F × List (Event F)
    decided_back state d (failed e) =
        let resp = bad_gateway x e in
        (
          record resp {
            headers = apply x p resp.headers d.decision d.explain state.config.decision_header_max;
          },
          [],
        )
    decided_back state d (came status headers body) =
        let resp = forwarded x status headers body in
        observe x (record resp {
          headers = apply x p resp.headers d.decision d.explain state.config.decision_header_max;
        })

    -- the decision itself as the response
    unfoldable pub shown : AppState F → Decided F → Response x F
    shown state d =
        let resp = typed x 200 application_json (decided d.decision) in
        record resp {
          headers = apply x p resp.headers d.decision d.explain state.config.decision_header_max;
        }

    -- the body that a decision forwards
    unfoldable pub out_body :
        (im : IndexMap) → RawJson im.Map → Text → List ℕ → Decision F → Result (List ℕ) Text
    out_body im j path body d =
        if is_route d.outcome then rewrite_body im j path body d else ok body

    unfoldable pub send_decided :
        Surroundings x
        → AppState F
        → Text
        → Request x
        → Decided F
        → List (Event F)
        → Result (List ℕ) Text
        → Action x F
    send_decided o state path_and_query req d events (err e) =
        reply (bad_request x (cannot_rewrite e)) events
    send_decided o state path_and_query req d events (ok b) =
        send
          (forward x o req.method path_and_query req.headers (buffered b)
            (some (o.decimal (list_len b))))
          events (decided_back state d)

    -- `match d.outcome`, after the test for a dry run
    unfoldable pub act_on :
        (im : IndexMap)
        → RawJson im.Map
        → Surroundings x
        → AppState F
        → Text
        → Text
        → Request x
        → List ℕ
        → Decided F
        → List (Event F)
        → Action x F
    act_on im j o state path path_and_query req body d events =
        if d.decision.dry_run
        then reply (shown state d) events
        else if is_block d.decision.outcome
        then reply (block_response x p d.decision d.explain state.config.decision_header_max) events
        else send_decided o state path_and_query req d events (out_body im j path body d.decision)

    unfoldable pub after_decision :
        (im : IndexMap)
        → RawJson im.Map
        → Surroundings x
        → AppState F
        → Text
        → Text
        → Request x
        → List ℕ
        → Result (Decided F) (Response x F) × List (Event F)
        → Action x F
    after_decision im j o state path path_and_query req body (ok d, events) =
        act_on im j o state path path_and_query req body d events
    after_decision im j o state path path_and_query req body (err r, events) = reply r events

    module _ (serde : Serde) (im : IndexMap) (j : RawJson im.Map) (o : Surroundings x)
        (state : AppState F) (c : Circumstances F) ⦃f : Float F⦄ where
      unfoldable pub with_body :
          Text → Text → Request x → Result (List ℕ) (Response x F) → Action x F
      with_body path path_and_query req (err r) = reply r []
      with_body path path_and_query req (ok body) =
          after_decision im j o state path path_and_query req body
            (decide_bytes serde x state c path req.headers body (text "inline"))

      unfoldable pub proxy_path : Request x → Option Text → Action x F
      proxy_path req none =
          reply
            (error_response x 404 (text "invalid_request_error") (text "routed_invalid_path")
              (fixed (text "path contains dot segments or encoded separators")) none)
            []
      proxy_path req (some path) =
          let path_and_query = path ++ query_text req.query in
          if not (req.method == text "POST") || not (is_routed_path path)
          then pass_on o state path path_and_query req
          else with_body path path_and_query req (read_body x state.config.max_body_bytes req.body)

      unfoldable pub proxy : Request x → Action x F
      proxy req = proxy_path req (normalize_path req.path)

      -- the path that a decision request is about
      unfoldable pub decide_path : Option Text → Option Text
      decide_path none = some (text "/v1/chat/completions")
      decide_path (some h) =
          and_then (normalize_path h) λ n. if is_routed_path n then some n else none

      unfoldable pub decided_response :
          Result (Decided F) (Response x F) × List (Event F) → Response x F × List (Event F)
      decided_response (ok d, events) = (shown state d, events)
      decided_response (err r, events) = (r, events)

      unfoldable pub decide_body :
          Text → Request x → Result (List ℕ) (Response x F) → Response x F × List (Event F)
      decide_body path req (err r) = (r, [])
      decide_body path req (ok body) =
          decided_response (decide_bytes serde x state c path req.headers body (text "decide"))

      unfoldable pub decide_at : Request x → Option Text → Response x F × List (Event F)
      decide_at req none =
          (bad_request x (fixed (text "X-Routed-Path must be one of the routed OpenAI paths")), [])
      decide_at req (some path) =
          decide_body path req (read_body x state.config.max_body_bytes req.body)

      unfoldable pub decide_authorised : Request x → AuthDecision → Response x F × List (Event F)
      decide_authorised req (deny status reason) = (auth_denied x status reason, [])
      decide_authorised req allow =
          decide_at req
            (decide_path (and_then (get_header x req.headers (text "x-routed-path")) x.to_str))

      -- `POST /v1/decide`
      unfoldable pub decide_handler : Request x → Response x F × List (Event F)
      decide_handler req = decide_authorised req (o.authenticate req.headers)
