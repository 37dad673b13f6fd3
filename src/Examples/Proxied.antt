-- ===== src/Examples/Proxied.antt =====
-- The ingress (crates/ingress-inline) over the configuration of Data.antt, at concrete requests.
use route_d.Prelude.{
  ◌≡◌, ◌⊎◌, refl, true, false, none, some, List, [], ◌∷◌, Text, text, ok, arith, is_empty, cmp_text,
  as_bytes, get_from,
}
use route_d.Float.Fixed.{Fixed, fixed_float}
use route_d.Snapshot.Holder.{load}
use route_d.Decision.Types.{Decision, new_decision}
use route_d.Decision.Scoring.{no_predictor}
use route_d.Security.Headers.{
  is_routed_header, begins_ignoring_case, extract_headers, take_headers, take_header, take_named,
  take_value, clean, honour, key_of, dedup,
}
use route_d.Classify.{Classifier}
use route_d.Router.Extract.{to_input}
use route_d.Router.Pipeline.{Pipeline, default_output, tokens_of_profile}
use route_d.Inline.Http.{get_all}
use route_d.Inline.Rewrite.{
  set_model, set_reasoning, limit_key, set_limit, rewritten, write_entries, rewrite_body,
}
use route_d.Inline.Rewrite.Entries.{others}
use route_d.Inline.Rewrite.Untouched.{HasModel, rewrite_body-others}
use route_d.Inline.Replies.{Printing, Response}
use route_d.Inline.Decide.{
  ran, Event, AppState, Circumstances, run_classifier, header_pairs, findings_for, completed,
  decide_parsed, decide_read, decide_loaded, decide_bytes,
}
use route_d.Inline.Decide.Refines.{Refines}
use route_d.Inline.Exchange.{
  bytes, allow, Request, Sent, Payload, Answer, Action, reply, send, Surroundings, forward,
  read_body,
}
use route_d.Inline.Handlers.{
  query_text, list_len, out_body, send_decided, act_on, after_decision, with_body, proxy_path,
  proxy,
}
use route_d.Inline.Handlers.Sends.{IsForwarded, IsPassedOn, IsDecided, proxy-MaySend}
use route_d.Inline.Handlers.Spoofing.{ShowsOwn, proxy-ShowsOwn}
use route_d.Examples.Engine.{engine}
use route_d.Examples.Data.{snapshot, request, with_iban, ctx}
use route_d.Examples.Wire.{http, http-IsLawful, index_map, index_map-IsLawful, raw_json}
use route_d.Examples.Requests.{serde, reading, paths}

abbrev chat_path : Text
chat_path = text "/v1/chat/completions"

-- a decision for the small tier, with a limit on the answer
abbrev chosen : Decision Fixed
chosen = record (new_decision ctx request with_iban (text "sha256:0")) {
  gateway_model = some (text "openai/small");
  parameters = record { reasoning = none; max_tokens = some 7 };
}

abbrev written : Text
written =
    text
      "{\"model\":\"openai/small\",\"temperature\":0.20,\"max_completion_tokens\":\u{7},\"stream\":true}"

rewrite_body-others_example :
    (m m' : List (Text × Text)) × (raw_json.from_slice (1 ∷ []) ≡ ok m)
    × (write_entries index_map raw_json true m' (123 ∷ []) ≡ ok written)
    × (others m' ≡ others m)
    × HasModel index_map index_map-IsLawful raw_json (some (text "openai/small")) m m'
unfolding rewrite_body rewritten set_model set_limit limit_key set_reasoning write_entries as_bytes
    cmp_text is_empty new_decision
rewrite_body-others_example =
    rewrite_body-others index_map index_map-IsLawful raw_json chat_path (1 ∷ []) chosen written refl

abbrev quick : Classifier Fixed
quick = record { name = text "heuristic"; classify = λ input. ok with_iban }

abbrev pipeline : Pipeline Fixed
pipeline = record { predictor = no_predictor; snapshot = snapshot; classifier = quick }

abbrev pub state : AppState Fixed
state = record {
  snapshot = record { current = some snapshot; previous = none; loaded_at = some 5 };
  predictor = no_predictor;
  classifier = text "heuristic";
  config = record { max_body_bytes = 1000; decision_header_max = 4096; passthrough_all = false };
}

abbrev pub circumstances : Circumstances Fixed
circumstances = record { ctx = ctx; attempt = λ input. ran (ok with_iban); latency_ms = 3 }

-- a client that tries to pass for routeD
abbrev headers : List (Text × Text)
headers =
    (text "host", text "router")
    ∷ (text "x-routed-tier", text "us-large")
    ∷ (text "accept", text "application/json")
    ∷ []

abbrev pub printing : Printing Fixed
printing = record { cost = λ c. text "0.1"; full = λ d. d.id; compact = λ d. d.id }

abbrev pub surroundings : Surroundings http
surroundings = record {
  authenticate = λ h. allow;
  trace = (text "traceparent", text "00-1") ∷ [];
  parse_u64 = λ t. none;
  decimal = λ n. n ∷ [];
}

abbrev client : Request http
client = record {
  method = text "POST";
  path = text "/v1/chat/completions/";
  query = none;
  headers = headers;
  body = bytes (1 ∷ []);
}

abbrev action : Action http Fixed
action = proxy http printing serde index_map raw_json surroundings state circumstances client

-- the parts of an action that sends
abbrev nothing_sent : Sent http
nothing_sent = record { method = []; path_and_query = []; headers = []; body = Payload.buffered [] }

abbrev sent_by : Action http Fixed → Sent http
sent_by (send u events k) = u
sent_by (reply r events) = nothing_sent

abbrev events_of : Action http Fixed → List (Event Fixed)
events_of (send u events k) = events
events_of (reply r events) = events

abbrev back_of : Action http Fixed → Answer http → Response http Fixed × List (Event Fixed)
back_of (send u events k) = k
back_of (reply r events) = λ answer. (r, events)

-- named on an `unfolding` line, it makes a run of the proxy compute
unfoldable pub proxying : Unit {0}
unfolding engine reading paths proxy proxy_path with_body read_body decide_bytes decide_loaded load
    decide_read decide_parsed findings_for run_classifier completed header_pairs extract_headers
    take_headers to_input default_output tokens_of_profile after_decision act_on out_body
    send_decided rewrite_body rewritten set_model set_reasoning set_limit limit_key write_entries
    as_bytes query_text list_len take_header is_routed_header begins_ignoring_case take_named
    get_from take_value clean honour key_of dedup
proxying = tt

proxy-MaySend_example :
    IsForwarded http printing serde index_map raw_json surroundings state circumstances client
      (sent_by action)
    × (IsPassedOn http printing serde index_map raw_json surroundings state circumstances client
          (sent_by action)
          (events_of action)
          (back_of action)
        ⊎ IsDecided http printing serde index_map raw_json surroundings state circumstances client
            (sent_by action)
            (events_of action)
            (back_of action))
unfolding proxying
proxy-MaySend_example =
    proxy-MaySend http printing serde index_map raw_json surroundings state circumstances client
      (sent_by action) (events_of action) (back_of action) refl

-- The account number that the classifier found keeps the request with the small tier.
client_forwarded :
    (sent_by action).body
    ≡ Payload.buffered (
        text
          "{\"model\":\"openai/small\",\"temperature\":0.20,\"max_completion_tokens\":9,\"stream\":true}")
unfolding proxying forward
client_forwarded = refl

proxy-ShowsOwn_example :
    (get_all http (sent_by action).headers (text "x-routed-tier") ≡ [])
    × ShowsOwn http http-IsLawful printing serde index_map raw_json surroundings state circumstances
        client
        (text "x-routed-tier")
        (sent_by action)
        (events_of action)
        (back_of action)
unfolding proxying
proxy-ShowsOwn_example =
    proxy-ShowsOwn http http-IsLawful printing serde index_map raw_json surroundings state
      circumstances client (sent_by action) (events_of action) (back_of action)
      (text "x-routed-tier") refl refl (λ e. ground arith, tt)
