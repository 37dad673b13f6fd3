-- ===== src/Examples/Requests.antt =====
-- Request bodies, the pipeline over them (crates/router), and paths and rewritten bodies
-- (crates/ingress-inline), at concrete values.
use route_d.Prelude.{
  ◌+◌, ◌≤◌, ◌≡◌, ◌⊎◌, refl, false, none, some, [], ◌∷◌, Text, text, text_ord, ◌==◌, nat_ord,
  if◌then◌else◌, ok, err, filter, is_empty, any, all, find_map, filter_map, byte_len, split,
  starts_with, cmp_text, to_ascii_lowercase,
}
use route_d.Float.Fixed.{Fixed, fixed_float}
use route_d.Json.{Value, Items, Fields, Serde, elements, get_field, get_key}
use route_d.Decision.Types.{block}
use route_d.Decision.Scoring.{no_predictor}
use route_d.Decision.Engine.Risk.{FallsBack}
use route_d.Security.Headers.{extract_headers, take_headers}
use route_d.Classify.{timeout, Classifier}
use route_d.Router.Messages.{
  is_tool, text_of, text_field, join_lines, truncate_chars, role_of, content_of, sort_by_role,
  next_turn, call_tokens, printed_tokens, read_message, read_messages, estimate_tokens,
}
use route_d.Router.Messages.Turns.{said, is_user, conversation_tokens}
use route_d.Router.Extract.{
  ParsedRequest, messages_of, tool_def_tokens, parsed, parse_request, to_input, read_body,
  read_prompt, read_input, input_text, start_reading, count_system, non_empty, has_elements,
  positive,
}
use route_d.Router.Extract.Turns.{Holds, parse_request-turns, parse_request-tokens}
use route_d.Router.Pipeline.{Pipeline, Outcome, run, default_output, tokens_of_profile}
use route_d.Router.Pipeline.Failing.{run-FallsBack}
use route_d.Inline.Paths.{normalize_path, hides, contains_text, push_segments, or_root}
use route_d.Inline.Paths.Normal.{IsNormalOf, normalize_path-IsNormalOf}
use route_d.Examples.Engine.{engine}
use route_d.Examples.Data.{agents, snapshot, ctx}

abbrev message : Text → Text → Value
message role content = Value.object (
    Fields.field (text "role") (Value.string role)
      (Fields.field (text "content") (Value.string content) Fields.end))

-- the conversation that the byte 1 stands for
abbrev pub chat : Fields
chat = Fields.field (text "model") (Value.string (text "auto")) (
    Fields.field (text "messages")
      (Value.array (
        Items.cons (message (text "system") (text "be brief")) (
          Items.cons (message (text "user") (text "hello")) (
            Items.cons (message (text "tool") (text "42"))
              (Items.cons (message (text "user") (text "and now?")) Items.nil)))))
      Fields.end)

abbrev pub serde : Serde
serde = record {
  from_slice =
      λ body. if body == 1 ∷ [] then ok (Value.object chat) else err (text "expected value");
  to_string = λ v. text "{}";
}

abbrev chat_path : Text
chat_path = text "/v1/chat/completions"

abbrev pub chat_request : ParsedRequest
chat_request = record {
  model = text "auto";
  tools_present = false;
  stream = false;
  max_tokens = none;
  estimated_input_tokens = 23;
  classify_input = record {
    system_prompt = some (text "be brief");
    user_text = text "and now?";
    history = text "hello" ∷ [];
    tool_outputs = text "42" ∷ [];
  };
}

-- named on an `unfolding` line, it makes the reading of a body compute
unfoldable pub reading : Unit {0}
unfolding parse_request parsed read_body read_prompt read_input input_text start_reading
    count_system non_empty has_elements positive messages_of tool_def_tokens read_messages
    read_message sort_by_role next_turn call_tokens printed_tokens estimate_tokens role_of
    content_of text_of text_field join_lines truncate_chars elements get_field get_key find_map
    filter_map byte_len is_empty any all filter cmp_text
reading = tt

chat_read : parse_request serde chat_path (1 ∷ []) ≡ ok chat_request
unfolding reading
chat_read = refl

parse_request-turns_example :
    (chat_request.classify_input.tool_outputs ≡ said is_tool (messages_of chat))
    × Holds chat
        (said is_user (messages_of chat))
        chat_request.classify_input.history
        chat_request.classify_input.user_text
unfolding cmp_text
parse_request-turns_example =
    parse_request-turns serde chat_path (1 ∷ []) chat chat_request refl chat_read

parse_request-tokens_example :
    (1 ≤ chat_request.estimated_input_tokens)
    × (conversation_tokens serde.to_string (messages_of chat) + tool_def_tokens serde.to_string chat
        ≤ chat_request.estimated_input_tokens)
unfolding cmp_text
parse_request-tokens_example =
    parse_request-tokens serde chat_path (1 ∷ []) chat chat_request refl chat_read

abbrev too_slow : Classifier Fixed
too_slow = record { name = text "heuristic"; classify = λ input. err (timeout (text "heuristic")) }

abbrev pipeline : Pipeline Fixed
pipeline = record { predictor = no_predictor; snapshot = snapshot; classifier = too_slow }

run-FallsBack_example :
    (out : Outcome Fixed) × (run serde pipeline chat_path [] (1 ∷ []) none ctx ≡ ok out)
    × (FallsBack no_predictor snapshot agents out.input out.findings out.decision
        ⊎ (out.decision.outcome ≡ block))
unfolding engine to_input extract_headers default_output tokens_of_profile take_headers
run-FallsBack_example =
    run-FallsBack serde pipeline chat_path [] (1 ∷ []) ctx chat_request (timeout (text "heuristic"))
      agents chat_read refl (refl, refl)

-- as `reading`, for paths
unfoldable pub paths : Unit {0}
unfolding normalize_path hides contains_text push_segments or_root split starts_with filter any
    is_empty to_ascii_lowercase cmp_text
paths = tt

normalize_path-IsNormalOf_example : IsNormalOf (text "//v1//chat/completions/") chat_path
unfolding paths
normalize_path-IsNormalOf_example =
    normalize_path-IsNormalOf (text "//v1//chat/completions/") chat_path refl

dots_refused : normalize_path (text "/v1/../admin") ≡ none
unfolding paths
dots_refused = refl

encoded_dots_refused : normalize_path (text "/v1/%2E%2e/admin") ≡ none
unfolding paths
encoded_dots_refused = refl
