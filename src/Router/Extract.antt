-- ===== src/Router/Extract.antt =====
-- crates/router/src/extract.rs: what a request body says.
pub mod Turns
use mathlib.Core.Option
use route_d.Prelude.{
  ℕ, ◌+◌, ◌-◌, ◌/◌, Bool, true, false, not, Option, none, some, List, [], ◌∷◌, ◌++◌, Text, text,
  text_ord, ◌==◌, ◌||◌, if◌then◌else◌, ltb, nat_ord, is_some, is_empty, any, all, unwrap_or,
  and_then, or_else, byte_len, Result, ok, err, ◌>>=◌, ok_or, map_err, push_some, filter_map,
  find_map,
}
use route_d.Json.{
  Value, null, bool, number, string, array, object, Items, nil, cons, Fields, end, field, elements,
  get_field, get_key, as_object, as_array, as_str, as_bool, as_u64, is_object, Serde,
}
use route_d.Classify.{ClassifyInput}
use route_d.Decision.Types.{DecisionInput}
use route_d.Security.Headers.{RequestHeaders}
use route_d.Router.Messages.{
  Reading, estimate_tokens, per_message_overhead, system_prompt_max_chars, join_lines, text_of,
  truncate_chars, role_of, content_of, is_system, printed_tokens, read_messages,
}

pub data ParseError : Type 0 where
  json : Text → ParseError
  not_object : ParseError
  no_model : ParseError

pub record ParsedRequest : Type 0 where
  pub model : Text
  pub tools_present : Bool
  pub stream : Bool
  pub max_tokens : Option ℕ
  pub estimated_input_tokens : ℕ
  pub classify_input : ClassifyInput

unfoldable pub to_input : ParsedRequest → Text → RequestHeaders → ℕ → DecisionInput
to_input r path headers default_output_tokens = record {
  tenant = headers.tenant;
  agent = headers.agent;
  path = path;
  requested_model = r.model;
  tools_present = r.tools_present;
  estimated_input_tokens = r.estimated_input_tokens;
  estimated_output_tokens = unwrap_or r.max_tokens default_output_tokens;
  hints = headers.hints;
}

-- the items of a `responses` input: their texts, and the last system prompt among them
unfoldable pub input_items : List Value → Option Text → List Text × Option Text
input_items [] sp = ([], sp)
input_items (i ∷ is) sp =
    let t = content_of i in
    let (ts, sp') = input_items is (if is_system (role_of i) then some t else sp) in (t ∷ ts, sp')

-- `match input`
unfoldable pub input_list : List Value → Value → Option Text → Text × Option Text
input_list items other sp =
    if all is_object items
    then (let (ts, sp') = input_items items sp in (join_lines ts, sp'))
    else (text_of other, sp)

unfoldable pub input_text : Value → Option Text → Text × Option Text
input_text (array items) sp = input_list (elements items) (array items) sp
input_text (string s) sp = (text_of (string s), sp)
input_text (object o) sp = (text_of (object o), sp)
input_text null sp = (text_of null, sp)
input_text (bool b) sp = (text_of (bool b), sp)
input_text (number n) sp = (text_of (number n), sp)

unfoldable pub read_input : Option Value → Reading → Reading
read_input none r = r
read_input (some input) r =
    let (t, sp) = input_text input r.system_prompt in
    record r {
      system_prompt = sp;
      tokens = r.tokens + (estimate_tokens t + per_message_overhead);
      user_text = t;
    }

-- `if user_text.is_empty()`
unfoldable pub read_prompt : Fields → Reading → Reading
read_prompt obj r =
    if is_empty r.user_text
    then read_input (or_else (get_field obj (text "input")) (get_field obj (text "prompt"))) r
    else r

-- the last step of the estimate
unfoldable pub count_system : Bool → Reading → Reading
count_system has_messages r = elim r.system_prompt [
  | none ↦ r
  | some sp ↦ if not has_messages then record r { tokens = r.tokens + estimate_tokens sp } else r
]

unfoldable pub non_empty : Option Text → Option Text
non_empty none = none
non_empty (some s) = if is_empty s then none else some s

abbrev pub tool_keys : List Text
tool_keys = text "tools" ∷ text "functions" ∷ []

abbrev pub limit_keys : List Text
limit_keys = text "max_tokens" ∷ text "max_completion_tokens" ∷ text "max_output_tokens" ∷ []

unfoldable pub has_elements : Option (List Value) → Bool
has_elements none = false
has_elements (some vs) = not (is_empty vs)

unfoldable pub positive : Option ℕ → Option ℕ
positive none = none
positive (some t) = if ltb 0 t then some t else none

-- The messages, and the variables before the loop over them.
unfoldable pub messages_of : Fields → List Value
messages_of obj = unwrap_or (and_then (get_field obj (text "messages")) as_array) []

unfoldable pub start_reading : Fields → Reading
start_reading obj = record {
  system_prompt = non_empty (Option.map text_of (get_field obj (text "system")));
  user_text = [];
  history = [];
  tool_outputs = [];
  tokens = 0;
}

unfoldable pub read_body : (Value → Text) → Fields → Reading
read_body to_string obj =
    count_system (is_some (get_field obj (text "messages")))
      (read_prompt obj (read_messages to_string (messages_of obj) (start_reading obj)))

unfoldable pub tool_def_tokens : (Value → Text) → Fields → ℕ
tool_def_tokens to_string obj = printed_tokens to_string (filter_map (get_field obj) tool_keys)

unfoldable pub parsed : (Value → Text) → Fields → Text → ParsedRequest
parsed to_string obj model =
    let r = read_body to_string obj in
    let total = r.tokens + tool_def_tokens to_string obj in
    record {
      model = model;
      tools_present = any (λ k. has_elements (and_then (get_field obj k) as_array)) tool_keys;
      stream = unwrap_or (and_then (get_field obj (text "stream")) as_bool) false;
      max_tokens = positive (find_map (λ k. and_then (get_field obj k) as_u64) limit_keys);
      estimated_input_tokens = if ltb total 1 then 1 else total;
      classify_input = record {
        system_prompt = Option.map (λ s. truncate_chars s system_prompt_max_chars) r.system_prompt;
        user_text = r.user_text;
        history = r.history;
        tool_outputs = r.tool_outputs;
      };
    }

unfoldable pub parse_request : Serde → Text → List ℕ → Result ParsedRequest ParseError
parse_request serde path body = do
  v ← map_err json (serde.from_slice body)
  obj ← ok_or (as_object v) not_object
  model ← ok_or (and_then (get_field obj (text "model")) as_str) no_model
  ok (parsed serde.to_string obj model)
