-- ===== src/Router/Messages.antt =====
-- crates/router/src/extract.rs: the texts of messages, their token estimates, and the loop over
-- them. The sums of token estimates are natural numbers: each counts bytes of the body, far below
-- the width of `u64`.
pub mod Turns
use mathlib.Core.Option
use route_d.Prelude.{
  ℕ, ◌+◌, ◌-◌, ◌/◌, Bool, true, false, not, Option, none, some, List, [], ◌∷◌, ◌++◌, Text, text,
  text_ord, ◌==◌, ◌||◌, if◌then◌else◌, ltb, nat_ord, is_some, is_empty, any, all, unwrap_or,
  and_then, or_else, byte_len, Result, ok, err, ◌>>=◌, ok_or, map_err, push_some, filter_map,
  find_map,
}
use route_d.Json.{
  Value, null, bool, number, string, array, object, Items, nil, cons, Fields, end, field, elements,
  get_field, get_key, as_object, as_array, as_str, as_bool, as_u64, is_object, Serde,
}
use route_d.Classify.{ClassifyInput}
use route_d.Decision.Types.{DecisionInput}
use route_d.Security.Headers.{RequestHeaders}

-- `div_ceil(4)` of the length in bytes
unfoldable pub estimate_tokens : Text → ℕ
estimate_tokens t = (byte_len t + 3) / 4

abbrev pub per_message_overhead : ℕ
per_message_overhead = 4

abbrev pub system_prompt_max_chars : ℕ
system_prompt_max_chars = 2000

-- `join("\n")`
unfoldable pub join_lines : List Text → Text
join_lines [] = []
join_lines (t ∷ []) = t
join_lines (t ∷ u ∷ ts) = t ++ 10 ∷ join_lines (u ∷ ts)

-- `o.get("text").and_then(Value::as_str)`
unfoldable pub text_field : Fields → Option Text
text_field o = and_then (get_field o (text "text")) as_str

unfoldable mutual
  pub text_of : Value → Text
  text_of (string s) = s
  text_of (array parts) = join_lines (part_texts parts)
  text_of (object o) = unwrap_or (text_field o) []
  text_of null = []
  text_of (bool b) = []
  text_of (number n) = []

  -- the `filter_map` over the parts
  pub part_texts : Items → List Text
  part_texts nil = []
  part_texts (cons (string s) ps) = s ∷ part_texts ps
  part_texts (cons (object o) ps) =
      push_some (or_else (text_field o) (content_text o)) (part_texts ps)
  part_texts (cons null ps) = part_texts ps
  part_texts (cons (bool b) ps) = part_texts ps
  part_texts (cons (number n) ps) = part_texts ps
  part_texts (cons (array vs) ps) = part_texts ps

  -- `o.get("content").map(text_of)`
  pub content_text : Fields → Option Text
  content_text end = none
  content_text (field k v fs) = if k == text "content" then some (text_of v) else content_text fs

-- `s.chars().take(max).collect()`
unfoldable pub truncate_chars : Text → ℕ → Text
truncate_chars [] max = []
truncate_chars (c ∷ s) max =
    let rest = truncate_chars s (max - 1) in if max == 0 then [] else c ∷ rest

-- The variables of `parse_request` that the loop over the messages changes.
pub record Reading : Type 0 where
  pub system_prompt : Option Text
  pub user_text : Text
  pub history : List Text
  pub tool_outputs : List Text
  pub tokens : ℕ

-- `m.get("role").and_then(Value::as_str).unwrap_or("user")`
unfoldable pub role_of : Value → Text
role_of m = unwrap_or (and_then (get_key m (text "role")) as_str) (text "user")

-- `m.get("content").map(text_of).unwrap_or_default()`
unfoldable pub content_of : Value → Text
content_of m = unwrap_or (Option.map text_of (get_key m (text "content"))) []

abbrev pub is_system : Text → Bool
is_system role = role == text "system" || role == text "developer"

abbrev pub is_tool : Text → Bool
is_tool role = role == text "tool" || role == text "function"

-- the arm for a user message
unfoldable pub next_turn : Text → Reading → Reading
next_turn t r = record r {
  history = if not (is_empty r.user_text) then r.history ++ r.user_text ∷ [] else r.history;
  user_text = t;
}

-- `match role`
unfoldable pub sort_by_role : Text → Text → Reading → Reading
unfolding next_turn
sort_by_role role t r =
    if is_system role
    then record r { system_prompt = some t }
    else if is_tool role
    then record r { tool_outputs = r.tool_outputs ++ t ∷ [] }
    else if role == text "user"
    then next_turn t r
    else r

-- What the printed values of a list are estimated at.
unfoldable pub printed_tokens : (Value → Text) → List Value → ℕ
printed_tokens to_string [] = 0
printed_tokens to_string (v ∷ vs) = estimate_tokens (to_string v) + printed_tokens to_string vs

-- what the tool calls of a message add
unfoldable pub call_tokens : (Value → Text) → Value → ℕ
call_tokens to_string m =
    printed_tokens to_string (unwrap_or (and_then (get_key m (text "tool_calls")) as_array) [])

-- one round of the loop over the messages
unfoldable pub read_message : (Value → Text) → Value → Reading → Reading
read_message to_string m r =
    let t = content_of m in
    let sorted =
      sort_by_role (role_of m) t
        (record r { tokens = r.tokens + (estimate_tokens t + per_message_overhead) }) in
    record sorted { tokens = sorted.tokens + call_tokens to_string m }

unfoldable pub read_messages : (Value → Text) → List Value → Reading → Reading
read_messages to_string [] r = r
read_messages to_string (m ∷ ms) r = read_messages to_string ms (read_message to_string m r)
