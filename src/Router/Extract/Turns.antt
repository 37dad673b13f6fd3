-- ===== src/Router/Extract/Turns.antt =====
-- crates/router/src/extract.rs: no turn of a conversation is lost to the classifier, and none goes
-- uncounted.
use route_d.Prelude.{
  ℕ, ◌+◌, ◌≤◌, ◌≡◌, ◌⊎◌, inl, inr, refl, sym, ap, ◌∙◌, Bool, true, not, Option, none, some, List,
  [], ◌∷◌, ◌++◌, Text, text, text_ord, if◌then◌else◌, is_empty, filter, arith, Bool-cases, subst,
  Option-cases, ok, and_then, is_some, or_else, all, false,
}
use mathlib.Core.List.{append-nil}
use route_d.Json.{
  Value, Fields, Serde, object, array, string, null, bool, number, as_str, is_object, get_field,
  elements,
}
use route_d.Router.Messages.{Reading, is_tool, join_lines, content_of, read_messages}
use route_d.Router.Extract.{
  ParsedRequest, messages_of, start_reading, input_items, input_list, input_text, read_input,
  read_prompt, count_system, read_body, tool_def_tokens, parsed, parse_request,
}
use route_d.Router.Messages.Turns.{
  turns, said, is_user, non_empties, last_or, conversation_tokens, read_messages-turns,
  read_messages-last, read_messages-tools, read_messages-tokens,
}

-- What follows the loop keeps the history and the tool outputs, and counts no less.
record Follows (before after : Reading) : Type 0 where
  history : after.history ≡ before.history
  tools : after.tool_outputs ≡ before.tool_outputs
  counted : before.tokens ≤ after.tokens

read_input-Follows :
    (o : Option Value) (r : Reading) → is_empty r.user_text ≡ true → Follows r (read_input o r)
unfolding read_input
read_input-Follows none r e = record { history = refl; tools = refl; counted = omega arith }
read_input-Follows (some v) r e = record { history = refl; tools = refl; counted = omega arith }

read_prompt-Follows : (obj : Fields) (r : Reading) → Follows r (read_prompt obj r)
unfolding read_prompt
read_prompt-Follows obj r = elim (Bool-cases (is_empty r.user_text)) [
  | inl e ↦ rw (e, if◌then◌else◌) (read_input-Follows _ r e)
  | inr e ↦ rw (e, if◌then◌else◌) (record { history = refl; tools = refl; counted = omega arith })
]

count_system-Follows : (b : Bool) (r : Reading) → Follows r (count_system b r)
unfolding count_system
count_system-Follows b r = elim (Option-cases r.system_prompt) [
  | inl e ↦ rw e (record { history = refl; tools = refl; counted = omega arith })
  | inr (sp, e) ↦ elim (Bool-cases (not b)) [
    | inl n ↦
        rw (e, n, if◌then◌else◌) (record { history = refl; tools = refl; counted = omega arith })
    | inr n ↦
        rw (e, n, if◌then◌else◌) (record { history = refl; tools = refl; counted = omega arith })
  ]
]

read_body-Follows :
    (p : Value → Text) (obj : Fields)
    → Follows (read_messages p (messages_of obj) (start_reading obj)) (read_body p obj)
unfolding read_body
read_body-Follows p obj =
    let r = read_messages p (messages_of obj) (start_reading obj) in
    let a = read_prompt-Follows obj r in
    let b = count_system-Follows (is_some (get_field obj (text "messages"))) (read_prompt obj r) in
    record { history = b.history ∙ a.history; tools = b.tools ∙ a.tools; counted = omega arith }

input_items-texts :
    (vs : List Value) (sp sp' : Option Text) → (input_items vs sp).0 ≡ (input_items vs sp').0
unfolding input_items
input_items-texts [] sp sp' = refl
input_items-texts (v ∷ vs) sp sp' = ap (λ ts. content_of v ∷ ts) (input_items-texts vs _ _)

input_text-text : (v : Value) (sp : Option Text) → (input_text v sp).0 ≡ (input_text v none).0
unfolding input_text input_list
input_text-text (array items) sp = elim (Bool-cases (all is_object (elements items))) [
  | inl e ↦ rw (e, if◌then◌else◌) (ap join_lines (input_items-texts (elements items) sp none))
  | inr e ↦ rw (e, if◌then◌else◌) refl
]
input_text-text (string t) sp = refl
input_text-text (object o) sp = refl
input_text-text null sp = refl
input_text-text (bool b) sp = refl
input_text-text (number n) sp = refl

-- What a request asks without a message of the user: the text of its `input`, or else of its
-- `prompt`, or nothing.
abbrev pub text_of_input : Option Value → Text
text_of_input none = []
text_of_input (some v) = (input_text v none).0

abbrev pub asked_without_messages : Fields → Text
asked_without_messages obj =
    text_of_input (or_else (get_field obj (text "input")) (get_field obj (text "prompt")))

read_input-text :
    (o : Option Value) (r : Reading)
    → r.user_text ≡ []
    → (read_input o r).user_text ≡ text_of_input o
unfolding read_input
read_input-text none r e = e
read_input-text (some v) r e = input_text-text v r.system_prompt

empty_text : (t : Text) → is_empty t ≡ true → t ≡ []
unfolding is_empty
empty_text [] e = refl
empty_text (c ∷ t) e = absurd (cc)

count_system-text : (b : Bool) (r : Reading) → (count_system b r).user_text ≡ r.user_text
unfolding count_system
count_system-text b r = ground arith

-- What the history and the user text are, where the user has said `spoken`: if the last of it is
-- not empty, it is the user text, and what was said before is the history; else all of it is the
-- history, and the user text is what the request asks without messages. Empty turns are left out.
abbrev pub Holds : Fields → List Text → List Text → Text → Type 0
Holds obj spoken history user_text =
    ((is_empty (last_or [] spoken) ≡ false)
      × (user_text ≡ last_or [] spoken)
      × (history ++ user_text ∷ [] ≡ non_empties spoken))
    ⊎ ((is_empty (last_or [] spoken) ≡ true)
        × (user_text ≡ asked_without_messages obj)
        × (history ≡ non_empties spoken))

read_body-asked :
    (p : Value → Text) (obj : Fields)
    → is_empty (read_messages p (messages_of obj) (start_reading obj)).user_text ≡ true
    → (read_body p obj).user_text ≡ asked_without_messages obj
unfolding read_body read_prompt
read_body-asked p obj e =
    let before = read_messages p (messages_of obj) (start_reading obj) in
    count_system-text (is_some (get_field obj (text "messages"))) (read_prompt obj before)
    ∙ (rw (e, if◌then◌else◌) (read_input-text _ before (empty_text before.user_text e)))

read_body-said :
    (p : Value → Text) (obj : Fields)
    → is_empty (read_messages p (messages_of obj) (start_reading obj)).user_text ≡ false
    → (read_body p obj).user_text
      ≡ (read_messages p (messages_of obj) (start_reading obj)).user_text
unfolding read_body read_prompt
read_body-said p obj e =
    let before = read_messages p (messages_of obj) (start_reading obj) in
    count_system-text (is_some (get_field obj (text "messages"))) (read_prompt obj before)
    ∙ (rw (e, if◌then◌else◌) refl)

read_body-Holds :
    (p : Value → Text) (obj : Fields)
    → let r = read_body p obj in Holds obj (said is_user (messages_of obj)) r.history r.user_text
unfolding start_reading filter is_empty
read_body-Holds p obj =
    let spoken = said is_user (messages_of obj) in
    let before = read_messages p (messages_of obj) (start_reading obj) in
    let said_last : before.user_text ≡ last_or [] spoken =
      read_messages-last p (messages_of obj) (start_reading obj) in
    let said_all : turns before ≡ non_empties spoken =
      read_messages-turns p (messages_of obj) (start_reading obj) in
    let kept = (read_body-Follows p obj).history in
    elim (Bool-cases (is_empty before.user_text)) [
      | inl e ↦ inr (
        ap is_empty (sym said_last) ∙ e,
        read_body-asked p obj e,
        kept ∙ sym (append-nil before.history) ∙ (rw e at said_all),
      )
      | inr e ↦ inl (
        ap is_empty (sym said_last) ∙ e,
        read_body-said p obj e ∙ said_last,
        rw (kept, read_body-said p obj e) (rw e at said_all),
      )
    ]

parse_request-parsed :
    (serde : Serde) (path : Text) (body : List ℕ) (obj : Fields) (r : ParsedRequest)
    → serde.from_slice body ≡ ok (object obj)
    → parse_request serde path body ≡ ok r
    → (model : Text) × (parsed serde.to_string obj model ≡ r)
unfolding parse_request
parse_request-parsed serde path body obj r e h =
    elim (Option-cases (and_then (get_field obj (text "model")) as_str)) [
      | inl missing ↦ absurd (cc (rw (e, missing) at h))
      | inr (model, found) ↦ (model, ground arith)
    ]

-- If a body is parsed, the texts of its tool messages are the tool outputs, in order. If the text
-- of its last user message is not empty, it is the user text, and the history before it and it are
-- the texts of the user messages, but for empty ones, in order; else, or without user messages, the
-- history is all of those, and the user text is that of the field `input`, or else `prompt`, or
-- empty.
pub parse_request-turns :
    (serde : Serde) (path : Text) (body : List ℕ) (obj : Fields) (r : ParsedRequest)
    → serde.from_slice body ≡ ok (object obj)
    → parse_request serde path body ≡ ok r
    → (r.classify_input.tool_outputs ≡ said is_tool (messages_of obj))
      × Holds obj
          (said is_user (messages_of obj))
          r.classify_input.history
          r.classify_input.user_text
unfolding parse_request parsed start_reading
parse_request-turns serde path body obj r e h =
    let (model, same) = parse_request-parsed serde path body obj r e h in
    subst
      (λ r.
        (r.classify_input.tool_outputs ≡ said is_tool (messages_of obj))
        × Holds obj (said is_user (messages_of obj)) r.classify_input.history
            r.classify_input.user_text)
      same
      (
        (read_body-Follows serde.to_string obj).tools
            ∙ read_messages-tools serde.to_string (messages_of obj) (start_reading obj),
        read_body-Holds serde.to_string obj,
      )

-- If a body is parsed, its estimate counts at least one token, every message with its tool calls,
-- and the definitions of the tools.
pub parse_request-tokens :
    (serde : Serde) (path : Text) (body : List ℕ) (obj : Fields) (r : ParsedRequest)
    → serde.from_slice body ≡ ok (object obj)
    → parse_request serde path body ≡ ok r
    → (1 ≤ r.estimated_input_tokens)
      × (conversation_tokens serde.to_string (messages_of obj) + tool_def_tokens serde.to_string obj
          ≤ r.estimated_input_tokens)
unfolding parse_request parsed start_reading
parse_request-tokens serde path body obj r e h =
    let (model, same) = parse_request-parsed serde path body obj r e h in
    let rest = read_body-Follows serde.to_string obj in
    let loop = read_messages-tokens serde.to_string (messages_of obj) (start_reading obj) in
    subst
      (λ r.
        (1 ≤ r.estimated_input_tokens)
        × (conversation_tokens serde.to_string (messages_of obj)
              + tool_def_tokens serde.to_string obj
            ≤ r.estimated_input_tokens))
      same (ground arith, ground arith)
