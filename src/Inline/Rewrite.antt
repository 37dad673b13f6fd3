-- ===== src/Inline/Rewrite.antt =====
-- crates/ingress-inline/src/handlers.rs, `rewrite_body`. A value of the body is its raw JSON text;
-- the source wraps it in a `Value::String` to keep it in the map.
pub mod Entries
pub mod Untouched
use mathlib.Core.Option
use route_d.Prelude.{
  ℕ, ◌≡◌, Bool, true, false, not, Option, none, some, List, [], ◌∷◌, ◌++◌, Text, text, text_ord,
  ◌==◌, ◌&&◌, ◌||◌, if◌then◌else◌, is_some, is_empty, unwrap_or, and_then, as_bytes, Result, ok,
  err, ◌>>=◌,
}
use route_d.Api.{ReasoningLevel, low, medium, high}
use route_d.Decision.Types.{Decision}

-- An insertion keeps the place of a key that is there, and puts a new one last.
abbrev pub put : List (Text × Text) → Text → Text → List (Text × Text)
put [] k v = (k, v) ∷ []
put ((j, w) ∷ es) k v = let rest = put es k v in if j == k then (j, v) ∷ es else (j, w) ∷ rest

abbrev pub without : List (Text × Text) → Text → List (Text × Text)
without [] k = []
without ((j, w) ∷ es) k = let rest = without es k in if j == k then es else (j, w) ∷ rest

abbrev pub value_of : List (Text × Text) → Text → Option Text
value_of [] k = none
value_of ((j, w) ∷ es) k = if j == k then some w else value_of es k

-- `IndexMap<String, String>` of the crate indexmap.
pub record IndexMap : Type 1 where
  pub Map : Type 0
  pub entries : Map → List (Text × Text)
  pub get : Map → Text → Option Text
  pub insert : Map → Text → Text → Map
  pub shift_remove : Map → Text → Map

-- What its documentation says of the order and of lookups.
pub record IsLawful (x : IndexMap) : Type 0 where
  pub entries-insert : (m : x.Map) (k v : Text) → x.entries (x.insert m k v) ≡ put (x.entries m) k v
  pub entries-remove :
      (m : x.Map) (k : Text) → x.entries (x.shift_remove m k) ≡ without (x.entries m) k
  pub get-entries : (m : x.Map) (k : Text) → x.get m k ≡ value_of (x.entries m) k

-- The functions of serde_json: the parser of an object of raw values, the printer of a string, and
-- of a JSON object its parser, its empty value, `insert` of a string and its printer.
pub record RawJson (Map : Type 0) : Type 1 where
  pub Object : Type 0
  pub from_slice : List ℕ → Result Map Text
  pub quote : Text → Result Text Text
  pub from_str : Text → Option Object
  pub empty : Object
  pub insert : Object → Text → Text → Object
  pub to_string : Object → Text
  -- `max.to_string()`
  pub decimal : ℕ → Text

abbrev pub chat_path : Text
chat_path = text "/v1/chat/completions"

abbrev pub responses_path : Text
responses_path = text "/v1/responses"

-- `effort`
unfoldable pub effort_of : ReasoningLevel → Option Text
effort_of ReasoningLevel.none = none
effort_of low = some (text "low")
effort_of medium = some (text "medium")
effort_of high = some (text "high")

module _ (x : IndexMap) (j : RawJson x.Map) where
  unfoldable pub set_model : Option Text → x.Map → Result x.Map Text
  set_model none m = ok m
  set_model (some model) m = do q ← j.quote model; ok (x.insert m (text "model") q)

  -- the merge into an existing `reasoning` object
  unfoldable pub with_effort : Text → x.Map → x.Map
  with_effort e m =
      let object = unwrap_or (and_then (x.get m (text "reasoning")) j.from_str) j.empty in
      x.insert m (text "reasoning") (j.to_string (j.insert object (text "effort") e))

  -- `match (path, effort)`
  unfoldable pub set_effort : Text → Option Text → x.Map → x.Map
  set_effort path (some e) m =
      if path == chat_path
      then x.insert m (text "reasoning_effort") (34 ∷ e ++ 34 ∷ [])
      else if path == responses_path
      then with_effort e m
      else m
  set_effort path none m =
      if path == chat_path
      then x.shift_remove m (text "reasoning_effort")
      else if path == responses_path
      then x.shift_remove m (text "reasoning")
      else m

  unfoldable pub set_reasoning : Text → Option ReasoningLevel → x.Map → x.Map
  set_reasoning path none m = m
  set_reasoning path (some level) m = set_effort path (effort_of level) m

  -- `key`
  unfoldable pub limit_key : Text → x.Map → Text
  limit_key path m =
      if path == responses_path
      then text "max_output_tokens"
      else if path == chat_path && is_some (x.get m (text "max_completion_tokens"))
      then text "max_completion_tokens"
      else if path == text "/v1/embeddings"
      then []
      else text "max_tokens"

  unfoldable pub set_limit : Text → Option ℕ → x.Map → x.Map
  set_limit path none m = m
  set_limit path (some max) m =
      let key = limit_key path m in if not (is_empty key) then x.insert m key (j.decimal max) else m

  -- the map that is written out
  unfoldable pub rewritten : {F : Type 0} → Text → Decision F → x.Map → Result x.Map Text
  rewritten path d m = do
    m' ← set_model d.gateway_model m
    ok (set_limit path d.parameters.max_tokens (set_reasoning path d.parameters.reasoning m'))

  -- the loop over the entries; a comma stands before each but the first
  unfoldable pub write_entries : Bool → List (Text × Text) → List ℕ → Result (List ℕ) Text
  write_entries first [] out = ok (out ++ 125 ∷ [])
  write_entries first ((k, v) ∷ es) out = do
    q ← j.quote k
    write_entries false es
        ((if first then out else out ++ 44 ∷ []) ++ as_bytes q ++ 58 ∷ as_bytes v)

  unfoldable pub rewrite_body : {F : Type 0} → Text → List ℕ → Decision F → Result (List ℕ) Text
  rewrite_body path body d = do
    m ← j.from_slice body
    m' ← rewritten path d m
    write_entries true (x.entries m') (123 ∷ [])
