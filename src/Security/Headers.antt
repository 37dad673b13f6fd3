-- ===== src/Security/Headers.antt =====
-- crates/security/src/headers.rs: the `X-Routed-*` headers of a request. The texts put into `ignored`
-- are values. The children prove what is read
-- from the headers.
pub mod Names
pub mod Reading
pub mod Slots
pub mod Classes
use route_d.Prelude.{
  ℕ, Bool, true, false, not, Option, none, some, List, [], ◌∷◌, ◌++◌, Text, text, text_ord, ◌==◌,
  ◌&&◌, ◌||◌, if◌then◌else◌, ltb, is_empty, any, lower, trim, byte_len, is_control,
  to_ascii_lowercase, eq_ignore_ascii_case, split, get_from, nat_ord, cmp_text, sort_by,
}
use mathlib.Core.Option
use route_d.Decision.Types.{RequestHints}
pub use route_d.Decision.Types.{
  Ignored, malformed_name, malformed_value, expected_bool, not_an_input, duplicate,
}

-- `HEADER_PREFIX`
abbrev pub header_prefix : Text
header_prefix = text "x-routed-"

-- Whether the bytes of a text begin with ASCII characters, but for case. No byte of a longer
-- character is one of ASCII.
unfoldable pub begins_ignoring_case : Text → Text → Bool
unfolding lower
begins_ignoring_case [] name = true
begins_ignoring_case (p ∷ ps) [] = false
begins_ignoring_case (p ∷ ps) (c ∷ cs) = lower p == lower c && begins_ignoring_case ps cs

unfoldable pub is_routed_header : Text → Bool
is_routed_header name = begins_ignoring_case header_prefix name

pub record RequestHeaders : Type 0 where
  pub tenant : Option Text
  pub agent : Option Text
  pub hints : RequestHints
  pub path : Option Text
  pub ignored : List Ignored

-- `RequestHeaders::default()`
abbrev pub no_headers : RequestHeaders
no_headers = record {
  tenant = none;
  agent = none;
  hints = record { data_classes = []; policy = none; dry_run = false };
  path = none;
  ignored = [];
}

unfoldable pub clean : Text → Option Text
clean value =
    let v = trim value in
    if is_empty v || ltb 256 (byte_len v) || any is_control v then none else some v

-- the slots that keep their first value
pub data Slot : Type 0 where
  tenant agent policy path : Slot

-- the arms of `match key.as_str()`
pub data Key : Type 0 where
  slot : Slot → Key
  data_class dry_run other : Key

unfoldable pub key_of : Text → Key
key_of key =
    if key == text "tenant"
    then slot tenant
    else if key == text "agent"
    then slot agent
    else if key == text "policy"
    then slot policy
    else if key == text "path"
    then slot path
    else if key == text "data-class"
    then data_class
    else if key == text "dry-run"
    then dry_run
    else other

unfoldable pub set_once : Option Text → Text → Text → List Ignored → Option Text × List Ignored
set_once none value name ignored = (some value, ignored)
set_once (some first) value name ignored = (some first, ignored ++ duplicate name ∷ [])

unfoldable pub set_slot : Slot → Text → Text → RequestHeaders → RequestHeaders
set_slot tenant v name out =
    let (t, i) = set_once out.tenant v name out.ignored in record out { tenant = t; ignored = i }
set_slot agent v name out =
    let (a, i) = set_once out.agent v name out.ignored in record out { agent = a; ignored = i }
set_slot policy v name out =
    let (p, i) = set_once out.hints.policy v name out.ignored in
    record out { hints = record out.hints { policy = p }; ignored = i }
set_slot path v name out =
    let (p, i) = set_once out.path v name out.ignored in record out { path = p; ignored = i }

-- `if let Some(p) = clean(part) { data_classes.push(p.to_ascii_lowercase()) }`
unfoldable pub push_class : List Text → Option Text → List Text
push_class classes none = classes
push_class classes (some p) = classes ++ to_ascii_lowercase p ∷ []

unfoldable pub push_classes : List Text → List Text → List Text
push_classes [] classes = classes
push_classes (part ∷ parts) classes = push_classes parts (push_class classes (clean part))

abbrev pub is_yes : Text → Bool
is_yes v = eq_ignore_ascii_case v (text "true") || v == text "1"

abbrev pub is_no : Text → Bool
is_no v = eq_ignore_ascii_case v (text "false") || v == text "0"

unfoldable pub set_dry_run : Text → Text → RequestHeaders → RequestHeaders
set_dry_run v name out =
    if is_yes v
    then record out { hints = record out.hints { dry_run = true } }
    else if not (is_no v)
    then record out { ignored = out.ignored ++ expected_bool name ∷ [] }
    else out

unfoldable pub honour : Key → Text → Text → RequestHeaders → RequestHeaders
honour (slot k) v name out = set_slot k v name out
honour data_class v name out = record out {
  hints = record out.hints { data_classes = push_classes (split 44 v) out.hints.data_classes };
}
honour dry_run v name out = set_dry_run v name out
honour other v name out = record out { ignored = out.ignored ++ not_an_input name ∷ [] }

-- `let Some(v) = clean(…) else …`, and what follows it
unfoldable pub take_value : Text → Option Text → Text → RequestHeaders → RequestHeaders
take_value name none key out = record out { ignored = out.ignored ++ malformed_value name ∷ [] }
take_value name (some v) key out = honour (key_of (to_ascii_lowercase key)) v name out

-- `let Some(key) = name.get(…) else …`, and what follows it
unfoldable pub take_named : Text → Text → Option Text → RequestHeaders → RequestHeaders
take_named name value none out = record out { ignored = out.ignored ++ malformed_name name ∷ [] }
take_named name value (some key) out = take_value name (clean value) key out

-- one round of the loop
unfoldable pub take_header : Text × Text → RequestHeaders → RequestHeaders
take_header (name, value) out =
    if not (is_routed_header name)
    then out
    else take_named name value (get_from (byte_len header_prefix) name) out

unfoldable pub take_headers : List (Text × Text) → RequestHeaders → RequestHeaders
take_headers [] out = out
take_headers (h ∷ hs) out = take_headers hs (take_header h out)

-- `classes.dedup()`: of equal neighbours the first is kept
dedup_after : Text → List Text → List Text
dedup_after x [] = []
dedup_after x (y ∷ ys) = let rest = dedup_after y ys in if x == y then rest else y ∷ rest

unfoldable pub dedup : List Text → List Text
unfolding dedup_after
dedup [] = []
dedup (x ∷ xs) = x ∷ dedup_after x xs

unfoldable pub extract_headers : List (Text × Text) → RequestHeaders
extract_headers headers =
    let out = take_headers headers no_headers in
    record out {
      hints = record out.hints { data_classes = dedup (sort_by cmp_text out.hints.data_classes) };
    }
