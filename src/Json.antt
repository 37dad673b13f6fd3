-- ===== src/Json.antt =====
-- `serde_json::Value`, as the program reads it, and the functions of serde_json that it calls.
use route_d.Prelude.{
  ℕ, Bool, true, false, Option, none, some, List, [], ◌∷◌, Text, text_ord, ◌==◌, if◌then◌else◌,
  Result,
}

-- A number, by its value if that is a `u64`, and by its printed form.
pub record Number : Type 0 where
  pub u64 : Option ℕ
  pub printed : Text

mutual
  pub data Value : Type 0 where
    null : Value
    bool : Bool → Value
    number : Number → Value
    string : Text → Value
    array : Items → Value
    object : Fields → Value

  pub data Items : Type 0 where
    nil : Items
    cons : Value → Items → Items

  pub data Fields : Type 0 where
    end : Fields
    field : Text → Value → Fields → Fields

-- The elements of an array.
unfoldable pub elements : Items → List Value
elements nil = []
elements (cons v vs) = v ∷ elements vs

-- `Map::get`
unfoldable pub get_field : Fields → Text → Option Value
get_field end k = none
get_field (field j v fs) k = if j == k then some v else get_field fs k

-- `Value::get` with a key, `as_object`, `as_array`, `as_str`, `as_bool`, `as_u64`, `is_object`
unfoldable pub get_key : Value → Text → Option Value
get_key (object fs) k = get_field fs k
get_key _ k = none

abbrev pub as_object : Value → Option Fields
as_object (object fs) = some fs
as_object _ = none

abbrev pub as_array : Value → Option (List Value)
as_array (array vs) = some (elements vs)
as_array _ = none

abbrev pub as_str : Value → Option Text
as_str (string s) = some s
as_str _ = none

abbrev pub as_bool : Value → Option Bool
as_bool (bool b) = some b
as_bool _ = none

abbrev pub as_u64 : Value → Option ℕ
as_u64 (number n) = n.u64
as_u64 _ = none

abbrev pub is_object : Value → Bool
is_object (object fs) = true
is_object _ = false

-- The parser, which fails with a message, and the printer.
pub record Serde : Type 0 where
  pub from_slice : List ℕ → Result Value Text
  pub to_string : Value → Text
