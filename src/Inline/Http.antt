-- ===== src/Inline/Http.antt =====
-- Headers of the crate http, as the ingress uses them, and its requests and responses. Header names
-- are in lower case, as a `HeaderName` is; a header value is its bytes.
use route_d.Prelude.{
  ◌≡◌, Option, List, [], ◌∷◌, ◌++◌, map, Text, text_ord, ◌==◌, if◌then◌else◌, filter, first,
}

-- `HeaderMap`, and the parsers of names and values: `HeaderName::from_bytes`,
-- `HeaderValue::from_str` and `HeaderValue::to_str`.
pub record Http : Type 1 where
  pub Headers : Type 0
  pub none_yet : Headers
  pub entries : Headers → List (Text × Text)
  pub insert : Headers → Text → Text → Headers
  pub append : Headers → Text → Text → Headers
  pub remove : Headers → Text → Headers
  pub header_name : Text → Option Text
  pub header_value : Text → Option Text
  pub to_str : Text → Option Text

abbrev pub named : List (Text × Text) → Text → List Text
named es k = map (λ e. e.1) (filter (λ e. e.0 == k) es)

module _ (x : Http) where
  -- `get_all` and `get`
  abbrev pub get_all : x.Headers → Text → List Text
  get_all h k = named (x.entries h) k

  unfoldable pub get_header : x.Headers → Text → Option Text
  get_header h k = first (get_all h k)

-- What its documentation says of the values of a name after each change.
pub record IsLawful (x : Http) : Type 0 where
  pub get_all-none : (k : Text) → get_all x x.none_yet k ≡ []
  pub get_all-insert :
      (h : x.Headers) (k v j : Text)
      → get_all x (x.insert h k v) j ≡ (if k == j then v ∷ [] else get_all x h j)
  pub get_all-append :
      (h : x.Headers) (k v j : Text)
      → get_all x (x.append h k v) j ≡ (if k == j then get_all x h j ++ v ∷ [] else get_all x h j)
  pub get_all-remove :
      (h : x.Headers) (k j : Text)
      → get_all x (x.remove h k) j ≡ (if k == j then [] else get_all x h j)
