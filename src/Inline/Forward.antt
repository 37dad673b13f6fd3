-- ===== src/Inline/Forward.antt =====
-- crates/ingress-inline/src/forward.rs: which headers go to the upstream and come back from it. The
-- connection itself is a parameter of the handlers.
pub mod Hygiene
use route_d.Prelude.{
  ℕ, Bool, true, false, not, Option, none, some, List, [], ◌∷◌, ◌++◌, map, Text, text, text_ord,
  ◌==◌, ◌||◌, if◌then◌else◌, is_empty, filter, filter_map, contains, split, trim, and_then,
}
use route_d.Security.Headers.{is_routed_header}
use route_d.Inline.Http.{Http, get_all}

abbrev pub hop_by_hop : List Text
hop_by_hop =
    text "connection"
    ∷ text "proxy-authenticate"
    ∷ text "proxy-authorization"
    ∷ text "te"
    ∷ text "trailer"
    ∷ text "transfer-encoding"
    ∷ text "upgrade"
    ∷ text "keep-alive"
    ∷ []

abbrev pub host : Text
host = text "host"

abbrev pub content_length : Text
content_length = text "content-length"

-- the `flat_map` over the values
unfoldable pub listed_names : List Text → List Text
listed_names [] = []
listed_names (v ∷ vs) = map trim (split 44 v) ++ listed_names vs

module _ (x : Http) where
  unfoldable pub connection_listed : x.Headers → List Text
  connection_listed headers = filter_map x.header_name (
      filter (λ s. not (is_empty s))
        (listed_names (filter_map x.to_str (get_all x headers (text "connection")))))

  -- `HeaderInjector::set`
  unfoldable pub set_traced : Option Text → Option Text → x.Headers → x.Headers
  set_traced (some k) (some v) h = x.insert h k v
  set_traced none v h = h
  set_traced (some k) none h = h

  -- the trace context, as the pairs that the propagator sets
  unfoldable pub inject : List (Text × Text) → x.Headers → x.Headers
  inject [] h = h
  inject ((k, v) ∷ ps) h = inject ps (set_traced (x.header_name k) (x.header_value v) h)

  -- the test of the loop over the headers of the request
  unfoldable pub stays_behind : List Text → Text → Bool
  stays_behind listed name =
      contains hop_by_hop name
      || contains listed name
      || name == host
      || name == content_length
      || is_routed_header name

  unfoldable pub copy : List Text → List (Text × Text) → x.Headers → x.Headers
  copy listed [] out = out
  copy listed ((name, value) ∷ es) out =
      copy listed es (if stays_behind listed name then out else x.append out name value)

  -- `if let Some(len) = content_length`
  unfoldable pub set_length : Option Text → x.Headers → x.Headers
  set_length none h = h
  set_length (some len) h = x.insert h content_length len

  -- the headers of the request to the upstream
  unfoldable pub outbound : x.Headers → Option Text → List (Text × Text) → x.Headers
  outbound headers len trace =
      inject trace
        (set_length len (copy (connection_listed headers) (x.entries headers) x.none_yet))

  unfoldable pub remove_all : List Text → x.Headers → x.Headers
  remove_all [] h = h
  remove_all (k ∷ ks) h = remove_all ks (x.remove h k)

  -- `parts.headers.keys()`; a name that occurs twice is removed twice
  unfoldable pub keys : x.Headers → List Text
  keys h = map (λ e. e.0) (x.entries h)

  -- the headers of the response from the upstream
  unfoldable pub inbound : x.Headers → x.Headers
  inbound headers =
      let h = remove_all (hop_by_hop ++ connection_listed headers) headers in
      let h' = x.remove h host in remove_all (filter is_routed_header (keys h')) h'
