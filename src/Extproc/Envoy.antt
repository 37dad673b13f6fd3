-- ===== src/Extproc/Envoy.antt =====
-- crates/ingress-extproc/src/lib.rs: the messages of Envoy's external processor, with the fields
-- that the code reads or sets, and the helpers that convert headers. Fields that are always left at
-- their defaults are left out.
use route_d.Prelude.{
  ℕ, Bool, false, not, Option, none, some, List, [], ◌∷◌, map, Text, text, text_ord, ◌==◌,
  if◌then◌else◌, is_empty, filter, contains, starts_with,
}
use route_d.Security.Headers.{is_routed_header}
use route_d.Inline.Http.{Http}
use route_d.Inline.Forward.{content_length}
use route_d.Inline.Replies.{Body, Response}

-- `HeaderValue`
pub record EnvoyHeaderValue : Type 0 where
  pub key : Text
  pub value : Text
  pub raw_value : List ℕ

-- `HeaderValueOption`; its `append_action` is to overwrite if the header exists and add otherwise
pub record Overwrite : Type 0 where
  pub key : Text
  pub raw_value : List ℕ

pub record HeaderMutation : Type 0 where
  pub set_headers : List Overwrite
  pub remove_headers : List Text

-- `CommonResponse`; its body mutation is the new body
pub record CommonResponse : Type 0 where
  pub header_mutation : Option HeaderMutation
  pub body_mutation : Option (List ℕ)

pub record HttpHeaders : Type 0 where
  pub headers : Option (List EnvoyHeaderValue)
  pub end_of_stream : Bool

pub record HttpBody : Type 0 where
  pub body : List ℕ
  pub end_of_stream : Bool

-- `processing_request::Request`
pub data Req : Type 0 where
  request_headers : HttpHeaders → Req
  request_body : HttpBody → Req
  response_headers response_body request_trailers response_trailers : Req

-- `ImmediateResponse`
pub record Immediate (F : Type 0) : Type 0 where
  pub status : ℕ
  pub headers : List Overwrite
  pub body : Body F
  pub details : Text

-- `processing_response::Response`
pub data Resp (F : Type 0) : Type 0 where
  headers_response body_response response_headers_response : Option CommonResponse → Resp F
  response_body_response trailers_response response_trailers_response : Resp F
  immediate_response : Immediate F → Resp F

-- `ProcessingResponse`: what it says, and whether it asks Envoy to skip the other phases.
pub record ProcessingResponse (F : Type 0) : Type 0 where
  pub response : Resp F
  pub skip_rest : Bool

-- Bytes and texts: `from_utf8_lossy`, `as_bytes` and `HeaderValue::from_bytes`.
pub record Bytes : Type 0 where
  pub lossy : List ℕ → Text
  pub utf8 : Text → List ℕ
  pub from_bytes : List ℕ → Option Text

unfoldable pub plain : {F : Type 0} → Resp F → ProcessingResponse F
plain r = record { response = r; skip_rest = false }

-- `HeaderMap::keys`: every name once
unfoldable pub distinct : List Text → List Text → List Text
distinct seen [] = []
distinct seen (k ∷ ks) =
    let rest = distinct (k ∷ seen) ks in
    let same = distinct seen ks in if contains seen k then same else k ∷ rest

-- what has been read of the headers of a request
pub record Split (x : Http) : Type 0 where
  pub method : Text
  pub path : Text
  pub headers : x.Headers

module _ (x : Http) where
  unfoldable pub routed_header_names : x.Headers → List Text
  routed_header_names h = filter is_routed_header (distinct [] (map (λ e. e.0) (x.entries h)))

  unfoldable pub to_set_headers : x.Headers → List Overwrite
  to_set_headers h = map (λ e. record { key = e.0; raw_value = e.1 }) (x.entries h)

  unfoldable pub immediate : {F : Type 0} → Response x F → ProcessingResponse F
  immediate resp = plain (
      immediate_response (record {
        status = resp.status;
        headers = filter (λ h. not (h.key == content_length)) (to_set_headers resp.headers);
        body = resp.body;
        details = text "routed_decision";
      }))

module _ (x : Http) (b : Bytes) where
  unfoldable pub value_bytes : EnvoyHeaderValue → List ℕ
  value_bytes hv = if is_empty hv.raw_value then b.utf8 hv.value else hv.raw_value

  -- `if let (Ok(name), Ok(value)) = … { out.append(name, value) }`
  unfoldable pub append_parsed : Option Text → Option Text → x.Headers → x.Headers
  append_parsed (some name) (some value) out = x.append out name value
  append_parsed none value out = out
  append_parsed (some name) none out = out

  -- `match hv.key.as_str()`
  unfoldable pub split_header : EnvoyHeaderValue → Split x → Split x
  split_header hv s =
      if hv.key == text ":method"
      then record s { method = b.lossy (value_bytes hv) }
      else if hv.key == text ":path"
      then record s { path = b.lossy (value_bytes hv) }
      else if starts_with hv.key (text ":")
      then s
      else record s {
        headers = append_parsed (x.header_name hv.key) (b.from_bytes (value_bytes hv)) s.headers;
      }

  unfoldable pub split_headers : List EnvoyHeaderValue → Split x → Split x
  split_headers [] s = s
  split_headers (hv ∷ hvs) s = split_headers hvs (split_header hv s)

  unfoldable pub or_none : Option (List EnvoyHeaderValue) → List EnvoyHeaderValue
  or_none none = []
  or_none (some hvs) = hvs

  unfoldable pub split_envoy_headers : Option (List EnvoyHeaderValue) → Split x
  split_envoy_headers h =
      split_headers (or_none h) (record { method = []; path = []; headers = x.none_yet })
